-- ===== src/Keys/Manager/Vouching.antt =====
-- Vouches: the keys that they issue, and the limit on their number.
use cashew.Prelude.{
  ℕ, zero, suc, ◌+◌, ◌%◌, ◌^◌, ◌<◌, ◌≡◌, ◌≢◌, ◌↔◌, refl, true, ◌&&◌, Bytes, bytes_eq, bytes_eq_iff,
  bytes_ordered, none, List, [], ◌∷◌, arith, if◌then◌else◌, length, append-nil, length-append,
  select, select-append, ◌==◌,
}
use cashew.Prelude.Map.{find, find_or, find_or-put}
use cashew.Crypto.{Crypto}
use cashew.Keys.KeyType.{KeyType}
use cashew.Keys.Key.{Key, key_id}
use cashew.Keys.Transfer.{KeyTransfer}
use cashew.Keys.Vouch.{KeyVouch}
use cashew.Keys.Manager.Consistency.{IsConsistent, add_key-IsConsistent}
use cashew.Keys.Manager.Counting.{held, held-add_key}
use cashew.Keys.Manager.Moves.{tick_nonce-IsConsistent}
use cashew.Keys.Manager.{
  KeyManager, init, ids_of, add_key, remove_key, tick_nonce, vouched_key, issue_one, issue,
  note_vouch, execute_vouch, execute_transfer, get_vouches_by, can_vouch, hand_over,
}

-- Each of the ids that the loop makes is new when it is made.
abbrev pub FreshRun : Crypto → KeyVouch → ℕ → ℕ → KeyManager → Type 0
FreshRun crypto v now zero m = Unit {0}
FreshRun crypto v now (suc rounds) m =
    (find (key_id crypto (vouched_key v now m.next_nonce)) m.keys ≡ none)
    × FreshRun crypto v now rounds (issue_one crypto v now m)

module _ (crypto : Crypto) (v : KeyVouch) (now : ℕ) where
  issue_one-IsConsistent :
      (m : KeyManager)
      → IsConsistent crypto m
      → find (key_id crypto (vouched_key v now m.next_nonce)) m.keys ≡ none
      → IsConsistent crypto (issue_one crypto v now m)
  unfolding issue_one
  issue_one-IsConsistent m c absent =
      add_key-IsConsistent crypto (tick_nonce m) (tick_nonce-IsConsistent crypto m c)
        (vouched_key v now m.next_nonce) absent

  held-issue_one :
      (m : KeyManager) (owner : Bytes) (type : KeyType)
      → IsConsistent crypto m
      → find (key_id crypto (vouched_key v now m.next_nonce)) m.keys ≡ none
      → held owner type (issue_one crypto v now m)
        ≡ held owner type m + (if bytes_eq v.vouchee owner && (v.key_type == type) then 1 else 0)
  unfolding issue_one ids_of
  held-issue_one m owner type c absent =
      held-add_key crypto (tick_nonce m) (vouched_key v now m.next_nonce) owner type
        (tick_nonce-IsConsistent crypto m c) absent

  issue_lem :
      (rounds : ℕ) (m : KeyManager) (owner : Bytes) (type : KeyType)
      → IsConsistent crypto m
      → FreshRun crypto v now rounds m
      → IsConsistent crypto (issue crypto v now rounds m)
        × (held owner type (issue crypto v now rounds m)
            ≡ held owner type m
              + (if bytes_eq v.vouchee owner && (v.key_type == type) then rounds else 0))
  unfolding issue
  issue_lem zero m owner type c fresh = (c, ground arith)
  issue_lem (suc rounds) m owner type c (new, fresh) =
      let (c', count) =
        issue_lem rounds (issue_one crypto v now m) owner type (issue_one-IsConsistent m c new)
          fresh in
      (c', ground (arith, count, held-issue_one m owner type c new))

  -- In a manager whose table and index agree, and where each id that the loop makes is new when it is
  -- made, executing a vouch keeps the table and the index in agreement, and issues exactly key_count
  -- keys of the vouched type to the vouchee and none of another type or to another node.
  pub execute_vouch_issues :
      (m : KeyManager) (owner : Bytes) (type : KeyType)
      → IsConsistent crypto m
      → FreshRun crypto v now v.key_count m
      → IsConsistent crypto (execute_vouch crypto v now m)
        × (held owner type (execute_vouch crypto v now m)
            ≡ held owner type m
              + (if bytes_eq v.vouchee owner && (v.key_type == type) then v.key_count else 0))
  unfolding execute_vouch ids_of
  execute_vouch_issues m owner type c fresh =
      let (c', count) = issue_lem v.key_count m owner type c fresh in
      (record { filed = c'.filed; owned = c'.owned }, count)

-- Everything that a node asks of its key manager and that changes its state.
pub data Op : Type 0 where
  adds : Key → Op
  removes : Bytes → Op
  transfers : KeyTransfer → Op
  vouches : KeyVouch → ℕ → Op

apply : Crypto → Op → KeyManager → KeyManager
apply crypto (adds key) m = add_key crypto key m
apply crypto (removes id) m = (remove_key id m).0
apply crypto (transfers t) m = (execute_transfer crypto t m).0
apply crypto (vouches v now) m = execute_vouch crypto v now m

unfoldable pub run : Crypto → List Op → KeyManager → KeyManager
unfolding apply
run crypto [] m = m
run crypto (op ∷ ops) m = run crypto ops (apply crypto op m)

-- The counter of each voucher is the number of its records.
abbrev IsCounted : KeyManager → Type 0
IsCounted m =
    (voucher : Bytes)
    → find_or 0 voucher m.vouch_counts ≡ length (get_vouches_by voucher m) % 2 ^ 32

-- The vouching state that an operation leaves alone.
abbrev SameVouches : KeyManager → KeyManager → Type 0
SameVouches m m' = (m'.vouch_records ≡ m.vouch_records) × (m'.vouch_counts ≡ m.vouch_counts)

SameVouches-remove_key : (id : Bytes) (m : KeyManager) → SameVouches m (remove_key id m).0
unfolding remove_key
SameVouches-remove_key id m = ground arith

SameVouches-execute_transfer :
    (crypto : Crypto) (t : KeyTransfer) (m : KeyManager)
    → SameVouches m (execute_transfer crypto t m).0
unfolding execute_transfer hand_over add_key
SameVouches-execute_transfer crypto t m = ground (arith, SameVouches-remove_key t.key_id m)

SameVouches-issue :
    (crypto : Crypto) (v : KeyVouch) (now rounds : ℕ) (m : KeyManager)
    → SameVouches m (issue crypto v now rounds m)
unfolding issue issue_one add_key
SameVouches-issue crypto v now zero m = (refl, refl)
SameVouches-issue crypto v now (suc rounds) m =
    SameVouches-issue crypto v now rounds (issue_one crypto v now m)

SameVouches-IsCounted : (m m' : KeyManager) → SameVouches m m' → IsCounted m → IsCounted m'
unfolding get_vouches_by
SameVouches-IsCounted m m' (records, counts) c voucher = rw (records, counts) (c voucher)

note_vouch-IsCounted : (v : KeyVouch) (m : KeyManager) → IsCounted m → IsCounted (note_vouch v m)
unfolding note_vouch get_vouches_by
note_vouch-IsCounted v m c voucher =
    let own = λ (x : KeyVouch). bytes_eq x.voucher voucher in
    rw
      (
        find_or-put 0 v.voucher voucher ((find_or 0 v.voucher m.vouch_counts + 1) % 2 ^ 32)
            m.vouch_counts,
        select-append own m.vouch_records (v ∷ []),
      )
      (ground (
        arith,
        length-append (select own m.vouch_records) (v ∷ []),
        append-nil (select own m.vouch_records),
        bytes_eq_iff v.voucher voucher,
        c voucher,
      ))

apply-IsCounted :
    (crypto : Crypto) (op : Op) (m : KeyManager) → IsCounted m → IsCounted (apply crypto op m)
unfolding apply add_key execute_vouch get_vouches_by
apply-IsCounted crypto (adds key) m c = c
apply-IsCounted crypto (removes id) m c =
    SameVouches-IsCounted m (remove_key id m).0 (SameVouches-remove_key id m) c
apply-IsCounted crypto (transfers t) m c =
    SameVouches-IsCounted m (execute_transfer crypto t m).0
      (SameVouches-execute_transfer crypto t m) c
apply-IsCounted crypto (vouches v now) m c =
    note_vouch-IsCounted v (issue crypto v now v.key_count m) (
      SameVouches-IsCounted m (issue crypto v now v.key_count m)
        (SameVouches-issue crypto v now v.key_count m) c)

run-IsCounted :
    (crypto : Crypto) (ops : List Op) (m : KeyManager) → IsCounted m → IsCounted (run crypto ops m)
unfolding run
run-IsCounted crypto [] m c = c
run-IsCounted crypto (op ∷ ops) m c =
    run-IsCounted crypto ops (apply crypto op m) (apply-IsCounted crypto op m c)

init-IsCounted : IsCounted init
unfolding find_or find get_vouches_by
init-IsCounted voucher = refl

can_vouch_counted :
    (m : KeyManager) (voucher vouchee : Bytes) (type : KeyType)
    → IsCounted m
    → (can_vouch voucher vouchee type m ≡ true)
      ↔ ((voucher ≢ vouchee) × (length (get_vouches_by voucher m) % 2 ^ 32 < 3))
unfolding can_vouch find_or
can_vouch_counted m voucher vouchee type c = ground (arith, c voucher, bytes_eq_iff voucher vouchee)

-- After any keys added and removed, transfers and vouches, starting from a new manager, a node may
-- vouch for another one exactly while the number of all records of its vouches (as a uint32_t) is less
-- than three; it may never vouch for itself.
pub can_vouch_lifetime :
    (crypto : Crypto) (ops : List Op) (voucher vouchee : Bytes) (type : KeyType)
    → (can_vouch voucher vouchee type (run crypto ops init) ≡ true)
      ↔ ((voucher ≢ vouchee) × (length (get_vouches_by voucher (run crypto ops init)) % 2 ^ 32 < 3))
can_vouch_lifetime crypto ops voucher vouchee type =
    can_vouch_counted (run crypto ops init) voucher vouchee type
      (run-IsCounted crypto ops init init-IsCounted)
