-- ===== src/Keys/Manager/Signing.antt =====
-- What create_transfer and create_vouch sign is what verify_signature checks.
use cashew.Prelude.{
  ℕ, ◌-◌, ◌≡◌, sym, ap, ◌∙◌, true, Bytes, bytes_eq_iff, bytes_ordered, some, ◌++◌, append_assoc,
  length, length-append, take, take-append, arith, Option-cases, inl, inr,
}
use mathlib.Core.Path.{subst}
use cashew.Prelude.Map.{find}
use cashew.Crypto.{Crypto}
use cashew.Keys.KeyType.{KeyType}
use cashew.Keys.Key.{Key}
use cashew.Keys.Transfer
use cashew.Keys.Transfer.{KeyTransfer}
use cashew.Keys.Vouch
use cashew.Keys.Vouch.{KeyVouch}
use cashew.Keys.Manager.{
  KeyManager, sign_transfer, transfer_record, create_transfer, sign_vouch, vouch_record,
  create_vouch, can_vouch,
}

-- What libsodium documents of a key pair: its signatures verify.
abbrev IsKeyPair : Crypto → Bytes → Bytes → Type 0
IsKeyPair crypto secret public_key =
    (message : Bytes) → crypto.verify message (crypto.sign message secret) public_key ≡ true

-- Cutting the signature off the end of a record.
take_front : (a b c : Bytes) → c ≡ a ++ b → take (length c - length b) c ≡ a
take_front a b c e =
    let size : length (a ++ b) - length b ≡ length a = omega (arith, length-append a b) in
    rw (e, size) (take-append a b)

to_bytes-signed_transfer :
    (t : KeyTransfer) → Transfer.to_bytes t ≡ Transfer.signed_message t ++ t.signature
unfolding Transfer.to_bytes Transfer.signed_message
to_bytes-signed_transfer t = simp append_assoc

to_bytes-signed_vouch : (v : KeyVouch) → Vouch.to_bytes v ≡ Vouch.signed_message v ++ v.signature
unfolding Vouch.to_bytes Vouch.signed_message
to_bytes-signed_vouch v = simp append_assoc

create_transfer_inv :
    (crypto : Crypto) (id from to reason secret : Bytes) (now : ℕ) (blank : Bytes) (m : KeyManager)
    (t : KeyTransfer)
    → create_transfer crypto id from to reason secret now blank m ≡ some t
    → (k : Key) × (find id m.keys ≡ some k)
      × (k.owner ≡ from)
      × (sign_transfer crypto secret (transfer_record id from to k.type now reason blank) ≡ t)
unfolding create_transfer
create_transfer_inv crypto id from to reason secret now blank m t h =
    elim (Option-cases (find id m.keys)) [
      | inl missing ↦ absurd (ground (arith, missing, h))
      | inr (k, found) ↦
          (k, found, ground (arith, found, bytes_eq_iff k.owner from), ground (arith, found))
    ]

-- The fields that signing leaves alone.
signed_fields :
    (crypto : Crypto) (secret id from to : Bytes) (type : KeyType) (now : ℕ) (reason blank : Bytes)
    (t : KeyTransfer)
    → sign_transfer crypto secret (transfer_record id from to type now reason blank) ≡ t
    → (id ≡ t.key_id) × (from ≡ t.from_node) × (to ≡ t.to_node) × (type ≡ t.key_type)
unfolding sign_transfer transfer_record
signed_fields crypto secret id from to type now reason blank t h =
    (ap (λ x. x.key_id) h, ap (λ x. x.from_node) h, ap (λ x. x.to_node) h, ap (λ x. x.key_type) h)

module _ (crypto : Crypto) (secret public_key : Bytes)
    (pair : IsKeyPair crypto secret public_key) where
  sign_transfer-verify :
      (t : KeyTransfer)
      → Transfer.verify_signature crypto (sign_transfer crypto secret t) public_key ≡ true
  unfolding sign_transfer Transfer.verify_signature
  sign_transfer-verify t =
      rw
        (take_front (Transfer.signed_message t) t.signature (Transfer.to_bytes t)
          (to_bytes-signed_transfer t))
        (pair (Transfer.signed_message t))

  sign_vouch-verify :
      (v : KeyVouch) → Vouch.verify_signature crypto (sign_vouch crypto secret v) public_key ≡ true
  unfolding sign_vouch Vouch.verify_signature
  sign_vouch-verify v =
      rw
        (take_front (Vouch.signed_message v) v.signature (Vouch.to_bytes v)
          (to_bytes-signed_vouch v))
        (pair (Vouch.signed_message v))

  -- With a key pair whose signatures verify, a transfer record that is created names a stored key, its
  -- owner as the sender and its type, and it verifies under the public key, whatever its signature
  -- field held before it was signed.
  pub create_transfer_verifies :
      (id from to reason : Bytes) (now : ℕ) (blank : Bytes) (m : KeyManager) (t : KeyTransfer)
      → create_transfer crypto id from to reason secret now blank m ≡ some t
      → (Transfer.verify_signature crypto t public_key ≡ true)
        × (k : Key) × (find t.key_id m.keys ≡ some k)
        × (k.owner ≡ t.from_node)
        × (k.type ≡ t.key_type)
  create_transfer_verifies id from to reason now blank m t h =
      let (k, found, own, e) =
        create_transfer_inv crypto id from to reason secret now blank m t h in
      let (e₁, e₂, e₃, e₄) = signed_fields crypto secret id from to k.type now reason blank t e in
      (
        subst (λ x. Transfer.verify_signature crypto x public_key ≡ true) e
            (sign_transfer-verify (transfer_record id from to k.type now reason blank)),
        k,
        subst (λ x. find x m.keys ≡ some k) e₁ found,
        own ∙ e₂,
        e₄,
      )

  -- With a key pair whose signatures verify, a vouch record is created only where can_vouch allows it;
  -- it names the two nodes that were given, and it verifies under the public key, whatever its
  -- signature field held before it was signed.
  pub create_vouch_verifies :
      (voucher vouchee : Bytes) (type : KeyType) (count : ℕ) (statement : Bytes) (now : ℕ)
      (blank : Bytes) (m : KeyManager) (v : KeyVouch)
      → create_vouch crypto voucher vouchee type count statement secret now blank m ≡ some v
      → (Vouch.verify_signature crypto v public_key ≡ true)
        × (can_vouch voucher vouchee type m ≡ true)
        × (v.voucher ≡ voucher)
        × (v.vouchee ≡ vouchee)
  unfolding create_vouch sign_vouch vouch_record
  create_vouch_verifies voucher vouchee type count statement now blank m v h =
      let allowed : can_vouch voucher vouchee type m ≡ true = ground arith in
      let e : sign_vouch crypto secret (vouch_record voucher vouchee type count now statement blank)
          ≡ v =
        ground arith in
      (
        subst (λ x. Vouch.verify_signature crypto x public_key ≡ true) e
            (sign_vouch-verify (vouch_record voucher vouchee type count now statement blank)),
        allowed,
        sym (ap (λ x. x.voucher) e),
        sym (ap (λ x. x.vouchee) e),
      )
