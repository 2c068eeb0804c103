-- ===== src/Codec/Parse.antt =====
-- Readers that may leave their buffer. The gossip and routing codecs (src/network/gossip.cpp and
-- router.cpp) check sizes by hand and read without a check in between: `overrun` is a read behind the
-- end of the buffer, which C++ leaves undefined, and `refused` is std::nullopt.
use mathlib.Core.Path.{subst}
use cashew.Prelude.{
  ℕ, ◌-◌, ◌≤◌, ◌<◌, ◌^◌, ◌≡◌, ◌≢◌, refl, Bytes, [], ◌++◌, length, take, drop, ltb, le→ltb,
  length-append, take-append, drop-append, length-drop, append-nil, if◌then◌else◌, arith,
  Bool-cases, inl, inr,
}
use cashew.Codec.{le_value, le_bytes}
use cashew.Codec.Laws.{length-le_bytes, le_value-le_bytes}

pub data Parsed {ℓ} (A : Type ℓ) : Type ℓ where
  accepted : A → Parsed A
  refused : Parsed A
  overrun : Parsed A

infixl 5 ◌>>=◌
abbrev pub ◌>>=◌ {ℓ κ} : {A : Type ℓ} {B : Type κ} → Parsed A → (A → Parsed B) → Parsed B
accepted a >>= f = f a
refused >>= f = refused
overrun >>= f = overrun

-- a read with no check
unfoldable pub raw_blob : ℕ → Bytes → Parsed (Bytes × Bytes)
raw_blob n ahead = if ltb (length ahead) n then overrun else accepted (take n ahead, drop n ahead)

-- `if (offset + n > data.size()) return std::nullopt;`, and then the read
unfoldable pub checked_blob : ℕ → Bytes → Parsed (Bytes × Bytes)
checked_blob n ahead =
    if ltb (length ahead) n then refused else accepted (take n ahead, drop n ahead)

unfoldable pub raw_scalar : ℕ → Bytes → Parsed (ℕ × Bytes)
raw_scalar n ahead = do (b, rest) ← raw_blob n ahead; accepted (le_value b, rest)

unfoldable pub checked_scalar : ℕ → Bytes → Parsed (ℕ × Bytes)
checked_scalar n ahead = do (b, rest) ← checked_blob n ahead; accepted (le_value b, rest)

-- What was written is read back.
pub raw_blob-append :
    (n : ℕ) (a rest : Bytes) → length a ≡ n → raw_blob n (a ++ rest) ≡ accepted (a, rest)
unfolding raw_blob
raw_blob-append n a rest h = rw (
  ← h,
  le→ltb (length (a ++ rest)) (length a) (omega (arith, length-append a rest)),
  take-append a rest,
  drop-append a rest,
)

pub checked_blob-append :
    (n : ℕ) (a rest : Bytes) → length a ≡ n → checked_blob n (a ++ rest) ≡ accepted (a, rest)
unfolding checked_blob
checked_blob-append n a rest h = rw (
  ← h,
  le→ltb (length (a ++ rest)) (length a) (omega (arith, length-append a rest)),
  take-append a rest,
  drop-append a rest,
)

pub raw_scalar-append :
    (w n : ℕ) (rest : Bytes)
    → n < 256 ^ w
    → raw_scalar w (le_bytes w n ++ rest) ≡ accepted (n, rest)
unfolding raw_scalar
raw_scalar-append w n rest h =
    rw (raw_blob-append w (le_bytes w n) rest (length-le_bytes w n), le_value-le_bytes w n h)

pub checked_scalar-append :
    (w n : ℕ) (rest : Bytes)
    → n < 256 ^ w
    → checked_scalar w (le_bytes w n ++ rest) ≡ accepted (n, rest)
unfolding checked_scalar
checked_scalar-append w n rest h =
    rw (checked_blob-append w (le_bytes w n) rest (length-le_bytes w n), le_value-le_bytes w n h)

-- A read inside the buffer takes what it asks for.
pub raw_blob_inside :
    (n : ℕ) (ahead : Bytes)
    → n ≤ length ahead
    → raw_blob n ahead ≡ accepted (take n ahead, drop n ahead)
unfolding raw_blob
raw_blob_inside n ahead h = rw (le→ltb (length ahead) n h)

pub raw_blob_outside : (n : ℕ) (ahead : Bytes) → length ahead < n → raw_blob n ahead ≡ overrun
unfolding raw_blob
raw_blob_outside n ahead h = ground arith

pub checked_blob_inside :
    (n : ℕ) (ahead : Bytes)
    → n ≤ length ahead
    → checked_blob n ahead ≡ accepted (take n ahead, drop n ahead)
unfolding checked_blob
checked_blob_inside n ahead h = rw (le→ltb (length ahead) n h)

pub raw_scalar_inside :
    (n : ℕ) (ahead : Bytes)
    → n ≤ length ahead
    → raw_scalar n ahead ≡ accepted (le_value (take n ahead), drop n ahead)
unfolding raw_scalar
raw_scalar_inside n ahead h = rw (raw_blob_inside n ahead h)

pub >>=_safe {ℓ κ} :
    {A : Type ℓ} {B : Type κ} (m : Parsed A) (f : A → Parsed B)
    → m ≢ overrun
    → ((a : A) → f a ≢ overrun)
    → (m >>= f) ≢ overrun
>>=_safe (accepted a) f first next = next a
>>=_safe refused f first next = λ e. cc
>>=_safe overrun f first next = λ e. first refl

pub raw_scalar_outside : (n : ℕ) (ahead : Bytes) → length ahead < n → raw_scalar n ahead ≡ overrun
unfolding raw_scalar
raw_scalar_outside n ahead h = rw (raw_blob_outside n ahead h)

pub raw_scalar_end : (w n : ℕ) → n < 256 ^ w → raw_scalar w (le_bytes w n) ≡ accepted (n, [])
raw_scalar_end w n h =
    subst (λ x. raw_scalar w x ≡ accepted (n, [])) (append-nil (le_bytes w n))
      (raw_scalar-append w n [] h)

pub raw_blob_end : (n : ℕ) (a : Bytes) → length a ≡ n → raw_blob n a ≡ accepted (a, [])
raw_blob_end n a h =
    subst (λ x. raw_blob n x ≡ accepted (a, [])) (append-nil a) (raw_blob-append n a [] h)

module _ {A : Type 0} where
  -- Reads inside the buffer do not overrun, if what follows them does not.
  pub raw_blob_safe :
      (n : ℕ) (ahead : Bytes) (f : Bytes × Bytes → Parsed A)
      → n ≤ length ahead
      → ((b rest : Bytes) → length rest ≡ length ahead - n → f (b, rest) ≢ overrun)
      → (raw_blob n ahead >>= f) ≢ overrun
  raw_blob_safe n ahead f h next =
      rw (raw_blob_inside n ahead h) (next (take n ahead) (drop n ahead) (length-drop n ahead))

  pub raw_scalar_safe :
      (n : ℕ) (ahead : Bytes) (f : ℕ × Bytes → Parsed A)
      → n ≤ length ahead
      → ((x : ℕ) (rest : Bytes) → length rest ≡ length ahead - n → f (x, rest) ≢ overrun)
      → (raw_scalar n ahead >>= f) ≢ overrun
  raw_scalar_safe n ahead f h next =
      rw (raw_scalar_inside n ahead h)
        (next (le_value (take n ahead)) (drop n ahead) (length-drop n ahead))

  -- A checked read refuses, or is inside the buffer.
  pub checked_blob_safe :
      (n : ℕ) (ahead : Bytes) (f : Bytes × Bytes → Parsed A)
      → ((b rest : Bytes) → length rest ≡ length ahead - n → f (b, rest) ≢ overrun)
      → (checked_blob n ahead >>= f) ≢ overrun
  unfolding checked_blob
  checked_blob_safe n ahead f next = elim (Bool-cases (ltb (length ahead) n)) [
    | inl short ↦ rw short (λ e. cc)
    | inr long ↦ rw long (next (take n ahead) (drop n ahead) (length-drop n ahead))
  ]

  pub checked_scalar_safe :
      (n : ℕ) (ahead : Bytes) (f : ℕ × Bytes → Parsed A)
      → ((x : ℕ) (rest : Bytes) → length rest ≡ length ahead - n → f (x, rest) ≢ overrun)
      → (checked_scalar n ahead >>= f) ≢ overrun
  unfolding checked_scalar checked_blob
  checked_scalar_safe n ahead f next = elim (Bool-cases (ltb (length ahead) n)) [
    | inl short ↦ rw short (λ e. cc)
    | inr long ↦ rw long (next (le_value (take n ahead)) (drop n ahead) (length-drop n ahead))
  ]
