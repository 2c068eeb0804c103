-- ===== src/Codec/Laws.antt =====
-- Reading back what was written, and writing back what was read.
use native.Mathlib.Nat.{pow-suc}
use mathlib.Core.Path.{subst}
use cashew.Prelude.{
  ℕ, zero, suc, ◌+◌, ◌*◌, ◌/◌, ◌%◌, ◌^◌, ◌<◌, ◌≡◌, refl, ap, Bytes, Option, some, [], ◌∷◌, ◌++◌,
  length, append-nil, le→ltb, length-append, take-append, drop-append, take-append-drop,
  length-take_le, arith, >>=-eq-some, ◌>>=◌,
}
use cashew.Codec.{le_bytes, le_value, read_blob, read_scalar}

-- Every entry is a byte.
abbrev pub IsBytes : Bytes → Type 0
IsBytes [] = Unit {0}
IsBytes (b ∷ bs) = (b < 256) × IsBytes bs

pub length-le_bytes : (w n : ℕ) → length (le_bytes w n) ≡ w
unfolding le_bytes
length-le_bytes zero n = refl
length-le_bytes (suc w) n = ap suc (length-le_bytes w (n / 256))

div-lt-pow : (w n : ℕ) → n < 256 ^ suc w → n / 256 < 256 ^ w
div-lt-pow w n h = let e = pow-suc 256 w in omega arith

pub le_value-le_bytes : (w n : ℕ) → n < 256 ^ w → le_value (le_bytes w n) ≡ n
unfolding le_bytes le_value
le_value-le_bytes zero n h = omega arith
le_value-le_bytes (suc w) n h = omega (arith, le_value-le_bytes w (n / 256) (div-lt-pow w n h))

le_bytes-le_value : (bs : Bytes) → IsBytes bs → le_bytes (length bs) (le_value bs) ≡ bs
unfolding le_bytes le_value
le_bytes-le_value [] h = refl
le_bytes-le_value (b ∷ bs) (hb, hbs) =
    let low : (b + 256 * le_value bs) % 256 ≡ b = omega arith in
    let high : (b + 256 * le_value bs) / 256 ≡ le_value bs = omega arith in
    rw (low, high, le_bytes-le_value bs hbs)

le_value-lt-pow : (bs : Bytes) → IsBytes bs → le_value bs < 256 ^ length bs
unfolding le_value
le_value-lt-pow [] h = omega arith
le_value-lt-pow (b ∷ bs) (hb, hbs) =
    let e = pow-suc 256 (length bs) in omega (arith, le_value-lt-pow bs hbs)

pub read_blob-append :
    (n : ℕ) (a rest : Bytes) → length a ≡ n → read_blob n (a ++ rest) ≡ some (a, rest)
unfolding read_blob
read_blob-append n a rest h = rw (
  ← h,
  le→ltb (length (a ++ rest)) (length a) (omega (arith, length-append a rest)),
  take-append a rest,
  drop-append a rest,
)

pub read_scalar-append :
    (w n : ℕ) (rest : Bytes) → n < 256 ^ w → read_scalar w (le_bytes w n ++ rest) ≡ some (n, rest)
unfolding read_scalar
read_scalar-append w n rest h =
    rw (read_blob-append w (le_bytes w n) rest (length-le_bytes w n), le_value-le_bytes w n h)

-- The same at the end of the bytes.
pub read_blob_end : (n : ℕ) (a : Bytes) → length a ≡ n → read_blob n a ≡ some (a, [])
read_blob_end n a h =
    subst (λ x. read_blob n x ≡ some (a, [])) (append-nil a) (read_blob-append n a [] h)

pub read_scalar_end : (w n : ℕ) → n < 256 ^ w → read_scalar w (le_bytes w n) ≡ some (n, [])
read_scalar_end w n h =
    subst (λ x. read_scalar w x ≡ some (n, [])) (append-nil (le_bytes w n))
      (read_scalar-append w n [] h)

IsBytes-append : (a b : Bytes) → IsBytes (a ++ b) → IsBytes a × IsBytes b
IsBytes-append [] b h = (tt, h)
IsBytes-append (x ∷ a) b (hx, h) = let (ha, hb) = IsBytes-append a b h in ((hx, ha), hb)

read_blob_inv :
    (n : ℕ) (ahead : Bytes) {a rest : Bytes}
    → read_blob n ahead ≡ some (a, rest)
    → (ahead ≡ a ++ rest) × (length a ≡ n)
unfolding read_blob
read_blob_inv n ahead h = ground (arith, take-append-drop n ahead, length-take_le n ahead)

scalar_parts :
    (b r ahead : Bytes) (w n : ℕ) (rest : Bytes)
    → ahead ≡ b ++ r
    → length b ≡ w
    → IsBytes b
    → IsBytes r
    → ◌≡◌ {A = Option (ℕ × Bytes)} (some (le_value b, r)) (some (n, rest))
    → (ahead ≡ le_bytes w n ++ rest) × IsBytes rest
scalar_parts b r ahead w n rest split size hb hr e =
    let tail : r ≡ rest = cc in
    let value : le_value b ≡ n = cc in
    (rw (split, ← size, ← value, le_bytes-le_value b hb, tail), subst IsBytes tail hr)

read_scalar_inv :
    (w : ℕ) (ahead : Bytes) {n : ℕ} {rest : Bytes}
    → IsBytes ahead
    → read_scalar w ahead ≡ some (n, rest)
    → (ahead ≡ le_bytes w n ++ rest) × IsBytes rest
unfolding read_scalar
read_scalar_inv w ahead {n} {rest} hb h =
    let ((b, r), got, e) = >>=-eq-some (read_blob w ahead) _ h in
    let (split, size) = read_blob_inv w ahead got in
    let (hb', hr) = IsBytes-append b r (subst IsBytes split hb) in
    scalar_parts b r ahead w n rest split size hb' hr e

-- Inversion of a decoder's step: what was ahead is what was read, then what is still ahead.
pub scalar_step :
    {A : Type 0} (w : ℕ) (ahead : Bytes) (f : ℕ × Bytes → Option A) {a : A}
    → IsBytes ahead
    → (read_scalar w ahead >>= f) ≡ some a
    → (n : ℕ) × (rest : Bytes) × (ahead ≡ le_bytes w n ++ rest)
      × IsBytes rest
      × (f (n, rest) ≡ some a)
scalar_step w ahead f hb h =
    let ((n, rest), got, e) = >>=-eq-some (read_scalar w ahead) f h in
    let (split, hr) = read_scalar_inv w ahead hb got in (n, rest, split, hr, e)

pub blob_step :
    {A : Type 0} (w : ℕ) (ahead : Bytes) (f : Bytes × Bytes → Option A) {a : A}
    → IsBytes ahead
    → (read_blob w ahead >>= f) ≡ some a
    → (b : Bytes) × (rest : Bytes) × (ahead ≡ b ++ rest)
      × (length b ≡ w)
      × IsBytes rest
      × (f (b, rest) ≡ some a)
blob_step w ahead f hb h =
    let ((b, rest), got, e) = >>=-eq-some (read_blob w ahead) f h in
    let (split, size) = read_blob_inv w ahead got in
    let (_, hr) = IsBytes-append b rest (subst IsBytes split hb) in (b, rest, split, size, hr, e)
