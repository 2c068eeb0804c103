-- ===== src/Crypto.antt =====
-- What the node takes from BLAKE3 and libsodium (src/crypto/blake3.cpp, src/crypto/ed25519.cpp wrap
-- them) is a parameter; the hexadecimal and decimal text around it is modelled.
pub mod Sample
use Prim.Native.String.{String}
use Prim.Native.Char.{code}
use native.Mathlib.Nat.{pow-suc}
use cashew.Prelude.{
  ℕ, zero, suc, ◌+◌, ◌*◌, ◌-◌, ◌/◌, ◌%◌, ◌^◌, ◌<◌, ◌≡◌, refl, Bool, Bytes, [], ◌∷◌, ◌++◌, ltb, ◌==◌,
  if◌then◌else◌, arith, Bool-cases, inl, inr,
}

pub record Crypto : Type 0 where
  -- Blake3::hash
  pub hash : Bytes → Bytes
  -- Ed25519::sign, message and secret key
  pub sign : Bytes → Bytes → Bytes
  -- Ed25519::verify, message, signature and public key
  pub verify : Bytes → Bytes → Bytes → Bool

-- A text as its bytes.
abbrev pub ascii : String → Bytes
ascii String.[] = []
ascii (String.◌∷◌ c s) = code c ∷ ascii s

hex_digit : ℕ → ℕ
hex_digit d = if ltb d 10 then 48 + d else 87 + d

-- bytes_to_hex, and so Blake3::hash_to_hex
unfoldable pub bytes_to_hex : Bytes → Bytes
unfolding hex_digit
bytes_to_hex [] = []
bytes_to_hex (b ∷ bs) = hex_digit (b / 16) ∷ hex_digit (b % 16) ∷ bytes_to_hex bs

-- `oss << n`: decimal digits, one for each round of fuel
digits : ℕ → ℕ → Bytes
digits zero n = []
digits (suc fuel) n =
    let front = digits fuel (n / 10) in
    let last = (48 + n % 10) ∷ [] in if n / 10 == 0 then last else front ++ last

-- A uint64_t has at most 20 digits.
unfoldable pub decimal : ℕ → Bytes
unfolding digits
decimal n = digits 20 n

-- The number that decimal digits stand for.
value_from : ℕ → Bytes → ℕ
value_from acc [] = acc
value_from acc (c ∷ cs) = value_from (10 * acc + (c - 48)) cs

value_from-append :
    (acc c : ℕ) (xs : Bytes) → value_from acc (xs ++ c ∷ []) ≡ 10 * value_from acc xs + (c - 48)
unfolding value_from
value_from-append acc c [] = refl
value_from-append acc c (x ∷ xs) = value_from-append (10 * acc + (x - 48)) c xs

digits_value : (fuel n : ℕ) → n < 10 ^ suc fuel → value_from 0 (digits (suc fuel) n) ≡ n
unfolding digits value_from
digits_value zero n h = ground arith
digits_value (suc fuel) n h = elim (Bool-cases (n / 10 == 0)) [
  | inl small ↦ rw small (ground (arith, small))
  | inr big ↦
      rw
        (
          big,
          value_from-append 0 (48 + n % 10) (digits (suc fuel) (n / 10)),
          digits_value fuel (n / 10) (shrink fuel n h),
        )
        (omega arith)
]
  where
    shrink : (f m : ℕ) → m < 10 ^ suc (suc f) → m / 10 < 10 ^ suc f
    shrink f m k = let e = pow-suc 10 (suc f) in omega arith

-- Twenty digits are enough for every 64-bit number.
value-decimal : (n : ℕ) → n < 2 ^ 64 → value_from 0 (decimal n) ≡ n
unfolding decimal
value-decimal n h = digits_value 19 n (omega arith)
