-- ===== src/Pow/Difficulty.antt =====
-- The two tests of difficulty agree, and difficulties stay in their range.
use cashew.Prelude.{
  ℕ, zero, suc, ◌+◌, ◌-◌, ◌*◌, ◌%◌, ◌<◌, ◌≤◌, ◌≡◌, refl, min, Bytes, [], ◌∷◌, ltb, leb, ◌==◌,
  if◌then◌else◌, arith, Bool-cases, inl, inr,
}
use cashew.Codec.Laws.{IsBytes}
use cashew.Pow.{
  byte_zeros, leading_zeros, count_leading_zeros, meets_difficulty, shift_zeros, sybil_zeros,
  verify_pow_difficulty, generate_puzzle, adjust_difficulty, get_starting_difficulty,
  min_difficulty, max_difficulty,
}

-- The zeros in front of a byte.
abbrev nlz : ℕ → ℕ
nlz b =
    if leb 128 b
    then 0
    else if leb 64 b
    then 1
    else if leb 32 b
    then 2
    else if leb 16 b
    then 3
    else if leb 8 b
    then 4
    else if leb 4 b
    then 5
    else if leb 2 b
    then 6
    else 7

byte_zeros_high :
    (rounds b count : ℕ)
    → b < 256
    → byte_zeros (4 + rounds) 128 b count ≡ (
        if leb 128 b
        then count
        else if leb 64 b
        then count + 1
        else if leb 32 b
        then count + 2
        else if leb 16 b
        then count + 3
        else byte_zeros rounds 8 b (count + 4))
unfolding byte_zeros
byte_zeros_high rounds b count fits = ground arith

byte_zeros_low :
    (b count : ℕ)
    → 0 < b
    → b < 16
    → byte_zeros 4 8 b count ≡ (
        if leb 8 b
        then count
        else if leb 4 b
        then count + 1
        else if leb 2 b
        then count + 2
        else count + 3)
unfolding byte_zeros
byte_zeros_low b count some_bit fits = ground arith

byte_zeros_lem : (b count : ℕ) → 0 < b → b < 256 → byte_zeros 8 128 b count ≡ count + nlz b
byte_zeros_lem b count some_bit fits =
    rw (byte_zeros_high 4 b count fits) (ground (arith, byte_zeros_low b (count + 4) some_bit))

nlz_double : (b : ℕ) → 0 < b → b < 128 → nlz b ≡ suc (nlz ((b * 2) % 256))
nlz_double b some_bit fits = ground arith

shift_zeros_lem :
    (left b count : ℕ) → 0 < b → b < 256 → shift_zeros left b count ≡ count + min left (nlz b)
unfolding shift_zeros
shift_zeros_lem zero b count some_bit fits = ground arith
shift_zeros_lem (suc left) b count some_bit fits = elim (Bool-cases (ltb b 128)) [
  | inl low ↦
      rw
        (
          low,
          shift_zeros_lem left ((b * 2) % 256) (count + 1) (ground arith) (omega arith),
          nlz_double b some_bit (ground arith),
        )
        (ground arith)
  | inr high ↦ rw high (ground (arith, high))
]

leading_zeros-count : (bs : Bytes) (count : ℕ) → IsBytes bs → count ≤ leading_zeros bs count
unfolding leading_zeros
leading_zeros-count [] count h = omega arith
leading_zeros-count (b ∷ bs) count (fits, h) =
    ground (arith, leading_zeros-count bs (count + 8) h, byte_zeros_lem b count)

min_reaches : (d count n : ℕ) → leb d (count + min (d - count) n) ≡ leb d (count + n)
min_reaches d count n = ground arith

sybil_zeros_lem :
    (d : ℕ) (bs : Bytes) (count : ℕ)
    → IsBytes bs
    → leb d (sybil_zeros d bs count) ≡ leb d (leading_zeros bs count)
unfolding sybil_zeros leading_zeros
sybil_zeros_lem d [] count h = refl
sybil_zeros_lem d (b ∷ bs) count (fits, h) = elim (Bool-cases (b == 0)) [
  | inl clear ↦
      ground
        (arith, clear, sybil_zeros_lem d bs (count + 8) h, leading_zeros-count bs (count + 8) h)
  | inr set ↦
      let some_bit : 0 < b = ground (arith, set) in
      rw
        (
          set,
          shift_zeros_lem (d - count) b count some_bit fits,
          byte_zeros_lem b count some_bit fits,
        )
        (min_reaches d count (nlz b))
]

-- SybilDefense, which shifts each byte and stops at the difficulty, accepts exactly the hashes that
-- ProofOfWork, which moves a mask and counts every leading zero, accepts, for every string of bytes
-- and at every difficulty.
pub verify_pow_difficulty_agrees :
    (hash : Bytes) (difficulty : ℕ)
    → IsBytes hash
    → verify_pow_difficulty hash difficulty ≡ meets_difficulty hash difficulty
unfolding verify_pow_difficulty meets_difficulty count_leading_zeros
verify_pow_difficulty_agrees hash difficulty h = sybil_zeros_lem difficulty hash 0 h

-- From a difficulty in the range from 4 to 32, adjusting it leaves it in the range and moves it by one
-- at most; what a puzzle asks is in the range whatever is asked for it, and a first difficulty is too.
pub difficulty_bounds :
    (time current asked speed epoch now : ℕ) (challenge : Bytes)
    → min_difficulty ≤ current
    → current ≤ max_difficulty
    → (min_difficulty ≤ adjust_difficulty time current)
      × (adjust_difficulty time current ≤ max_difficulty)
      × (adjust_difficulty time current ≤ current + 1)
      × (current ≤ adjust_difficulty time current + 1)
      × (min_difficulty ≤ (generate_puzzle challenge epoch asked now).difficulty)
      × ((generate_puzzle challenge epoch asked now).difficulty ≤ max_difficulty)
      × (min_difficulty ≤ get_starting_difficulty speed)
      × (get_starting_difficulty speed ≤ max_difficulty)
unfolding adjust_difficulty generate_puzzle get_starting_difficulty
difficulty_bounds time current asked speed epoch now challenge low high = (
  ground arith,
  ground arith,
  ground arith,
  ground arith,
  omega arith,
  omega arith,
  ground arith,
  ground arith,
)
