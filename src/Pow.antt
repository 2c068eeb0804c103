-- ===== src/Pow.antt =====
-- Proof of work: src/core/pow/pow.hpp and pow.cpp, and the test of difficulty of SybilDefense in
-- src/security/attack_prevention.cpp. The memory-hard hash, Argon2::solve_puzzle, is a parameter.
-- The nonces that the random generator gives are a list, and the time of solving is an argument.
pub mod Difficulty
pub mod Solving
mod Tests
use cashew.Prelude.{
  length, ℕ, zero, suc, ◌+◌, ◌-◌, ◌*◌, ◌/◌, ◌%◌, ◌^◌, min, max, Bool, true, false, not, ◌&&◌, Bytes,
  bytes_eq, bytes_ordered, Option, none, some, List, [], ◌∷◌, ltb, leb, ◌==◌, if◌then◌else◌,
}

abbrev min_difficulty : ℕ
min_difficulty = 4

abbrev max_difficulty : ℕ
max_difficulty = 32

abbrev target_solve_time : ℕ
target_solve_time = 10 * 60 * 1000

-- Argon2::Params
pub record Params : Type 0 where
  pub memory_cost_kb : ℕ
  pub time_cost : ℕ
  pub parallelism : ℕ

abbrev interactive : Params
interactive = record { memory_cost_kb = 65536; time_cost = 2; parallelism = 1 }

abbrev moderate : Params
moderate = record { memory_cost_kb = 262144; time_cost = 3; parallelism = 1 }

abbrev sensitive : Params
sensitive = record { memory_cost_kb = 1048576; time_cost = 4; parallelism = 1 }

pub record PowPuzzle : Type 0 where
  pub challenge : Bytes
  pub difficulty : ℕ
  pub params : Params
  pub epoch : ℕ
  pub timestamp : ℕ

pub record PowSolution : Type 0 where
  pub solution_hash : Bytes
  pub nonce : ℕ
  pub difficulty : ℕ
  pub compute_time_ms : ℕ

-- Argon2::solve_puzzle: challenge, nonce, parameters
abbrev Hasher : Type 0
Hasher = Bytes → ℕ → Params → Bytes

pub generate_puzzle : Bytes → ℕ → ℕ → ℕ → PowPuzzle
generate_puzzle challenge_data epoch node_difficulty now =
    let difficulty = max min_difficulty (min node_difficulty max_difficulty) in
    record {
      challenge = challenge_data;
      difficulty = difficulty;
      params =
          if leb difficulty 8
          then interactive
          else if leb difficulty 16
          then moderate
          else sensitive;
      epoch = epoch;
      timestamp = now;
    }

-- the inner loop: zeros of a byte from the bit of `mask` down. The mask is 0 after eight rounds.
byte_zeros : ℕ → ℕ → ℕ → ℕ → ℕ
byte_zeros zero mask b count = count
byte_zeros (suc left) mask b count =
    let rest = byte_zeros left (mask / 2) b (count + 1) in
    if (b / mask) % 2 == 0 && not (mask == 0) then rest else count

-- the loop over the bytes; a hash has 256 bits, so the uint32_t does not wrap
leading_zeros : Bytes → ℕ → ℕ
unfolding byte_zeros
leading_zeros [] count = count
leading_zeros (b ∷ bs) count =
    let rest = leading_zeros bs (count + 8) in if b == 0 then rest else byte_zeros 8 128 b count

count_leading_zeros : Bytes → ℕ
unfolding leading_zeros
count_leading_zeros hash = leading_zeros hash 0

pub meets_difficulty : Bytes → ℕ → Bool
unfolding count_leading_zeros
meets_difficulty hash difficulty = leb difficulty (count_leading_zeros hash)

-- the loop of solve_puzzle, over the attempts left and the nonces drawn
attempt : Hasher → PowPuzzle → ℕ → ℕ → List ℕ → Option PowSolution
unfolding meets_difficulty
attempt hasher puzzle time zero nonces = none
attempt hasher puzzle time (suc left) [] = none
attempt hasher puzzle time (suc left) (nonce ∷ nonces) =
    let rest = attempt hasher puzzle time left nonces in
    let hash = hasher puzzle.challenge nonce puzzle.params in
    if meets_difficulty hash puzzle.difficulty
    then some (record {
      solution_hash = hash;
      nonce = nonce;
      difficulty = puzzle.difficulty;
      compute_time_ms = time;
    })
    else rest

-- How often the loop runs: 0 attempts stand for no limit, and then the nonces drawn are its length.
abbrev pub rounds : ℕ → List ℕ → ℕ
rounds max_attempts nonces = if max_attempts == 0 then length nonces else max_attempts

-- `none` with no limit is a loop that has not found a nonce yet
pub solve_puzzle : Hasher → PowPuzzle → ℕ → ℕ → List ℕ → Option PowSolution
unfolding attempt
solve_puzzle hasher puzzle time max_attempts nonces =
    attempt hasher puzzle time (rounds max_attempts nonces) nonces

pub verify_solution : Hasher → PowPuzzle → PowSolution → Bool
unfolding meets_difficulty
verify_solution hasher puzzle solution =
    let computed_hash = hasher puzzle.challenge solution.nonce puzzle.params in
    if not (solution.difficulty == puzzle.difficulty)
    then false
    else if not (bytes_eq computed_hash solution.solution_hash)
    then false
    else if not (meets_difficulty computed_hash puzzle.difficulty)
    then false
    else true

pub adjust_difficulty : ℕ → ℕ → ℕ
adjust_difficulty previous_solve_time current_difficulty =
    if ltb previous_solve_time (target_solve_time / 2)
    then min ((current_difficulty + 1) % 2 ^ 32) max_difficulty
    else if ltb (target_solve_time * 2) previous_solve_time
    then if ltb min_difficulty current_difficulty then current_difficulty - 1 else min_difficulty
    else current_difficulty

pub get_starting_difficulty : ℕ → ℕ
get_starting_difficulty hashes_per_second =
    if ltb hashes_per_second 10
    then min_difficulty
    else if ltb hashes_per_second 50
    then min_difficulty + 2
    else if ltb hashes_per_second 100
    then min_difficulty + 4
    else min_difficulty + 6

-- SybilDefense::verify_pow_difficulty: the inner loop shifts the byte, and stops at the difficulty;
-- `left` is what is missing to it.
shift_zeros : ℕ → ℕ → ℕ → ℕ
shift_zeros zero b count = count
shift_zeros (suc left) b count =
    let rest = shift_zeros left ((b * 2) % 256) (count + 1) in if ltb b 128 then rest else count

sybil_zeros : ℕ → Bytes → ℕ → ℕ
unfolding shift_zeros
sybil_zeros difficulty [] count = count
sybil_zeros difficulty (b ∷ bs) count =
    let rest = sybil_zeros difficulty bs (count + 8) in
    if b == 0
    then if leb difficulty (count + 8) then count + 8 else rest
    else shift_zeros (difficulty - count) b count

pub verify_pow_difficulty : Bytes → ℕ → Bool
unfolding sybil_zeros
verify_pow_difficulty pow_proof difficulty = leb difficulty (sybil_zeros difficulty pow_proof 0)
