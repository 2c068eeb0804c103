-- ===== src/Pow/Tests.antt =====
-- The theorems on proofs of work at concrete inputs.
use cashew.Prelude.{◌+◌, ◌≤◌, ◌≡◌, refl, true, none, some, [], ◌∷◌, arith}
use cashew.Codec.Laws.{IsBytes}
use cashew.Pow.{
  Hasher, PowPuzzle, PowSolution, meets_difficulty, count_leading_zeros, solve_puzzle,
  verify_solution, verify_pow_difficulty, generate_puzzle, adjust_difficulty,
  get_starting_difficulty,
}
use cashew.Pow.Difficulty.{verify_pow_difficulty_agrees, difficulty_bounds}
use cashew.Pow.Solving.{solve_puzzle_sound}

-- a hash that starts with the nonce
abbrev toy_hasher : Hasher
toy_hasher challenge nonce params = nonce ∷ challenge

abbrev puzzle : PowPuzzle
puzzle = generate_puzzle (7 ∷ 7 ∷ []) 3 5 1000

twelve_zeros : count_leading_zeros (0 ∷ 9 ∷ 255 ∷ []) ≡ 12
unfolding count_leading_zeros
twelve_zeros = refl

given : IsBytes (0 ∷ 9 ∷ 255 ∷ [])
given = ground arith

verify_pow_difficulty_agrees_example :
    verify_pow_difficulty (0 ∷ 9 ∷ 255 ∷ []) 12 ≡ meets_difficulty (0 ∷ 9 ∷ 255 ∷ []) 12
verify_pow_difficulty_agrees_example = verify_pow_difficulty_agrees (0 ∷ 9 ∷ 255 ∷ []) 12 given

difficulty_bounds_example :
    (4 ≤ adjust_difficulty 1000 32)
    × (adjust_difficulty 1000 32 ≤ 32)
    × (adjust_difficulty 1000 32 ≤ 32 + 1)
    × (32 ≤ adjust_difficulty 1000 32 + 1)
    × (4 ≤ (generate_puzzle [] 3 99 1000).difficulty)
    × ((generate_puzzle [] 3 99 1000).difficulty ≤ 32)
    × (4 ≤ get_starting_difficulty 75)
    × (get_starting_difficulty 75 ≤ 32)
difficulty_bounds_example = difficulty_bounds 1000 32 99 75 3 1000 [] (omega arith) (omega arith)

abbrev solution : PowSolution
solution = record {
  solution_hash = 4 ∷ 7 ∷ 7 ∷ [];
  nonce = 4;
  difficulty = 5;
  compute_time_ms = 20;
}

solved : solve_puzzle toy_hasher puzzle 20 3 (200 ∷ 4 ∷ []) ≡ some solution
unfolding solve_puzzle generate_puzzle meets_difficulty count_leading_zeros
solved = refl

solve_puzzle_sound_example : verify_solution toy_hasher puzzle solution ≡ true
solve_puzzle_sound_example =
    solve_puzzle_sound toy_hasher puzzle 20 3 (200 ∷ 4 ∷ []) solution solved

gave_up : solve_puzzle toy_hasher puzzle 20 2 (200 ∷ 90 ∷ 4 ∷ []) ≡ none
unfolding solve_puzzle generate_puzzle meets_difficulty count_leading_zeros
gave_up = refl
