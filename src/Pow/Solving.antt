-- ===== src/Pow/Solving.antt =====
-- What solve_puzzle finds, verify_solution accepts.
use cashew.Prelude.{
  ℕ, zero, suc, ◌≡◌, true, false, beq_refl, bytes_ordered, none, some, List, [], ◌∷◌, take, All,
  ==_iff, arith, Bool-cases, inl, inr, some_inj,
}
use mathlib.Core.Path.{subst}
use cashew.Pow.{
  Hasher, PowPuzzle, PowSolution, meets_difficulty, attempt, rounds, solve_puzzle, verify_solution,
}

attempt_sound :
    (hasher : Hasher) (puzzle : PowPuzzle) (time left : ℕ) (nonces : List ℕ) (s : PowSolution)
    → attempt hasher puzzle time left nonces ≡ some s
    → verify_solution hasher puzzle s ≡ true
unfolding attempt
attempt_sound hasher puzzle time zero nonces s h = cc
attempt_sound hasher puzzle time (suc left) [] s h = cc
attempt_sound hasher puzzle time (suc left) (nonce ∷ nonces) s h =
    let hash = hasher puzzle.challenge nonce puzzle.params in
    elim (Bool-cases (meets_difficulty hash puzzle.difficulty)) [
      | inl good ↦
          let same = some_inj (rw good at h) in
          subst (λ x. verify_solution hasher puzzle x ≡ true) same
            (unfold verify_solution in
              ground (arith, good, beq_refl hash, ==_iff puzzle.difficulty puzzle.difficulty))
      | inr bad ↦ attempt_sound hasher puzzle time left nonces s (rw bad at h)
    ]

-- No nonce of a list gives a hash that is good enough.
abbrev pub NoneGood : Hasher → PowPuzzle → List ℕ → Type 0
NoneGood hasher puzzle nonces =
    All
      (λ nonce.
        meets_difficulty (hasher puzzle.challenge nonce puzzle.params) puzzle.difficulty ≡ false)
      nonces

attempt_complete :
    (hasher : Hasher) (puzzle : PowPuzzle) (time left : ℕ) (nonces : List ℕ)
    → attempt hasher puzzle time left nonces ≡ none
    → NoneGood hasher puzzle (take left nonces)
unfolding attempt
attempt_complete hasher puzzle time zero nonces h = tt
attempt_complete hasher puzzle time (suc left) [] h = tt
attempt_complete hasher puzzle time (suc left) (nonce ∷ nonces) h =
    let hash = hasher puzzle.challenge nonce puzzle.params in
    elim (Bool-cases (meets_difficulty hash puzzle.difficulty)) [
      | inl good ↦ absurd (ground (arith, good, h))
      | inr bad ↦ (bad, attempt_complete hasher puzzle time left nonces (rw bad at h))
    ]

-- A solution that solve_puzzle returns is accepted by verify_solution, for any hash function, puzzle,
-- limit and nonces drawn.
pub solve_puzzle_sound :
    (hasher : Hasher) (puzzle : PowPuzzle) (time max_attempts : ℕ) (nonces : List ℕ)
    (s : PowSolution)
    → solve_puzzle hasher puzzle time max_attempts nonces ≡ some s
    → verify_solution hasher puzzle s ≡ true
unfolding solve_puzzle
solve_puzzle_sound hasher puzzle time max_attempts nonces =
    attempt_sound hasher puzzle time (rounds max_attempts nonces) nonces

-- When solve_puzzle gives up, none of the nonces that it drew within its attempts (all of those drawn,
-- if it has no limit) gives a hash that is good enough.
solve_puzzle_complete :
    (hasher : Hasher) (puzzle : PowPuzzle) (time max_attempts : ℕ) (nonces : List ℕ)
    → solve_puzzle hasher puzzle time max_attempts nonces ≡ none
    → NoneGood hasher puzzle (take (rounds max_attempts nonces) nonces)
unfolding solve_puzzle
solve_puzzle_complete hasher puzzle time max_attempts nonces =
    attempt_complete hasher puzzle time (rounds max_attempts nonces) nonces
