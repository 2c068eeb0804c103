-- ===== src/Prelude/Ordered.antt =====
-- Keys of `std::map` and `std::set`: an equality test and an order. Byte strings (`std::string`,
-- `Hash256`, the id types) compare as the standard library compares them, byte by byte.
use Prim.Native.Nat.{ℕ}
use mathlib.Core.Path.{◌≡◌, refl}
use mathlib.Core.Logic.{◌↔◌}
use mathlib.Core.Bool.{Bool, true, false, ◌&&◌, ◌||◌}
use mathlib.Core.List.{List, [], ◌∷◌}
use native.Mathlib.Omega.{arith}
use cashew.Prelude.Tests.{ltb, ◌==◌, ==_iff}

pub record Ordered {ℓ} (A : Type ℓ) : Type ℓ where
  pub beq : A → A → Bool
  pub lt : A → A → Bool
  pub beq_iff : (a b : A) → (beq a b ≡ true) ↔ (a ≡ b)

instance abbrev pub nat_ordered : Ordered ℕ
nat_ordered = record { beq = ◌==◌; lt = ltb; beq_iff = ==_iff }

abbrev pub Bytes : Type 0
Bytes = List ℕ

-- operator== of std::array and std::string
abbrev pub bytes_eq : Bytes → Bytes → Bool
bytes_eq [] [] = true
bytes_eq [] (y ∷ ys) = false
bytes_eq (x ∷ xs) [] = false
bytes_eq (x ∷ xs) (y ∷ ys) = x == y && bytes_eq xs ys

-- operator< of std::array and std::string
abbrev pub bytes_lt : Bytes → Bytes → Bool
bytes_lt [] [] = false
bytes_lt [] (y ∷ ys) = true
bytes_lt (x ∷ xs) [] = false
bytes_lt (x ∷ xs) (y ∷ ys) = ltb x y || (x == y && bytes_lt xs ys)

pub bytes_eq_iff : (a b : Bytes) → (bytes_eq a b ≡ true) ↔ (a ≡ b)
bytes_eq_iff [] [] = ((λ h. refl), λ h. refl)
bytes_eq_iff [] (y ∷ ys) = ((λ h. cc), λ h. cc)
bytes_eq_iff (x ∷ xs) [] = ((λ h. cc), λ h. cc)
bytes_eq_iff (x ∷ xs) (y ∷ ys) = ground (arith, ==_iff x y, bytes_eq_iff xs ys)

instance abbrev pub bytes_ordered : Ordered Bytes
bytes_ordered = record { beq = bytes_eq; lt = bytes_lt; beq_iff = bytes_eq_iff }

module _ {ℓ} {A : Type ℓ} ⦃o : Ordered A⦄ where
  pub beq_refl : (a : A) → o.beq a a ≡ true
  beq_refl a = (o.beq_iff a a).1 refl
