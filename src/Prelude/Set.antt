-- ===== src/Prelude/Set.antt =====
-- `std::set` as the list of its elements in order.
use mathlib.Core.Path.{◌≡◌, refl}
use mathlib.Core.Bool.{Bool, false, ◌||◌, ◌&&◌, not}
use mathlib.Core.List.{List, [], ◌∷◌, ◌++◌}
use native.Mathlib.Omega.{arith}
use cashew.Prelude.Tests.{if◌then◌else◌}
use cashew.Prelude.Ordered.{Ordered}

module _ {ℓ} {A : Type ℓ} ⦃o : Ordered A⦄ where
  -- s.find(a) != s.end()
  unfoldable pub contains : A → List A → Bool
  contains a [] = false
  contains a (x ∷ xs) = o.beq x a || contains a xs

  -- s.insert(a)
  unfoldable pub insert : A → List A → List A
  insert a [] = a ∷ []
  insert a (x ∷ xs) =
      let later = x ∷ insert a xs in
      if o.beq x a then x ∷ xs else if o.lt a x then a ∷ x ∷ xs else later

  -- s.erase(a); on a vector, the erase-remove idiom
  pub remove : A → List A → List A
  remove a [] = []
  remove a (x ∷ xs) = let rest = remove a xs in if o.beq x a then rest else x ∷ rest

  pub contains-insert :
      (a b : A) (xs : List A) → contains b (insert a xs) ≡ (o.beq a b || contains b xs)
  unfolding contains insert
  contains-insert a b [] = refl
  contains-insert a b (x ∷ xs) =
      ground (arith, o.beq_iff x a, o.beq_iff a b, o.beq_iff x b, contains-insert a b xs)

  pub contains-remove :
      (a b : A) (xs : List A) → contains b (remove a xs) ≡ (not (o.beq a b) && contains b xs)
  unfolding contains remove
  contains-remove a b [] = ground arith
  contains-remove a b (x ∷ xs) =
      ground (arith, o.beq_iff x a, o.beq_iff a b, o.beq_iff x b, contains-remove a b xs)

  contains-append :
      (a : A) (xs ys : List A) → contains a (xs ++ ys) ≡ (contains a xs || contains a ys)
  unfolding contains
  contains-append a [] ys = refl
  contains-append a (x ∷ xs) ys = ground (arith, contains-append a xs ys)

  -- v.push_back(a)
  pub contains-push :
      (a b : A) (xs : List A) → contains b (xs ++ a ∷ []) ≡ (contains b xs || o.beq a b)
  unfolding contains
  contains-push a b xs = ground (arith, contains-append b xs (a ∷ []))
