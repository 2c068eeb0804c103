-- ===== src/Prelude/Map.antt =====
-- `std::map` as the list of its entries in key order, with the laws of reads after writes.
use Prim.Native.Nat.{◌≤◌, ◌<◌, suc}
use mathlib.Core.Path.{◌≡◌, refl}
use mathlib.Core.List.{List, [], ◌∷◌}
use mathlib.Core.Option.{Option, none, some}
use native.Mathlib.Omega.{arith}
use cashew.Prelude.Tests.{if◌then◌else◌}
use cashew.Prelude.Lists.{length}
use cashew.Prelude.Ordered.{Ordered}

abbrev pub Map {ℓ κ} : Type ℓ → Type κ → Type (ℓ ⊔ κ)
Map K V = List (K × V)

module _ {ℓ κ} {K : Type ℓ} ⦃o : Ordered K⦄ {V : Type κ} where
  -- m.find(k)
  unfoldable pub find : K → Map K V → Option V
  find k [] = none
  find k ((j, v) ∷ m) = if o.beq j k then some v else find k m

  -- m[k] = v
  unfoldable pub put : K → V → Map K V → Map K V
  put k v [] = (k, v) ∷ []
  put k v ((j, w) ∷ m) =
      let later = (j, w) ∷ put k v m in
      if o.beq j k then (k, v) ∷ m else if o.lt k j then (k, v) ∷ (j, w) ∷ m else later

  -- m.erase(k)
  pub erase : K → Map K V → Map K V
  erase k [] = []
  erase k ((j, v) ∷ m) = let rest = erase k m in if o.beq j k then rest else (j, v) ∷ rest

  -- m[k], where a missing key reads as a default value
  unfoldable pub find_or : V → K → Map K V → V
  find_or d k m = elim (find k m) [ none ↦ d | some v ↦ v ]

  -- m.insert({k, v}), which keeps an entry that is there
  unfoldable pub insert_new : K → V → Map K V → Map K V
  insert_new k v m = elim (find k m) [ none ↦ put k v m | some w ↦ m ]

  pub find-put :
      (k j : K) (v : V) (m : Map K V)
      → find j (put k v m) ≡ (if o.beq k j then some v else find j m)
  unfolding find put
  find-put k j v [] = refl
  find-put k j v ((i, w) ∷ m) =
      ground (arith, o.beq_iff i k, o.beq_iff k j, o.beq_iff i j, find-put k j v m)

  pub find-erase :
      (k j : K) (m : Map K V) → find j (erase k m) ≡ (if o.beq k j then none else find j m)
  unfolding find erase
  find-erase k j [] = ground arith
  find-erase k j ((i, w) ∷ m) =
      ground (arith, o.beq_iff i k, o.beq_iff k j, o.beq_iff i j, find-erase k j m)

  pub find_or-put :
      (d : V) (k j : K) (v : V) (m : Map K V)
      → find_or d j (put k v m) ≡ (if o.beq k j then v else find_or d j m)
  unfolding find_or
  find_or-put d k j v m = ground (arith, find-put k j v m)

  pub find-insert_new :
      (k j : K) (v : V) (m : Map K V)
      → find k m ≡ none
      → find j (insert_new k v m) ≡ (if o.beq k j then some v else find j m)
  unfolding insert_new
  find-insert_new k j v m absent = rw (absent, insert_new) (find-put k j v m)

  pub length-put : (k : K) (v : V) (m : Map K V) → length (put k v m) ≤ suc (length m)
  unfolding put
  length-put k v [] = omega arith
  length-put k v ((j, w) ∷ m) = ground (arith, length-put k v m)

  pub length-erase : (k : K) (m : Map K V) → length (erase k m) ≤ length m
  unfolding erase
  length-erase k [] = omega arith
  length-erase k ((j, w) ∷ m) = ground (arith, length-erase k m)

  pub length-erase_found :
      (k : K) (m : Map K V) (v : V) → find k m ≡ some v → length (erase k m) < length m
  unfolding find erase
  length-erase_found k [] v h = cc
  length-erase_found k ((j, w) ∷ m) v h =
      ground (arith, h, length-erase k m, length-erase_found k m v)
