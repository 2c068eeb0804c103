-- ===== src/Router/Request/Sizes.antt =====
-- What an accepted request is made of.
use mathlib.Core.Path.{subst}
use cashew.Prelude.{
  ℕ, zero, suc, ◌≤◌, ◌≡◌, refl, Bytes, List, [], ◌∷◌, length, take, drop, length-drop, ltb, arith,
  Bool-cases, inl, inr,
}
use cashew.Codec.{le_value}
use cashew.Codec.Parse.{
  Parsed, accepted, refused, overrun, raw_blob, raw_scalar, checked_blob, checked_scalar, ◌>>=◌,
}
use cashew.Router.Request.{ContentRequest, read_layers, request_from_bytes}

-- What holds of a value that a parser accepts.
abbrev pub Holds {ℓ} : {A : Type ℓ} → (A → Type 0) → Parsed A → Type ℓ
Holds {A = A} P m = (a : A) → m ≡ accepted a → P a

length-take : (n : ℕ) (xs : Bytes) → length (take n xs) ≤ length xs
length-take zero xs = omega arith
length-take (suc n) [] = omega arith
length-take (suc n) (x ∷ xs) = omega (arith, length-take n xs)

module _ {A : Type 0} (P : A → Type 0) where
  raw_blob_then :
      (n : ℕ) (ahead : Bytes) (f : Bytes × Bytes → Parsed A)
      → ((b left : Bytes) → b ≡ take n ahead → length left ≤ length ahead → Holds P (f (b, left)))
      → Holds P (raw_blob n ahead >>= f)
  unfolding raw_blob
  raw_blob_then n ahead f next = elim (Bool-cases (ltb (length ahead) n)) [
    | inl short ↦ rw short (λ a e. cc)
    | inr long ↦
        rw long (next (take n ahead) (drop n ahead) refl (omega (arith, length-drop n ahead)))
  ]

  checked_blob_then :
      (n : ℕ) (ahead : Bytes) (f : Bytes × Bytes → Parsed A)
      → ((b left : Bytes)
          → length b ≤ length ahead
          → length left ≤ length ahead
          → Holds P (f (b, left)))
      → Holds P (checked_blob n ahead >>= f)
  unfolding checked_blob
  checked_blob_then n ahead f next = elim (Bool-cases (ltb (length ahead) n)) [
    | inl short ↦ rw short (λ a e. cc)
    | inr long ↦ rw long (
        next (take n ahead) (drop n ahead) (length-take n ahead)
          (omega (arith, length-drop n ahead)))
  ]

  raw_scalar_then :
      (n : ℕ) (ahead : Bytes) (f : ℕ × Bytes → Parsed A)
      → ((x : ℕ) (left : Bytes) → length left ≤ length ahead → Holds P (f (x, left)))
      → Holds P (raw_scalar n ahead >>= f)
  unfolding raw_scalar raw_blob
  raw_scalar_then n ahead f next = elim (Bool-cases (ltb (length ahead) n)) [
    | inl short ↦ rw short (λ a e. cc)
    | inr long ↦
        rw long (next (le_value (take n ahead)) (drop n ahead) (omega (arith, length-drop n ahead)))
  ]

  checked_scalar_then :
      (n : ℕ) (ahead : Bytes) (f : ℕ × Bytes → Parsed A)
      → ((x : ℕ) (left : Bytes) → length left ≤ length ahead → Holds P (f (x, left)))
      → Holds P (checked_scalar n ahead >>= f)
  unfolding checked_scalar checked_blob
  checked_scalar_then n ahead f next = elim (Bool-cases (ltb (length ahead) n)) [
    | inl short ↦ rw short (λ a e. cc)
    | inr long ↦
        rw long (next (le_value (take n ahead)) (drop n ahead) (omega (arith, length-drop n ahead)))
  ]

  value_then :
      {B : Type 0} (m : Parsed B) (f : B → Parsed A)
      → ((b : B) → m ≡ accepted b → Holds P (f b))
      → Holds P (m >>= f)
  value_then (accepted b) f next = next b refl
  value_then refused f next = λ a e. cc
  value_then overrun f next = λ a e. cc

  accepted_then : (a : A) → P a → Holds P (accepted a)
  accepted_then a h b e = subst P (unwrap a b e) h
    where
      unwrap : (x y : A) → accepted x ≡ accepted y → x ≡ y
      unwrap x y p = cc

-- The size of the layer that a node takes off.
abbrev pub first_size : List Bytes → ℕ
first_size [] = 0
first_size (layer ∷ layers) = length layer

read_layers-size :
    (count : ℕ) (ahead : Bytes)
    → Holds (λ layers. first_size layers ≤ length ahead) (read_layers count ahead)
unfolding read_layers
read_layers-size zero ahead = accepted_then _ [] (omega arith)
read_layers-size (suc count) ahead = checked_scalar_then _ 4 ahead _ λ size a₁ s₁.
    checked_blob_then _ size a₁ _ λ layer a₂ sl s₂.
      value_then _ (read_layers count a₂) _
        λ layers e. accepted_then _ (layer ∷ layers) (omega arith)

pub inner_size :
    (bytes : Bytes)
    → Holds
        (λ (q : ContentRequest). first_size q.onion_layers ≤ length bytes)
        (request_from_bytes bytes)
unfolding request_from_bytes
inner_size bytes = elim (Bool-cases (ltb (length bytes) 107)) [
  | inl short ↦ rw short (λ a e. cc)
  | inr long ↦ rw long (
      raw_blob_then _ 32 bytes _ λ hash a₁ h₁ s₁. raw_blob_then _ 32 a₁ _ λ requester a₂ h₂ s₂.
        raw_blob_then _ 32 a₂ _ λ id a₃ h₃ s₃. raw_scalar_then _ 1 a₃ _ λ hops a₄ s₄.
          raw_scalar_then _ 8 a₄ _ λ time a₅ s₅. raw_scalar_then _ 2 a₅ _ λ count a₆ s₆.
            value_then _ (read_layers count a₆) _
              λ layers e. accepted_then _ _ (omega (arith, read_layers-size count a₆ layers e)))
]

pub inner_hash :
    (bytes : Bytes)
    → Holds (λ (q : ContentRequest). q.content_hash ≡ take 32 bytes) (request_from_bytes bytes)
unfolding request_from_bytes
inner_hash bytes = elim (Bool-cases (ltb (length bytes) 107)) [
  | inl short ↦ rw short (λ a e. cc)
  | inr long ↦ rw long (
      raw_blob_then _ 32 bytes _ λ hash a₁ h₁ s₁. raw_blob_then _ 32 a₁ _ λ requester a₂ h₂ s₂.
        raw_blob_then _ 32 a₂ _ λ id a₃ h₃ s₃. raw_scalar_then _ 1 a₃ _ λ hops a₄ s₄.
          raw_scalar_then _ 8 a₄ _ λ time a₅ s₅.
            raw_scalar_then _ 2 a₅ _
              λ count a₆ s₆. value_then _ (read_layers count a₆) _ λ layers e. accepted_then _ _ h₁)
]
