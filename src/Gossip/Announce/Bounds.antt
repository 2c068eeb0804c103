-- ===== src/Gossip/Announce/Bounds.antt =====
-- Which gossip payloads make a parser read behind the end of its buffer.
use cashew.Prelude.{
  ℕ, ◌<◌, ◌≤◌, ◌≡◌, ◌≢◌, ◌↔◌, true, Bytes, length, length-drop, take, drop, ltb, ◌==◌, ==_iff,
  le→ltb, arith, Bool-cases, inl, inr,
}
use cashew.Codec.{le_value}
use cashew.Codec.Parse.{
  overrun, raw_blob_safe, raw_scalar_safe, raw_blob_inside, raw_blob_outside, raw_scalar_inside,
  checked_blob_inside, >>=_safe,
}
use cashew.Gossip.Announce.{
  capabilities_from_bytes, peer_from_bytes, content_from_bytes, read_network,
}

capabilities_from_bytes_safe : (bytes : Bytes) → capabilities_from_bytes bytes ≢ overrun
unfolding capabilities_from_bytes
capabilities_from_bytes_safe bytes = elim (Bool-cases (ltb (length bytes) 17)) [
  | inl short ↦ rw short (λ e. cc)
  | inr long ↦
      let big : 17 ≤ length bytes = ground (arith, long) in
      rw long (
        raw_scalar_safe 1 bytes _ (omega arith) λ flags a₁ s₁.
          raw_scalar_safe 8 a₁ _ (omega arith)
            λ storage a₂ s₂. raw_scalar_safe 8 a₂ _ (omega arith) λ bandwidth a₃ s₃ e. cc)
]

-- Whatever bytes a peer sends, reading them as a peer announcement stays inside them.
peer_from_bytes_safe : (bytes : Bytes) → peer_from_bytes bytes ≢ overrun
unfolding peer_from_bytes
peer_from_bytes_safe bytes = elim (Bool-cases (ltb (length bytes) 153)) [
  | inl short ↦ rw short (λ e. cc)
  | inr long ↦
      let big : 153 ≤ length bytes = ground (arith, long) in
      rw long (
        raw_blob_safe 32 bytes _ (omega arith) λ node a₁ s₁.
          raw_blob_safe 32 a₁ _ (omega arith) λ key a₂ s₂.
            raw_blob_safe 17 a₂ _ (omega arith) λ caps_data a₃ s₃.
              >>=_safe (capabilities_from_bytes caps_data) _
                (capabilities_from_bytes_safe caps_data)
                λ caps.
                  raw_scalar_safe 8 a₃ _ (omega arith)
                    λ time a₄ s₄. raw_blob_safe 64 a₄ _ (omega arith) λ signature a₅ s₅ e. cc)
]

-- the flag in front of the network id
abbrev pub network_flag : Bytes → ℕ
network_flag bytes = le_value (take 1 (drop 32 (drop 8 (drop 32 bytes))))

module _ (bytes : Bytes) (big : 145 ≤ length bytes) where
  content_network_overrun :
      network_flag bytes ≡ 1 → length bytes < 177 → content_from_bytes bytes ≡ overrun
  unfolding content_from_bytes read_network
  content_network_overrun one short =
      let a₁ = drop 32 bytes in
      let a₂ = drop 8 a₁ in
      let a₃ = drop 32 a₂ in
      let a₄ = drop 1 a₃ in
      let a₅ = drop 32 a₄ in
      let l₁ = length-drop 32 bytes in
      let l₂ = length-drop 8 a₁ in
      let l₃ = length-drop 32 a₂ in
      let l₄ = length-drop 1 a₃ in
      let l₅ = length-drop 32 a₄ in
      rw (
        le→ltb (length bytes) 145 big,
        raw_blob_inside 32 bytes (omega arith),
        raw_scalar_inside 8 a₁ (omega arith),
        raw_blob_inside 32 a₂ (omega arith),
        raw_scalar_inside 1 a₃ (omega arith),
        one,
        checked_blob_inside 32 a₄ (omega arith),
        raw_scalar_inside 8 a₅ (omega arith),
        raw_blob_outside 64 (drop 8 a₅) (omega (arith, length-drop 8 a₅)),
      )

  content_safe :
      ((network_flag bytes ≡ 1) → 177 ≤ length bytes) → content_from_bytes bytes ≢ overrun
  unfolding content_from_bytes read_network
  content_safe enough =
      let a₁ = drop 32 bytes in
      let a₂ = drop 8 a₁ in
      let a₃ = drop 32 a₂ in
      let a₄ = drop 1 a₃ in
      let l₁ = length-drop 32 bytes in
      let l₂ = length-drop 8 a₁ in
      let l₃ = length-drop 32 a₂ in
      let l₄ = length-drop 1 a₃ in
      rw
        (
          le→ltb (length bytes) 145 big,
          raw_blob_inside 32 bytes (omega arith),
          raw_scalar_inside 8 a₁ (omega arith),
          raw_blob_inside 32 a₂ (omega arith),
          raw_scalar_inside 1 a₃ (omega arith),
        )
        (elim (Bool-cases (network_flag bytes == 1)) [
          | inl one ↦
              let long = enough ((==_iff (network_flag bytes) 1).0 one) in
              rw (one, read_network)
                (rw (checked_blob_inside 32 a₄ (omega arith)) (
                  raw_scalar_safe 8 (drop 32 a₄) _ (omega (arith, length-drop 32 a₄)) λ t a₆ s₆.
                    raw_blob_safe 64 a₆ _ (omega (arith, length-drop 32 a₄))
                      λ signature a₇ s₇ e. cc))
          | inr other ↦
              rw (other, read_network)
                (raw_scalar_safe 8 a₄ _ (omega arith)
                  λ t a₆ s₆. raw_blob_safe 64 a₆ _ (omega arith) λ signature a₇ s₇ e. cc)
        ])

refused_short : (bytes : Bytes) → ltb (length bytes) 145 ≡ true → content_from_bytes bytes ≢ overrun
unfolding content_from_bytes
refused_short bytes short = rw short (λ e. cc)

-- Exactly these bytes make the parser of a content announcement read behind their end: 145 to 176 of
-- them, with a flag that announces a network id.
pub content_from_bytes_overrun :
    (bytes : Bytes)
    → (content_from_bytes bytes ≡ overrun)
      ↔ ((145 ≤ length bytes) × (length bytes < 177) × (network_flag bytes ≡ 1))
content_from_bytes_overrun bytes =
    (to, λ (big, short, one). content_network_overrun bytes big one short)
  where
    to :
        content_from_bytes bytes ≡ overrun
        → (145 ≤ length bytes) × (length bytes < 177) × (network_flag bytes ≡ 1)
    to e = elim (Bool-cases (ltb (length bytes) 145)) [
      | inl short ↦ absurd (refused_short bytes short e)
      | inr long ↦
          let big : 145 ≤ length bytes = ground (arith, long) in
          elim (Bool-cases (network_flag bytes == 1)) [
            | inl one ↦ elim (Bool-cases (ltb (length bytes) 177)) [
              | inl short ↦ (big, ground (arith, short), (==_iff (network_flag bytes) 1).0 one)
              | inr enough ↦ absurd (content_safe bytes big (λ h. ground (arith, enough)) e)
            ]
            | inr other ↦ absurd (content_safe bytes big (λ h. ground (arith, other, h)) e)
          ]
    ]
