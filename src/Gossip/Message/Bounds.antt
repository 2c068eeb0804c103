-- ===== src/Gossip/Message/Bounds.antt =====
-- The envelope of gossip: what is written is read back, and which bytes make the parser read behind the
-- end of its buffer.
use cashew.Prelude.{
  ℕ, ◌+◌, ◌^◌, ◌<◌, ◌≤◌, ◌≡◌, ◌≢◌, ◌↔◌, refl, true, Bytes, length, length-append, length-drop, take,
  drop, ltb, le→ltb, arith, Bool-cases, inl, inr,
}
use cashew.Codec.{le_value}
use cashew.Codec.Laws.{length-le_bytes}
use cashew.Codec.Parse.{
  accepted, overrun, checked_blob, raw_scalar_safe, raw_blob_inside, raw_scalar_inside,
  raw_scalar_outside, checked_blob_inside, raw_blob-append, raw_scalar-append, checked_blob-append,
  raw_scalar_end,
}
use cashew.Gossip.Announce.{
  PeerAnnouncement, ContentAnnouncement, NetworkStateUpdate, peer_to_bytes, peer_from_bytes,
  content_to_bytes, content_from_bytes, state_to_bytes, state_from_bytes,
}
use cashew.Gossip.Announce.RoundTrip.{
  IsPeer, IsContent, IsUpdate, peer_from_bytes-peer_to_bytes, content_from_bytes-content_to_bytes,
  state_from_bytes-state_to_bytes,
}
use cashew.Gossip.Announce.Bounds.{network_flag, content_from_bytes_overrun}
use cashew.Gossip.Message.{GossipMessage, to_bytes, from_bytes}

-- The fields have the widths of their C++ types.
pub record IsMessage (m : GossipMessage) : Type 0 where
  pub type_byte : m.type < 256 ^ 1
  pub id_size : length m.message_id ≡ 32
  pub payload_fits : length m.payload < 256 ^ 4
  pub timestamp_fits : m.timestamp < 256 ^ 8
  pub hop_byte : m.hop_count < 256 ^ 1

length-to_bytes : (m : GossipMessage) → IsMessage m → length (to_bytes m) ≡ 46 + length m.payload
unfolding to_bytes
length-to_bytes m v = simp (length-append, length-le_bytes, v.id_size) (omega arith)

-- A gossip message whose fields have the widths of their C++ types is read back as it was written.
from_bytes-to_bytes_gossip :
    (m : GossipMessage) → IsMessage m → from_bytes (to_bytes m) ≡ accepted m
unfolding from_bytes
from_bytes-to_bytes_gossip m v =
    rw (le→ltb (length (to_bytes m)) 46 (omega (arith, length-to_bytes m v))) (
      unfold to_bytes in
      rw (
        raw_scalar-append 1 m.type _ v.type_byte,
        raw_blob-append 32 m.message_id _ v.id_size,
        raw_scalar-append 4 (length m.payload) _ v.payload_fits,
        checked_blob-append (length m.payload) m.payload _ refl,
        raw_scalar-append 8 m.timestamp _ v.timestamp_fits,
        raw_scalar_end 1 m.hop_count v.hop_byte,
      ))

-- the payload size that the bytes announce
abbrev pub announced : Bytes → ℕ
announced bytes = le_value (take 4 (drop 32 (drop 1 bytes)))

module _ (bytes : Bytes) (big : 46 ≤ length bytes) where
  from_bytes_inside : announced bytes + 46 ≤ length bytes → from_bytes bytes ≢ overrun
  unfolding from_bytes
  from_bytes_inside fits =
      let a₁ = drop 1 bytes in
      let a₂ = drop 32 a₁ in
      let a₃ = drop 4 a₂ in
      let l₁ = length-drop 1 bytes in
      let l₂ = length-drop 32 a₁ in
      let l₃ = length-drop 4 a₂ in
      let l₄ = length-drop (announced bytes) a₃ in
      rw
        (
          le→ltb (length bytes) 46 big,
          raw_scalar_inside 1 bytes (omega arith),
          raw_blob_inside 32 a₁ (omega arith),
          raw_scalar_inside 4 a₂ (omega arith),
          checked_blob_inside (announced bytes) a₃ (omega arith),
        )
        (raw_scalar_safe 8 (drop (announced bytes) a₃) _ (omega arith)
          λ t a₅ s₅. raw_scalar_safe 1 a₅ _ (omega arith) λ hops a₆ s₆ e. cc)

  from_bytes_outside :
      length bytes < announced bytes + 46
      → announced bytes + 37 ≤ length bytes
      → from_bytes bytes ≡ overrun
  unfolding from_bytes
  from_bytes_outside long fits =
      let a₁ = drop 1 bytes in
      let a₂ = drop 32 a₁ in
      let a₃ = drop 4 a₂ in
      let a₄ = drop (announced bytes) a₃ in
      let l₁ = length-drop 1 bytes in
      let l₂ = length-drop 32 a₁ in
      let l₃ = length-drop 4 a₂ in
      let l₄ = length-drop (announced bytes) a₃ in
      rw
        (
          le→ltb (length bytes) 46 big,
          raw_scalar_inside 1 bytes (omega arith),
          raw_blob_inside 32 a₁ (omega arith),
          raw_scalar_inside 4 a₂ (omega arith),
          checked_blob_inside (announced bytes) a₃ (omega arith),
        )
        (elim (Bool-cases (ltb (length a₄) 8)) [
          | inl short ↦ rw (raw_scalar_outside 8 a₄ (ground (arith, short)))
          | inr enough ↦
              let here : 8 ≤ length a₄ = ground (arith, enough) in
              rw (
                raw_scalar_inside 8 a₄ here,
                raw_scalar_outside 1 (drop 8 a₄) (omega (arith, length-drop 8 a₄)),
              )
        ])

  from_bytes_refused : length bytes < announced bytes + 37 → from_bytes bytes ≢ overrun
  unfolding from_bytes checked_blob
  from_bytes_refused long =
      let a₁ = drop 1 bytes in
      let a₂ = drop 32 a₁ in
      let a₃ = drop 4 a₂ in
      let l₁ = length-drop 1 bytes in
      let l₂ = length-drop 32 a₁ in
      let l₃ = length-drop 4 a₂ in
      let out : ltb (length a₃) (announced bytes) ≡ true = ground arith in
      rw
        (
          le→ltb (length bytes) 46 big,
          raw_scalar_inside 1 bytes (omega arith),
          raw_blob_inside 32 a₁ (omega arith),
          raw_scalar_inside 4 a₂ (omega arith),
          out,
        )
        (λ e. cc)

refused_short : (bytes : Bytes) → ltb (length bytes) 46 ≡ true → from_bytes bytes ≢ overrun
unfolding from_bytes
refused_short bytes short = rw short (λ e. cc)

-- Exactly these bytes make the parser of a gossip message read behind their end: 46 or more, whose payload
-- fits as announced but leaves less than the nine bytes of the time and the hop count.
from_bytes_overrun :
    (bytes : Bytes)
    → (from_bytes bytes ≡ overrun) ↔ (
        (46 ≤ length bytes)
        × (announced bytes + 37 ≤ length bytes)
        × (length bytes < announced bytes + 46))
from_bytes_overrun bytes = (to, λ (big, fits, long). from_bytes_outside bytes big long fits)
  where
    to :
        from_bytes bytes ≡ overrun
        → (46 ≤ length bytes)
          × (announced bytes + 37 ≤ length bytes)
          × (length bytes < announced bytes + 46)
    to e = elim (Bool-cases (ltb (length bytes) 46)) [
      | inl short ↦ absurd (refused_short bytes short e)
      | inr long ↦
          let big : 46 ≤ length bytes = ground (arith, long) in
          elim (Bool-cases (ltb (length bytes) (announced bytes + 37))) [
            | inl out ↦ absurd (from_bytes_refused bytes big (ground (arith, out)) e)
            | inr fits ↦ elim (Bool-cases (ltb (length bytes) (announced bytes + 46))) [
              | inl behind ↦ (big, ground (arith, fits), ground (arith, behind))
              | inr within ↦ absurd (from_bytes_inside bytes big (ground (arith, within)) e)
            ]
          ]
    ]

-- On which bytes a gossip parser reads behind the end of its buffer: ContentAnnouncement::from_bytes on 145
-- to 176 bytes that announce a network id, and GossipMessage::from_bytes on bytes whose announced payload
-- fits, but not the nine bytes of timestamp and hop count after it.
pub gossip_overruns :
    (bytes : Bytes)
    → ((content_from_bytes bytes ≡ overrun)
        ↔ ((145 ≤ length bytes) × (length bytes < 177) × (network_flag bytes ≡ 1)))
      × ((from_bytes bytes ≡ overrun) ↔ (
          (46 ≤ length bytes)
          × (announced bytes + 37 ≤ length bytes)
          × (length bytes < announced bytes + 46)))
gossip_overruns bytes = (content_from_bytes_overrun bytes, from_bytes_overrun bytes)

-- A gossip message, a peer announcement, a content announcement and a network state update whose fields
-- have the widths of their C++ types are read back as they were written.
pub gossip_round_trips :
    (m : GossipMessage) (p : PeerAnnouncement) (c : ContentAnnouncement) (s : NetworkStateUpdate)
    → IsMessage m
    → IsPeer p
    → IsContent c
    → IsUpdate s
    → (from_bytes (to_bytes m) ≡ accepted m)
      × (peer_from_bytes (peer_to_bytes p) ≡ accepted p)
      × (content_from_bytes (content_to_bytes c) ≡ accepted c)
      × (state_from_bytes (state_to_bytes s) ≡ accepted s)
gossip_round_trips m p c s is_message is_peer is_content is_update = (
  from_bytes-to_bytes_gossip m is_message,
  peer_from_bytes-peer_to_bytes p is_peer,
  content_from_bytes-content_to_bytes c is_content,
  state_from_bytes-state_to_bytes s is_update,
)
