-- ===== src/Router/Onion/Peeling.antt =====
-- Each hop of a route takes off one onion layer, and the last one has the payload.
use Prim.Native.Nat.{bit_xor}
use cashew.Prelude.{
  ℕ, zero, suc, ◌+◌, ◌%◌, ◌^◌, ◌<◌, ◌≤◌, ◌≡◌, refl, ap, ◌∙◌, Bool, true, ◌&&◌, Bytes, Option, none,
  some, List, [], ◌∷◌, ◌++◌, All, length, replicate, take, drop, take-append-drop, drop-append,
  le→ltb, length-append, length-drop, min, ltb, ◌==◌, false, Bool-cases, inl, inr, if◌then◌else◌,
  arith,
}
use cashew.Crypto.{Crypto}
use cashew.Codec.{le_bytes}
use cashew.Router.Onion.{
  xor_block, xor_blocks, xor_with_keystream, magic, next_on, wrap, create_onion_layers,
  decrypt_onion_layer,
}

-- Whether a test holds of the numbers below a bound.
holds_below : (ℕ → Bool) → ℕ → Bool
holds_below test zero = true
holds_below test (suc bound) = if test bound then holds_below test bound else false

holds_below_at :
    (test : ℕ → Bool) (bound : ℕ)
    → holds_below test bound ≡ true
    → (n : ℕ) → n < bound
    → test n ≡ true
unfolding holds_below
holds_below_at test zero all n small = absurd (omega arith)
holds_below_at test (suc bound) all n small = elim (Bool-cases (n == bound)) [
  | inl last ↦ let here : n ≡ bound = ground (arith, last) in rw here (ground (arith, all))
  | inr earlier ↦ holds_below_at test bound (ground (arith, all)) n (ground (arith, earlier))
]

-- The table of both operands.
undone : ℕ → ℕ → Bool
undone key x = (bit_xor (bit_xor x key) key == x) && ltb (bit_xor x key) 256

every_pair : holds_below (λ key. holds_below (undone key) 256) 256 ≡ true
unfolding holds_below undone
every_pair = refl

xor_byte : (x b : ℕ) → x < 256 → b < 256 → (bit_xor (bit_xor x b) b ≡ x) × (bit_xor x b < 256)
unfolding undone
xor_byte x b hx hb =
    let row = holds_below_at (λ key. holds_below (undone key) 256) 256 every_pair b hb in
    let cell = holds_below_at (undone b) 256 row x hx in ground (arith, cell)

abbrev pub IsByte : ℕ → Type 0
IsByte x = x < 256

All-append : (xs ys : Bytes) → All IsByte xs → All IsByte ys → All IsByte (xs ++ ys)
All-append [] ys h k = k
All-append (x ∷ xs) ys (hx, h) k = (hx, All-append xs ys h k)

All-drop : (n : ℕ) (xs : Bytes) → All IsByte xs → All IsByte (drop n xs)
All-drop zero xs h = h
All-drop (suc n) [] h = h
All-drop (suc n) (x ∷ xs) (hx, h) = All-drop n xs h

xor_block-nil : (xs : Bytes) → xor_block xs [] ≡ []
unfolding xor_block
xor_block-nil [] = refl
xor_block-nil (x ∷ xs) = refl

length-xor_block : (xs bs : Bytes) → length (xor_block xs bs) ≡ min (length xs) (length bs)
unfolding xor_block
length-xor_block [] bs = omega arith
length-xor_block (x ∷ xs) [] = omega arith
length-xor_block (x ∷ xs) (b ∷ bs) = omega (arith, length-xor_block xs bs)

xor_block-bytes : (xs bs : Bytes) → All IsByte xs → All IsByte bs → All IsByte (xor_block xs bs)
unfolding xor_block
xor_block-bytes [] bs h k = tt
xor_block-bytes (x ∷ xs) [] h k = tt
xor_block-bytes (x ∷ xs) (b ∷ bs) (hx, h) (hb, k) =
    ((xor_byte x b hx hb).1, xor_block-bytes xs bs h k)

-- A block that is applied again, in front of what the later blocks made.
xor_block_twice :
    (xs bs ys : Bytes)
    → All IsByte xs
    → All IsByte bs
    → (length xs < length bs → ys ≡ [])
    → (xor_block (xor_block xs bs ++ ys) bs ≡ take (length bs) xs)
      × (drop (length bs) (xor_block xs bs ++ ys) ≡ ys)
unfolding xor_block
xor_block_twice [] [] ys h k tail = (xor_block-nil ys, refl)
xor_block_twice [] (b ∷ bs) ys h k tail = rw (tail (omega arith)) (refl, refl)
xor_block_twice (x ∷ xs) [] ys h k tail = (xor_block-nil ys, refl)
xor_block_twice (x ∷ xs) (b ∷ bs) ys (hx, h) (hb, k) tail =
    let (same, past) = xor_block_twice xs bs ys h k (λ lt. tail (omega arith)) in
    (rw ((xor_byte x b hx hb).0, same) refl, past)

drop-nil : (n : ℕ) (xs : Bytes) → length xs ≤ n → drop n xs ≡ []
drop-nil zero [] h = refl
drop-nil zero (x ∷ xs) h = absurd (omega arith)
drop-nil (suc n) [] h = refl
drop-nil (suc n) (x ∷ xs) h = drop-nil n xs (omega arith)

All-replicate : (n x : ℕ) → x < 256 → All IsByte (replicate n x)
All-replicate zero x h = tt
All-replicate (suc n) x h = (h, All-replicate n x h)

-- Node ids are 32 bytes.
abbrev pub IsRoute : List Bytes → Type 0
IsRoute route = All (λ hop. (length hop ≡ 32) × All IsByte hop) route

module _ (crypto : Crypto)
    (digest : (m : Bytes) → (length (crypto.hash m) ≡ 32) × All IsByte (crypto.hash m)) where
  xor_blocks-nil : (key : Bytes) (n c : ℕ) → xor_blocks crypto key n c [] ≡ []
  unfolding xor_blocks
  xor_blocks-nil key zero c = refl
  xor_blocks-nil key (suc n) c = refl

  xor_blocks_step :
      (key : Bytes) (n c : ℕ) (xs : Bytes)
      → let block = crypto.hash (key ++ le_bytes 4 c) in
        xor_blocks crypto key (suc n) c xs
        ≡ xor_block xs block ++ xor_blocks crypto key n ((c + 1) % 2 ^ 32) (drop (length block) xs)
  unfolding xor_blocks xor_block
  xor_blocks_step key n c [] =
      rw
        (
          drop-nil (length (crypto.hash (key ++ le_bytes 4 c))) [] (omega arith),
          xor_blocks-nil key n ((c + 1) % 2 ^ 32),
        )
        refl
  xor_blocks_step key n c (x ∷ xs) = refl

  -- Any number of rounds takes the stream off again, if there are enough for the input.
  xor_blocks_twice :
      (key : Bytes) (n c : ℕ) (xs : Bytes)
      → length xs ≤ n
      → All IsByte xs
      → (xor_blocks crypto key n c (xor_blocks crypto key n c xs) ≡ xs)
        × (length (xor_blocks crypto key n c xs) ≡ length xs)
        × All IsByte (xor_blocks crypto key n c xs)
  unfolding xor_blocks
  xor_blocks_twice key zero c [] h k = (refl, refl, tt)
  xor_blocks_twice key zero c (x ∷ xs) h k = absurd (omega arith)
  xor_blocks_twice key (suc n) c xs h k =
      let block = crypto.hash (key ++ le_bytes 4 c) in
      let (size, bytes) = digest (key ++ le_bytes 4 c) in
      let c' = (c + 1) % 2 ^ 32 in
      let ys = xor_blocks crypto key n c' (drop (length block) xs) in
      let (same, long, clean) =
        xor_blocks_twice key n c' (drop (length block) xs)
          (omega (arith, size, length-drop (length block) xs)) (All-drop (length block) xs k) in
      let tail : length xs < length block → ys ≡ [] = λ lt.
        ap (xor_blocks crypto key n c') (drop-nil (length block) xs (omega arith))
        ∙ xor_blocks-nil key n c' in
      let (front, past) = xor_block_twice xs block ys k bytes tail in
      rw (xor_blocks_step key n c xs) (
        rw (xor_blocks_step key n c (xor_block xs block ++ ys), front, past, same)
            (take-append-drop (length block) xs),
        omega (
          arith,
          length-append (xor_block xs block) ys,
          long,
          length-drop (length block) xs,
          length-xor_block xs block,
        ),
        All-append (xor_block xs block) ys (xor_block-bytes xs block k bytes) clean,
      )

  xor_twice :
      (xs key : Bytes)
      → All IsByte xs
      → (xor_with_keystream crypto (xor_with_keystream crypto xs key) key ≡ xs)
        × (length (xor_with_keystream crypto xs key) ≡ length xs)
        × All IsByte (xor_with_keystream crypto xs key)
  unfolding xor_with_keystream
  xor_twice xs key k =
      let (same, long, clean) = xor_blocks_twice key (length xs) 0 xs (omega arith) k in
      (rw (long) same, long, clean)

  next_on-IsRoute :
      (route : List Bytes)
      → IsRoute route
      → (length (next_on route) ≡ 32) × All IsByte (next_on route)
  next_on-IsRoute [] v = (refl, All-replicate 32 0 (omega arith))
  next_on-IsRoute (hop ∷ hops) (v, vs) = v

  wrap-bytes :
      (route : List Bytes) (payload : Bytes)
      → IsRoute route
      → All IsByte payload
      → All IsByte (wrap crypto route payload)
  unfolding wrap
  wrap-bytes [] payload v k = k
  wrap-bytes (hop ∷ hops) payload (v, vs) k =
      let (size, clean) = next_on-IsRoute hops vs in
      let plain =
        All-append (next_on hops) (wrap crypto hops payload) clean (wrap-bytes hops payload vs k) in
      let (same, long, coded) = xor_twice (next_on hops ++ wrap crypto hops payload) hop plain in
      (omega arith, (omega arith, (omega arith, coded)))

  pub decrypt-wrap :
      (hop : Bytes) (hops : List Bytes) (payload : Bytes)
      → IsRoute hops
      → All IsByte payload
      → decrypt_onion_layer crypto hop (wrap crypto (hop ∷ hops) payload)
        ≡ some (wrap crypto hops payload)
  unfolding decrypt_onion_layer
  decrypt-wrap hop hops payload vs k =
      let (size, clean) = next_on-IsRoute hops vs in
      let inner = wrap crypto hops payload in
      let plain = next_on hops ++ inner in
      let (same, long, coded) =
        xor_twice plain hop
          (All-append (next_on hops) inner clean (wrap-bytes hops payload vs k)) in
      let total = length-append (next_on hops) inner in
      unfold wrap in
      rw (
        le→ltb (length (magic ++ xor_with_keystream crypto plain hop)) 35
            (omega (arith, long, total, size)),
        same,
        le→ltb (length plain) 32 (omega (arith, total, size)),
        ← size,
        drop-append (next_on hops) inner,
      )

-- What the hops of a route get, one after the other.
abbrev pub peel_along : Crypto → List Bytes → Bytes → Option Bytes
peel_along crypto [] layer = some layer
peel_along crypto (hop ∷ hops) layer = elim (decrypt_onion_layer crypto hop layer) [
  | none ↦ none
  | some inner ↦ peel_along crypto hops inner
]

along-wrap :
    (crypto : Crypto)
    → ((m : Bytes) → (length (crypto.hash m) ≡ 32) × All IsByte (crypto.hash m))
    → (route : List Bytes) (payload : Bytes) → IsRoute route
    → All IsByte payload
    → peel_along crypto route (wrap crypto route payload) ≡ some payload
unfolding wrap
along-wrap crypto digest [] payload v k = refl
along-wrap crypto digest (hop ∷ hops) payload (v, vs) k =
    rw (decrypt-wrap crypto digest hop hops payload vs k, peel_along)
      (along-wrap crypto digest hops payload vs k)

-- If digests are 32 bytes, then a payload of bytes gets one layer on a route of at least one hop,
-- whose ids are 32 bytes, and the hops that decrypt it one after the other, each with its own id,
-- are left with the payload.
pub onion_peels :
    (crypto : Crypto)
    → ((m : Bytes) → (length (crypto.hash m) ≡ 32) × All IsByte (crypto.hash m))
    → (hop : Bytes) (hops : List Bytes) (payload : Bytes) → IsRoute (hop ∷ hops)
    → All IsByte payload
    → (layer : Bytes) × (create_onion_layers crypto (hop ∷ hops) payload ≡ layer ∷ [])
      × (peel_along crypto (hop ∷ hops) layer ≡ some payload)
unfolding create_onion_layers
onion_peels crypto digest hop hops payload v k =
    (wrap crypto (hop ∷ hops) payload, refl, along-wrap crypto digest (hop ∷ hops) payload v k)
