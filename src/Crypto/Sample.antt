-- ===== src/Crypto/Sample.antt =====
-- A toy instance of the cryptography, for the examples: a digest of 32 bytes that holds the sum of
-- the bytes, and signatures that carry the message and the key.
use cashew.Prelude.{
  ℕ, ◌+◌, ◌%◌, ◌≡◌, true, Bytes, [], ◌∷◌, ◌++◌, replicate, bytes_eq, bytes_ordered, beq_refl,
}
use cashew.Crypto.{Crypto}

abbrev pub sum : Bytes → ℕ
sum [] = 0
sum (b ∷ bs) = b + sum bs

abbrev pub toy : Crypto
toy = record {
  hash = λ b. replicate 31 0 ++ (sum b % 256) ∷ [];
  sign = λ m k. m ++ k;
  verify = λ m s k. bytes_eq s (m ++ k);
}

pub toy_pair : (secret message : Bytes) → toy.verify message (toy.sign message secret) secret ≡ true
toy_pair secret message = beq_refl (message ++ secret)

-- two nodes
abbrev pub alice : Bytes
alice = replicate 32 1

abbrev pub bob : Bytes
bob = replicate 32 2
