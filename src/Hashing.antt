-- ===== src/Hashing.antt =====
-- The hash functions of crypto/sha1, sha256 and sha512 and crypto/hmac, as parameters.
use jose.Common.{ℕ, ◌≡◌, Bytes, length}

pub data Hash : Type 0 where
  sha1 sha256 sha384 sha512 : Hash

-- The output length in octets.
unfoldable pub hash_size : Hash → ℕ
hash_size sha1 = 20
hash_size sha256 = 32
hash_size sha384 = 48
hash_size sha512 = 64

-- `sum h` is a digest of all that was written, `hmac h key` a MAC of it.
pub record Hashing : Type 0 where
  pub sum : Hash → Bytes → Bytes
  pub hmac : Hash → Bytes → Bytes → Bytes

pub record IsHashing (hs : Hashing) : Type 0 where
  pub length-sum : (h : Hash) (input : Bytes) → length (hs.sum h input) ≡ hash_size h
  pub length-hmac : (h : Hash) (key input : Bytes) → length (hs.hmac h key input) ≡ hash_size h
