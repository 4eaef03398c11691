-- ===== src/Cipher.antt =====
-- The primitives of Go's crypto packages that the code calls, as parameters, with the documented
-- behaviour that the proofs rely on.
use jose.Common.{ℕ, ◌+◌, ◌≡◌, Bool, ◌||◌, ◌==◌, Option, some, Bytes, IsByte, All, length}

-- `crypto/aes` on one block under a key.
pub record BlockCipher : Type 0 where
  pub encrypt : Bytes → Bytes → Bytes
  pub decrypt : Bytes → Bytes → Bytes

-- `aes.NewCipher` accepts keys of 16, 24 and 32 octets.
abbrev pub is_aes_key : Bytes → Bool
is_aes_key key = length key == 16 || length key == 24 || length key == 32

abbrev pub block_size : ℕ
block_size = 16

-- Each key is a permutation of the blocks of 16 octets.
pub record IsBlockCipher (aes : BlockCipher) : Type 0 where
  pub length-encrypt : (key block : Bytes) → length block ≡ 16 → length (aes.encrypt key block) ≡ 16
  pub encrypt-IsByte : (key block : Bytes) → All IsByte block → All IsByte (aes.encrypt key block)
  pub decrypt-encrypt :
      (key block : Bytes)
      → length block ≡ 16
      → All IsByte block
      → aes.decrypt key (aes.encrypt key block) ≡ block
  pub length-decrypt : (key block : Bytes) → length block ≡ 16 → length (aes.decrypt key block) ≡ 16
  pub decrypt-IsByte : (key block : Bytes) → All IsByte block → All IsByte (aes.decrypt key block)
  pub encrypt-decrypt :
      (key block : Bytes)
      → length block ≡ 16
      → All IsByte block
      → aes.encrypt key (aes.decrypt key block) ≡ block

-- `cipher.NewGCM`: nonces of 12 octets, tags of 16 behind the ciphertext.
pub record Gcm : Type 0 where
  pub seal : Bytes → Bytes → Bytes → Bytes → Bytes
  pub open_sealed : Bytes → Bytes → Bytes → Bytes → Option Bytes

abbrev pub nonce_size : ℕ
nonce_size = 12

abbrev pub overhead : ℕ
overhead = 16

pub record IsGcm (gcm : Gcm) : Type 0 where
  pub length-seal :
      (key nonce text aad : Bytes) → length (gcm.seal key nonce text aad) ≡ length text + 16
  pub open-seal :
      (key nonce text aad : Bytes)
      → length nonce ≡ 12
      → gcm.open_sealed key nonce (gcm.seal key nonce text aad) aad ≡ some text
