-- ===== src/Cbc.antt =====
-- `cipher.NewCBCEncrypter` and `NewCBCDecrypter` over AES: `CryptBlocks` on whole blocks.
pub mod RoundTrip
use jose.Common.{ℕ, zero, suc, ◌/◌, List, [], ◌∷◌, ◌++◌, Bytes, length, take, drop}
use jose.Common.Octets.{xor_octets}
use jose.Cipher.{BlockCipher}

module _ (aes : BlockCipher) (key : Bytes) where
  -- On the blocks left; the block before is the initialisation vector, then the last ciphertext.
  pub encrypt_blocks : ℕ → Bytes → Bytes → Bytes
  encrypt_blocks zero before text = []
  encrypt_blocks (suc n) before text =
      let c = aes.encrypt key (xor_octets (take 16 text) before) in
      c ++ encrypt_blocks n c (drop 16 text)

  pub decrypt_blocks : ℕ → Bytes → Bytes → Bytes
  decrypt_blocks zero before text = []
  decrypt_blocks (suc n) before text =
      let c = take 16 text in
      xor_octets (aes.decrypt key c) before ++ decrypt_blocks n c (drop 16 text)

  pub cbc_encrypt : Bytes → Bytes → Bytes
  cbc_encrypt iv text = encrypt_blocks (length text / 16) iv text

  pub cbc_decrypt : Bytes → Bytes → Bytes
  cbc_decrypt iv text = decrypt_blocks (length text / 16) iv text
