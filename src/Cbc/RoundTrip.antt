-- ===== src/Cbc/RoundTrip.antt =====
-- CBC decryption undoes CBC encryption.
use jose.Common.{
  ℕ, zero, suc, ◌*◌, ◌/◌, ◌%◌, ◌≡◌, ◌≤◌, refl, sym, ap, ap₂, ◌∙◌, [], ◌∷◌, ◌++◌, Bytes, IsByte, All,
  length, take, drop, length-append, length-take, length-drop, take-append, drop-append,
  take-append-drop, All-append, All-take, All-drop, arith,
}
use jose.Common.Octets.{xor_octets, xor_octets_cancel, length-xor_octets, xor_octets-IsByte}
use jose.Cipher.{BlockCipher, IsBlockCipher}
use jose.Cbc.{encrypt_blocks, decrypt_blocks, cbc_encrypt, cbc_decrypt}

module _ (aes : BlockCipher) (laws : IsBlockCipher aes) (key : Bytes) where
  first : Bytes → Bytes → Bytes
  first before text = aes.encrypt key (xor_octets (take 16 text) before)

  length-first : (before text : Bytes) → 16 ≤ length text → length (first before text) ≡ 16
  unfolding first
  length-first before text h =
      laws.length-encrypt key _
        (length-xor_octets (take 16 text) before ∙ omega (arith, length-take 16 text))

  first-IsByte :
      (before text : Bytes) → All IsByte before → All IsByte text → All IsByte (first before text)
  unfolding first
  first-IsByte before text hb ht =
      laws.encrypt-IsByte key _
        (xor_octets-IsByte (take 16 text) before (All-take IsByte 16 text ht) hb)

  decrypt-first :
      (before text : Bytes)
      → 16 ≤ length text
      → All IsByte before
      → All IsByte text
      → xor_octets (aes.decrypt key (first before text)) before ≡ take 16 text
  unfolding first
  decrypt-first before text h hb ht =
      let block = xor_octets (take 16 text) before in
      ap (λ (x : Bytes). xor_octets x before)
        (laws.decrypt-encrypt key block
          (length-xor_octets (take 16 text) before ∙ omega (arith, length-take 16 text))
          (xor_octets-IsByte (take 16 text) before (All-take IsByte 16 text ht) hb))
      ∙ xor_octets_cancel (take 16 text) before

  length-encrypt_blocks :
      (n : ℕ) (before text : Bytes)
      → length text ≡ n * 16
      → length (encrypt_blocks aes key n before text) ≡ n * 16
  unfolding encrypt_blocks first
  length-encrypt_blocks zero before text h = omega arith
  length-encrypt_blocks (suc n) before text h =
      let c = first before text in
      let rest = length-encrypt_blocks n c (drop 16 text) (omega (arith, h, length-drop 16 text)) in
      length-append c (encrypt_blocks aes key n c (drop 16 text))
      ∙ omega (arith, rest, length-first before text (omega arith))

  encrypt_blocks-IsByte :
      (n : ℕ) (before text : Bytes)
      → All IsByte before
      → All IsByte text
      → All IsByte (encrypt_blocks aes key n before text)
  unfolding encrypt_blocks first
  encrypt_blocks-IsByte zero before text hb ht = tt
  encrypt_blocks-IsByte (suc n) before text hb ht =
      let c = first-IsByte before text hb ht in
      All-append IsByte (first before text) _ c
        (encrypt_blocks-IsByte n (first before text) (drop 16 text) c (All-drop IsByte 16 text ht))

  pub cbc_encrypt-IsByte :
      (iv text : Bytes) → All IsByte iv → All IsByte text → All IsByte (cbc_encrypt aes key iv text)
  unfolding cbc_encrypt
  cbc_encrypt-IsByte iv text hb ht = encrypt_blocks-IsByte (length text / 16) iv text hb ht

  decrypt_blocks-encrypt_blocks :
      (n : ℕ) (before text : Bytes)
      → length text ≡ n * 16
      → All IsByte before
      → All IsByte text
      → decrypt_blocks aes key n before (encrypt_blocks aes key n before text) ≡ text
  unfolding encrypt_blocks decrypt_blocks first
  decrypt_blocks-encrypt_blocks zero before [] h hb ht = refl
  decrypt_blocks-encrypt_blocks zero before (x ∷ text) h hb ht = absurd (omega arith)
  decrypt_blocks-encrypt_blocks (suc n) before text h hb ht =
      let c = first before text in
      let c16 = sym (length-first before text (omega arith)) in
      let rest = encrypt_blocks aes key n c (drop 16 text) in
      ap₂ (λ (x y : Bytes). xor_octets (aes.decrypt key x) before ++ decrypt_blocks aes key n x y)
        (take-append c rest 16 c16) (drop-append c rest 16 c16)
      ∙ ap₂ ◌++◌ (decrypt-first before text (omega arith) hb ht) (
          decrypt_blocks-encrypt_blocks n c (drop 16 text) (omega (arith, h, length-drop 16 text))
            (first-IsByte before text hb ht) (All-drop IsByte 16 text ht))
      ∙ take-append-drop 16 text

  module _ (iv text : Bytes) (whole : length text % 16 ≡ 0) where
    pub length-cbc_encrypt : length (cbc_encrypt aes key iv text) ≡ length text
    unfolding cbc_encrypt
    length-cbc_encrypt =
        length-encrypt_blocks (length text / 16) iv text (omega (arith, whole))
        ∙ omega (arith, whole)

    pub cbc_decrypt-cbc_encrypt :
        All IsByte iv
        → All IsByte text
        → cbc_decrypt aes key iv (cbc_encrypt aes key iv text) ≡ text
    unfolding cbc_decrypt
    cbc_decrypt-cbc_encrypt hb ht =
        let n = length text / 16 in
        let count : length (cbc_encrypt aes key iv text) / 16 ≡ n =
          ap (λ (t : ℕ). t / 16) length-cbc_encrypt in
        ap (λ (k : ℕ). decrypt_blocks aes key k iv (cbc_encrypt aes key iv text)) count
        ∙ unfold cbc_encrypt in decrypt_blocks-encrypt_blocks n iv text (omega (arith, whole)) hb ht
