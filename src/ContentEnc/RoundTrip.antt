-- ===== src/ContentEnc/RoundTrip.antt =====
-- Content that `encrypt` produced is what `decrypt` returns.
use jose.Common.{
  ℕ, ◌-◌, ◌≡◌, refl, true, some, Bytes, IsByte, All, length, take, drop, length-drop,
  take-append-drop, eqb_refl, arith, Option-cases, inl, inr,
}
use jose.Common.Outcome.{ok}
use jose.Hashing.{Hash, IsHashing}
use jose.Cipher.{IsBlockCipher, IsGcm, is_aes_key}
use jose.Pkcs7.{pkcs7_pad}
use jose.Pkcs7.RoundTrip.{pkcs7_unpad_iff, length-pkcs7_pad, pkcs7_pad-IsByte}
use jose.Cbc.{cbc_encrypt}
use jose.Cbc.RoundTrip.{cbc_decrypt-cbc_encrypt, length-cbc_encrypt}
use jose.ContentEnc.{
  Mode, gcm, cbc_hmac, ContentEnc, Primitives, Random, read_random, Sealed, cbc_split, cbc_tag,
  encrypt_gcm, decrypt_gcm, encrypt_cbc_hmac, decrypt_cbc_hmac, encrypt_mode, decrypt_mode, encrypt,
  decrypt,
}

-- The libraries do what they document, and the random source returns octets, as many as asked for.
pub record IsPrimitives (p : Primitives) : Type 0 where
  pub aes : IsBlockCipher p.aes
  pub aead : IsGcm p.aead
  pub hashing : IsHashing p.hashing

pub record IsRandom (random : Random) : Type 0 where
  pub length-read : (n : ℕ) (b : Bytes) → random n ≡ some b → length b ≡ n
  pub read-IsByte : (n : ℕ) (b : Bytes) → random n ≡ some b → All IsByte b

module _ (p : Primitives) (laws : IsPrimitives p) (random : Random) (source : IsRandom random)
    (cek plaintext aad : Bytes) where
  random-ok : (n : ℕ) {b : Bytes} → read_random random n ≡ ok b → random n ≡ some b
  unfolding read_random
  random-ok n h = ground arith

  -- A successful run drew an initialisation vector and sealed the plaintext under it.
  pub encrypt_gcm-ok :
      (s : Sealed)
      → encrypt_gcm p random cek plaintext aad ≡ ok s
      → (iv : Bytes) × (random 12 ≡ some iv)
        × (is_aes_key cek ≡ true)
        × (s.iv ≡ iv)
        × (let sealed = p.aead.seal cek iv plaintext aad in
            (s.ciphertext ≡ take (length sealed - 16) sealed)
            × (s.tag ≡ drop (length sealed - 16) sealed))
  unfolding encrypt_gcm read_random
  encrypt_gcm-ok s h = elim (Option-cases (random 12)) [
    | inl e ↦ absurd (ground arith)
    | inr (iv, e) ↦ (iv, e, ground arith, ground arith, (ground arith, ground arith))
  ]

  decrypt_gcm-encrypt_gcm :
      (s : Sealed)
      → encrypt_gcm p random cek plaintext aad ≡ ok s
      → decrypt_gcm p cek s aad ≡ ok plaintext
  unfolding decrypt_gcm
  decrypt_gcm-encrypt_gcm s h =
      let (iv, e, key, iv_eq, (text_eq, tag_eq)) = encrypt_gcm-ok s h in
      let sealed = p.aead.seal cek iv plaintext aad in
      let long = laws.aead.length-seal cek iv plaintext aad in
      let nonce = source.length-read 12 iv e in
      let tag : length (drop (length sealed - 16) sealed) ≡ 16 =
        omega (arith, long, length-drop (length sealed - 16) sealed) in
      rw
        (
          iv_eq,
          text_eq,
          tag_eq,
          take-append-drop (length sealed - 16) sealed,
          laws.aead.open-seal cek iv plaintext aad nonce,
        )
        (ground (arith, key, nonce, tag))

  pub encrypt_cbc_hmac-ok :
      (h : Hash) (s : Sealed)
      → encrypt_cbc_hmac p h random cek plaintext aad ≡ ok s
      → (iv : Bytes) × (random 16 ≡ some iv)
        × (is_aes_key (cbc_split cek).1 ≡ true)
        × (s.iv ≡ iv)
        × (s.ciphertext ≡ cbc_encrypt p.aes (cbc_split cek).1 iv (pkcs7_pad plaintext 16))
        × (s.tag
            ≡ cbc_tag p h
                (cbc_split cek).0
                iv
                (cbc_encrypt p.aes (cbc_split cek).1 iv (pkcs7_pad plaintext 16))
                aad)
  unfolding encrypt_cbc_hmac read_random
  encrypt_cbc_hmac-ok h s e = elim (Option-cases (random 16)) [
    | inl none_read ↦ absurd (ground arith)
    | inr (iv, read) ↦ (iv, read, ground arith, ground arith, ground arith, ground arith)
  ]

  decrypt_cbc_hmac-encrypt_cbc_hmac :
      (h : Hash) (s : Sealed)
      → All IsByte plaintext
      → encrypt_cbc_hmac p h random cek plaintext aad ≡ ok s
      → decrypt_cbc_hmac p h cek s aad ≡ ok plaintext
  unfolding decrypt_cbc_hmac
  decrypt_cbc_hmac-encrypt_cbc_hmac h s octets e =
      let (iv, read, key, iv_eq, text_eq, tag_eq) = encrypt_cbc_hmac-ok h s e in
      let enc_key = (cbc_split cek).1 in
      let padded = pkcs7_pad plaintext 16 in
      let (whole, longer, _) = length-pkcs7_pad plaintext in
      let size = length-cbc_encrypt p.aes laws.aes enc_key iv padded whole in
      let back =
        cbc_decrypt-cbc_encrypt p.aes laws.aes enc_key iv padded whole
          (source.read-IsByte 16 iv read) (pkcs7_pad-IsByte plaintext 16 octets) in
      rw (iv_eq, text_eq, tag_eq, back, (pkcs7_unpad_iff padded plaintext).1 refl, eqb_refl)
        (ground (arith, key, source.length-read 16 iv read, size, whole, longer))

  decrypt_mode-encrypt_mode :
      (m : Mode) (s : Sealed)
      → All IsByte plaintext
      → encrypt_mode p m random cek plaintext aad ≡ ok s
      → decrypt_mode p m cek s aad ≡ ok plaintext
  unfolding encrypt_mode decrypt_mode
  decrypt_mode-encrypt_mode gcm s octets e = decrypt_gcm-encrypt_gcm s e
  decrypt_mode-encrypt_mode (cbc_hmac h) s octets e = decrypt_cbc_hmac-encrypt_cbc_hmac h s octets e

  -- With the library primitives as documented, `decrypt` returns the plaintext from what `encrypt`
  -- produced with the same key and additional data, for every algorithm.
  pub decrypt-encrypt :
      (ce : ContentEnc) (s : Sealed)
      → All IsByte plaintext
      → encrypt p ce random cek plaintext aad ≡ ok s
      → decrypt p ce cek s aad ≡ ok plaintext
  unfolding encrypt decrypt
  decrypt-encrypt ce s octets e = ground (arith, decrypt_mode-encrypt_mode ce.mode s octets)
