-- ===== src/ContentEnc/Failures.antt =====
-- What a failing decryption shows, and what a successful one has checked.
use jose.Common.{
  ap₂, ◌∙◌, ◌*◌, ◌^◌, take, drop, length-take, ℕ, ◌+◌, ◌/◌, ◌%◌, ◌≡◌, ◌⊎◌, sym, true, not, ◌||◌,
  ◌==◌, some, ◌++◌, Bytes, All, length, length-drop, lookup, lookup-All, eqb, eqb_iff, arith,
  Option-cases, Bool-cases, inl, inr,
}
use jose.Common.Outcome.{Result, ok, err, guard, >>=-eq-ok}
use jose.Common.Octets.{put_uint64}
use jose.Errors.{Error, invalid_key, decrypt_failed}
use jose.Hashing.{Hash}
use jose.Cipher.{is_aes_key}
use jose.Pkcs7.RoundTrip.{pkcs7_unpad_iff}
use jose.Pkcs7.{pkcs7_pad, pkcs7_unpad}
use jose.Cbc.{cbc_decrypt}
use jose.ContentEnc.{
  Mode, gcm, cbc_hmac, ContentEnc, content_encs, lookup_enc, Primitives, Sealed, cbc_split, cbc_al,
  cbc_tag, decrypt_gcm, decrypt_cbc_hmac, decrypt_mode, decrypt,
}

-- The key sizes of the table: an AES key, or two of them.
abbrev pub IsKeySize : Mode → ℕ → Type 0
IsKeySize gcm n = (n ≡ 16) ⊎ ((n ≡ 24) ⊎ (n ≡ 32))
IsKeySize (cbc_hmac h) n = (n ≡ 32) ⊎ ((n ≡ 48) ⊎ (n ≡ 64))

table_sizes : All (λ (e : Bytes × ContentEnc). IsKeySize e.1.mode e.1.key_size) content_encs
unfolding content_encs
table_sizes = omega arith

pub lookup_enc-IsKeySize :
    (name : Bytes) (ce : ContentEnc) → lookup_enc name ≡ ok ce → IsKeySize ce.mode ce.key_size
unfolding lookup_enc
lookup_enc-IsKeySize name ce h = elim (Option-cases (lookup name content_encs)) [
  | inl e ↦ absurd (ground (arith, e))
  | inr (found, e) ↦
      let same : found ≡ ce = ground (arith, e) in
      rw (← same) (lookup-All (λ c. IsKeySize c.mode c.key_size) content_encs name table_sizes e)
]

-- The octets under the MAC, by RFC 7518 5.2.2.1: the additional data, the initialisation vector, the ciphertext,
-- and the length of the additional data in bits as 64 bits, big-endian.
abbrev pub mac_input : Bytes → Sealed → Bytes
mac_input aad s = aad ++ (s.iv ++ (s.ciphertext ++ put_uint64 (8 * length aad % 2 ^ 64)))

-- The first half of the key is the MAC key, and the tag is the start of the MAC, as long as that key.
abbrev pub IsTag : Primitives → Hash → Bytes → Bytes → Sealed → Type 0
IsTag p h cek aad s =
    s.tag ≡ take (length cek / 2) (p.hashing.hmac h (take (length cek / 2) cek) (mac_input aad s))

-- The plaintext, or the one error that all cryptographic failures share.
abbrev pub IsUniform : Result Error Bytes → Type 0
IsUniform r = ((out : Bytes) × (r ≡ ok out)) ⊎ (r ≡ err decrypt_failed)

pub second_half : (cek : Bytes) → length (cbc_split cek).1 + length cek / 2 ≡ length cek
unfolding cbc_split
second_half cek = omega (arith, length-drop (length cek / 2) cek)

module _ (p : Primitives) (cek : Bytes) (s : Sealed) (aad : Bytes) where
  gcm-IsUniform : is_aes_key cek ≡ true → IsUniform (decrypt_gcm p cek s aad)
  unfolding decrypt_gcm
  gcm-IsUniform key =
      elim (Bool-cases (not (not (length s.iv == 12) || not (length s.tag == 16)))) [
        | inl shape ↦
            elim (Option-cases (p.aead.open_sealed cek s.iv (s.ciphertext ++ s.tag) aad)) [
              | inl e ↦ inr (ground arith)
              | inr (out, e) ↦ inl (out, ground arith)
            ]
        | inr shape ↦ inr (ground arith)
      ]

  cbc-IsUniform :
      (h : Hash) → is_aes_key (cbc_split cek).1 ≡ true → IsUniform (decrypt_cbc_hmac p h cek s aad)
  unfolding decrypt_cbc_hmac
  cbc-IsUniform h key =
      elim (Option-cases (pkcs7_unpad (cbc_decrypt p.aes (cbc_split cek).1 s.iv s.ciphertext) 16)) [
        | inl e ↦ inr (ground arith)
        | inr (out, e) ↦
            elim (Bool-cases (eqb s.tag (cbc_tag p h (cbc_split cek).0 s.iv s.ciphertext aad))) [
              | inl same ↦
                  elim (Bool-cases (
                    not (
                      not (length s.iv == 16)
                      || length s.ciphertext == 0
                      || not (length s.ciphertext % 16 == 0)))) [
                        | inl shape ↦ inl (out, ground arith)
                        | inr shape ↦ inr (ground arith)
                      ]
              | inr other ↦ inr (ground arith)
            ]
      ]

  mode-IsUniform : (m : Mode) → IsKeySize m (length cek) → IsUniform (decrypt_mode p m cek s aad)
  unfolding decrypt_mode
  mode-IsUniform gcm h = gcm-IsUniform (ground arith)
  mode-IsUniform (cbc_hmac hash) h = cbc-IsUniform hash (ground (arith, second_half cek))

  -- With an algorithm of the table and a key of its size, decryption returns a plaintext or
  -- `ErrDecryptFailed`, and no other error.
  pub decrypt-IsUniform :
      (name : Bytes) (ce : ContentEnc)
      → lookup_enc name ≡ ok ce
      → length cek ≡ ce.key_size
      → IsUniform (decrypt p ce cek s aad)
  unfolding decrypt
  decrypt-IsUniform name ce found size =
      let test : (length cek == ce.key_size) ≡ true = ground arith in
      rw test (mode-IsUniform ce.mode (rw size (lookup_enc-IsKeySize name ce found)))

  -- What a successful AES-CBC decryption has checked.
  IsAuthentic : Hash → Bytes → Type 0
  IsAuthentic h out =
      (s.tag ≡ cbc_tag p h (cbc_split cek).0 s.iv s.ciphertext aad)
      × (length s.iv ≡ 16)
      × (pkcs7_unpad (cbc_decrypt p.aes (cbc_split cek).1 s.iv s.ciphertext) 16 ≡ some out)

  cbc-IsAuthentic :
      (h : Hash) (out : Bytes) → decrypt_cbc_hmac p h cek s aad ≡ ok out → IsAuthentic h out
  unfolding decrypt_cbc_hmac IsAuthentic
  cbc-IsAuthentic h out e =
      let tag = cbc_tag p h (cbc_split cek).0 s.iv s.ciphertext aad in
      elim (Option-cases (pkcs7_unpad (cbc_decrypt p.aes (cbc_split cek).1 s.iv s.ciphertext) 16)) [
        | inl bad ↦ absurd (ground arith)
        | inr (found, good) ↦ (ground (arith, eqb_iff s.tag tag), ground arith, ground arith)
      ]

  cbc_tag-IsTag :
      (h : Hash) → s.tag ≡ cbc_tag p h (cbc_split cek).0 s.iv s.ciphertext aad → IsTag p h cek aad s
  unfolding cbc_tag cbc_split cbc_al
  cbc_tag-IsTag h e =
      let half : length (take (length cek / 2) cek) ≡ length cek / 2 =
        omega (arith, length-take (length cek / 2) cek) in
      let bits : length aad % 2 ^ 64 * 8 % 2 ^ 64 ≡ 8 * length aad % 2 ^ 64 = omega arith in
      e
      ∙ ap₂
          (λ n b. take n (
            p.hashing.hmac h (take (length cek / 2) cek)
              (aad ++ (s.iv ++ (s.ciphertext ++ put_uint64 b)))))
          half bits

  -- A plaintext comes out of AES-CBC with HMAC only if the tag is the start of the MAC, under the first half of
  -- the key, of the additional data, the initialisation vector, the ciphertext and the bit length of the
  -- additional data; and then the ciphertext, decrypted under the second half, is the plaintext padded.
  pub decrypt_authentic :
      (ce : ContentEnc) (h : Hash) (out : Bytes)
      → ce.mode ≡ cbc_hmac h
      → decrypt p ce cek s aad ≡ ok out
      → IsTag p h cek aad s
        × (length s.iv ≡ 16)
        × (cbc_decrypt p.aes (drop (length cek / 2) cek) s.iv s.ciphertext ≡ pkcs7_pad out 16)
  unfolding decrypt decrypt_mode IsAuthentic cbc_split
  decrypt_authentic ce h out m e =
      let (_, _, run) =
        >>=-eq-ok (guard (length cek == ce.key_size) invalid_key)
          (λ _. decrypt_mode p ce.mode cek s aad) e in
      let (tag, iv, unpadded) = cbc-IsAuthentic h out (rw m at run) in
      (cbc_tag-IsTag h tag, iv, sym ((pkcs7_unpad_iff _ out).0 unpadded))
