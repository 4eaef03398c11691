-- ===== src/ContentEnc/Total.antt =====
-- Content is sealed whenever the key has the size of the algorithm, and opens again.
use jose.Common.{◌≡◌, inl, inr, ◌==◌, true, some, ℕ, Bytes, IsByte, All, length, arith}
use jose.Common.Outcome.{ok, Result-cases}
use jose.Hashing.{Hash}
use jose.Cipher.{is_aes_key}
use jose.ContentEnc.{
  Mode, gcm, cbc_hmac, ContentEnc, Primitives, Random, read_random, Sealed, cbc_split, lookup_enc,
  encrypt_gcm, encrypt_cbc_hmac, encrypt_mode, encrypt, decrypt,
}
use jose.ContentEnc.RoundTrip.{IsPrimitives, IsRandom, decrypt-encrypt}
use jose.ContentEnc.Failures.{IsKeySize, lookup_enc-IsKeySize, second_half}

-- The random source does not fail.
abbrev pub Reads : Random → Type 0
Reads random = (n : ℕ) → (b : Bytes) × (random n ≡ some b)

module _ (p : Primitives) (random : Random) (reads : Reads random) (cek plaintext aad : Bytes) where
  gcm_seals : is_aes_key cek ≡ true → (s : Sealed) × (encrypt_gcm p random cek plaintext aad ≡ ok s)
  unfolding encrypt_gcm read_random
  gcm_seals key = elim (Result-cases (encrypt_gcm p random cek plaintext aad)) [
    | inl sealed ↦ sealed
    | inr (e, bad) ↦ absurd (ground (arith, key, (reads 12).1))
  ]

  cbc_seals :
      (h : Hash)
      → is_aes_key (cbc_split cek).1 ≡ true
      → (s : Sealed) × (encrypt_cbc_hmac p h random cek plaintext aad ≡ ok s)
  unfolding encrypt_cbc_hmac read_random
  cbc_seals h key = elim (Result-cases (encrypt_cbc_hmac p h random cek plaintext aad)) [
    | inl sealed ↦ sealed
    | inr (e, bad) ↦ absurd (ground (arith, key, (reads 16).1))
  ]

  mode_seals :
      (m : Mode)
      → IsKeySize m (length cek)
      → (s : Sealed) × (encrypt_mode p m random cek plaintext aad ≡ ok s)
  unfolding encrypt_mode
  mode_seals gcm h = gcm_seals (ground arith)
  mode_seals (cbc_hmac hash) h = cbc_seals hash (ground (arith, second_half cek))

module _ (p : Primitives) (laws : IsPrimitives p) (random : Random) (source : IsRandom random)
    (reads : Reads random) (cek plaintext aad : Bytes) where
  -- With the library primitives as documented and a random source that does not fail, `encrypt`
  -- seals any octets under an algorithm of the table and a key of its size, and `decrypt` with the
  -- same key and additional data gives them back.
  pub encrypt_total :
      (name : Bytes) (ce : ContentEnc)
      → lookup_enc name ≡ ok ce
      → length cek ≡ ce.key_size
      → All IsByte plaintext
      → (s : Sealed) × (encrypt p ce random cek plaintext aad ≡ ok s)
        × (decrypt p ce cek s aad ≡ ok plaintext)
  unfolding encrypt
  encrypt_total name ce found size octets =
      let (s, sealed) =
        mode_seals p random reads cek plaintext aad ce.mode
          (rw size (lookup_enc-IsKeySize name ce found)) in
      let test : (length cek == ce.key_size) ≡ true = ground arith in
      let made : encrypt p ce random cek plaintext aad ≡ ok s = rw test sealed in
      (s, made, decrypt-encrypt p laws random source cek plaintext aad ce s octets made)
