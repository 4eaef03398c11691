-- ===== src/ContentEnc.antt =====
-- contentenc.go: the content encryption algorithms, AES-GCM and AES-CBC with HMAC-SHA-2.
pub mod Tests
pub mod RoundTrip
pub mod Total
pub mod Octets
pub mod Failures
use jose.Common.{
  ℕ, zero, suc, ◌+◌, ◌-◌, ◌*◌, ◌/◌, ◌%◌, ◌^◌, Bool, true, false, not, ◌||◌, Option, none, some,
  List, [], ◌∷◌, ◌++◌, ◌==◌, if◌then◌else◌, Bytes, codes, eqb, lookup, length, take, drop,
}
use jose.Common.Octets.{put_uint64}
use jose.Common.Outcome.{Result, ok, err, ◌>>=◌, ◌>>◌, guard}
use jose.Errors.{Error, invalid_key, decrypt_failed, unsupported_encryption, external}
use jose.Hashing.{Hash, Hashing, sha256, sha384, sha512}
use jose.Cipher.{BlockCipher, Gcm, is_aes_key, nonce_size, overhead}
use jose.Pkcs7.{pkcs7_pad, pkcs7_unpad}
use jose.Cbc.{cbc_encrypt, cbc_decrypt}

-- How an algorithm protects the content: AES-GCM, or AES-CBC with a MAC of this hash.
pub data Mode : Type 0 where
  gcm : Mode
  cbc_hmac : Hash → Mode

pub record ContentEnc : Type 0 where
  pub name : Bytes
  pub key_size : ℕ
  pub mode : Mode

abbrev content_enc : Bytes → ℕ → Mode → Bytes × ContentEnc
content_enc name size mode = (name, record { name = name; key_size = size; mode = mode })

unfoldable pub content_encs : List (Bytes × ContentEnc)
content_encs =
    content_enc (codes "A128CBC-HS256") 32 (cbc_hmac sha256)
    ∷ content_enc (codes "A192CBC-HS384") 48 (cbc_hmac sha384)
    ∷ content_enc (codes "A256CBC-HS512") 64 (cbc_hmac sha512)
    ∷ content_enc (codes "A128GCM") 16 gcm
    ∷ content_enc (codes "A192GCM") 24 gcm
    ∷ content_enc (codes "A256GCM") 32 gcm
    ∷ []

unfoldable pub lookup_enc : Bytes → Result Error ContentEnc
lookup_enc enc = elim (lookup enc content_encs) [
  | none ↦ err unsupported_encryption
  | some ce ↦ ok ce
]

pub content_encryption_key_size : Bytes → Result Error ℕ
content_encryption_key_size enc = elim (lookup enc content_encs) [
  | none ↦ err unsupported_encryption
  | some ce ↦ ok ce.key_size
]

-- The libraries that the package calls for content encryption.
pub record Primitives : Type 0 where
  pub aes : BlockCipher
  pub aead : Gcm
  pub hashing : Hashing

-- `rand.Read` into a slice of this length: the octets read, or a failure.
abbrev pub Random : Type 0
Random = ℕ → Option Bytes

unfoldable pub read_random : Random → ℕ → Result Error Bytes
read_random random n = elim (random n) [ none ↦ err external | some iv ↦ ok iv ]

-- Initialisation vector, ciphertext and tag.
pub record Sealed : Type 0 where
  pub iv : Bytes
  pub ciphertext : Bytes
  pub tag : Bytes

-- MAC key first, encryption key second.
pub cbc_split : Bytes → Bytes × Bytes
cbc_split cek = let h = length cek / 2 in (take h cek, drop h cek)

-- The bit length of the additional data, a 64-bit big-endian integer.
pub cbc_al : Bytes → Bytes
cbc_al aad = put_uint64 (length aad % 2 ^ 64 * 8 % 2 ^ 64)

module _ (p : Primitives) where
  pub cbc_tag : Hash → Bytes → Bytes → Bytes → Bytes → Bytes
  cbc_tag h mac_key iv ciphertext aad =
      take (length mac_key) (p.hashing.hmac h mac_key (aad ++ (iv ++ (ciphertext ++ cbc_al aad))))

  unfoldable pub encrypt_gcm : Random → Bytes → Bytes → Bytes → Result Error Sealed
  encrypt_gcm random cek plaintext aad = do
    guard (is_aes_key cek) invalid_key
    iv ← read_random random nonce_size
    let sealed = p.aead.seal cek iv plaintext aad
    let n = length sealed - overhead
    ok (record { iv = iv; ciphertext = take n sealed; tag = drop n sealed })

  unfoldable pub decrypt_gcm : Bytes → Sealed → Bytes → Result Error Bytes
  decrypt_gcm cek s aad = do
    guard (is_aes_key cek) invalid_key
    guard (not (not (length s.iv == nonce_size) || not (length s.tag == overhead))) decrypt_failed
    elim (p.aead.open_sealed cek s.iv (s.ciphertext ++ s.tag) aad) [
      | none ↦ err decrypt_failed
      | some out ↦ ok out
    ]

  pub encrypt_cbc_hmac : Hash → Random → Bytes → Bytes → Bytes → Result Error Sealed
  encrypt_cbc_hmac h random cek plaintext aad = do
    let (mac_key, enc_key) = cbc_split cek
    guard (is_aes_key enc_key) invalid_key
    iv ← read_random random 16
    let ciphertext = cbc_encrypt p.aes enc_key iv (pkcs7_pad plaintext 16)
    ok (record { iv = iv; ciphertext = ciphertext; tag = cbc_tag h mac_key iv ciphertext aad })

  -- The tag is compared before the ciphertext is touched.
  pub decrypt_cbc_hmac : Hash → Bytes → Sealed → Bytes → Result Error Bytes
  decrypt_cbc_hmac h cek s aad = do
    let (mac_key, enc_key) = cbc_split cek
    guard
        (not (
          not (length s.iv == 16)
          || length s.ciphertext == 0
          || not (length s.ciphertext % 16 == 0)))
        decrypt_failed
    guard (eqb s.tag (cbc_tag h mac_key s.iv s.ciphertext aad)) decrypt_failed
    guard (is_aes_key enc_key) invalid_key
    elim (pkcs7_unpad (cbc_decrypt p.aes enc_key s.iv s.ciphertext) 16) [
      | none ↦ err decrypt_failed
      | some out ↦ ok out
    ]

  unfoldable pub encrypt_mode : Mode → Random → Bytes → Bytes → Bytes → Result Error Sealed
  encrypt_mode gcm random cek plaintext aad = encrypt_gcm random cek plaintext aad
  encrypt_mode (cbc_hmac h) random cek plaintext aad = encrypt_cbc_hmac h random cek plaintext aad

  unfoldable pub decrypt_mode : Mode → Bytes → Sealed → Bytes → Result Error Bytes
  decrypt_mode gcm cek s aad = decrypt_gcm cek s aad
  decrypt_mode (cbc_hmac h) cek s aad = decrypt_cbc_hmac h cek s aad

  unfoldable pub encrypt : ContentEnc → Random → Bytes → Bytes → Bytes → Result Error Sealed
  encrypt ce random cek plaintext aad = do
    guard (length cek == ce.key_size) invalid_key
    encrypt_mode ce.mode random cek plaintext aad

  unfoldable pub decrypt : ContentEnc → Bytes → Sealed → Bytes → Result Error Bytes
  decrypt ce cek s aad = do
    guard (length cek == ce.key_size) invalid_key
    decrypt_mode ce.mode cek s aad
