-- ===== src/ContentEnc/Tests.antt =====
-- Runs of contentenc.go with concrete primitives.
use jose.Common.{◌≡◌, refl, Bytes, codes, replicate, length, lookup, eqb, arith, drop, take}
use jose.Common.Outcome.{ok}
use jose.Hashing.{sha256}
use jose.Cbc.{cbc_encrypt, cbc_decrypt}
use jose.Pkcs7.{pkcs7_pad}
use jose.ContentEnc.{
  ContentEnc, cbc_hmac, Sealed, content_encs, lookup_enc, read_random, cbc_split, cbc_tag, encrypt,
  decrypt, encrypt_mode, encrypt_cbc_hmac,
}
use jose.ContentEnc.RoundTrip.{decrypt-encrypt}
use jose.ContentEnc.Total.{encrypt_total}
use jose.ContentEnc.Failures.{IsTag, IsUniform, decrypt-IsUniform, decrypt_authentic}
use jose.Samples.{primitives, primitives-IsPrimitives, random, random-IsRandom}

abbrev cek : Bytes
cek = replicate 32 1

abbrev text : Bytes
text = codes "attack at dawn"

abbrev aad : Bytes
aad = codes "header"

abbrev cbc : ContentEnc
cbc = record { name = codes "A128CBC-HS256"; key_size = 32; mode = cbc_hmac sha256 }

abbrev ciphertext : Bytes
ciphertext = cbc_encrypt primitives.aes (drop 16 cek) (replicate 16 9) (pkcs7_pad text 16)

abbrev tag : Bytes
tag = cbc_tag primitives sha256 (take 16 cek) (replicate 16 9) ciphertext aad

abbrev sealed : Sealed
sealed = record { iv = replicate 16 9; ciphertext = ciphertext; tag = tag }

found : lookup_enc (codes "A128CBC-HS256") ≡ ok cbc
unfolding lookup_enc content_encs eqb lookup
found = refl

sealed_run : encrypt primitives cbc random cek text aad ≡ ok sealed
unfolding encrypt encrypt_mode encrypt_cbc_hmac cbc_split read_random
sealed_run = refl

encrypt_total_example :
    (s : Sealed) × (encrypt primitives cbc random cek text aad ≡ ok s)
    × (decrypt primitives cbc cek s aad ≡ ok text)
encrypt_total_example =
    encrypt_total primitives primitives-IsPrimitives random random-IsRandom
      (λ n. (replicate n 9, refl)) cek text aad (codes "A128CBC-HS256") cbc found refl (omega arith)

opened : decrypt primitives cbc cek sealed aad ≡ ok text
opened =
    decrypt-encrypt primitives primitives-IsPrimitives random random-IsRandom cek text aad cbc
      sealed (omega arith) sealed_run

decrypt_authentic_example :
    IsTag primitives sha256 cek aad sealed
    × (length sealed.iv ≡ 16)
    × (cbc_decrypt primitives.aes (drop 16 cek) (replicate 16 9) ciphertext ≡ pkcs7_pad text 16)
decrypt_authentic_example = decrypt_authentic primitives cek sealed aad cbc sha256 text refl opened

decrypt-IsUniform_example : IsUniform (decrypt primitives cbc cek sealed aad)
decrypt-IsUniform_example =
    decrypt-IsUniform primitives cek sealed aad (codes "A128CBC-HS256") cbc found refl
