-- ===== src/KeyMgmt/Tests.antt =====
-- Runs of jwa_keymgmt.go with concrete libraries.
use jose.Common.{
  take, true, ◌∙◌, All, IsByte, eqb, length, refl, ◌≡◌, false, some, [], ◌∷◌, Bytes, codes,
  replicate, arith, insert, lookup,
}
use jose.Common.Int.{pos}
use jose.Common.Outcome.{ok, >>=-ok, relabel}
use jose.Errors.{invalid_header}
use jose.Base64.{encode_segment, decode_segment}
use jose.Base64.RoundTrip.{decode-encode}
use jose.Cipher.{is_aes_key}
use jose.Pbkdf2.{pbkdf2, pbes2_salt_input}
use jose.Pbkdf2.Blocks.{derived, pbkdf2-derived}
use jose.KeyWrap.{aes_key_wrap, aes_key_unwrap}
use jose.KeyWrap.RoundTrip.{unwrap-wrap}
use jose.Hashing.{sha256, hash_size}
use jose.Json.{str, int}
use jose.Header.{Header}
use jose.Keys.{Key, secret}
use jose.ContentEnc.{ContentEnc, gcm}
use jose.KeyMgmt.{
  bytes_of, header_bytes, wrap_key_size, header_int, password_key, KeyMgmt, KeyMgmtKind, kw, pbes2,
  derives_cek, gcmkw,
}
use jose.KeyMgmt.Pbes2.{pbes2_kek, required_count, check_count, check_salt, decrypt_key_pbes2}
use jose.KeyMgmt.Dispatch.{encrypt_key, encrypt_kind, decrypt_key}
use jose.KeyMgmt.Bounds.{IsPasswordUnwrapped, decrypt_key_pbes2-IsBounded}
use jose.KeyMgmt.Transport.{encrypt_key-given}
use jose.KeyMgmt.RoundTrip.{decrypt_key-encrypt_key}
use jose.KeyMgmt.Opens.{Opens, ReadsSame}
use jose.Samples.{
  aes, aes-IsBlockCipher, hashing, hashing-IsHashing, primitives, primitives-IsPrimitives, mgmt,
  mgmt-IsRsaEncryption, mgmt-IsAgreement, draws-DrawsKeys, gcm-SealsOctets, draws, random-IsRandom,
}

abbrev a128_gcmkw : KeyMgmt
a128_gcmkw = record { name = codes "A128GCMKW"; kind = gcmkw; wrap_bits = 128 }

abbrev a128_gcm : ContentEnc
a128_gcm = record { name = codes "A128GCM"; key_size = 16; mode = gcm }

abbrev shared : Key
shared = secret (replicate 16 1)

abbrev cek : Bytes
cek = replicate 16 2

abbrev written : Header
written =
    (codes "iv", str (codes "CQkJCQkJCQkJCQkJ"))
    ∷ (codes "tag", str (codes "BwcHBwcHBwcHBwcHBwcHBw"))
    ∷ []

seals :
    encrypt_key (mgmt []) a128_gcmkw a128_gcm draws shared [] (some cek) ≡ ok (written, cek, cek)
unfolding encrypt_key derives_cek jose.KeyMgmt.kind_derives_cek
    jose.KeyMgmt.Dispatch.transported_cek encrypt_kind jose.KeyMgmt.symmetric_key
    jose.KeyMgmt.wrap_key_size jose.KeyMgmt.aes_gcm_wrap jose.ContentEnc.read_random insert eqb
    encode_segment jose.Base64.symbol
seals = refl

encrypt_key-given_example :
    (derives_cek a128_gcmkw ≡ false)
    × (cek ≡ cek)
    × (encrypt_kind (mgmt []) a128_gcmkw a128_gcm gcmkw draws shared [] cek
        ≡ ok (written, cek, cek))
encrypt_key-given_example =
    encrypt_key-given (mgmt []) a128_gcmkw a128_gcm draws shared [] cek written cek cek seals

given : (c : Bytes) → some cek ≡ some c → All IsByte c × (length c ≡ 16)
given c e = let same : cek ≡ c = cc in rw (← same) (omega arith, refl)

decrypt_key-encrypt_key_example :
    decrypt_key (mgmt []) a128_gcmkw a128_gcm shared written cek ≡ ok cek
unfolding Opens ReadsSame
decrypt_key-encrypt_key_example =
    decrypt_key-encrypt_key (mgmt []) primitives-IsPrimitives (mgmt-IsRsaEncryption [])
      (mgmt-IsAgreement []) gcm-SealsOctets a128_gcmkw a128_gcm draws random-IsRandom
      random-IsRandom random-IsRandom (draws-DrawsKeys []) shared shared [] written written
      (some cek) cek cek given refl seals (refl, refl)

abbrev pbes2_kw : KeyMgmt
pbes2_kw = record { name = codes "PBES2-HS256+A128KW"; kind = pbes2 sha256; wrap_bits = 128 }

abbrev pass : Key
pass = secret (codes "password")

abbrev salt : Bytes
salt = replicate 12 9

abbrev fair : Header
fair = (codes "p2c", int (pos 1000)) ∷ (codes "p2s", str (encode_segment salt)) ∷ []

abbrev kek : Bytes
kek =
    take 16 (
      derived (hashing.hmac sha256 (codes "password")) (pbes2_salt_input pbes2_kw.name salt) 1000 1)

kek_run :
    (pbkdf2 hashing sha256
        (codes "password")
        (pbes2_salt_input pbes2_kw.name salt)
        (pos 1000)
        (pos 16)
      ≡ ok kek)
    × (length kek ≡ 16)
unfolding hash_size
kek_run =
    pbkdf2-derived hashing hashing-IsHashing sha256 (codes "password")
      (pbes2_salt_input pbes2_kw.name salt) 1000 16 (omega arith) (omega arith)

kek_fits : is_aes_key kek ≡ true
kek_fits = rw kek_run.1 refl

wrapped :
    (c : Bytes) × (aes_key_wrap aes kek cek ≡ ok c)
    × (length c ≡ 24)
    × (aes_key_unwrap aes kek c ≡ ok cek)
wrapped = unwrap-wrap aes aes-IsBlockCipher kek cek (omega arith) (kek_fits, refl, omega arith)

salt_run : relabel invalid_header (decode_segment (encode_segment salt)) ≡ ok salt
salt_run = rw (decode-encode salt (omega arith)) refl

opens : decrypt_key_pbes2 primitives pbes2_kw sha256 pass fair wrapped.0 ≡ ok cek
unfolding decrypt_key_pbes2 header_bytes bytes_of lookup eqb pbes2_kek wrap_key_size required_count
    header_int check_count check_salt password_key
opens =
    >>=-ok (relabel invalid_header (decode_segment (encode_segment salt))) _ salt_run
    ∙ (>>=-ok
          (pbkdf2 hashing sha256 (codes "password") (pbes2_salt_input pbes2_kw.name salt) (pos 1000)
            (pos 16))
          _ kek_run.0
        ∙ wrapped.3)

decrypt_key_pbes2-IsBounded_example :
    IsPasswordUnwrapped primitives pbes2_kw sha256 pass fair wrapped.0 cek
decrypt_key_pbes2-IsBounded_example =
    decrypt_key_pbes2-IsBounded primitives pbes2_kw sha256 pass fair wrapped.0 cek opens
