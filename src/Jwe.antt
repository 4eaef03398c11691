-- ===== src/Jwe.antt =====
-- jwe.go: the options and encryption in the compact serialization.
pub mod Decrypt
pub mod Inflate
pub mod Opened
pub mod Decrypted
pub mod Tokens
pub mod Produced
pub mod Reread
pub mod RoundTrip
pub mod Json
pub mod Tests
use jose.Common.{
  is_empty, is_some, ℕ, zero, suc, ◌+◌, ◌*◌, ◌%◌, ◌^◌, Bool, true, false, not, ◌&&◌, ◌||◌, Option,
  none, some, List, [], ◌∷◌, ◌++◌, ◌==◌, if◌then◌else◌, Bytes, codes, ltb, eqb, lookup, insert,
  length,
}
use jose.Common.Int.{ℤ, pos, negsuc}
use jose.Common.Outcome.{Result, ok, err, ◌>>=◌, ◌>>◌, guard, relabel}
use jose.Errors.{
  Error, invalid_header, malformed, decrypt_failed, compression_limit, invalid_key,
  invalid_key_type, external,
}
use jose.Base64.{encode_segment, decode_segment}
use jose.Json.{Value, str}
use jose.Header.{
  Header, header_string, algorithm, encryption, key_id, is_present, check_critical,
  check_critical_produced, copy_header,
}
use jose.Token.{dot, split, encode_header, decode_header}
use jose.Keys.{
  Key, rsa_public, rsa_private, ecdsa_public, ecdsa_private, ecdh_public, ecdh_private, secret,
}
use jose.Jwk.{AnyKey, resolve_key, check_jwk_usage}
use jose.Jws.{jwk_alg, jwk_kid, is_accepted}
use jose.ContentEnc.{Random, ContentEnc, Sealed, lookup_enc}
use jose.KeyMgmt.{KeyMgmt, KeyMgmtLibrary, Draws, key_mgmts, lookup_key_mgmt}
use jose.KeyMgmt.Dispatch.{encrypt_key, decrypt_key}

-- A nil map is an empty one: the code tests none of these for nil.
pub record EncryptOptions : Type 0 where
  pub algorithm : Bytes
  pub encryption : Bytes
  pub key_id : Bytes
  pub header : Header
  pub additional_headers : Header
  pub unprotected : Header
  pub additional_data : Bytes
  pub compress : Bool

pub record DecryptOptions : Type 0 where
  pub algorithms : List Bytes
  pub encryptions : List Bytes
  pub known_critical : List Bytes
  pub max_decompressed : ℤ

-- The libraries that the package calls here. `read_inflated b n` reads the inflated octets of b to
-- their end, through a reader that stops after n of them.
pub record JweLibrary : Type 0 where
  pub mgmt : KeyMgmtLibrary
  pub marshal : Header → Option Bytes
  pub deflated : Bytes → Option Bytes
  pub read_inflated : Bytes → ℕ → Option Bytes

abbrev pub max_decompressed_size : ℕ
max_decompressed_size = 16 * 2 ^ 20

-- "A256GCM" and "DEF"
abbrev pub default_enc : Bytes
default_enc = codes "A256GCM"

abbrev pub def : Bytes
def = codes "DEF"

-- `defaultKeyMgmtAlg`
pub default_wrap_alg : ℕ → Result Error Bytes
default_wrap_alg size =
    if size == 16
    then ok (codes "A128KW")
    else if size == 24
    then ok (codes "A192KW")
    else if size == 32
    then ok (codes "A256KW")
    else err invalid_key

pub default_key_mgmt_alg : Key → Result Error Bytes
default_key_mgmt_alg (rsa_public k) = ok (codes "RSA-OAEP-256")
default_key_mgmt_alg (rsa_private k) = ok (codes "RSA-OAEP-256")
default_key_mgmt_alg (ecdsa_public k) = ok (codes "ECDH-ES")
default_key_mgmt_alg (ecdsa_private k) = ok (codes "ECDH-ES")
default_key_mgmt_alg (ecdh_public k) = ok (codes "ECDH-ES")
default_key_mgmt_alg (ecdh_private k) = ok (codes "ECDH-ES")
default_key_mgmt_alg (secret k) = default_wrap_alg (length k)
default_key_mgmt_alg _ = err invalid_key_type

-- The algorithm of `Encrypt`: the caller's, that of the JWK if it manages keys, or the one usual for
-- the key. A JWK without "alg" names no such algorithm.
pub choose_key_mgmt_alg : Bytes → AnyKey → Key → Result Error Bytes
choose_key_mgmt_alg alg key resolved =
    if not (is_empty alg)
    then ok alg
    else if not (is_empty (jwk_alg key)) && is_some (lookup (jwk_alg key) key_mgmts)
    then ok (jwk_alg key)
    else default_key_mgmt_alg resolved

pub choose_enc : Bytes → Bytes
choose_enc enc = if is_empty enc then default_enc else enc

-- The usages that `Encrypt` and `decryptOne` check a JWK for.
abbrev pub encrypt_ops : List Bytes
encrypt_ops = codes "encrypt" ∷ codes "wrapKey" ∷ codes "deriveKey" ∷ []

abbrev pub decrypt_ops : List Bytes
decrypt_ops = codes "decrypt" ∷ codes "unwrapKey" ∷ codes "deriveKey" ∷ []

-- The header of `Encrypt` before the key is encrypted.
pub with_recipient_kid : AnyKey → Bytes → Header → Header
with_recipient_kid key kid header =
    if not (is_empty kid)
    then insert (codes "kid") (str kid) header
    else if not (is_empty (jwk_kid key)) && not (is_present (codes "kid") header)
    then insert (codes "kid") (str (jwk_kid key)) header
    else header

pub with_zip : Bool → Header → Header
with_zip compress header = if compress then insert (codes "zip") (str def) header else header

pub produced_header : AnyKey → EncryptOptions → Bytes → Bytes → Header
produced_header key opts alg enc_name = with_zip opts.compress (
    with_recipient_kid key opts.key_id (
      insert (codes "enc") (str enc_name) (
        insert (codes "alg") (str alg) (copy_header (opts.header ∷ opts.additional_headers ∷ [])))))

-- `deflate`
pub deflate : JweLibrary → Bytes → Result Error Bytes
deflate lib plaintext = elim (lib.deflated plaintext) [ none ↦ err external | some body ↦ ok body ]

-- The octets to encrypt, compressed if the header says so.
pub content_of : JweLibrary → Bytes → Bytes → Result Error Bytes
content_of lib zip plaintext =
    if is_empty zip
    then ok plaintext
    else if eqb zip def
    then deflate lib plaintext
    else err invalid_header

pub join5 : Bytes → Bytes → Sealed → Bytes
join5 protected encrypted_key s =
    protected
    ++ (dot
        ∷ (encode_segment encrypted_key
            ++ (dot
                ∷ (encode_segment s.iv
                    ++ (dot ∷ (encode_segment s.ciphertext ++ (dot ∷ encode_segment s.tag)))))))

module _ (lib : JweLibrary) where
  -- `Encrypt`
  unfoldable pub encrypt : Draws → Random → Bytes → AnyKey → EncryptOptions → Result Error Bytes
  encrypt draws random plaintext key opts = do
    guard (is_empty opts.unprotected) invalid_header
    guard (is_empty opts.additional_data) invalid_header
    resolved ← resolve_key lib.mgmt.keys key opts.key_id
    alg ← choose_key_mgmt_alg opts.algorithm key resolved
    km ← lookup_key_mgmt alg
    let enc_name = choose_enc opts.encryption
    enc ← lookup_enc enc_name
    check_jwk_usage key opts.key_id (codes "enc") (alg ∷ enc_name ∷ []) encrypt_ops
    let header = produced_header key opts alg enc_name
    check_critical_produced header
    (written, cek, encrypted_key) ← encrypt_key lib.mgmt km enc draws resolved header none
    body ← content_of lib (header_string written (codes "zip")) plaintext
    protected ← encode_header lib.marshal written
    s ← jose.ContentEnc.encrypt lib.mgmt.primitives enc random cek body protected
    ok (join5 protected encrypted_key s)
