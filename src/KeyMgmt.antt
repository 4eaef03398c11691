-- ===== src/KeyMgmt.antt =====
-- jwa_keymgmt.go: the key management algorithms of JWE, and what they read of keys and headers.
pub mod Pbes2
pub mod EcdhEs
pub mod Dispatch
pub mod Transport
pub mod Bounds
pub mod Reading
pub mod Opens
pub mod RoundTrip
pub mod Reread
pub mod Written
pub mod Tests
use jose.Common.{
  is_empty, ℕ, ◌-◌, ◌+◌, ◌/◌, ◌^◌, Bool, true, false, not, ◌&&◌, ◌||◌, Option, none, some, List, [],
  ◌∷◌, ◌++◌, ◌==◌, if◌then◌else◌, Bytes, codes, lookup, length, take, drop,
}
use jose.Common.Int.{ℤ, pos, negsuc, ltb_ℤ}
use jose.Common.Outcome.{Result, ok, err, ◌>>=◌, ◌>>◌, guard, relabel}
use jose.Errors.{
  Error, invalid_key, invalid_key_type, invalid_header, decrypt_failed, unsupported_algorithm,
}
use jose.Base64.{decode_segment}
use jose.Cipher.{Gcm, is_aes_key, nonce_size, overhead}
use jose.ContentEnc.{Random, read_random, Sealed, Primitives}
use jose.Hashing.{Hash, sha1, sha256, sha384, sha512}
use jose.Ecdh.{EcdhLibrary}
use jose.Json.{Value, null, bool, float, str, arr, obj, strs, int, Members, end, member}
use jose.Header.{Header}
use jose.Jwk.{Jwk}
use jose.Jwk.Export.{JwkCodec}
use jose.Keys.{RsaPublic, RsaPrivate, EcdhCurve, EcdhPrivate, Key, secret, password, KeyLibrary}

-- `kind` of a `keyMgmt`, with what the kind needs: the OAEP hash, none for PKCS #1 v1.5, and the
-- hash of the PBKDF2 PRF.
pub data KeyMgmtKind : Type 0 where
  rsa : Option Hash → KeyMgmtKind
  kw dir ecdh gcmkw : KeyMgmtKind
  pbes2 : Hash → KeyMgmtKind

pub record KeyMgmt : Type 0 where
  pub name : Bytes
  pub kind : KeyMgmtKind
  pub wrap_bits : ℕ

abbrev key_mgmt : Bytes → KeyMgmtKind → ℕ → Bytes × KeyMgmt
key_mgmt name kind bits = (name, record { name = name; kind = kind; wrap_bits = bits })

unfoldable pub key_mgmts : List (Bytes × KeyMgmt)
key_mgmts =
    key_mgmt (codes "RSA1_5") (rsa none) 0
    ∷ key_mgmt (codes "RSA-OAEP") (rsa (some sha1)) 0
    ∷ key_mgmt (codes "RSA-OAEP-256") (rsa (some sha256)) 0
    ∷ key_mgmt (codes "A128KW") kw 128
    ∷ key_mgmt (codes "A192KW") kw 192
    ∷ key_mgmt (codes "A256KW") kw 256
    ∷ key_mgmt (codes "dir") dir 0
    ∷ key_mgmt (codes "ECDH-ES") ecdh 0
    ∷ key_mgmt (codes "ECDH-ES+A128KW") ecdh 128
    ∷ key_mgmt (codes "ECDH-ES+A192KW") ecdh 192
    ∷ key_mgmt (codes "ECDH-ES+A256KW") ecdh 256
    ∷ key_mgmt (codes "A128GCMKW") gcmkw 128
    ∷ key_mgmt (codes "A192GCMKW") gcmkw 192
    ∷ key_mgmt (codes "A256GCMKW") gcmkw 256
    ∷ key_mgmt (codes "PBES2-HS256+A128KW") (pbes2 sha256) 128
    ∷ key_mgmt (codes "PBES2-HS384+A192KW") (pbes2 sha384) 192
    ∷ key_mgmt (codes "PBES2-HS512+A256KW") (pbes2 sha512) 256
    ∷ []

-- `lookupKeyMgmt`
unfoldable pub lookup_key_mgmt : Bytes → Result Error KeyMgmt
lookup_key_mgmt alg = elim (lookup alg key_mgmts) [
  | none ↦ err unsupported_algorithm
  | some km ↦ ok km
]

-- `wrapKeySize`
unfoldable pub wrap_key_size : KeyMgmt → ℕ
wrap_key_size km = km.wrap_bits / 8

-- `derivesCEK`
unfoldable pub kind_derives_cek : KeyMgmtKind → ℕ → Bool
kind_derives_cek dir bits = true
kind_derives_cek ecdh bits = bits == 0
kind_derives_cek _ bits = false

unfoldable pub derives_cek : KeyMgmt → Bool
derives_cek km = kind_derives_cek km.kind km.wrap_bits

-- The libraries that key management calls. For RSA, what the randomised operations give in the run at
-- hand; the number is the length of the session key.
pub record KeyMgmtLibrary : Type 0 where
  pub keys : KeyLibrary
  pub primitives : Primitives
  pub agreement : EcdhLibrary
  pub codec : JwkCodec
  pub encrypt_pkcs1 : RsaPublic → Bytes → Option Bytes
  pub encrypt_oaep : Hash → RsaPublic → Bytes → Option Bytes
  pub decrypt_pkcs1_session : RsaPrivate → Bytes → ℕ → Option Bytes
  pub decrypt_oaep : Hash → RsaPrivate → Bytes → Option Bytes
  pub marshal_jwk : Jwk → Option Bytes
  pub marshal_value : Value → Option Bytes
  pub unmarshal : Bytes → Option (Option Header)

-- What the random source gives at each of its uses in one call of `encryptKey`.
pub record Draws : Type 0 where
  pub cek : Random
  pub salt : Random
  pub nonce : Random
  pub ephemeral : EcdhCurve → Option EcdhPrivate

-- `newCEK`
unfoldable pub new_cek : Random → ℕ → Result Error Bytes
new_cek random size = read_random random size

-- `symmetricKey` and `passwordKey`
unfoldable pub symmetric_key : Key → ℕ → Result Error Bytes
symmetric_key (secret b) size = do guard (length b == size) invalid_key; ok b
symmetric_key _ size = err invalid_key_type

pub password_key : Key → Result Error Bytes
password_key (secret k) = do guard (not (is_empty k)) invalid_key; ok k
password_key (password k) = do guard (not (is_empty k)) invalid_key; ok k
password_key _ = err invalid_key_type

-- `headerBytes` and `headerBytesOptional`
pub bytes_of : Option Value → Result Error Bytes
bytes_of (some (str s)) = relabel invalid_header (decode_segment s)
bytes_of _ = err invalid_header

pub header_bytes : Header → Bytes → Result Error Bytes
header_bytes header name = bytes_of (lookup name header)

pub optional_bytes : Option Value → Result Error Bytes
optional_bytes none = ok []
optional_bytes (some v) = bytes_of (some v)

pub header_bytes_optional : Header → Bytes → Result Error Bytes
header_bytes_optional header name = optional_bytes (lookup name header)

-- `headerInt`. A float64 is compared with the bounds of an int32 before it is converted; a
-- json.Number, which the package's own decoding never gives, is left out.
abbrev pub max_int32 : ℤ
max_int32 = pos (2 ^ 31 - 1)

abbrev pub min_int32 : ℤ
min_int32 = negsuc (2 ^ 31 - 1)

pub header_int : Value → Result Error ℤ
header_int (float v fractional) = do
  guard (not (ltb_ℤ v min_int32 || (ltb_ℤ max_int32 v || fractional))) invalid_header
  ok v
header_int (int v) = ok v
header_int _ = err invalid_header

-- `aesGCMWrap` and `aesGCMUnwrap`
module _ (aead : Gcm) where
  unfoldable pub aes_gcm_wrap : Random → Bytes → Bytes → Result Error Sealed
  aes_gcm_wrap random kek cek = do
    guard (is_aes_key kek) invalid_key
    iv ← read_random random nonce_size
    let sealed = aead.seal kek iv cek []
    let n = length sealed - overhead
    ok (record { iv = iv; ciphertext = take n sealed; tag = drop n sealed })

  pub aes_gcm_unwrap : Bytes → Sealed → Result Error Bytes
  aes_gcm_unwrap kek s = do
    guard (is_aes_key kek) invalid_key
    guard (not (not (length s.iv == nonce_size) || not (length s.tag == overhead))) decrypt_failed
    elim (aead.open_sealed kek s.iv (s.ciphertext ++ s.tag) []) [
      | none ↦ err decrypt_failed
      | some out ↦ ok out
    ]
