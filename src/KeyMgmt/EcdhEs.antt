-- ===== src/KeyMgmt/EcdhEs.antt =====
-- jwa_keymgmt.go: ECDH-ES, key agreement with an ephemeral key.
pub mod Written
pub mod Opened
pub mod Epk
use jose.Common.{
  is_empty, Bool, true, false, not, ◌==◌, Option, none, some, [], ◌∷◌, if◌then◌else◌, Bytes, codes,
  lookup, insert,
}
use jose.Common.Int.{ℤ, pos}
use jose.Common.Outcome.{Result, ok, err, ◌>>=◌, ◌>>◌, guard}
use jose.Errors.{Error, invalid_header, invalid_key, malformed}
use jose.ContentEnc.{ContentEnc}
use jose.KeyWrap.{aes_key_wrap, aes_key_unwrap}
use jose.Json.{Value, obj, Members, end, member}
use jose.Header.{Header}
use jose.Keys.{EcdhCurve, EcdhPublic, EcdhPrivate, Key, ecdh_public, ecdsa_public}
use jose.Ecdh.{as_ecdh_public, as_ecdh_private, ecdsa_to_ecdh_public, ecdh_derive, ecdh_generate}
use jose.Jwk.{Jwk, jwk_key, is_private}
use jose.Jwk.Export.{from_go_key, parse_jwk}
use jose.KeyMgmt.{KeyMgmt, KeyMgmtLibrary, wrap_key_size, header_bytes_optional}

-- `ecdhAlgID`: the AlgorithmID and the length of the derived key.
pub ecdh_alg_id : KeyMgmt → ContentEnc → Bytes × ℤ
ecdh_alg_id km enc =
    if km.wrap_bits == 0 then (enc.name, pos enc.key_size) else (km.name, pos (wrap_key_size km))

unfoldable pub members_of : Header → Members
members_of [] = end
members_of ((k, v) ∷ h) = member k v (members_of h)

module _ (lib : KeyMgmtLibrary) where
  -- `jwkToMap`; a nil map holds nothing.
  pub map_of : Option (Option Header) → Result Error Header
  map_of none = err invalid_key
  map_of (some none) = ok []
  map_of (some (some h)) = ok h

  pub raw_jwk : Option Bytes → Result Error Bytes
  raw_jwk none = err invalid_key
  raw_jwk (some raw) = ok raw

  pub jwk_to_map : Jwk → Result Error Header
  jwk_to_map k = do raw ← raw_jwk (lib.marshal_jwk k); map_of (lib.unmarshal raw)

  -- The key that both parties derive, from the header's "apu" and "apv".
  pub agreed_key : KeyMgmt → ContentEnc → EcdhPrivate → EcdhPublic → Header → Result Error Bytes
  agreed_key km enc priv key header = do
    apu ← header_bytes_optional header (codes "apu")
    apv ← header_bytes_optional header (codes "apv")
    let (alg_id, key_len) = ecdh_alg_id km enc
    ecdh_derive lib.agreement lib.primitives.hashing priv key alg_id apu apv key_len

  -- The end of `encryptKeyECDH`: the agreed key is the content encryption key, or it wraps it.
  unfoldable pub wrap_under : Bool → Header → Bytes → Bytes → Result Error (Header × Bytes × Bytes)
  wrap_under true written agreed cek = ok (written, agreed, [])
  wrap_under false written agreed cek = do
    wrapped ← aes_key_wrap lib.primitives.aes agreed cek
    ok (written, cek, wrapped)

  -- `encryptKeyECDH`; the header is written to.
  unfoldable pub encrypt_key_ecdh :
      KeyMgmt
      → ContentEnc
      → (EcdhCurve → Option EcdhPrivate)
      → Key
      → Header
      → Bytes
      → Result Error (Header × Bytes × Bytes)
  encrypt_key_ecdh km enc generate key header cek = do
    recipient ← as_ecdh_public lib.agreement key
    eph ← ecdh_generate generate recipient
    epk ← from_go_key (ecdh_public eph.public)
    epk_map ← jwk_to_map epk
    let written = insert (codes "epk") (obj (members_of epk_map)) header
    agreed ← agreed_key km enc eph recipient written
    wrap_under (km.wrap_bits == 0) written agreed cek

  -- The ephemeral public key of the header: "epk" as a JWK without private members.
  pub epk_json : Option Value → Result Error Bytes
  epk_json none = err invalid_header
  epk_json (some raw) = elim (lib.marshal_value raw) [
    | none ↦ err invalid_header
    | some text ↦ ok text
  ]

  pub epk_public : Key → Result Error EcdhPublic
  epk_public (ecdh_public k) = ok k
  epk_public (ecdsa_public k) = ecdsa_to_ecdh_public lib.agreement k
  epk_public _ = err invalid_header

  pub ephemeral_key : Header → Result Error EcdhPublic
  ephemeral_key header = do
    text ← epk_json (lookup (codes "epk") header)
    epk ← parse_jwk lib.keys lib.codec text
    guard (not (is_private epk)) invalid_header
    key ← jwk_key lib.keys epk
    epk_public key

  -- The end of `decryptKeyECDH`.
  pub unwrap_under : Bool → Bytes → Bytes → Result Error Bytes
  unwrap_under true agreed encrypted_key = do guard (is_empty encrypted_key) malformed; ok agreed
  unwrap_under false agreed encrypted_key = aes_key_unwrap lib.primitives.aes agreed encrypted_key

  -- `decryptKeyECDH`
  pub decrypt_key_ecdh : KeyMgmt → ContentEnc → Key → Header → Bytes → Result Error Bytes
  decrypt_key_ecdh km enc key header encrypted_key = do
    priv ← as_ecdh_private lib.agreement key
    sender ← ephemeral_key header
    agreed ← agreed_key km enc priv sender header
    unwrap_under (km.wrap_bits == 0) agreed encrypted_key
