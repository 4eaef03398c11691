-- ===== src/Jwk/Export.antt =====
-- jwk.go: JWKs from Go keys and from JSON, and their thumbprints.
pub mod Fields
pub mod Members
pub mod Points
pub mod RoundTrip
pub mod Tests
use jose.Common.{
  is_empty, ℕ, Bool, not, ◌&&◌, ◌||◌, Option, none, some, List, [], ◌∷◌, ◌++◌, ◌==◌, if◌then◌else◌,
  Bytes, codes, eqb, length, take, drop,
}
use jose.Common.Outcome.{Result, ok, err, ◌>>=◌, ◌>>◌, guard}
use jose.Errors.{Error, invalid_key}
use jose.Base64.{encode_segment}
use jose.BigInt.{big_bytes}
use jose.Hashing.{Hashing, sha256}
use jose.Ecdh.{ecdh_to_ecdsa_public, pad_big, size_of}
use jose.Keys.{
  Curve, curve_name, RsaPublic, RsaPrivate, EcdsaPublic, EcdhCurve, nist, x25519, EcdhPublic, Key,
  secret, password, rsa_public, rsa_private, ecdsa_public, ecdsa_private, ed25519_public,
  ed25519_private, ecdh_public, ecdh_private, unknown, KeyLibrary,
}
use jose.Jwk.{Jwk, AnyKey, go_key, jwk, jwk_set, no_key, ec_curve, jwk_key}

-- The zero value of `JWK`.
abbrev pub empty_jwk : Jwk
empty_jwk = record {
  kty = [];
  key_use = [];
  alg = [];
  kid = [];
  crv = [];
  key_ops = [];
  n = [];
  e = [];
  d = [];
  p = [];
  q = [];
  dp = [];
  dq = [];
  qi = [];
  x = [];
  y = [];
  k = [];
}

-- `jwkFromRSAPublic`
pub jwk_from_rsa_public : RsaPublic → Jwk
jwk_from_rsa_public k = record empty_jwk {
  kty = codes "RSA";
  n = encode_segment (big_bytes k.n);
  e = encode_segment (big_bytes k.e);
}

-- The private members of an RSA key, each group where it is there.
pub with_primes : Option (ℕ × ℕ) → Jwk → Jwk
with_primes none j = j
with_primes (some (p, q)) j = record j {
  p = encode_segment (big_bytes p);
  q = encode_segment (big_bytes q);
}

pub with_precomputed : Option (ℕ × ℕ × ℕ) → Jwk → Jwk
with_precomputed none j = j
with_precomputed (some (dp, dq, qi)) j = record j {
  dp = encode_segment (big_bytes dp);
  dq = encode_segment (big_bytes dq);
  qi = encode_segment (big_bytes qi);
}

pub jwk_from_rsa_private : RsaPrivate → Jwk
jwk_from_rsa_private k = with_precomputed k.precomputed (
    with_primes k.primes
      (record (jwk_from_rsa_public k.public) { d = encode_segment (big_bytes k.d) }))

-- `jwkFromECPublic`
unfoldable pub named_curve : Option Curve → Result Error Bytes
named_curve none = err invalid_key
named_curve (some c) = ok (curve_name c)

unfoldable pub jwk_from_ec_public : EcdsaPublic → Result Error Jwk
jwk_from_ec_public k = do
  name ← named_curve k.curve
  _ ← ec_curve name
  let size = size_of k.curve
  x ← pad_big k.x size
  y ← pad_big k.y size
  ok (record empty_jwk { kty = codes "EC"; crv = name; x = encode_segment x; y = encode_segment y })

abbrev pub okp_jwk : Bytes → Bytes → Jwk
okp_jwk crv x = record empty_jwk { kty = codes "OKP"; crv = crv; x = encode_segment x }

-- `jwkFromECDHPublic`
unfoldable pub jwk_from_ecdh_on : EcdhCurve → EcdhPublic → Result Error Jwk
jwk_from_ecdh_on x25519 k = ok (okp_jwk (codes "X25519") k.bytes)
jwk_from_ecdh_on (nist c) k = do ec ← ecdh_to_ecdsa_public k; jwk_from_ec_public ec

unfoldable pub jwk_from_ecdh_public : EcdhPublic → Result Error Jwk
jwk_from_ecdh_public k = jwk_from_ecdh_on k.curve k

-- `FromKey`
unfoldable pub from_go_key : Key → Result Error Jwk
from_go_key (rsa_public k) = ok (jwk_from_rsa_public k)
from_go_key (rsa_private k) = ok (jwk_from_rsa_private k)
from_go_key (ecdsa_public k) = jwk_from_ec_public k
from_go_key (ecdsa_private k) = do
  j ← jwk_from_ec_public k.public
  d ← pad_big k.d (size_of k.public.curve)
  ok (record j { d = encode_segment d })
from_go_key (ed25519_public k) = do
  guard (length k == 32) invalid_key
  ok (okp_jwk (codes "Ed25519") k)
from_go_key (ed25519_private k) = do
  guard (length k == 64) invalid_key
  ok (record (okp_jwk (codes "Ed25519") (drop 32 k)) { d = encode_segment (take 32 k) })
from_go_key (ecdh_public k) = jwk_from_ecdh_public k
from_go_key (ecdh_private k) = do
  j ← jwk_from_ecdh_public k.public
  ok (record j { d = encode_segment k.bytes })
from_go_key (secret s) = do
  guard (not (is_empty s)) invalid_key
  ok (record empty_jwk { kty = codes "oct"; k = encode_segment s })
from_go_key _ = err invalid_key

-- A *JWK is returned as it is, a nil one too.
pub from_key : AnyKey → Result Error (Option Jwk)
from_key (go_key k) = do j ← from_go_key k; ok (some j)
from_key (jwk j) = ok j
from_key _ = err invalid_key

-- `json.Unmarshal` into a `JWK` and into a `JWKSet`; `none` is an error.
pub record JwkCodec : Type 0 where
  pub unmarshal_jwk : Bytes → Option Jwk
  pub unmarshal_set : Bytes → Option (List (Option Jwk))

module _ (lib : KeyLibrary) where
  -- `ParseJWK`
  unfoldable pub checked_jwk : Option Jwk → Result Error Jwk
  checked_jwk none = err invalid_key
  checked_jwk (some k) = do _ ← jwk_key lib k; ok k

  unfoldable pub parse_jwk : JwkCodec → Bytes → Result Error Jwk
  parse_jwk codec text = checked_jwk (codec.unmarshal_jwk text)

  -- `ParseJWKSet`
  pub check_keys : List (Option Jwk) → Result Error (Unit {0})
  check_keys [] = ok tt
  check_keys (none ∷ keys) = err invalid_key
  check_keys (some k ∷ keys) = do _ ← jwk_key lib k; check_keys keys

  pub checked_set : Option (List (Option Jwk)) → Result Error (List (Option Jwk))
  checked_set none = err invalid_key
  checked_set (some keys) = do check_keys keys; ok keys

  pub parse_jwk_set : JwkCodec → Bytes → Result Error (List (Option Jwk))
  parse_jwk_set codec text = checked_set (codec.unmarshal_set text)

-- `Thumbprint`; `quote` is the `%q` of fmt.
module _ (quote : Bytes → Bytes) where
  pub canonical : Jwk → Result Error Bytes
  canonical j =
      if eqb j.kty (codes "RSA")
      then (do
        guard (not (is_empty j.e || is_empty j.n)) invalid_key
        ok (
            codes "{\"e\":"
            ++ (quote j.e ++ (codes ",\"kty\":\"RSA\",\"n\":" ++ (quote j.n ++ codes "}")))))
      else if eqb j.kty (codes "EC")
      then (do
        guard (not (is_empty j.crv || (is_empty j.x || is_empty j.y))) invalid_key
        ok (
            codes "{\"crv\":"
            ++ (quote j.crv
                ++ (codes ",\"kty\":\"EC\",\"x\":"
                    ++ (quote j.x ++ (codes ",\"y\":" ++ (quote j.y ++ codes "}")))))))
      else if eqb j.kty (codes "OKP")
      then (do
        guard (not (is_empty j.crv || is_empty j.x)) invalid_key
        ok (
            codes "{\"crv\":"
            ++ (quote j.crv ++ (codes ",\"kty\":\"OKP\",\"x\":" ++ (quote j.x ++ codes "}")))))
      else if eqb j.kty (codes "oct")
      then (do
        guard (not (is_empty j.k)) invalid_key
        ok (codes "{\"k\":" ++ (quote j.k ++ codes ",\"kty\":\"oct\"}")))
      else err invalid_key

  pub thumbprint : Hashing → Jwk → Result Error Bytes
  thumbprint hs j = do text ← canonical j; ok (encode_segment (hs.sum sha256 text))
