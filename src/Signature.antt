-- ===== src/Signature.antt =====
-- jwa_sign.go: the signature algorithms, their keys, and the raw signature octets.
pub mod Tests
pub mod KeyTypes
pub mod RoundTrip
pub mod Octets
use jose.Common.{
  replicate, is_empty, ℕ, ◌+◌, ◌*◌, ◌^◌, ltb, Bool, true, false, not, ◌&&◌, ◌||◌, Option, none,
  some, List, [], ◌∷◌, ◌++◌, ◌==◌, if◌then◌else◌, Bytes, codes, eqb, lookup, length, take, drop,
}
use jose.Common.Outcome.{Result, ok, err, ◌>>=◌, ◌>>◌, guard}
use jose.Errors.{
  out_of_range, Error, signature_invalid, invalid_key_type, invalid_key, unsupported_algorithm,
  none_alg_disallowed, external, nil_pointer, too_large,
}
use jose.BigInt.{set_bytes, fill_bytes}
use jose.Hashing.{Hash, Hashing, sha256, sha384, sha512}
use jose.Keys.{
  Curve, curve_name, RsaPublic, RsaPrivate, EcdsaPublic, EcdsaPrivate, Key, secret, rsa_public,
  rsa_private, ecdsa_public, ecdsa_private, ed25519_public, ed25519_private,
}

-- `kind` of a `sigAlg`, with what the kind needs: the hash, and for ECDSA the name of the curve and
-- the octets of a coordinate.
pub data Kind : Type 0 where
  hmac : Hash → Kind
  pkcs1 : Hash → Kind
  pss : Hash → Kind
  ecdsa : Hash → Bytes → ℕ → Kind
  eddsa : Kind

pub record SigAlg : Type 0 where
  pub name : Bytes
  pub kind : Kind

abbrev sig_alg : Bytes → Kind → Bytes × SigAlg
sig_alg name kind = (name, record { name = name; kind = kind })

unfoldable pub sig_algs : List (Bytes × SigAlg)
sig_algs =
    sig_alg (codes "HS256") (hmac sha256)
    ∷ sig_alg (codes "HS384") (hmac sha384)
    ∷ sig_alg (codes "HS512") (hmac sha512)
    ∷ sig_alg (codes "RS256") (pkcs1 sha256)
    ∷ sig_alg (codes "RS384") (pkcs1 sha384)
    ∷ sig_alg (codes "RS512") (pkcs1 sha512)
    ∷ sig_alg (codes "PS256") (pss sha256)
    ∷ sig_alg (codes "PS384") (pss sha384)
    ∷ sig_alg (codes "PS512") (pss sha512)
    ∷ sig_alg (codes "ES256") (ecdsa sha256 (codes "P-256") 32)
    ∷ sig_alg (codes "ES384") (ecdsa sha384 (codes "P-384") 48)
    ∷ sig_alg (codes "ES512") (ecdsa sha512 (codes "P-521") 66)
    ∷ sig_alg (codes "EdDSA") eddsa
    ∷ []

-- The source's constant `None`.
abbrev pub none_alg : Bytes
none_alg = codes "none"

-- `lookupSigAlg`. The hashes are linked in by the file's imports, so `Available` holds.
unfoldable pub lookup_sig_alg : Bytes → Result Error SigAlg
lookup_sig_alg alg =
    if eqb alg none_alg
    then err none_alg_disallowed
    else elim (lookup alg sig_algs) [ none ↦ err unsupported_algorithm | some a ↦ ok a ]

-- The signature primitives of the crypto packages; `none` is an error of theirs.
pub record Signing : Type 0 where
  pub hashing : Hashing
  pub sign_pkcs1 : Hash → RsaPrivate → Bytes → Option Bytes
  pub verify_pkcs1 : Hash → RsaPublic → Bytes → Bytes → Bool
  pub sign_pss : Hash → RsaPrivate → Bytes → Option Bytes
  pub verify_pss : Hash → RsaPublic → Bytes → Bytes → Bool
  pub sign_ecdsa : EcdsaPrivate → Bytes → Option (ℕ × ℕ)
  pub verify_ecdsa : EcdsaPublic → Bytes → ℕ → ℕ → Bool
  pub sign_ed25519 : Bytes → Bytes → Bytes
  pub verify_ed25519 : Bytes → Bytes → Bytes → Bool

-- `k.Public()` of an ed25519 private key copies `priv[32:]` to 32 octets: it fills up with zeros or cuts off
-- what a key of another length than 64 has there, and panics on a key of less than 32 octets.
abbrev pub ed25519_copied : Bytes → Bytes
ed25519_copied k = take 32 (drop 32 k ++ replicate 32 0)

pub ed25519_public_of : Bytes → Result Error Bytes
ed25519_public_of k = do guard (not (ltb (length k) 32)) out_of_range; ok (ed25519_copied k)

unfoldable pub or_external : Option Bytes → Result Error Bytes
or_external none = err external
or_external (some sig) = ok sig

-- The curve is set, and has this name.
pub has_curve : Option Curve → Bytes → Bool
has_curve none crv = false
has_curve (some c) crv = eqb (curve_name c) crv

-- `rsaPublic`
pub rsa_public_of : Key → Result Error RsaPublic
rsa_public_of (rsa_public k) = ok k
rsa_public_of (rsa_private k) = ok k.public
rsa_public_of _ = err invalid_key_type

pub rsa_private_of : Key → Result Error RsaPrivate
rsa_private_of (rsa_private k) = ok k
rsa_private_of _ = err invalid_key_type

pub ecdsa_public_of : Key → Result Error EcdsaPublic
ecdsa_public_of (ecdsa_public k) = ok k
ecdsa_public_of (ecdsa_private k) = ok k.public
ecdsa_public_of _ = err invalid_key_type

pub ecdsa_private_of : Key → Result Error EcdsaPrivate
ecdsa_private_of (ecdsa_private k) = ok k
ecdsa_private_of _ = err invalid_key_type

unfoldable pub secret_of : Key → Result Error Bytes
secret_of (secret s) = ok s
secret_of _ = err invalid_key_type

pub ed25519_private_of : Key → Result Error Bytes
ed25519_private_of (ed25519_private k) = ok k
ed25519_private_of _ = err invalid_key_type

pub ed25519_verify_key : Key → Result Error Bytes
ed25519_verify_key (ed25519_public k) = ok k
ed25519_verify_key (ed25519_private k) = ed25519_public_of k
ed25519_verify_key _ = err invalid_key_type

-- Fixed-width r || s.
pub ecdsa_octets : ℕ → Option (ℕ × ℕ) → Result Error Bytes
ecdsa_octets coord none = err external
ecdsa_octets coord (some (r, s)) = do
  guard (ltb r (256 ^ coord) && ltb s (256 ^ coord)) too_large
  ok (fill_bytes coord r ++ fill_bytes coord s)

module _ (lib : Signing) where
  -- `sigAlg.sign`
  unfoldable pub sign_kind : Kind → Bytes → Key → Result Error Bytes
  sign_kind (hmac h) input key = do
    s ← secret_of key
    guard (not (is_empty s)) invalid_key
    ok (lib.hashing.hmac h s input)
  sign_kind (pkcs1 h) input key = do
    priv ← rsa_private_of key
    or_external (lib.sign_pkcs1 h priv (lib.hashing.sum h input))
  sign_kind (pss h) input key = do
    priv ← rsa_private_of key
    or_external (lib.sign_pss h priv (lib.hashing.sum h input))
  sign_kind (ecdsa h crv coord) input key = do
    priv ← ecdsa_private_of key
    guard (has_curve priv.public.curve crv) invalid_key_type
    ecdsa_octets coord (lib.sign_ecdsa priv (lib.hashing.sum h input))
  sign_kind eddsa input key = do
    priv ← ed25519_private_of key
    guard (length priv == 64) invalid_key
    ok (lib.sign_ed25519 priv input)

  -- `sigAlg.verify`
  unfoldable pub verify_kind : Kind → Bytes → Bytes → Key → Result Error (Unit {0})
  verify_kind (hmac h) input sig key = do
    s ← secret_of key
    guard (not (is_empty s)) invalid_key
    guard (eqb sig (lib.hashing.hmac h s input)) signature_invalid
  verify_kind (pkcs1 h) input sig key = do
    k ← rsa_public_of key
    guard (lib.verify_pkcs1 h k (lib.hashing.sum h input) sig) signature_invalid
  verify_kind (pss h) input sig key = do
    k ← rsa_public_of key
    guard (lib.verify_pss h k (lib.hashing.sum h input) sig) signature_invalid
  verify_kind (ecdsa h crv coord) input sig key = do
    k ← ecdsa_public_of key
    guard (has_curve k.curve crv) invalid_key_type
    guard (length sig == 2 * coord) signature_invalid
    guard
        (lib.verify_ecdsa k (lib.hashing.sum h input) (set_bytes (take coord sig))
          (set_bytes (drop coord sig)))
        signature_invalid
  verify_kind eddsa input sig key = do
    k ← ed25519_verify_key key
    guard (length k == 32) invalid_key
    guard (lib.verify_ed25519 k input sig) signature_invalid

-- `ecdsaAlgFor` and `defaultSigAlg`; of a nil curve the parameters cannot be read.
pub ecdsa_alg_for : Bytes → Result Error Bytes
ecdsa_alg_for crv =
    if eqb crv (codes "P-256")
    then ok (codes "ES256")
    else if eqb crv (codes "P-384")
    then ok (codes "ES384")
    else if eqb crv (codes "P-521")
    then ok (codes "ES512")
    else err unsupported_algorithm

pub curve_alg : Option Curve → Result Error Bytes
curve_alg none = err nil_pointer
curve_alg (some c) = ecdsa_alg_for (curve_name c)

pub default_sig_alg : Key → Result Error Bytes
default_sig_alg (secret s) = ok (codes "HS256")
default_sig_alg (rsa_private k) = ok (codes "RS256")
default_sig_alg (rsa_public k) = ok (codes "RS256")
default_sig_alg (ed25519_private k) = ok (codes "EdDSA")
default_sig_alg (ed25519_public k) = ok (codes "EdDSA")
default_sig_alg (ecdsa_private k) = curve_alg k.public.curve
default_sig_alg (ecdsa_public k) = curve_alg k.curve
default_sig_alg _ = err invalid_key_type
