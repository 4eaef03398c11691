-- ===== src/Keys.antt =====
-- The Go key types that the package handles, and what it calls of the libraries to make them.
pub mod Pairs
use jose.Common.{ℕ, ◌+◌, ◌/◌, Bool, Option, Bytes, codes}

-- An `elliptic.Curve`, with its `Params().Name`.
pub data Curve : Type 0 where
  p256 p384 p521 : Curve
  -- Any other, with its name and its `BitSize`.
  other_curve : Bytes → ℕ → Curve

unfoldable pub curve_name : Curve → Bytes
curve_name p256 = codes "P-256"
curve_name p384 = codes "P-384"
curve_name p521 = codes "P-521"
curve_name (other_curve name bits) = name

pub record RsaPublic : Type 0 where
  pub n : ℕ
  pub e : ℕ

-- The first two of `Primes` if there are two; `Dp`, `Dq` and `Qinv` of `Precomputed` if they are set.
pub record RsaPrivate : Type 0 where
  pub public : RsaPublic
  pub d : ℕ
  pub primes : Option (ℕ × ℕ)
  pub precomputed : Option (ℕ × ℕ × ℕ)

-- A nil curve is `none`.
pub record EcdsaPublic : Type 0 where
  pub curve : Option Curve
  pub x : ℕ
  pub y : ℕ

pub record EcdsaPrivate : Type 0 where
  pub public : EcdsaPublic
  pub d : ℕ

pub data EcdhCurve : Type 0 where
  nist : Curve → EcdhCurve
  x25519 : EcdhCurve

pub record EcdhPublic : Type 0 where
  pub curve : EcdhCurve
  pub bytes : Bytes

pub record EcdhPrivate : Type 0 where
  pub public : EcdhPublic
  pub bytes : Bytes

-- A resolved key; `unknown` is a value of any other Go type.
pub data Key : Type 0 where
  secret : Bytes → Key
  password : Bytes → Key
  rsa_public : RsaPublic → Key
  rsa_private : RsaPrivate → Key
  ecdsa_public : EcdsaPublic → Key
  ecdsa_private : EcdsaPrivate → Key
  ed25519_public : Bytes → Key
  ed25519_private : Bytes → Key
  ecdh_public : EcdhPublic → Key
  ecdh_private : EcdhPrivate → Key
  unknown : Key

-- What the libraries compute for `JWK.Key`.
pub record KeyLibrary : Type 0 where
  -- `priv.Validate() == nil`
  pub validates : RsaPrivate → Bool
  -- What `priv.Precompute()` sets.
  pub precompute : RsaPrivate → Option (ℕ × ℕ × ℕ)
  pub is_on_curve : Curve → ℕ → ℕ → Bool
  -- `curve.Params().N`
  pub order : Curve → ℕ
  pub key_from_seed : Bytes → Bytes
  pub new_x25519_public : Bytes → Option EcdhPublic
  pub new_x25519_private : Bytes → Option EcdhPrivate

-- `coordSize`: the octets of a coordinate. The NIST curves have 256, 384 and 521 bits.
unfoldable pub coord_size : Curve → ℕ
coord_size p256 = (256 + 7) / 8
coord_size p384 = (384 + 7) / 8
coord_size p521 = (521 + 7) / 8
coord_size (other_curve name bits) = (bits + 7) / 8
