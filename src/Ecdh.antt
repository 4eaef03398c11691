-- ===== src/Ecdh.antt =====
-- ecdh.go: keys between crypto/ecdsa and crypto/ecdh, and the key agreement. (`ConcatKDF` is in
-- ConcatKdf.)
pub mod Agreement
pub mod Tests
use jose.Common.{
  ℕ, ◌+◌, ◌*◌, ◌^◌, Bool, true, false, not, ◌&&◌, ◌||◌, Option, none, some, List, [], ◌∷◌, ◌++◌,
  ◌==◌, ltb, if◌then◌else◌, Bytes, length, take, drop,
}
use jose.Common.Int.{ℤ}
use jose.Common.Outcome.{Result, ok, err, ◌>>=◌, ◌>>◌, guard}
use jose.Errors.{Error, invalid_key, invalid_key_type, nil_pointer, too_large}
use jose.BigInt.{set_bytes, fill_bytes}
use jose.Hashing.{Hashing}
use jose.ConcatKdf.{concat_kdf}
use jose.Keys.{
  Curve, p256, p384, p521, other_curve, EcdsaPublic, EcdsaPrivate, EcdhCurve, nist, x25519,
  EcdhPublic, EcdhPrivate, Key, ecdsa_public, ecdsa_private, ecdh_public, ecdh_private, coord_size,
}

-- What the package calls of crypto/ecdh on a curve; `none` is an error.
pub record EcdhLibrary : Type 0 where
  pub new_public : EcdhCurve → Bytes → Option EcdhPublic
  pub new_private : EcdhCurve → Bytes → Option EcdhPrivate
  pub exchange : EcdhPrivate → EcdhPublic → Option Bytes

-- `ecdhCurveFor`. A nil curve goes to the default case, where its `Params` are read.
pub ecdh_curve_for : Option Curve → Result Error EcdhCurve
ecdh_curve_for none = err nil_pointer
ecdh_curve_for (some (other_curve name bits)) = err invalid_key
ecdh_curve_for (some c) = ok (nist c)

-- `ellipticCurveFor`
pub elliptic_curve_for : EcdhCurve → Option Curve
elliptic_curve_for x25519 = none
elliptic_curve_for (nist (other_curve name bits)) = none
elliptic_curve_for (nist c) = some c

-- `padBig` and `FillBytes`, which panic on a number that does not fit.
pub pad_big : ℕ → ℕ → Result Error Bytes
pad_big n size = do guard (ltb n (256 ^ size)) too_large; ok (fill_bytes size n)

-- `b[0] != 4`, of a slice that is long enough.
pub is_uncompressed : Bytes → Bool
is_uncompressed [] = false
is_uncompressed (x ∷ b) = x == 4

-- `ecdhToECDSAPublic`
pub point_of : Curve → Bytes → Result Error EcdsaPublic
point_of c b = do
  let size = coord_size c
  guard (length b == 1 + 2 * size && is_uncompressed b) invalid_key
  ok (record {
    curve = some c;
    x = set_bytes (take size (drop 1 b));
    y = set_bytes (drop (1 + size) b);
  })

pub ecdh_to_ecdsa_public : EcdhPublic → Result Error EcdsaPublic
ecdh_to_ecdsa_public k = elim (elliptic_curve_for k.curve) [
  | none ↦ err invalid_key
  | some c ↦ point_of c k.bytes
]

-- The size is that of the curve, which is there when it is read.
unfoldable pub size_of : Option Curve → ℕ
size_of none = 0
size_of (some c) = coord_size c

pub or_invalid {ℓ} : {A : Type ℓ} → Option A → Result Error A
or_invalid none = err invalid_key
or_invalid (some a) = ok a

module _ (lib : EcdhLibrary) where
  -- `ecdsaToECDHPublic`
  pub ecdsa_to_ecdh_public : EcdsaPublic → Result Error EcdhPublic
  ecdsa_to_ecdh_public k = do
    c ← ecdh_curve_for k.curve
    x ← pad_big k.x (size_of k.curve)
    y ← pad_big k.y (size_of k.curve)
    or_invalid (lib.new_public c (4 ∷ (x ++ y)))

  -- `ecdsaToECDHPrivate`
  pub ecdsa_to_ecdh_private : EcdsaPrivate → Result Error EcdhPrivate
  ecdsa_to_ecdh_private k = do
    c ← ecdh_curve_for k.public.curve
    d ← pad_big k.d (size_of k.public.curve)
    or_invalid (lib.new_private c d)

  -- `asECDHPublic`
  pub as_ecdh_public : Key → Result Error EcdhPublic
  as_ecdh_public (ecdh_public k) = ok k
  as_ecdh_public (ecdh_private k) = ok k.public
  as_ecdh_public (ecdsa_public k) = ecdsa_to_ecdh_public k
  as_ecdh_public (ecdsa_private k) = ecdsa_to_ecdh_public k.public
  as_ecdh_public _ = err invalid_key_type

  -- `asECDHPrivate`
  pub as_ecdh_private : Key → Result Error EcdhPrivate
  as_ecdh_private (ecdh_private k) = ok k
  as_ecdh_private (ecdsa_private k) = ecdsa_to_ecdh_private k
  as_ecdh_private _ = err invalid_key_type

-- `priv.Curve() != pub.Curve()`, negated.
pub same_nist : Curve → Curve → Bool
same_nist p256 p256 = true
same_nist p384 p384 = true
same_nist p521 p521 = true
same_nist _ _ = false

pub same_curve : EcdhCurve → EcdhCurve → Bool
same_curve x25519 x25519 = true
same_curve (nist a) (nist b) = same_nist a b
same_curve _ _ = false

-- The output of `ConcatKDF`, whose loop ends.
pub derived_key : Option Bytes → Bytes
derived_key none = []
derived_key (some b) = b

-- `ecdhDerive`
pub ecdh_derive :
    EcdhLibrary
    → Hashing
    → EcdhPrivate
    → EcdhPublic
    → Bytes
    → Bytes
    → Bytes
    → ℤ
    → Result Error Bytes
ecdh_derive lib hs priv key alg_id apu apv key_len = do
  guard (same_curve priv.public.curve key.curve) invalid_key
  z ← or_invalid (lib.exchange priv key)
  derived ← concat_kdf hs z alg_id apu apv key_len
  ok (derived_key derived)

-- `ecdhGenerate`; the parameter is what `GenerateKey` gives in the run at hand.
unfoldable pub ecdh_generate :
    (EcdhCurve → Option EcdhPrivate) → EcdhPublic → Result Error EcdhPrivate
ecdh_generate generate key = or_invalid (generate key.curve)
