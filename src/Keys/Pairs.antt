-- ===== src/Keys/Pairs.antt =====
-- Which private keys belong to their public half, as the crypto packages generate them and JWK.Key makes them.
use jose.Common.{ℕ, ◌≡◌, ◌⊎◌, true, Option, none, some, take}
use jose.Keys.{
  Curve, RsaPrivate, EcdsaPrivate, Key, rsa_private, ecdsa_private, ed25519_private, KeyLibrary,
}

-- The key as it stands before `Precompute`.
abbrev pub bare : RsaPrivate → RsaPrivate
bare k = record k { precomputed = none }

-- `Validate` accepts the key, and what it has precomputed, if anything, is what `Precompute` sets.
abbrev pub IsRsaPair : KeyLibrary → RsaPrivate → Type 0
IsRsaPair keys k =
    (keys.validates (bare k) ≡ true)
    × ((k.precomputed ≡ none) ⊎ (k.precomputed ≡ keys.precompute (bare k)))

-- `point c d` is the point of a curve that a private scalar gives, if it is one that the curve has.
module _ (keys : KeyLibrary) (point : Curve → ℕ → Option (ℕ × ℕ)) where
  abbrev pub IsEcdsaPair : EcdsaPrivate → Type 0
  IsEcdsaPair k =
      (c : Curve) × (k.public.curve ≡ some c) × (point c k.d ≡ some (k.public.x, k.public.y))

  abbrev pub IsPair : Key → Type 0
  IsPair (rsa_private k) = IsRsaPair keys k
  IsPair (ecdsa_private k) = IsEcdsaPair k
  IsPair (ed25519_private k) = keys.key_from_seed (take 32 k) ≡ k
  IsPair _ = Unit {0}
