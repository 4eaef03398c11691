-- ===== src/Signature/RoundTrip.antt =====
-- A signature that is made verifies, with the signing key and with its public half.
use jose.Common.{
  replicate, length-replicate, length-take, false, ltb, ◌&&◌, is_empty, ℕ, ◌*◌, ◌^◌, ◌<◌, ◌≡◌, refl,
  sym, ◌∙◌, ap, true, not, Option, none, some, ◌++◌, ◌==◌, Bytes, eqb_refl, length, take, drop,
  length-append, take-append, drop-append, ==_iff, arith,
}
use jose.Common.Outcome.{ok, guard, guard-ok, >>=-eq-ok}
use jose.Errors.{too_large, invalid_key, invalid_key_type}
use jose.BigInt.{set_bytes, fill_bytes, length-fill_bytes, set_bytes-fill_bytes}
use jose.Hashing.{Hash}
use jose.Keys.Pairs.{IsRsaPair, IsEcdsaPair, IsPair}
use jose.Keys.{
  Curve, KeyLibrary, RsaPrivate, EcdsaPrivate, Key, secret, rsa_public, rsa_private, ecdsa_public,
  ecdsa_private, ed25519_public, ed25519_private,
}
use jose.Signature.{
  Kind, hmac, pkcs1, pss, ecdsa, eddsa, Signing, ed25519_copied, ed25519_public_of, or_external,
  has_curve, ecdsa_octets, rsa_public_of, rsa_private_of, ecdsa_public_of, ecdsa_private_of,
  secret_of, ed25519_private_of, ed25519_verify_key, sign_kind, verify_kind,
}

-- What the crypto packages promise: under the public half of a key they accept the signatures that they make
-- with the key. The two halves belong together.
pub record IsSigning (keys : KeyLibrary) (point : Curve → ℕ → Option (ℕ × ℕ)) (lib : Signing)
    : Type 0 where
  pub pkcs1_verifies :
      (h : Hash) (k : RsaPrivate) (digest sig : Bytes)
      → IsRsaPair keys k
      → lib.sign_pkcs1 h k digest ≡ some sig
      → lib.verify_pkcs1 h k.public digest sig ≡ true
  pub pss_verifies :
      (h : Hash) (k : RsaPrivate) (digest sig : Bytes)
      → IsRsaPair keys k
      → lib.sign_pss h k digest ≡ some sig
      → lib.verify_pss h k.public digest sig ≡ true
  pub ecdsa_verifies :
      (k : EcdsaPrivate) (digest : Bytes) (r s : ℕ)
      → IsEcdsaPair keys point k
      → lib.sign_ecdsa k digest ≡ some (r, s)
      → lib.verify_ecdsa k.public digest r s ≡ true
  pub ed25519_verifies :
      (k input : Bytes)
      → length k ≡ 64
      → keys.key_from_seed (take 32 k) ≡ k
      → lib.verify_ed25519 (ed25519_copied k) input (lib.sign_ed25519 k input) ≡ true

-- The key that a verifier is given: the public half of a private key.
abbrev pub verifier_of : Key → Key
verifier_of (rsa_private k) = rsa_public k.public
verifier_of (ecdsa_private k) = ecdsa_public k.public
verifier_of (ed25519_private k) = ed25519_public (ed25519_copied k)
verifier_of k = k

pub or_external-ok : (o : Option Bytes) (sig : Bytes) → or_external o ≡ ok sig → o ≡ some sig
unfolding or_external
or_external-ok none sig h = absurd (ground arith)
or_external-ok (some s) sig h = ground arith

both_below : (r s bound : ℕ) → (ltb r bound && ltb s bound) ≡ true → r < bound × s < bound
both_below r s bound h = (ground arith, ground arith)

-- The two halves of a signature of r || s.
halves :
    (coord r s : ℕ) (sig : Bytes)
    → sig ≡ fill_bytes coord r ++ fill_bytes coord s
    → r < 256 ^ coord
    → s < 256 ^ coord
    → (length sig ≡ 2 * coord) × (set_bytes (take coord sig) ≡ r) × (set_bytes (drop coord sig) ≡ s)
halves coord r s sig e hr hs =
    let same = length-fill_bytes coord r in
    rw e (
      (length-append (fill_bytes coord r) (fill_bytes coord s)
          ∙ omega (arith, same, length-fill_bytes coord s)),
      (ap set_bytes (take-append (fill_bytes coord r) (fill_bytes coord s) coord (sym same))
          ∙ set_bytes-fill_bytes coord r hr),
      (ap set_bytes (drop-append (fill_bytes coord r) (fill_bytes coord s) coord (sym same))
          ∙ set_bytes-fill_bytes coord s hs),
    )

secret_same : (key : Key) → secret_of (verifier_of key) ≡ secret_of key
unfolding secret_of
secret_same (rsa_private k) = refl
secret_same (ecdsa_private k) = refl
secret_same (ed25519_private k) = refl
secret_same _ = refl

rsa_same : (key : Key) → rsa_public_of (verifier_of key) ≡ rsa_public_of key
unfolding rsa_public_of
rsa_same (rsa_private k) = refl
rsa_same (ecdsa_private k) = refl
rsa_same (ed25519_private k) = refl
rsa_same _ = refl

ecdsa_same : (key : Key) → ecdsa_public_of (verifier_of key) ≡ ecdsa_public_of key
unfolding ecdsa_public_of
ecdsa_same (rsa_private k) = refl
ecdsa_same (ecdsa_private k) = refl
ecdsa_same (ed25519_private k) = refl
ecdsa_same _ = refl

length-ed25519_copied : (k : Bytes) → length (ed25519_copied k) ≡ 32
length-ed25519_copied k =
    length-take 32 (drop 32 k ++ replicate 32 0)
    ∙ omega (arith, length-append (drop 32 k) (replicate 32 0), length-replicate {A = ℕ} 32 0)

module _ (keys : KeyLibrary) (point : Curve → ℕ → Option (ℕ × ℕ)) (lib : Signing)
    (laws : IsSigning keys point lib) (input sig : Bytes) where
  ecdsa-verifies :
      (h : Hash) (coord : ℕ) (priv : EcdsaPrivate) (numbers : Option (ℕ × ℕ))
      → IsEcdsaPair keys point priv
      → lib.sign_ecdsa priv (lib.hashing.sum h input) ≡ numbers
      → ecdsa_octets coord numbers ≡ ok sig
      → (length sig ≡ 2 * coord)
        × (lib.verify_ecdsa priv.public
              (lib.hashing.sum h input)
              (set_bytes (take coord sig))
              (set_bytes (drop coord sig))
            ≡ true)
  unfolding ecdsa_octets
  ecdsa-verifies h coord priv none pair run e = absurd (ground arith)
  ecdsa-verifies h coord priv (some (r, s)) pair run e =
      let digest = lib.hashing.sum h input in
      let (_, fits, last) =
        >>=-eq-ok (guard (ltb r (256 ^ coord) && ltb s (256 ^ coord)) too_large) _ e in
      let (below_r, below_s) = both_below r s (256 ^ coord) (guard-ok _ too_large fits) in
      let (long, first, second) = halves coord r s sig (ground (arith, last)) below_r below_s in
      (long, rw (first, second) (laws.ecdsa_verifies priv digest r s pair run))

  -- A signature of `sigAlg.sign` is accepted by `sigAlg.verify`.
  verifies :
      (kind : Kind) (key : Key)
      → IsPair keys point key
      → sign_kind lib kind input key ≡ ok sig
      → verify_kind lib kind input sig key ≡ ok tt
  unfolding sign_kind verify_kind secret_of rsa_private_of rsa_public_of ecdsa_private_of
      ecdsa_public_of ed25519_private_of ed25519_verify_key ed25519_public_of
  verifies (hmac h) (secret s) pair made =
      let (_, given, last) = >>=-eq-ok (guard (not (is_empty s)) invalid_key) _ made in
      let same : sig ≡ lib.hashing.hmac h s input = ground (arith, last) in
      rw (guard-ok _ invalid_key given, same, eqb_refl (lib.hashing.hmac h s input)) refl
  verifies (pkcs1 h) (rsa_private k) pair made =
      let run = or_external-ok (lib.sign_pkcs1 h k (lib.hashing.sum h input)) sig made in
      rw (laws.pkcs1_verifies h k (lib.hashing.sum h input) sig pair run) refl
  verifies (pss h) (rsa_private k) pair made =
      let run = or_external-ok (lib.sign_pss h k (lib.hashing.sum h input)) sig made in
      rw (laws.pss_verifies h k (lib.hashing.sum h input) sig pair run) refl
  verifies (ecdsa h crv coord) (ecdsa_private k) pair made =
      let (_, named, last) =
        >>=-eq-ok (guard (has_curve k.public.curve crv) invalid_key_type) _ made in
      let (long, accepted) = ecdsa-verifies h coord k _ pair refl last in
      rw (guard-ok _ invalid_key_type named, (==_iff _ _).1 long, accepted) refl
  verifies eddsa (ed25519_private k) pair made =
      let (_, long, last) = >>=-eq-ok (guard (length k == 64) invalid_key) _ made in
      let wide : length k ≡ 64 = (==_iff _ _).0 (guard-ok _ invalid_key long) in
      let same : sig ≡ lib.sign_ed25519 k input = ground (arith, last) in
      let reached : ltb (length k) 32 ≡ false = ground (arith, wide) in
      rw
        (
          reached,
          same,
          (==_iff (length (ed25519_copied k)) 32).1 (length-ed25519_copied k),
          laws.ed25519_verifies k input wide pair,
        )
        refl
  verifies _ _ pair made = absurd (ground arith)

  -- A private key takes the way of its public half.
  same_verifier :
      (kind : Kind) (key : Key)
      → sign_kind lib kind input key ≡ ok sig
      → verify_kind lib kind input sig (verifier_of key) ≡ verify_kind lib kind input sig key
  unfolding sign_kind verify_kind secret_of rsa_public_of ecdsa_public_of ed25519_verify_key
      ed25519_private_of ed25519_public_of
  same_verifier (hmac h) key made = rw (secret_same key) refl
  same_verifier (pkcs1 h) key made = rw (rsa_same key) refl
  same_verifier (pss h) key made = rw (rsa_same key) refl
  same_verifier (ecdsa h crv coord) key made = rw (ecdsa_same key) refl
  same_verifier eddsa (ed25519_private k) made =
      let (_, long, last) = >>=-eq-ok (guard (length k == 64) invalid_key) _ made in
      let wide : length k ≡ 64 = (==_iff _ _).0 (guard-ok _ invalid_key long) in
      let reached : ltb (length k) 32 ≡ false = ground (arith, wide) in rw reached refl
  same_verifier eddsa _ made = absurd (ground arith)

-- Under the laws of the crypto packages, a signature that `sigAlg.sign` makes with a key whose two halves belong
-- together is accepted by `sigAlg.verify` for the same input, both with the signing key and with its public half.
pub verify_kind-sign_kind :
    (keys : KeyLibrary) (point : Curve → ℕ → Option (ℕ × ℕ)) (lib : Signing)
    → IsSigning keys point lib
    → (kind : Kind) (input sig : Bytes) (key : Key) → IsPair keys point key
    → sign_kind lib kind input key ≡ ok sig
    → (verify_kind lib kind input sig key ≡ ok tt)
      × (verify_kind lib kind input sig (verifier_of key) ≡ ok tt)
verify_kind-sign_kind keys point lib laws kind input sig key pair made =
    let direct = verifies keys point lib laws input sig kind key pair made in
    (direct, same_verifier keys point lib laws input sig kind key made ∙ direct)
