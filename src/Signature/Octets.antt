-- ===== src/Signature/Octets.antt =====
-- What `sigAlg.sign` gives is a string of octets that is not empty.
use jose.Common.{
  ==_iff, ltb, ◌&&◌, ◌+◌, ◌^◌, ◌<◌, ℕ, ◌≡◌, ◌≢◌, ap, not, is_empty, Option, none, some, [], ◌++◌,
  ◌==◌, Bytes, IsByte, All, All-append, lookup, lookup-All, length, length-append, Option-cases,
  Bool-cases, inl, inr, eqb, arith,
}
use mathlib.Core.Path.{subst}
use jose.Common.Outcome.{ok, guard, guard-ok, >>=-eq-ok}
use jose.Errors.{too_large, invalid_key, invalid_key_type}
use jose.BigInt.{fill_bytes, length-fill_bytes, fill_bytes-IsByte}
use jose.Hashing.{Hash}
use jose.Keys.{RsaPrivate, Key, secret, rsa_private, ecdsa_private, ed25519_private}
use jose.Signature.{
  Kind, hmac, pkcs1, pss, ecdsa, eddsa, SigAlg, sig_algs, none_alg, lookup_sig_alg, Signing,
  has_curve, ecdsa_octets, rsa_private_of, ecdsa_private_of, secret_of, ed25519_private_of,
  sign_kind,
}
use jose.Signature.RoundTrip.{or_external-ok}

abbrev pub IsSignature : Bytes → Type 0
IsSignature sig = All IsByte sig × (sig ≢ [])

-- What the crypto packages promise of the signatures that they give.
pub record GivesSignatures (lib : Signing) : Type 0 where
  pub hmac_gives : (h : Hash) (k input : Bytes) → IsSignature (lib.hashing.hmac h k input)
  pub pkcs1_gives :
      (h : Hash) (k : RsaPrivate) (input sig : Bytes)
      → lib.sign_pkcs1 h k (lib.hashing.sum h input) ≡ some sig
      → IsSignature sig
  pub pss_gives :
      (h : Hash) (k : RsaPrivate) (input sig : Bytes)
      → lib.sign_pss h k (lib.hashing.sum h input) ≡ some sig
      → IsSignature sig
  pub ed25519_gives : (k input : Bytes) → length k ≡ 64 → IsSignature (lib.sign_ed25519 k input)

-- The width of a coordinate in the table.
pub HasWidth : Kind → Type 0
HasWidth (ecdsa h crv coord) = 0 < coord
HasWidth _ = Unit {0}

pub lookup_sig_alg-HasWidth :
    (alg : Bytes) (a : SigAlg) → lookup_sig_alg alg ≡ ok a → HasWidth a.kind
unfolding lookup_sig_alg sig_algs HasWidth
lookup_sig_alg-HasWidth alg a h = elim (Bool-cases (eqb alg none_alg)) [
  | inl bad ↦ absurd (ground (arith, bad, h))
  | inr other ↦ elim (Option-cases (lookup alg sig_algs)) [
    | inl missing ↦ absurd (ground (arith, other, missing, h))
    | inr (b, e) ↦
        let same : b ≡ a = ground (arith, other, e, h) in
        subst (λ (x : SigAlg). HasWidth x.kind) same
          (lookup-All (λ (x : SigAlg). HasWidth x.kind) sig_algs alg (omega arith) e)
  ]
]

octets-IsSignature :
    (coord : ℕ) (numbers : Option (ℕ × ℕ)) (sig : Bytes)
    → 0 < coord
    → ecdsa_octets coord numbers ≡ ok sig
    → IsSignature sig
unfolding ecdsa_octets
octets-IsSignature coord none sig wide h = absurd (ground arith)
octets-IsSignature coord (some (r, s)) sig wide h =
    let (_, _, last) =
      >>=-eq-ok (guard (ltb r (256 ^ coord) && ltb s (256 ^ coord)) too_large) _ h in
    let both = fill_bytes coord r ++ fill_bytes coord s in
    let same : both ≡ sig = ground (arith, last) in
    let size : length both ≡ coord + coord = omega (
      arith,
      length-append (fill_bytes coord r) (fill_bytes coord s),
      length-fill_bytes coord r,
      length-fill_bytes coord s,
    ) in
    subst IsSignature same (
      All-append IsByte (fill_bytes coord r) _ (fill_bytes-IsByte coord r)
          (fill_bytes-IsByte coord s),
      λ e. let gone : length both ≡ 0 = ap length e in omega (arith, gone, size, wide),
    )

pub sign_kind-IsSignature :
    (lib : Signing)
    → GivesSignatures lib
    → (kind : Kind) (input sig : Bytes) (key : Key) → HasWidth kind
    → sign_kind lib kind input key ≡ ok sig
    → IsSignature sig
unfolding sign_kind secret_of rsa_private_of ecdsa_private_of ed25519_private_of HasWidth
sign_kind-IsSignature lib gives (hmac h) input sig (secret s) wide made =
    let (_, _, last) = >>=-eq-ok (guard (not (is_empty s)) invalid_key) _ made in
    let same : lib.hashing.hmac h s input ≡ sig = ground (arith, last) in
    subst IsSignature same (gives.hmac_gives h s input)
sign_kind-IsSignature lib gives (pkcs1 h) input sig (rsa_private k) wide made =
    gives.pkcs1_gives h k input sig (or_external-ok _ sig made)
sign_kind-IsSignature lib gives (pss h) input sig (rsa_private k) wide made =
    gives.pss_gives h k input sig (or_external-ok _ sig made)
sign_kind-IsSignature lib gives (ecdsa h crv coord) input sig (ecdsa_private k) wide made =
    let (_, _, last) = >>=-eq-ok (guard (has_curve k.public.curve crv) invalid_key_type) _ made in
    octets-IsSignature coord _ sig wide last
sign_kind-IsSignature lib gives eddsa input sig (ed25519_private k) _ made =
    let (_, long, last) = >>=-eq-ok (guard (length k == 64) invalid_key) _ made in
    let wide : length k ≡ 64 = (==_iff _ _).0 (guard-ok _ invalid_key long) in
    let same : lib.sign_ed25519 k input ≡ sig = ground (arith, last) in
    subst IsSignature same (gives.ed25519_gives k input wide)
sign_kind-IsSignature lib gives _ input sig _ wide made = absurd (ground arith)
