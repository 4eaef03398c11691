-- ===== src/Jwk/Public.antt =====
-- The public part of a JWK.
use jose.Common.{
  is_empty, ◌-◌, ◌^◌, ltb, leb, ◌==◌, ◌≡◌, ◌⊎◌, inl, inr, refl, sym, ap, ◌∙◌, false, not, ◌||◌,
  some, [], if◌then◌else◌, codes, eqb, Bool-cases, arith,
}
use jose.Common.Outcome.{ok, guard, >>=-eq-ok}
use jose.Errors.{invalid_key}
use jose.Keys.{
  RsaPublic, EcdsaPublic, Curve, Key, KeyLibrary, rsa_public, rsa_private, ecdsa_public,
  ecdsa_private,
}
use jose.Jwk.{
  Jwk, b64_int, rsa_key, rsa_private_key, ec_key, ec_private_key, jwk_key, jwk_public, rsa_primes,
  ec_curve,
}

-- The public half of an RSA or EC key pair; a public key is its own.
pub public_half : Key → Key
public_half (rsa_private k) = rsa_public k.public
public_half (ecdsa_private k) = ecdsa_public k.public
public_half k = k

-- The members that `Public` clears.
unfoldable pub stripped : Jwk → Jwk
stripped k = record k { d = []; p = []; q = []; dp = []; dq = []; qi = []; k = [] }

-- None of the members that RFC 7517 and 7518 call private or secret has a value.
abbrev pub HasNoSecret : Jwk → Type 0
HasNoSecret k =
    (k.d ≡ []) × (k.p ≡ []) × (k.q ≡ []) × (k.dp ≡ []) × (k.dq ≡ []) × (k.qi ≡ []) × (k.k ≡ [])

pub jwk_key-rsa : (lib : KeyLibrary) (j : Jwk) → j.kty ≡ codes "RSA" → jwk_key lib j ≡ rsa_key lib j
unfolding jwk_key eqb
jwk_key-rsa lib j e = rw e

pub jwk_key-ec : (lib : KeyLibrary) (j : Jwk) → j.kty ≡ codes "EC" → jwk_key lib j ≡ ec_key lib j
unfolding jwk_key eqb
jwk_key-ec lib j e = rw e

kty-stripped : (j : Jwk) → (stripped j).kty ≡ j.kty
unfolding stripped
kty-stripped j = refl

module _ (lib : KeyLibrary) (j : Jwk) where
  jwk_public-stripped :
      (p : Jwk)
      → jwk_public lib j ≡ ok p
      → (p ≡ stripped j)
        × (eqb j.kty (codes "oct") ≡ false)
        × ((key : Key) × (jwk_key lib j ≡ ok key))
  unfolding jwk_public stripped
  jwk_public-stripped p h =
      let (_, asym, run) = >>=-eq-ok (guard (not (eqb j.kty (codes "oct"))) invalid_key) _ h in
      let (key, found, last) = >>=-eq-ok (jwk_key lib j) _ run in
      (ground (arith, last), ground arith, (key, found))

  private_key-public :
      (pub_key : RsaPublic) (key : Key)
      → rsa_private_key lib j pub_key ≡ ok key
      → public_half key ≡ rsa_public pub_key
  unfolding rsa_private_key public_half
  private_key-public pub_key key h =
      let (d, _, h₁) = >>=-eq-ok (b64_int j.d) _ h in
      let (primes, _, h₂) = >>=-eq-ok (rsa_primes j) _ h₁ in
      let (_, _, last) = >>=-eq-ok (guard (lib.validates _) invalid_key) _ h₂ in
      ground (arith, last)

  rsa_half :
      (pub_key : RsaPublic) (key : Key)
      → (if is_empty j.d then ok (rsa_public pub_key) else rsa_private_key lib j pub_key) ≡ ok key
      → public_half key ≡ rsa_public pub_key
  rsa_half pub_key key h = elim (Bool-cases (is_empty j.d)) [
    | inl blank ↦
        let same : key ≡ rsa_public pub_key = ground (arith, h, blank) in
        ap public_half same ∙ unfold public_half in refl
    | inr given ↦ private_key-public pub_key key (ground (arith, h, given))
  ]

  rsa_key-stripped :
      (key : Key) → rsa_key lib j ≡ ok key → rsa_key lib (stripped j) ≡ ok (public_half key)
  unfolding rsa_key stripped
  rsa_key-stripped key h =
      let (n, en, h₁) = >>=-eq-ok (b64_int j.n) _ h in
      let (e, ee, h₂) = >>=-eq-ok (b64_int j.e) _ h₁ in
      let (_, range, last) =
        >>=-eq-ok (guard (not (ltb e 3 || ltb (2 ^ 31 - 1) e)) invalid_key) _ h₂ in
      let pub_key : RsaPublic = record { n = n; e = e } in
      rw (en, ee, range) (ap ok (sym (rsa_half pub_key key last)))

  ec_private_key-public :
      (curve : Curve) (pub_key : EcdsaPublic) (key : Key)
      → ec_private_key lib j curve pub_key ≡ ok key
      → public_half key ≡ ecdsa_public pub_key
  unfolding ec_private_key public_half
  ec_private_key-public curve pub_key key h =
      let (d, _, h₁) = >>=-eq-ok (b64_int j.d) _ h in
      let (_, _, last) =
        >>=-eq-ok (guard (not (d == 0 || leb (lib.order curve) d)) invalid_key) _ h₁ in
      ground (arith, last)

  ec_half :
      (curve : Curve) (pub_key : EcdsaPublic) (key : Key)
      → (if is_empty j.d then ok (ecdsa_public pub_key) else ec_private_key lib j curve pub_key)
        ≡ ok key
      → public_half key ≡ ecdsa_public pub_key
  ec_half curve pub_key key h = elim (Bool-cases (is_empty j.d)) [
    | inl blank ↦
        let same : key ≡ ecdsa_public pub_key = ground (arith, h, blank) in
        ap public_half same ∙ unfold public_half in refl
    | inr given ↦ ec_private_key-public curve pub_key key (ground (arith, h, given))
  ]

  ec_key-stripped :
      (key : Key) → ec_key lib j ≡ ok key → ec_key lib (stripped j) ≡ ok (public_half key)
  unfolding ec_key stripped
  ec_key-stripped key h =
      let (curve, ec, h₁) = >>=-eq-ok (ec_curve j.crv) _ h in
      let (x, ex, h₂) = >>=-eq-ok (b64_int j.x) _ h₁ in
      let (y, ey, h₃) = >>=-eq-ok (b64_int j.y) _ h₂ in
      let (_, on, last) = >>=-eq-ok (guard (lib.is_on_curve curve x y) invalid_key) _ h₃ in
      let pub_key : EcdsaPublic = record { curve = some curve; x = x; y = y } in
      rw (ec, ex, ey, on) (ap ok (sym (ec_half curve pub_key key last)))

  -- The public part of an RSA or EC key carries none of the members d, p, q, dp, dq, qi and k, and resolves to the
  -- public half of what the key itself resolves to.
  pub jwk_public_lem :
      (p : Jwk) (key : Key)
      → jwk_public lib j ≡ ok p
      → jwk_key lib j ≡ ok key
      → (j.kty ≡ codes "RSA") ⊎ (j.kty ≡ codes "EC")
      → HasNoSecret p × (jwk_key lib p ≡ ok (public_half key))
  jwk_public_lem p key h found kind =
      let (same, asym, _) = jwk_public-stripped p h in
      rw same (unfold stripped in (refl, refl, refl, refl, refl, refl, refl), stripped_key kind)
    where
      stripped_key :
          (j.kty ≡ codes "RSA") ⊎ (j.kty ≡ codes "EC")
          → jwk_key lib (stripped j) ≡ ok (public_half key)
      stripped_key (inl e) =
          jwk_key-rsa lib (stripped j) (kty-stripped j ∙ e)
          ∙ rsa_key-stripped key (sym (jwk_key-rsa lib j e) ∙ found)
      stripped_key (inr e) =
          jwk_key-ec lib (stripped j) (kty-stripped j ∙ e)
          ∙ ec_key-stripped key (sym (jwk_key-ec lib j e) ∙ found)
