-- ===== src/Jwk/Export/Points.antt =====
-- Keys of the NIST curves, member by member, through `FromKey` and `Key`.
use jose.Common.{
  ◌<◌, ◌≡◌, refl, sym, ap, ◌∙◌, true, false, Option, none, some, [], leb, ◌==◌, codes, eqb, arith,
}
use jose.Common.Outcome.{ok-inj, ok, >>=-eq-ok}
use jose.Base64.{encode_segment}
use jose.Ecdh.{pad_big, size_of}
use jose.Keys.{
  Curve, p256, p384, p521, other_curve, curve_name, coord_size, EcdsaPublic, EcdsaPrivate,
  ecdsa_public, ecdsa_private, KeyLibrary,
}
use jose.Jwk.{Jwk, b64_int, ec_curve, ec_private_key, ec_key, jwk_key}
use jose.Jwk.Public.{jwk_key-ec}
use jose.Jwk.Export.{named_curve, jwk_from_ec_public, from_go_key}
use jose.Jwk.Export.Fields.{pad_back, pad-nonempty}
use jose.Jwk.Export.Members.{IsOn, IsResolvable, order_of}

module _ (lib : KeyLibrary) where
  -- A point on a NIST curve, whose name and size the code knows.
  record IsPoint (c : Curve) (k : EcdsaPublic) : Type 0 where
    named : k.curve ≡ some c
    wide : 0 < coord_size c
    known : ec_curve (curve_name c) ≡ ok c
    on : lib.is_on_curve c k.x k.y ≡ true

  point :
      (o : Option Curve) (k : EcdsaPublic) → k.curve ≡ o → IsOn lib o k → (c : Curve) × IsPoint c k
  unfolding ec_curve curve_name coord_size eqb
  point (some p256) k e h = (p256, record { named = e; wide = omega arith; known = refl; on = h })
  point (some p384) k e h = (p384, record { named = e; wide = omega arith; known = refl; on = h })
  point (some p521) k e h = (p521, record { named = e; wide = omega arith; known = refl; on = h })
  point (some (other_curve name bits)) k e h = elim h [ ]
  point none k e h = elim h [ ]

  ec_members :
      (k : EcdsaPublic) (c : Curve) (j : Jwk)
      → IsPoint c k
      → jwk_from_ec_public k ≡ ok j
      → (j.kty ≡ codes "EC")
        × (j.crv ≡ curve_name c)
        × (b64_int j.x ≡ ok k.x)
        × (b64_int j.y ≡ ok k.y)
        × (j.d ≡ [])
  unfolding jwk_from_ec_public named_curve size_of
  ec_members k c j h made =
      let (name, e, h₁) = >>=-eq-ok (named_curve k.curve) _ made in
      let (_, _, h₂) = >>=-eq-ok (ec_curve name) _ h₁ in
      let (x, ex, h₃) = >>=-eq-ok (pad_big k.x (size_of k.curve)) _ h₂ in
      let (y, ey, last) = >>=-eq-ok (pad_big k.y (size_of k.curve)) _ h₃ in
      let size : size_of k.curve ≡ coord_size c = ap size_of h.named in
      let same = ok-inj _ j last in
      let wide : 0 < size_of k.curve = rw size h.wide in
      (
        sym (ap (λ (i : Jwk). i.kty) same),
        sym (ap (λ (i : Jwk). i.crv) same) ∙ sym (ok-inj _ name (sym (ap named_curve h.named) ∙ e)),
        sym (ap (λ (i : Jwk). b64_int i.x) same) ∙ pad_back k.x (size_of k.curve) x wide ex,
        sym (ap (λ (i : Jwk). b64_int i.y) same) ∙ pad_back k.y (size_of k.curve) y wide ey,
        sym (ap (λ (i : Jwk). i.d) same),
      )

  pub ecdsa_public_back :
      (k : EcdsaPublic) (j : Jwk)
      → IsOn lib k.curve k
      → jwk_from_ec_public k ≡ ok j
      → jwk_key lib j ≡ ok (ecdsa_public k)
  unfolding ec_key
  ecdsa_public_back k j h made =
      let (c, at) = point k.curve k refl h in
      let (kty, crv, ex, ey, ed) = ec_members k c j at made in
      jwk_key-ec lib j kty
      ∙ rw (crv, at.known, ex, ey, at.on, ed)
          (ap (λ o. ok (ecdsa_public (record k { curve = o }))) (sym at.named))

  pub ecdsa_private_back :
      (k : EcdsaPrivate) (j : Jwk)
      → IsResolvable lib (ecdsa_private k)
      → from_go_key (ecdsa_private k) ≡ ok j
      → jwk_key lib j ≡ ok (ecdsa_private k)
  unfolding from_go_key ec_key ec_private_key size_of
  ecdsa_private_back k j h made =
      let (i, base, h₁) = >>=-eq-ok (jwk_from_ec_public k.public) _ made in
      let (d, ed, last) = >>=-eq-ok (pad_big k.d (size_of k.public.curve)) _ h₁ in
      let (c, at) = point k.public.curve k.public refl h.0 in
      let (kty, crv, ex, ey, _) = ec_members k.public c i at base in
      let size : size_of k.public.curve ≡ coord_size c = ap size_of at.named in
      let wide : 0 < size_of k.public.curve = rw size at.wide in
      let below : k.d < lib.order c = omega (arith, h.2, ap (order_of lib) at.named) in
      let positive : (k.d == 0) ≡ false = ground (arith, h.1) in
      let less : leb (lib.order c) k.d ≡ false = ground (arith, below) in
      rw (← ok-inj _ j last) (
        jwk_key-ec lib (record i { d = encode_segment d }) kty
        ∙ rw
            (
              crv,
              at.known,
              ex,
              ey,
              at.on,
              pad-nonempty k.d (size_of k.public.curve) d wide ed,
              pad_back k.d (size_of k.public.curve) d wide ed,
              positive,
              less,
            )
            (ap (λ o. ok (ecdsa_private (record k { public = record k.public { curve = o } })))
              (sym at.named)))
