-- ===== src/Jwk/Export/RoundTrip.antt =====
-- `Key` gives back the key that `FromKey` was given.
use jose.Common.{
  ◌≡◌, refl, sym, ◌∙◌, ◌==◌, ==_iff, Bytes, codes, eqb, IsByte, All, length, take, drop, All-take,
  All-drop, length-take, length-drop, arith,
}
use jose.Common.Outcome.{ok-inj, ok, guard, guard-ok, >>=-eq-ok}
use jose.Errors.{invalid_key}
use jose.Keys.{
  EcdhCurve, x25519, EcdhPublic, EcdhPrivate, Key, secret, password, rsa_public, rsa_private,
  ecdsa_public, ecdsa_private, ed25519_public, ed25519_private, ecdh_public, ecdh_private, unknown,
  KeyLibrary,
}
use jose.Jwk.{
  Jwk, ed25519_private_key, ed25519_key, x25519_public_key, x25519_private_key, x25519_key, okp_key,
  jwk_key,
}
use jose.Jwk.Export.{okp_jwk, jwk_from_ecdh_on, jwk_from_ecdh_public, from_go_key}
use jose.Jwk.Export.Fields.{encode-nonempty, field_back, nonempty-of}
use jose.Jwk.Export.Members.{IsResolvable, rsa_public_back, rsa_private_back, secret_back}
use jose.Jwk.Export.Points.{ecdsa_public_back, ecdsa_private_back}

module _ (lib : KeyLibrary) where
  ed25519_public_back :
      (k : Bytes) (j : Jwk)
      → All IsByte k
      → from_go_key (ed25519_public k) ≡ ok j
      → jwk_key lib j ≡ ok (ed25519_public k)
  unfolding from_go_key jwk_key eqb okp_key ed25519_key
  ed25519_public_back k j octets made =
      let (_, long, last) = >>=-eq-ok (guard (length k == 32) invalid_key) _ made in
      let size = guard-ok _ invalid_key long in
      let filled = nonempty-of k 32 ((==_iff (length k) 32).0 size) (omega arith) in
      rw (← ok-inj _ j last, field_back k filled octets, size) refl

  ed25519_private_back :
      (k : Bytes) (j : Jwk)
      → IsResolvable lib (ed25519_private k)
      → from_go_key (ed25519_private k) ≡ ok j
      → jwk_key lib j ≡ ok (ed25519_private k)
  unfolding from_go_key jwk_key eqb okp_key ed25519_key ed25519_private_key
  ed25519_private_back k j h made =
      let (_, long, last) = >>=-eq-ok (guard (length k == 64) invalid_key) _ made in
      let size : length k ≡ 64 = (==_iff (length k) 64).0 (guard-ok _ invalid_key long) in
      let x_size : length (drop 32 k) ≡ 32 = omega (arith, size, length-drop 32 k) in
      let d_size : length (take 32 k) ≡ 32 = omega (arith, size, length-take 32 k) in
      let x_back =
        field_back (drop 32 k) (nonempty-of _ 32 x_size (omega arith)) (All-drop IsByte 32 k h.0) in
      let d_filled = nonempty-of (take 32 k) 32 d_size (omega arith) in
      let d_back = field_back (take 32 k) d_filled (All-take IsByte 32 k h.0) in
      rw
        (
          ← ok-inj _ j last,
          x_back,
          (==_iff _ _).1 x_size,
          encode-nonempty (take 32 k) d_filled,
          d_back,
          (==_iff _ _).1 d_size,
          h.1,
        )
        refl

  pub on_x25519 :
      (c : EcdhCurve) (k : EcdhPublic)
      → c ≡ x25519
      → jwk_from_ecdh_on c k ≡ ok (okp_jwk (codes "X25519") k.bytes)
  unfolding jwk_from_ecdh_on
  on_x25519 c k e = rw e refl

  ecdh_public_back :
      (k : EcdhPublic) (j : Jwk)
      → IsResolvable lib (ecdh_public k)
      → jwk_from_ecdh_public k ≡ ok j
      → jwk_key lib j ≡ ok (ecdh_public k)
  unfolding jwk_from_ecdh_public jwk_key eqb okp_key x25519_key x25519_public_key
  ecdh_public_back k j (curve, filled, octets, made_by) made =
      rw (← ok-inj _ j (sym (on_x25519 k.curve k curve) ∙ made), field_back k.bytes filled octets)
        (rw (x25519_public_key, made_by) refl)

  ecdh_private_back :
      (k : EcdhPrivate) (j : Jwk)
      → IsResolvable lib (ecdh_private k)
      → from_go_key (ecdh_private k) ≡ ok j
      → jwk_key lib j ≡ ok (ecdh_private k)
  unfolding from_go_key jwk_from_ecdh_public jwk_key eqb okp_key x25519_key x25519_private_key
  ecdh_private_back k j (curve, filled, octets, d_filled, d_octets, made_by) made =
      let (i, base, last) = >>=-eq-ok (jwk_from_ecdh_public k.public) _ made in
      let same = ok-inj _ i (sym (on_x25519 k.public.curve k.public curve) ∙ base) in
      rw
        (
          ← ok-inj _ j last,
          ← same,
          field_back k.public.bytes filled octets,
          encode-nonempty k.bytes d_filled,
          field_back k.bytes d_filled d_octets,
          made_by,
        )
        refl

  pub jwk_key-from_go_key :
      (key : Key) (j : Jwk) → IsResolvable lib key → from_go_key key ≡ ok j → jwk_key lib j ≡ ok key
  unfolding from_go_key
  jwk_key-from_go_key (secret s) j h made = secret_back lib s j h made
  jwk_key-from_go_key (rsa_public k) j h made = rw (← ok-inj _ j made) (rsa_public_back lib k h)
  jwk_key-from_go_key (rsa_private k) j h made = rw (← ok-inj _ j made) (rsa_private_back lib k h)
  jwk_key-from_go_key (ecdsa_public k) j h made = ecdsa_public_back lib k j h made
  jwk_key-from_go_key (ecdsa_private k) j h made = ecdsa_private_back lib k j h made
  jwk_key-from_go_key (ed25519_public k) j h made = ed25519_public_back k j h made
  jwk_key-from_go_key (ed25519_private k) j h made = ed25519_private_back k j h made
  jwk_key-from_go_key (ecdh_public k) j h made = ecdh_public_back k j h made
  jwk_key-from_go_key (ecdh_private k) j h made = ecdh_private_back k j h made
  jwk_key-from_go_key (password s) j h made = elim h [ ]
  jwk_key-from_go_key unknown j h made = elim h [ ]
