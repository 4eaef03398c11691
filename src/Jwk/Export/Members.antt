-- ===== src/Jwk/Export/Members.antt =====
-- RSA and symmetric keys, member by member, through `FromKey` and `Key`, and the keys that `Key` can give.
use jose.Common.{
  is_empty, ℕ, ◌-◌, ◌^◌, ◌≤◌, ◌<◌, ◌≡◌, ◌≢◌, refl, sym, ap, ◌∙◌, true, false, Option, none, some,
  [], ◌∷◌, ltb, Bytes, codes, eqb, IsByte, All, take, arith,
}
use jose.Common.Outcome.{ok-inj, ok}
use jose.Base64.{encode_segment}
use jose.BigInt.{big_bytes}
use jose.Keys.{
  Curve, p256, p384, p521, RsaPublic, RsaPrivate, EcdsaPublic, x25519, Key, secret, rsa_public,
  rsa_private, ecdsa_public, ecdsa_private, ed25519_public, ed25519_private, ecdh_public,
  ecdh_private, KeyLibrary,
}
use jose.Jwk.{Jwk, b64_int, rsa_primes, oct_key, rsa_private_key, rsa_key, jwk_key}
use jose.Jwk.Public.{jwk_key-rsa}
use jose.Jwk.Export.{
  jwk_from_rsa_public, with_primes, with_precomputed, jwk_from_rsa_private, from_go_key,
}
use jose.Keys.Pairs.{bare}
use jose.Jwk.Export.Fields.{encode-nonempty, field_back, big_bytes-nonempty, big_back}

module _ (lib : KeyLibrary) where
  -- What `Key` demands of a key of each type.
  abbrev pub IsRsa : RsaPublic → Type 0
  IsRsa k = (0 < k.n) × (3 ≤ k.e) × (k.e ≤ 2 ^ 31 - 1)

  abbrev pub ArePositive : Option (ℕ × ℕ) → Type 0
  ArePositive none = Unit {0}
  ArePositive (some (p, q)) = (0 < p) × (0 < q)

  abbrev pub IsOn : Option Curve → EcdsaPublic → Type 0
  IsOn (some p256) k = lib.is_on_curve p256 k.x k.y ≡ true
  IsOn (some p384) k = lib.is_on_curve p384 k.x k.y ≡ true
  IsOn (some p521) k = lib.is_on_curve p521 k.x k.y ≡ true
  IsOn _ k = ⊥

  abbrev pub order_of : Option Curve → ℕ
  order_of none = 0
  order_of (some c) = lib.order c

  -- The keys that `Key` can give: valid, with octets for octets, and made by the libraries as `Key` makes them.
  abbrev pub IsResolvable : Key → Type 0
  IsResolvable (secret s) = All IsByte s
  IsResolvable (rsa_public k) = IsRsa k
  IsResolvable (rsa_private k) =
      IsRsa k.public
      × (0 < k.d)
      × ArePositive k.primes
      × (lib.validates (bare k) ≡ true)
      × (k.precomputed ≡ lib.precompute (bare k))
  IsResolvable (ecdsa_public k) = IsOn k.curve k
  IsResolvable (ecdsa_private k) =
      IsOn k.public.curve k.public × (0 < k.d) × (k.d < order_of k.public.curve)
  IsResolvable (ed25519_public k) = All IsByte k
  IsResolvable (ed25519_private k) = All IsByte k × (lib.key_from_seed (take 32 k) ≡ k)
  IsResolvable (ecdh_public k) =
      (k.curve ≡ x25519)
      × (k.bytes ≢ [])
      × All IsByte k.bytes
      × (lib.new_x25519_public k.bytes ≡ some k)
  IsResolvable (ecdh_private k) =
      (k.public.curve ≡ x25519)
      × (k.public.bytes ≢ [])
      × All IsByte k.public.bytes
      × (k.bytes ≢ [])
      × All IsByte k.bytes
      × (lib.new_x25519_private k.bytes ≡ some k)
  IsResolvable _ = ⊥

  pub rsa_public_back :
      (k : RsaPublic) → IsRsa k → jwk_key lib (jwk_from_rsa_public k) ≡ ok (rsa_public k)
  unfolding jwk_key eqb rsa_key jwk_from_rsa_public
  rsa_public_back k h = rw (big_back k.n h.0, big_back k.e (omega arith)) (ground arith)

  -- The private key comes back, whichever of its optional members are there.
  primes_back :
      (primes : Option (ℕ × ℕ)) (pre : Option (ℕ × ℕ × ℕ)) (j : Jwk)
      → ArePositive primes
      → j.p ≡ []
      → j.q ≡ []
      → rsa_primes (with_precomputed pre (with_primes primes j)) ≡ ok primes
  unfolding rsa_primes with_precomputed with_primes
  primes_back none none j h ep eq = rw ep refl
  primes_back none (some pre) j h ep eq = rw ep refl
  primes_back (some (p, q)) none j h ep eq =
      rw
        (
          encode-nonempty (big_bytes p) (big_bytes-nonempty p h.0),
          encode-nonempty (big_bytes q) (big_bytes-nonempty q h.1),
          big_back p h.0,
          big_back q h.1,
        )
        refl
  primes_back (some (p, q)) (some pre) j h ep eq =
      rw
        (
          encode-nonempty (big_bytes p) (big_bytes-nonempty p h.0),
          encode-nonempty (big_bytes q) (big_bytes-nonempty q h.1),
          big_back p h.0,
          big_back q h.1,
        )
        refl

  same_members :
      (primes : Option (ℕ × ℕ)) (pre : Option (ℕ × ℕ × ℕ)) (j : Jwk)
      → let j' = with_precomputed pre (with_primes primes j) in
        (j'.kty ≡ j.kty) × (j'.n ≡ j.n) × (j'.e ≡ j.e) × (j'.d ≡ j.d)
  unfolding with_precomputed with_primes
  same_members none none j = (refl, refl, refl, refl)
  same_members none (some pre) j = (refl, refl, refl, refl)
  same_members (some (p, q)) none j = (refl, refl, refl, refl)
  same_members (some (p, q)) (some pre) j = (refl, refl, refl, refl)

  rsa_private_members :
      (j : Jwk) (k : RsaPrivate)
      → j.kty ≡ codes "RSA"
      → b64_int j.n ≡ ok k.public.n
      → b64_int j.e ≡ ok k.public.e
      → is_empty j.d ≡ false
      → b64_int j.d ≡ ok k.d
      → rsa_primes j ≡ ok k.primes
      → IsResolvable (rsa_private k)
      → jwk_key lib j ≡ ok (rsa_private k)
  unfolding rsa_key rsa_private_key
  rsa_private_members j k kty en ee given ed ep (rsa, pos_d, pos_p, valid, pre) =
      let low : ltb k.public.e 3 ≡ false = ground arith in
      let high : ltb (2 ^ 31 - 1) k.public.e ≡ false = ground arith in
      jwk_key-rsa lib j kty
      ∙ rw (en, ee, low, high, given, ed, ep, valid)
          (ap (λ o. ok (rsa_private (record k { precomputed = o }))) (sym pre))

  pub rsa_private_back :
      (k : RsaPrivate)
      → IsResolvable (rsa_private k)
      → jwk_key lib (jwk_from_rsa_private k) ≡ ok (rsa_private k)
  unfolding jwk_from_rsa_private jwk_from_rsa_public
  rsa_private_back k h =
      let base = record (jwk_from_rsa_public k.public) { d = encode_segment (big_bytes k.d) } in
      let (kty, en, ee, ed) = same_members k.primes k.precomputed base in
      rsa_private_members (with_precomputed k.precomputed (with_primes k.primes base)) k kty
        (ap b64_int en ∙ big_back k.public.n h.0.0)
        (ap b64_int ee ∙ big_back k.public.e (omega (arith, h.0)))
        (ap is_empty ed ∙ encode-nonempty (big_bytes k.d) (big_bytes-nonempty k.d h.1))
        (ap b64_int ed ∙ big_back k.d h.1) (primes_back k.primes k.precomputed base h.2 refl refl) h

  pub secret_back :
      (s : Bytes) (j : Jwk)
      → All IsByte s
      → from_go_key (secret s) ≡ ok j
      → jwk_key lib j ≡ ok (secret s)
  unfolding from_go_key jwk_key eqb oct_key
  secret_back [] j octets h = absurd (ground arith)
  secret_back (x ∷ s) j octets h = rw (← ok-inj _ j h, field_back (x ∷ s) (λ e. cc) octets) refl
