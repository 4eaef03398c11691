-- ===== src/Ecdh/Agreement.antt =====
-- The two parties of a key agreement derive the same key; a point survives its conversion.
use jose.Common.{
  take, ◌/◌, ℕ, suc, ◌+◌, ◌*◌, ◌^◌, ◌<◌, ◌≡◌, refl, sym, ap, ap₂, ◌∙◌, true, Option, none, some,
  ◌∷◌, ◌++◌, ◌==◌, ==_iff, ltb, Bytes, length, length-append, take-append, drop-append, Bool-cases,
  inl, inr, arith,
}
use jose.Common.Int.{ℤ, pos}
use jose.Common.Outcome.{ok-inj, ok, guard, guard-ok, >>=-eq-ok}
use jose.Errors.{too_large}
use jose.BigInt.{set_bytes, fill_bytes, length-fill_bytes, set_bytes-fill_bytes}
use jose.Hashing.{Hashing, IsHashing}
use jose.ConcatKdf.Rounds.{hashes, fixed_info, concat_kdf-hashes}
use jose.Keys.{
  Curve, p256, p384, p521, other_curve, EcdsaPublic, EcdhCurve, nist, x25519, EcdhPublic,
  EcdhPrivate, coord_size,
}
use jose.Ecdh.{
  EcdhLibrary, ecdh_curve_for, elliptic_curve_for, pad_big, is_uncompressed, point_of,
  ecdh_to_ecdsa_public, size_of, or_invalid, ecdsa_to_ecdh_public, same_nist, same_curve,
  derived_key, ecdh_derive,
}

-- A private key of crypto/ecdh carries the public key that belongs to its octets.
abbrev pub IsKeyPair : EcdhLibrary → EcdhPrivate → Type 0
IsKeyPair lib k = lib.new_private k.public.curve k.bytes ≡ some k

-- What crypto/ecdh promises: a key from octets has these octets, and the two sides of an exchange between
-- two of its keys compute the same secret.
pub record IsEcdh (lib : EcdhLibrary) : Type 0 where
  pub new_public_lem :
      (c : EcdhCurve) (b : Bytes) (k : EcdhPublic)
      → lib.new_public c b ≡ some k
      → (k.curve ≡ c) × (k.bytes ≡ b)
  pub exchange_comm :
      (a b : EcdhPrivate)
      → IsKeyPair lib a
      → IsKeyPair lib b
      → a.public.curve ≡ b.public.curve
      → lib.exchange a b.public ≡ lib.exchange b a.public

same_nist-eq : (a b : Curve) → same_nist a b ≡ true → a ≡ b
unfolding same_nist
same_nist-eq p256 p256 h = refl
same_nist-eq p384 p384 h = refl
same_nist-eq p521 p521 h = refl
same_nist-eq _ _ h = absurd (ground arith)

same_nist_comm : (a b : Curve) → same_nist a b ≡ same_nist b a
unfolding same_nist
same_nist_comm p256 p256 = refl
same_nist_comm p384 p384 = refl
same_nist_comm p521 p521 = refl
same_nist_comm (other_curve x bits) p256 = refl
same_nist_comm (other_curve x bits) p384 = refl
same_nist_comm _ _ = refl

same_curve-eq : (a b : EcdhCurve) → same_curve a b ≡ true → a ≡ b
unfolding same_curve
same_curve-eq x25519 x25519 h = refl
same_curve-eq (nist a) (nist b) h = ap nist (same_nist-eq a b h)
same_curve-eq _ _ h = absurd (ground arith)

same_curve_comm : (a b : EcdhCurve) → same_curve a b ≡ same_curve b a
unfolding same_curve
same_curve_comm x25519 x25519 = refl
same_curve_comm (nist a) (nist b) = same_nist_comm a b
same_curve_comm _ _ = refl

pub ecdh_derive_comm :
    (lib : EcdhLibrary)
    → IsEcdh lib
    → (hs : Hashing) (a b : EcdhPrivate) → IsKeyPair lib a
    → IsKeyPair lib b
    → (alg_id apu apv : Bytes) (key_len : ℤ)
    → ecdh_derive lib hs a b.public alg_id apu apv key_len
      ≡ ecdh_derive lib hs b a.public alg_id apu apv key_len
unfolding ecdh_derive
ecdh_derive_comm lib laws hs a b own_a own_b alg_id apu apv key_len =
    elim (Bool-cases (same_curve a.public.curve b.public.curve)) [
      | inl same ↦
          let swapped = sym (same_curve_comm a.public.curve b.public.curve) ∙ same in
          let secret = laws.exchange_comm a b own_a own_b (same_curve-eq _ _ same) in
          rw (same, swapped, secret) refl
      | inr other ↦
          let swapped = sym (same_curve_comm a.public.curve b.public.curve) ∙ other in
          rw (other, swapped) refl
    ]

-- The curves that the package takes from crypto/ecdh.
abbrev pub IsSupported : EcdhCurve → Type 0
IsSupported (nist (other_curve name bits)) = ⊥
IsSupported _ = Unit {0}

same_curve_refl : (c : EcdhCurve) → IsSupported c → same_curve c c ≡ true
unfolding same_curve same_nist
same_curve_refl x25519 h = refl
same_curve_refl (nist p256) h = refl
same_curve_refl (nist p384) h = refl
same_curve_refl (nist p521) h = refl
same_curve_refl (nist (other_curve name bits)) h = elim h [ ]

-- For two key pairs of crypto/ecdh on one curve of the package, where the exchange of the sender's private key with the recipient's public key
-- gives a secret Z, the sender and the recipient, from its own private key and the sender's public key, both derive
-- the `n` octets that SP 800-56A prescribes for Z, the algorithm, apu and apv.
pub ecdh_derive-agrees :
    (lib : EcdhLibrary)
    → IsEcdh lib
    → (hs : Hashing) → IsHashing hs
    → (a b : EcdhPrivate) (alg_id apu apv z : Bytes) (n : ℕ) → IsKeyPair lib a
    → IsKeyPair lib b
    → a.public.curve ≡ b.public.curve
    → IsSupported a.public.curve
    → lib.exchange a b.public ≡ some z
    → 0 < n
    → let key = take n (hashes hs z (fixed_info alg_id apu apv n) ((n + 31) / 32)) in
      (ecdh_derive lib hs a b.public alg_id apu apv (pos n) ≡ ok key)
      × (ecdh_derive lib hs b a.public alg_id apu apv (pos n) ≡ ok key)
unfolding ecdh_derive or_invalid derived_key
ecdh_derive-agrees lib laws hs hash_laws a b alg_id apu apv z n own_a own_b on known exchanged h =
    let alike : same_curve a.public.curve b.public.curve ≡ true =
      ap (same_curve a.public.curve) (sym on) ∙ same_curve_refl a.public.curve known in
    let (derived, _) = concat_kdf-hashes hs hash_laws z alg_id apu apv n h in
    let sent : ecdh_derive lib hs a b.public alg_id apu apv (pos n)
        ≡ ok (take n (hashes hs z (fixed_info alg_id apu apv n) ((n + 31) / 32))) =
      rw (alike, exchanged, derived) refl in
    (sent, sym (ecdh_derive_comm lib laws hs a b own_a own_b alg_id apu apv (pos n)) ∙ sent)

pub pad_big-ok :
    (n size : ℕ) (b : Bytes) → pad_big n size ≡ ok b → (b ≡ fill_bytes size n) × (n < 256 ^ size)
unfolding pad_big
pad_big-ok n size b h =
    let (_, fits, last) = >>=-eq-ok (guard (ltb n (256 ^ size)) too_large) _ h in
    let below = guard-ok _ too_large fits in (ground (arith, last), ground (arith, below))

pub or_invalid-ok {ℓ} : {A : Type ℓ} (o : Option A) (a : A) → or_invalid o ≡ ok a → o ≡ some a
unfolding or_invalid
or_invalid-ok none a h = cc
or_invalid-ok (some b) a h = cc

-- The octets of an uncompressed point are read back.
point_of-octets :
    (c : Curve) (x y : ℕ)
    → x < 256 ^ coord_size c
    → y < 256 ^ coord_size c
    → point_of c (4 ∷ (fill_bytes (coord_size c) x ++ fill_bytes (coord_size c) y))
      ≡ ok (record { curve = some c; x = x; y = y })
unfolding point_of is_uncompressed
point_of-octets c x y hx hy =
    let n = coord_size c in
    let first = fill_bytes n x in
    let second = fill_bytes n y in
    let long : length (first ++ second) ≡ n + n =
      omega (arith, length-append first second, length-fill_bytes n x, length-fill_bytes n y) in
    let size : (suc (length (first ++ second)) == 1 + 2 * n) ≡ true =
      (==_iff _ _).1 (omega (arith, long)) in
    let one : 1 + n ≡ suc n = omega arith in
    let same = length-fill_bytes n x in
    let front =
      ap set_bytes (take-append first second n (sym same)) ∙ set_bytes-fill_bytes n x hx in
    let back = ap set_bytes (drop-append first second n (sym same)) ∙ set_bytes-fill_bytes n y hy in
    rw (size, one, front, back) refl

NistOf : Option Curve → EcdhCurve → Type 0
NistOf o c = (d : Curve) × (o ≡ some d) × (elliptic_curve_for c ≡ some d)

nist-of : (o : Option Curve) (c : EcdhCurve) → ecdh_curve_for o ≡ ok c → NistOf o c
unfolding ecdh_curve_for NistOf elliptic_curve_for
nist-of none c h = absurd (ground arith)
nist-of (some p256) c h = (p256, refl, rw (← ok-inj (nist p256) c h) refl)
nist-of (some p384) c h = (p384, refl, rw (← ok-inj (nist p384) c h) refl)
nist-of (some p521) c h = (p521, refl, rw (← ok-inj (nist p521) c h) refl)
nist-of (some (other_curve name bits)) c h = absurd (ground arith)

through_point :
    (p : EcdhPublic) (d : Curve)
    → elliptic_curve_for p.curve ≡ some d
    → ecdh_to_ecdsa_public p ≡ point_of d p.bytes
unfolding ecdh_to_ecdsa_public
through_point p d e = rw (ecdh_to_ecdsa_public, e) refl

converted :
    (k : EcdsaPublic) (p : EcdhPublic) (d : Curve) (x y : Bytes)
    → k.curve ≡ some d
    → elliptic_curve_for p.curve ≡ some d
    → p.bytes ≡ 4 ∷ (x ++ y)
    → pad_big k.x (size_of k.curve) ≡ ok x
    → pad_big k.y (size_of k.curve) ≡ ok y
    → ecdh_to_ecdsa_public p ≡ ok k
unfolding size_of
converted k p d x y named elliptic octets px py =
    let size : size_of k.curve ≡ coord_size d = ap size_of named in
    let (fx, bx) = pad_big-ok k.x (coord_size d) x (rw (← size) px) in
    let (fy, by) = pad_big-ok k.y (coord_size d) y (rw (← size) py) in
    through_point p d elliptic
    ∙ (ap (point_of d) (octets ∙ ap₂ (λ (u v : Bytes). 4 ∷ (u ++ v)) fx fy)
        ∙ (point_of-octets d k.x k.y bx by
            ∙ ap (λ o. ok (record { curve = o; x = k.x; y = k.y })) (sym named)))

-- What `ecdsaToECDHPublic` converts, `ecdhToECDSAPublic` converts back to the same key.
pub ecdh_to_ecdsa-ecdsa_to_ecdh :
    (lib : EcdhLibrary)
    → IsEcdh lib
    → (k : EcdsaPublic) (p : EcdhPublic) → ecdsa_to_ecdh_public lib k ≡ ok p
    → ecdh_to_ecdsa_public p ≡ ok k
unfolding ecdsa_to_ecdh_public NistOf
ecdh_to_ecdsa-ecdsa_to_ecdh lib laws k p h =
    let (c, found, h₁) = >>=-eq-ok (ecdh_curve_for k.curve) _ h in
    let (x, px, h₂) = >>=-eq-ok (pad_big k.x (size_of k.curve)) _ h₁ in
    let (y, py, last) = >>=-eq-ok (pad_big k.y (size_of k.curve)) _ h₂ in
    let (d, named, elliptic) = nist-of k.curve c found in
    let (curve, octets) = laws.new_public_lem c (4 ∷ (x ++ y)) p (or_invalid-ok _ p last) in
    converted k p d x y named (ap elliptic_curve_for curve ∙ elliptic) octets px py
