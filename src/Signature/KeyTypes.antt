-- ===== src/Signature/KeyTypes.antt =====
-- Which keys an algorithm takes: never one of another family.
use jose.Common.{
  ltb, ◌≤◌, ◌++◌, replicate, sym, nonempty, is_empty, ◌*◌, ◌≡◌, ◌≢◌, true, not, [], ◌==◌, ==_iff,
  Bytes, length, eqb_iff, take, drop, arith,
}
use jose.Common.Outcome.{ok, ok-inj, guard, guard-ok, >>=-eq-ok}
use jose.Errors.{out_of_range, invalid_key, invalid_key_type, signature_invalid}
use jose.BigInt.{set_bytes}
use jose.Keys.{Key, ed25519_public, ed25519_private, secret, RsaPublic, EcdsaPublic}
use jose.Signature.{
  Kind, hmac, pkcs1, pss, ecdsa, eddsa, Signing, has_curve, rsa_public_of, ecdsa_public_of,
  secret_of, ed25519_verify_key, ed25519_public_of, verify_kind,
}

-- The public key that an Ed25519 key gives: itself, or what a private key has from its octet 32 on, filled up with
-- zeros and cut off to 32 octets, where that octet is there.
abbrev pub IsEd25519 : Key → Bytes → Type 0
IsEd25519 (ed25519_public p) k = p ≡ k
IsEd25519 (ed25519_private p) k = (32 ≤ length p) × (k ≡ take 32 (drop 32 p ++ replicate 32 0))
IsEd25519 _ k = ⊥

-- The key has the public half that the family needs, and what the primitive says of it.
abbrev pub Verified : Signing → Kind → Bytes → Bytes → Key → Type 0
Verified lib (hmac h) input sig key =
    (s : Bytes) × (key ≡ secret s) × (s ≢ []) × (sig ≡ lib.hashing.hmac h s input)
Verified lib (pkcs1 h) input sig key =
    (k : RsaPublic) × (rsa_public_of key ≡ ok k)
    × (lib.verify_pkcs1 h k (lib.hashing.sum h input) sig ≡ true)
Verified lib (pss h) input sig key =
    (k : RsaPublic) × (rsa_public_of key ≡ ok k)
    × (lib.verify_pss h k (lib.hashing.sum h input) sig ≡ true)
Verified lib (ecdsa h crv coord) input sig key =
    (k : EcdsaPublic) × (ecdsa_public_of key ≡ ok k)
    × (has_curve k.curve crv ≡ true)
    × (length sig ≡ 2 * coord)
    × (lib.verify_ecdsa k (lib.hashing.sum h input) (set_bytes (take coord sig))
          (set_bytes (drop coord sig))
        ≡ true)
Verified lib eddsa input sig key =
    (k : Bytes) × IsEd25519 key k × (length k ≡ 32) × (lib.verify_ed25519 k input sig ≡ true)

secret-of : (key : Key) (s : Bytes) → secret_of key ≡ ok s → key ≡ secret s
unfolding secret_of
secret-of (secret t) s h = ground (arith, h)
secret-of _ s h = absurd (ground arith)

ed25519_verify_key-IsEd25519 :
    (key : Key) (k : Bytes) → ed25519_verify_key key ≡ ok k → IsEd25519 key k
unfolding ed25519_verify_key ed25519_public_of
ed25519_verify_key-IsEd25519 (ed25519_public p) k h = ok-inj p k h
ed25519_verify_key-IsEd25519 (ed25519_private p) k h =
    let (_, long, last) = >>=-eq-ok (guard (not (ltb (length p) 32)) out_of_range) _ h in
    let wide : not (ltb (length p) 32) ≡ true = guard-ok _ out_of_range long in
    (ground arith, sym (ok-inj _ k last))
ed25519_verify_key-IsEd25519 _ k h = absurd (ground arith)

module _ (lib : Signing) (input sig : Bytes) (key : Key) where
  -- `sigAlg.verify` accepts only a key of the algorithm's own family (an HMAC algorithm never takes
  -- a public key), on the algorithm's curve, with a signature that the primitive accepts and, for ECDSA, of the
  -- length of two coordinates. An Ed25519 public key has 32 octets; of a private key, which need only have
  -- 32 octets, the part from octet 32 on is filled up or cut off to 32 octets.
  pub verify_kind-Verified :
      (kind : Kind) → verify_kind lib kind input sig key ≡ ok tt → Verified lib kind input sig key
  unfolding verify_kind
  verify_kind-Verified (hmac h) e =
      let (s, got, e₁) = >>=-eq-ok (secret_of key) _ e in
      let (_, given, last) = >>=-eq-ok (guard (not (is_empty s)) invalid_key) _ e₁ in
      (
        s,
        secret-of key s got,
        nonempty s (guard-ok _ invalid_key given),
        (eqb_iff sig (lib.hashing.hmac h s input)).0 (guard-ok _ signature_invalid last),
      )
  verify_kind-Verified (pkcs1 h) e =
      let (k, got, last) = >>=-eq-ok (rsa_public_of key) _ e in
      (k, got, guard-ok _ signature_invalid last)
  verify_kind-Verified (pss h) e =
      let (k, got, last) = >>=-eq-ok (rsa_public_of key) _ e in
      (k, got, guard-ok _ signature_invalid last)
  verify_kind-Verified (ecdsa h crv coord) e =
      let (k, got, e₁) = >>=-eq-ok (ecdsa_public_of key) _ e in
      let (_, named, e₂) = >>=-eq-ok (guard (has_curve k.curve crv) invalid_key_type) _ e₁ in
      let (_, long, last) = >>=-eq-ok (guard (length sig == 2 * coord) signature_invalid) _ e₂ in
      (
        k,
        got,
        guard-ok _ invalid_key_type named,
        (==_iff (length sig) (2 * coord)).0 (guard-ok _ signature_invalid long),
        guard-ok _ signature_invalid last,
      )
  verify_kind-Verified eddsa e =
      let (k, got, e₁) = >>=-eq-ok (ed25519_verify_key key) _ e in
      let (_, long, last) = >>=-eq-ok (guard (length k == 32) invalid_key) _ e₁ in
      (
        k,
        ed25519_verify_key-IsEd25519 key k got,
        (==_iff (length k) 32).0 (guard-ok _ invalid_key long),
        guard-ok _ signature_invalid last,
      )
