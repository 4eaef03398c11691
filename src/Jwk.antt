-- ===== src/Jwk.antt =====
-- jwk.go: JSON Web Keys, how they resolve to Go keys, and the restrictions that they state.
pub mod Tests
pub mod Usage
pub mod Select
pub mod Public
pub mod Export
use jose.Common.{
  is_empty, ℕ, zero, suc, ◌+◌, ◌-◌, ◌*◌, ◌^◌, Bool, true, false, not, ◌&&◌, ◌||◌, Option, none,
  some, List, [], ◌∷◌, ltb, leb, ◌==◌, if◌then◌else◌, Bytes, codes, eqb, contains, length,
}
use jose.Common.Outcome.{Result, ok, err, ◌>>=◌, ◌>>◌, guard, relabel}
use jose.Errors.{
  Error, invalid_key, key_not_found, key_use_mismatch, key_alg_mismatch, key_ops_mismatch,
  nil_pointer,
}
use jose.Base64.{decode_segment}
use jose.BigInt.{set_bytes}
use jose.Keys.{
  Curve, p256, p384, p521, Key, secret, rsa_public, rsa_private, ecdsa_public, ecdsa_private,
  ed25519_public, ed25519_private, ecdh_public, ecdh_private, KeyLibrary, RsaPublic, RsaPrivate,
  EcdsaPublic,
}

-- The members as they stand in JSON, "" if absent; `key_use` is "use".
pub record Jwk : Type 0 where
  pub kty : Bytes
  pub key_use : Bytes
  pub alg : Bytes
  pub kid : Bytes
  pub crv : Bytes
  pub key_ops : List Bytes
  pub n : Bytes
  pub e : Bytes
  pub d : Bytes
  pub p : Bytes
  pub q : Bytes
  pub dp : Bytes
  pub dq : Bytes
  pub qi : Bytes
  pub x : Bytes
  pub y : Bytes
  pub k : Bytes

-- A key argument of the API: a Go key, a *JWK, a *JWKSet (`none` for a nil pointer), or nil.
pub data AnyKey : Type 0 where
  go_key : Key → AnyKey
  jwk : Option Jwk → AnyKey
  jwk_set : Option (List (Option Jwk)) → AnyKey
  no_key : AnyKey

-- `Keys[0]` of a set that is not empty.
pub first_of : List (Option Jwk) → Option Jwk
first_of [] = none
first_of (k ∷ keys) = k

-- `JWKSet.LookupKeyID`
pub lookup_key_id : List (Option Jwk) → Bytes → Option Jwk
lookup_key_id [] kid = none
lookup_key_id (none ∷ keys) kid = lookup_key_id keys kid
lookup_key_id (some k ∷ keys) kid = if eqb k.kid kid then some k else lookup_key_id keys kid

pub b64_field : Bytes → Result Error Bytes
b64_field s = do guard (not (is_empty s)) invalid_key; relabel invalid_key (decode_segment s)

pub b64_int : Bytes → Result Error ℕ
b64_int s = do b ← b64_field s; ok (set_bytes b)

pub rsa_primes : Jwk → Result Error (Option (ℕ × ℕ))
rsa_primes k =
    if not (is_empty k.p) && not (is_empty k.q)
    then (do p ← b64_int k.p; q ← b64_int k.q; ok (some (p, q)))
    else ok none

pub ec_curve : Bytes → Result Error Curve
ec_curve name =
    if eqb name (codes "P-256")
    then ok p256
    else if eqb name (codes "P-384")
    then ok p384
    else if eqb name (codes "P-521")
    then ok p521
    else err invalid_key

pub oct_key : Jwk → Result Error Key
oct_key k = do b ← b64_field k.k; ok (secret b)

module _ (lib : KeyLibrary) where
  pub rsa_private_key : Jwk → RsaPublic → Result Error Key
  rsa_private_key k pub_key = do
    d ← b64_int k.d
    primes ← rsa_primes k
    let priv : RsaPrivate = record { public = pub_key; d = d; primes = primes; precomputed = none }
    guard (lib.validates priv) invalid_key
    ok (rsa_private (record priv { precomputed = lib.precompute priv }))

  pub rsa_key : Jwk → Result Error Key
  rsa_key k = do
    n ← b64_int k.n
    e ← b64_int k.e
    guard (not (ltb e 3 || ltb (2 ^ 31 - 1) e)) invalid_key
    let pub_key : RsaPublic = record { n = n; e = e }
    if is_empty k.d then ok (rsa_public pub_key) else rsa_private_key k pub_key

  pub ec_private_key : Jwk → Curve → EcdsaPublic → Result Error Key
  ec_private_key k curve pub_key = do
    d ← b64_int k.d
    guard (not (d == 0 || leb (lib.order curve) d)) invalid_key
    ok (ecdsa_private (record { public = pub_key; d = d }))

  pub ec_key : Jwk → Result Error Key
  ec_key k = do
    curve ← ec_curve k.crv
    x ← b64_int k.x
    y ← b64_int k.y
    guard (lib.is_on_curve curve x y) invalid_key
    let pub_key : EcdsaPublic = record { curve = some curve; x = x; y = y }
    if is_empty k.d then ok (ecdsa_public pub_key) else ec_private_key k curve pub_key

  pub ed25519_private_key : Jwk → Result Error Key
  ed25519_private_key k = do
    d ← b64_field k.d
    guard (length d == 32) invalid_key
    ok (ed25519_private (lib.key_from_seed d))

  pub ed25519_key : Jwk → Result Error Key
  ed25519_key k = do
    x ← b64_field k.x
    guard (length x == 32) invalid_key
    if is_empty k.d then ok (ed25519_public x) else ed25519_private_key k

  pub x25519_public_key : Bytes → Result Error Key
  x25519_public_key x = elim (lib.new_x25519_public x) [
    | none ↦ err invalid_key
    | some key ↦ ok (ecdh_public key)
  ]

  pub x25519_private_key : Jwk → Result Error Key
  x25519_private_key k = do
    d ← b64_field k.d
    elim (lib.new_x25519_private d) [ none ↦ err invalid_key | some key ↦ ok (ecdh_private key) ]

  pub x25519_key : Jwk → Result Error Key
  x25519_key k = do
    x ← b64_field k.x
    if is_empty k.d then x25519_public_key x else x25519_private_key k

  pub okp_key : Jwk → Result Error Key
  okp_key k =
      if eqb k.crv (codes "Ed25519")
      then ed25519_key k
      else if eqb k.crv (codes "X25519")
      then x25519_key k
      else err invalid_key

  -- `JWK.Key`
  pub jwk_key : Jwk → Result Error Key
  jwk_key k =
      if eqb k.kty (codes "RSA")
      then rsa_key k
      else if eqb k.kty (codes "EC")
      then ec_key k
      else if eqb k.kty (codes "OKP")
      then okp_key k
      else if eqb k.kty (codes "oct")
      then oct_key k
      else err invalid_key

  -- `JWK.Public`
  pub jwk_public : Jwk → Result Error Jwk
  jwk_public k = do
    guard (not (eqb k.kty (codes "oct"))) invalid_key
    _ ← jwk_key k
    ok (record k { d = []; p = []; q = []; dp = []; dq = []; qi = []; k = [] })

  -- The call of `Key` on an element of a set; on a nil pointer Go panics.
  pub element_key : Option Jwk → Result Error Key
  element_key none = err nil_pointer
  element_key (some k) = jwk_key k

  pub found_key : Option Jwk → Result Error Key
  found_key none = err key_not_found
  found_key (some k) = jwk_key k

  pub set_key : List (Option Jwk) → Bytes → Result Error Key
  set_key keys kid =
      if is_empty kid && length keys == 1
      then element_key (first_of keys)
      else found_key (lookup_key_id keys kid)

  -- `resolveKey` of header.go
  unfoldable pub resolve_key : AnyKey → Bytes → Result Error Key
  resolve_key (jwk none) kid = err invalid_key
  resolve_key (jwk (some k)) kid = jwk_key k
  resolve_key (jwk_set none) kid = err invalid_key
  resolve_key (jwk_set (some keys)) kid = set_key keys kid
  resolve_key no_key kid = err invalid_key
  resolve_key (go_key key) kid = ok key

-- `JWK.IsPrivate`
unfoldable pub is_private : Jwk → Bool
is_private k =
    if eqb k.kty (codes "RSA") || eqb k.kty (codes "EC") || eqb k.kty (codes "OKP")
    then not (is_empty k.d)
    else if eqb k.kty (codes "oct")
    then not (is_empty k.k)
    else false

-- `selectJWK`
unfoldable pub select_jwk : AnyKey → Bytes → Option Jwk
select_jwk (go_key key) kid = none
select_jwk (jwk k) kid = k
select_jwk (jwk_set none) kid = none
select_jwk (jwk_set (some keys)) kid =
    if is_empty kid && length keys == 1 then first_of keys else lookup_key_id keys kid
select_jwk no_key kid = none

-- One of `ops` stands in `key_ops`.
pub permits : List Bytes → List Bytes → Bool
permits key_ops [] = false
permits key_ops (op ∷ ops) = contains key_ops op || permits key_ops ops

pub check_usage : Jwk → Bytes → List Bytes → List Bytes → Result Error (Unit {0})
check_usage j key_use algs ops = do
  guard (is_empty j.key_use || eqb j.key_use key_use) key_use_mismatch
  guard (is_empty j.alg || contains algs j.alg) key_alg_mismatch
  guard (is_empty j.key_ops || permits j.key_ops ops) key_ops_mismatch

-- `checkJWKUsage`
unfoldable pub check_jwk_usage :
    AnyKey → Bytes → Bytes → List Bytes → List Bytes → Result Error (Unit {0})
check_jwk_usage key kid key_use algs ops = elim (select_jwk key kid) [
  | none ↦ ok tt
  | some j ↦ check_usage j key_use algs ops
]
