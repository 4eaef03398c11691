-- ===== src/Jwk/Tests.antt =====
-- Runs of jwk.go on a JWK.
use jose.Common.{◌≡◌, ◌↔◌, inl, refl, none, some, true, [], ◌∷◌, codes, eqb}
use jose.Common.Outcome.{ok}
use jose.Base64.{
  screen, is_symbol, value, decode_string, without_newlines, quanta, four, last_two, last_three,
  sextet, decode_segment,
}
use jose.BigInt.{set_bytes, read_octets}
use jose.Keys.{Key, KeyLibrary, rsa_private}
use jose.Jwk.{
  Jwk, AnyKey, jwk_set, select_jwk, resolve_key, check_jwk_usage, jwk_key, jwk_public, rsa_key,
  rsa_private_key, rsa_primes, b64_int, b64_field,
}
use jose.Jwk.Select.{Resolved, resolve_key-select_jwk}
use jose.Jwk.Usage.{IsPermitted, check_jwk_usage_iff}
use jose.Jwk.Public.{HasNoSecret, public_half, stripped, jwk_public_lem}

abbrev library : KeyLibrary
library = record {
  validates = λ k. true;
  precompute = λ k. none;
  is_on_curve = λ c x y. true;
  order = λ c. 7;
  key_from_seed = λ seed. seed;
  new_x25519_public = λ b. none;
  new_x25519_private = λ b. none;
}

abbrev blank : Jwk
blank = record {
  kty = codes "RSA";
  key_use = [];
  alg = [];
  kid = [];
  crv = [];
  key_ops = [];
  n = codes "uw";
  e = codes "Aw";
  d = [];
  p = [];
  q = [];
  dp = [];
  dq = [];
  qi = [];
  x = [];
  y = [];
  k = [];
}

abbrev signing_key : Jwk
signing_key = record blank { key_use = codes "sig"; kid = codes "1" }

abbrev keys : AnyKey
keys = jwk_set (some (some blank ∷ some signing_key ∷ []))

resolve_key-select_jwk_example :
    Resolved library keys (select_jwk keys (codes "1")) (resolve_key library keys (codes "1"))
resolve_key-select_jwk_example = resolve_key-select_jwk library keys (codes "1")

check_jwk_usage_iff_example :
    (check_jwk_usage keys (codes "1") (codes "sig") (codes "RS256" ∷ []) (codes "sign" ∷ [])
      ≡ ok tt)
    ↔ ((j : Jwk)
        → select_jwk keys (codes "1") ≡ some j
        → IsPermitted j (codes "sig") (codes "RS256" ∷ []) (codes "sign" ∷ []))
check_jwk_usage_iff_example =
    check_jwk_usage_iff keys (codes "1") (codes "sig") (codes "RS256" ∷ []) (codes "sign" ∷ [])

abbrev private_key : Jwk
private_key = record blank { d = codes "BQ" }

abbrev pair : Key
pair =
    rsa_private
      (record { public = record { n = 187; e = 3 }; d = 5; primes = none; precomputed = none })

private_runs : jwk_key library private_key ≡ ok pair
unfolding jwk_key eqb rsa_key rsa_private_key rsa_primes b64_int b64_field screen is_symbol value
    decode_string without_newlines quanta four last_two last_three sextet decode_segment read_octets
    set_bytes
private_runs = refl

public_runs : jwk_public library private_key ≡ ok (stripped private_key)
unfolding jwk_public stripped jwk_key eqb rsa_key rsa_private_key rsa_primes b64_int b64_field
    screen is_symbol value decode_string without_newlines quanta four last_two last_three sextet
    decode_segment read_octets set_bytes
public_runs = refl

jwk_public_lem_example :
    HasNoSecret (stripped private_key)
    × (jwk_key library (stripped private_key) ≡ ok (public_half pair))
jwk_public_lem_example =
    jwk_public_lem library private_key (stripped private_key) pair public_runs private_runs
      (inl refl)
