-- ===== src/Jws/RoundTrip/Tests.antt =====
-- A run of `Sign` and `Verify` of jws.go with HMAC and a detached payload.
use jose.Common.{
  ◌≡◌, ◌<◌, ◌≢◌, refl, sym, ap, true, ℕ, zero, suc, Option, none, some, List, [], ◌∷◌, Bytes, codes,
  eqb, lookup, lookup-All, replicate, length, length-replicate, All, IsByte, arith,
}
use mathlib.Core.Path.{subst}
use jose.Common.Outcome.{ok}
use jose.Codec.{Rereads, IsReread, IsHeaderCodec}
use jose.Hashing.{Hash, sha1, sha256, sha384, sha512, hash_size}
use jose.Json.{Value}
use jose.Header.{Header, copy_header}
use jose.Header.Merge.{IsMap}
use jose.Keys.{Key, secret}
use jose.Jwk.{go_key}
use jose.Signature.Octets.{IsSignature, GivesSignatures}
use jose.Jws.{Library, SignOptions, sign, verify_with_options}
use jose.Jws.Matching.{matching_options}
use jose.Jws.RoundTrip.{verify-sign}
use jose.Jws.Tests.{protected, library}
use jose.Samples.{point, signing, signing-IsSigning, some-injective, replicate-IsByte}
use jose.Samples.Flat.{marshal_only, marshal_only-IsHeaderCodec}

abbrev pub lib : Library
lib = record library { marshal = marshal_only protected }

abbrev pub no_json : Value → Option Bytes
no_json v = none

protected-IsMap : IsMap protected
unfolding lookup
protected-IsMap = (refl, tt)

protected-IsReread : IsReread no_json protected protected
unfolding Rereads
protected-IsReread = record {
  absent = λ name ascii e. e;
  present = λ name v ascii e.
      subst (Rereads no_json v) (sym e)
        (lookup-All (λ w. Rereads no_json w (some w)) protected name ((λ a. refl), tt) e);
  stays = λ name v ascii e. (v, e);
  unique = protected-IsMap;
}

pub lib-IsHeaderCodec : IsHeaderCodec no_json lib.marshal lib.unmarshal
lib-IsHeaderCodec =
    marshal_only-IsHeaderCodec no_json lib.unmarshal protected protected-IsReread refl

hash_size-positive : (h : Hash) → 0 < hash_size h
unfolding hash_size
hash_size-positive sha1 = omega arith
hash_size-positive sha256 = omega arith
hash_size-positive sha384 = omega arith
hash_size-positive sha512 = omega arith

replicate-IsSignature : (n b : ℕ) → 0 < n → b < 256 → IsSignature (replicate n b)
replicate-IsSignature n b some_text small = (
  replicate-IsByte n b small,
  λ e.
      let gone : length (replicate n b) ≡ 0 = ap length e in
      omega (arith, gone, length-replicate n b, some_text),
)

pub signing-GivesSignatures : GivesSignatures signing
signing-GivesSignatures = record {
  hmac_gives =
      λ h k input. replicate-IsSignature (hash_size h) _ (hash_size-positive h) (omega arith);
  pkcs1_gives = λ h k input sig e.
      subst IsSignature (some-injective _ sig e)
        (replicate-IsSignature (hash_size h) _ (hash_size-positive h) (omega arith));
  pss_gives = λ h k input sig e.
      subst IsSignature (some-injective _ sig e)
        (replicate-IsSignature (hash_size h) _ (hash_size-positive h) (omega arith));
  ed25519_gives = λ k input long. replicate-IsSignature 64 6 (omega arith) (omega arith);
}

abbrev pub key : Key
key = secret (codes "k")

abbrev pub options : SignOptions
options = record {
  algorithm = codes "HS256";
  key_id = [];
  header = [];
  unprotected = [];
  critical = [];
  detach_payload = true;
}

abbrev token : Bytes
token = codes "e30..BwcHBwcHBwcHBwcHBwcHBwcHBwcHBwcHBwcHBwcHBwc"

signs : sign lib (codes "fo") (go_key key) options ≡ ok token
unfolding sign jose.Jws.sign_one jose.Jws.choose_alg jose.Jws.protected_header jose.Jws.with_kid
    jose.Jws.with_crit jose.Jws.jwk_kid jose.Header.copy_header jose.Header.copy_all
    jose.Header.copy_one jose.Token.encode_header jose.Base64.encode_segment jose.Base64.symbol
    jose.Jws.serialized_payload jose.Header.check_critical_produced jose.Signature.sign_kind
    jose.Header.merge_headers jose.Header.merge_all jose.Header.merge_one lookup jose.Common.insert
    jose.Common.contains eqb jose.Header.check_critical jose.Header.critical jose.Jws.b64_value
    jose.Signature.lookup_sig_alg jose.Signature.sig_algs jose.Jwk.check_jwk_usage
    jose.Jwk.resolve_key jose.Jwk.select_jwk jose.Jws.signing_input jose.Signature.secret_of
    hash_size jose.Samples.Flat.same_header jose.Samples.Flat.same_value
signs = refl

pub no_crit : lookup (codes "crit") (copy_header (options.header ∷ [])) ≡ none
unfolding copy_header lookup jose.Header.copy_all jose.Header.copy_one
no_crit = refl

verify-sign_example :
    (received : Header) × (verify_with_options lib token
        (go_key key)
        (matching_options options (codes "fo"))
      ≡ ok (codes "fo", received))
verify-sign_example =
    verify-sign lib no_json lib-IsHeaderCodec point (signing-IsSigning lib.keys)
      signing-GivesSignatures (codes "fo") token key options tt (omega arith) (λ e. cc) no_crit tt
      signs
