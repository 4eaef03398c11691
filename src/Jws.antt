-- ===== src/Jws.antt =====
-- jws.go: signing and verifying in the compact and the JSON serialization.
pub mod Tests
pub mod Verified
pub mod Tokens
pub mod Reread
pub mod Matching
pub mod RoundTrip
pub mod General
use jose.Common.{
  is_empty, ℕ, zero, suc, ◌+◌, Bool, true, false, not, ◌&&◌, ◌||◌, Option, none, some, List, [],
  ◌∷◌, ◌++◌, ◌==◌, if◌then◌else◌, Bytes, codes, eqb, contains, lookup, insert,
}
use jose.Common.Outcome.{Result, ok, err, ◌>>=◌, ◌>>◌, guard, relabel}
use jose.Errors.{
  Error, invalid_token, malformed, signature_invalid, none_alg_disallowed, invalid_key,
  invalid_crit, invalid_header, detached_payload, unprotected_b64,
}
use jose.Base64.{encode_segment, decode_segment}
use jose.Json.{Value, bool, str, strs}
use jose.Header.{
  Header, algorithm, key_id, critical, is_present, check_critical, check_critical_produced,
  copy_header, merge_headers,
}
use jose.Token.{dot, encode_header, decode_header, split}
use jose.Keys.{Key, KeyLibrary}
use jose.Jwk.{Jwk, AnyKey, go_key, jwk, jwk_set, no_key, resolve_key, check_jwk_usage}
use jose.Signature.{
  Signing, SigAlg, none_alg, lookup_sig_alg, sign_kind, verify_kind, default_sig_alg,
}

-- The libraries that the package calls here. `unmarshal` decodes a JSON object: `none` is an
-- error, `some none` the JSON value null.
pub record Library : Type 0 where
  pub keys : KeyLibrary
  pub signing : Signing
  pub marshal : Header → Option Bytes
  pub unmarshal : Bytes → Option (Option Header)

-- A nil map is an empty one: the code tests neither for nil.
pub record SignOptions : Type 0 where
  pub algorithm : Bytes
  pub key_id : Bytes
  pub header : Header
  pub unprotected : Header
  pub critical : List Bytes
  pub detach_payload : Bool

pub record VerifyOptions : Type 0 where
  pub algorithms : List Bytes
  pub known_critical : List Bytes
  pub detached_payload : Bytes

-- Encoded protected header, encoded signature, and the payload as serialized.
pub record Signed : Type 0 where
  pub protected : Bytes
  pub signature : Bytes
  pub payload : Bytes

-- `signingInput`
pub signing_input : Bytes → Bytes → Bytes
signing_input protected payload = protected ++ (dot ∷ payload)

-- The algorithm of `signOne`: the caller's, that of the JWK, or the one usual for the key.
unfoldable pub jwk_alg : AnyKey → Bytes
jwk_alg (jwk (some j)) = j.alg
jwk_alg _ = []

unfoldable pub jwk_kid : AnyKey → Bytes
jwk_kid (jwk (some j)) = j.kid
jwk_kid _ = []

pub choose_alg : AnyKey → Key → SignOptions → Result Error Bytes
choose_alg key resolved opts =
    if not (is_empty opts.algorithm)
    then ok opts.algorithm
    else if not (is_empty (jwk_alg key))
    then ok (jwk_alg key)
    else default_sig_alg resolved

-- The protected header of `signOne`.
pub with_kid : AnyKey → SignOptions → Header → Header
with_kid key opts protected =
    if not (is_empty opts.key_id)
    then insert (codes "kid") (str opts.key_id) protected
    else if not (is_empty (jwk_kid key))
        && (not (is_present (codes "kid") protected)
            && not (is_present (codes "kid") opts.unprotected))
    then insert (codes "kid") (str (jwk_kid key)) protected
    else protected

pub with_crit : SignOptions → Header → Header
with_crit opts protected =
    if is_empty opts.critical
    then protected
    else insert (codes "crit") (strs opts.critical) protected

pub protected_header : AnyKey → SignOptions → Bytes → Header
protected_header key opts alg =
    with_crit opts
      (with_kid key opts (insert (codes "alg") (str alg) (copy_header (opts.header ∷ []))))

-- "b64" of a protected header: true if absent; where it is false, "crit" must list it.
pub b64_value : Option Value → List Bytes → Result Error Bool
b64_value none crit = ok true
b64_value (some (bool true)) crit = ok true
b64_value (some (bool false)) crit =
    if contains crit (codes "b64") then ok false else err invalid_crit
b64_value (some _) crit = err invalid_header

-- The payload as it is serialized. Unencoded, it must not hold a dot.
pub has_dot : Bytes → Bool
has_dot [] = false
has_dot (c ∷ s) = c == dot || has_dot s

pub serialized_payload : Bool → Bytes → Result Error Bytes
serialized_payload true payload = ok (encode_segment payload)
serialized_payload false payload = if has_dot payload then err invalid_token else ok payload

module _ (lib : Library) where
  -- `signOne`
  pub sign_one : Bytes → AnyKey → SignOptions → Result Error Signed
  sign_one payload key opts = do
    resolved ← resolve_key lib.keys key opts.key_id
    alg ← choose_alg key resolved opts
    a ← lookup_sig_alg alg
    check_jwk_usage key opts.key_id (codes "sig") (alg ∷ []) (codes "sign" ∷ [])
    let protected = protected_header key opts alg
    guard (not (is_present (codes "b64") opts.unprotected)) unprotected_b64
    b64 ← b64_value (lookup (codes "b64") protected) opts.critical
    _ ← merge_headers (protected ∷ opts.unprotected ∷ [])
    check_critical_produced protected
    protected_b64 ← encode_header lib.marshal protected
    encoded ← serialized_payload b64 payload
    sig ← sign_kind lib.signing a.kind (signing_input protected_b64 encoded) resolved
    ok (record { protected = protected_b64; signature = encode_segment sig; payload = encoded })

  -- `Sign`
  pub sign : Bytes → AnyKey → SignOptions → Result Error Bytes
  sign payload key opts = do
    guard (is_empty opts.unprotected) invalid_header
    s ← sign_one payload key opts
    let shown = if opts.detach_payload then [] else s.payload
    ok (s.protected ++ (dot ∷ (shown ++ (dot ∷ s.signature))))

-- `verifySignature`, in the order of its checks.
pub payload_segment : Bool → Bytes → VerifyOptions → Result Error Bytes
payload_segment b64 segment opts =
    if not (is_empty segment)
    then ok segment
    else if is_empty opts.detached_payload
    then err detached_payload
    else ok (if b64 then encode_segment opts.detached_payload else opts.detached_payload)

-- The names in "crit", none if there is no readable "crit".
pub crit_names : Header → List Bytes
crit_names protected = elim (critical protected) [ none ↦ [] | some crit ↦ crit ]

pub returned_payload : Bool → Bytes → Result Error Bytes
returned_payload true segment = relabel malformed (decode_segment segment)
returned_payload false segment = ok segment

-- The options' restriction of "alg".
unfoldable pub is_accepted : Bytes → List Bytes → Bool
is_accepted alg accepted = is_empty accepted || contains accepted alg

module _ (lib : Library) where
  pub verify_signature :
      Bytes → Header → Header → Bytes → Bytes → AnyKey → VerifyOptions → Result Error Bytes
  verify_signature protected_seg protected unprotected payload_seg sig_seg key opts = do
    merged ← merge_headers (protected ∷ unprotected ∷ [])
    let alg = algorithm merged
    guard (not (is_empty alg)) invalid_header
    guard (not (eqb alg none_alg)) none_alg_disallowed
    guard (is_accepted alg opts.algorithms) signature_invalid
    check_critical protected (codes "b64" ∷ opts.known_critical)
    guard (not (is_present (codes "b64") unprotected)) unprotected_b64
    b64 ← b64_value (lookup (codes "b64") protected) (crit_names protected)
    segment ← payload_segment b64 payload_seg opts
    a ← lookup_sig_alg alg
    check_jwk_usage key (key_id merged) (codes "sig") (alg ∷ []) (codes "verify" ∷ [])
    resolved ← resolve_key lib.keys key (key_id merged)
    guard (not (is_empty sig_seg)) signature_invalid
    sig ← relabel malformed (decode_segment sig_seg)
    verify_kind lib.signing a.kind (signing_input protected_seg segment) sig resolved
    returned_payload b64 segment

module _ (lib : Library) where
  -- `VerifyWithOptions` after the split, and `VerifyWithOptions`.
  pub verify_parts : List Bytes → AnyKey → VerifyOptions → Result Error (Bytes × Header)
  verify_parts (p ∷ payload ∷ s ∷ []) key opts = do
    protected ← decode_header lib.unmarshal p
    pl ← verify_signature lib p protected [] payload s key opts
    ok (pl, protected)
  verify_parts _ key opts = err malformed

  pub verify_with_options : Bytes → AnyKey → VerifyOptions → Result Error (Bytes × Header)
  verify_with_options token key opts = verify_parts (split token) key opts

-- `Verify` uses the zero options.
abbrev pub no_options : VerifyOptions
no_options = record { algorithms = []; known_critical = []; detached_payload = [] }

pub verify : Library → Bytes → AnyKey → Result Error (Bytes × Header)
verify lib token key = verify_with_options lib token key no_options
