-- ===== src/Jws/Verified.antt =====
-- What a JWS that verifies has passed.
use jose.Common.{
  nonempty, is_empty, ◌≡◌, ◌≢◌, ◌⊎◌, inl, inr, refl, Bool, true, false, not, Option, none, some,
  List, [], ◌∷◌, if◌then◌else◌, Bytes, codes, In, eqb, eqb_iff, contains, contains_iff, lookup,
  Bool-cases, Option-cases, arith,
}
use jose.Common.Outcome.{relabel-ok, Result, ok, err, guard, relabel, >>=-eq-ok, guard-ok}
use jose.Errors.{
  Error, malformed, invalid_header, none_alg_disallowed, signature_invalid, unprotected_b64,
  detached_payload,
}
use jose.Base64.{encode_segment, decode_segment}
use jose.Base64.Canonical.{decode_segment_iff}
use jose.Json.{Value, bool}
use jose.Header.{Header, algorithm, key_id, is_present, check_critical, merge_headers}
use jose.Header.Critical.{IsAcceptable, check_critical_iff}
use jose.Keys.{Key}
use jose.Jwk.{AnyKey, resolve_key, check_jwk_usage}
use jose.Signature.{SigAlg, none_alg, lookup_sig_alg, verify_kind}
use jose.Jws.{
  Library, VerifyOptions, signing_input, b64_value, payload_segment, crit_names, returned_payload,
  is_accepted, verify_signature,
}

differs : (a b : Bytes) → not (eqb a b) ≡ true → a ≢ b
differs a b h = λ e. ground (arith, (eqb_iff a b).1 e)

pub absent : (name : Bytes) (h : Header) → not (is_present name h) ≡ true → lookup name h ≡ none
absent name h e = elim (Option-cases (lookup name h)) [
  | inl gone ↦ gone
  | inr (v, there) ↦ absurd (ground arith)
]

pub accepted : (alg : Bytes) (l : List Bytes) → is_accepted alg l ≡ true → (l ≡ []) ⊎ In alg l
unfolding is_accepted
accepted alg [] h = inl refl
accepted alg (x ∷ l) h = inr ((contains_iff (x ∷ l) alg).0 h)

-- The segment is the one received, or, where that is empty, the caller's detached payload, encoded
-- or as it is.
abbrev pub Received : Bytes → VerifyOptions → Bytes → Type 0
Received received opts segment =
    (received ≢ [] × (segment ≡ received))
    ⊎ ((received ≡ [])
        × (opts.detached_payload ≢ []
            × ((segment ≡ encode_segment opts.detached_payload)
                ⊎ (segment ≡ opts.detached_payload))))

detached-of :
    (b64 : Bool) (d segment : Bytes)
    → Path
        (Result Error Bytes)
        (if is_empty d then err detached_payload else ok (if b64 then encode_segment d else d))
        (ok segment)
    → d ≢ [] × ((segment ≡ encode_segment d) ⊎ (segment ≡ d))
detached-of b64 [] segment h = absurd (ground arith)
detached-of true (c ∷ d) segment h = ((λ e. cc), inl (ground arith))
detached-of false (c ∷ d) segment h = ((λ e. cc), inr (ground arith))

segment-of :
    (b64 : Bool) (received : Bytes) (opts : VerifyOptions) (segment : Bytes)
    → payload_segment b64 received opts ≡ ok segment
    → Received received opts segment
unfolding payload_segment
segment-of b64 [] opts segment h = inr (refl, detached-of b64 opts.detached_payload segment h)
segment-of b64 (c ∷ s) opts segment h = inl ((λ e. cc), ground arith)

-- How the returned payload comes from the segment that was signed: decoded, or as it is if the
-- protected header has "b64" false and declares it critical.
abbrev pub Denotes : Header → Bytes → Bytes → Type 0
Denotes protected segment payload =
    ((lookup (codes "b64") protected ≢ some (bool false)) × (encode_segment payload ≡ segment))
    ⊎ ((lookup (codes "b64") protected ≡ some (bool false))
        × (In (codes "b64") (crit_names protected))
        × (payload ≡ segment))

plain-of :
    (b64 : Bool) (segment payload : Bytes)
    → b64 ≡ true
    → returned_payload b64 segment ≡ ok payload
    → encode_segment payload ≡ segment
unfolding returned_payload
plain-of true segment payload e h =
    ((decode_segment_iff segment payload).0
      (relabel-ok malformed (decode_segment segment) payload h)).0
plain-of false segment payload e h = absurd (ground arith)

raw-of :
    (b64 : Bool) (segment payload : Bytes)
    → b64 ≡ false
    → returned_payload b64 segment ≡ ok payload
    → payload ≡ segment
unfolding returned_payload
raw-of true segment payload e h = absurd (ground arith)
raw-of false segment payload e h = ground arith

unencoded :
    (crit : List Bytes) (b64 : Bool)
    → b64_value (some (bool false)) crit ≡ ok b64
    → (b64 ≡ false) × In (codes "b64") crit
unfolding b64_value
unencoded crit b64 h = elim (Bool-cases (contains crit (codes "b64"))) [
  | inl listed ↦ (ground (arith, listed), (contains_iff crit (codes "b64")).0 listed)
  | inr missing ↦ absurd (ground (arith, missing))
]

Denotes-of :
    (protected : Header) (v : Option Value) (b64 : Bool) (segment payload : Bytes)
    → lookup (codes "b64") protected ≡ v
    → b64_value v (crit_names protected) ≡ ok b64
    → returned_payload b64 segment ≡ ok payload
    → Denotes protected segment payload
unfolding b64_value
Denotes-of protected none b64 segment payload e flag back =
    inl ((λ f. cc), plain-of b64 segment payload (ground arith) back)
Denotes-of protected (some (bool true)) b64 segment payload e flag back =
    inl ((λ f. cc), plain-of b64 segment payload (ground arith) back)
Denotes-of protected (some (bool false)) b64 segment payload e flag back =
    let (down, listed) = unencoded (crit_names protected) b64 flag in
    inr (e, listed, raw-of b64 segment payload down back)
Denotes-of protected (some _) b64 segment payload e flag back = absurd (ground arith)

module _ (lib : Library) (protected_seg : Bytes) (protected unprotected : Header)
    (payload_seg sig_seg : Bytes) (key : AnyKey) (opts : VerifyOptions) where
  -- What the code has checked of a JWS, and how its parts determine the payload that is returned.
  pub record IsVerified (payload : Bytes) : Type 0 where
    pub merged : Header
    pub merges : merge_headers (protected ∷ unprotected ∷ []) ≡ ok merged
    pub alg_given : algorithm merged ≢ []
    pub alg_secured : algorithm merged ≢ none_alg
    pub alg_accepted : (opts.algorithms ≡ []) ⊎ In (algorithm merged) opts.algorithms
    pub critical_known : IsAcceptable protected (codes "b64" ∷ opts.known_critical)
    pub b64_protected : lookup (codes "b64") unprotected ≡ none
    pub alg : SigAlg
    pub alg_found : lookup_sig_alg (algorithm merged) ≡ ok alg
    pub permitted :
        check_jwk_usage key
          (key_id merged)
          (codes "sig")
          (algorithm merged ∷ [])
          (codes "verify" ∷ [])
        ≡ ok tt
    pub resolved : Key
    pub resolves : resolve_key lib.keys key (key_id merged) ≡ ok resolved
    pub signature : Bytes
    pub signature_given : sig_seg ≢ []
    pub signature_decoded : encode_segment signature ≡ sig_seg
    pub segment : Bytes
    pub segment_given : Received payload_seg opts segment
    pub verified :
        verify_kind lib.signing alg.kind (signing_input protected_seg segment) signature resolved
        ≡ ok tt
    pub denotes : Denotes protected segment payload

  -- A payload comes out of `verifySignature` only if all of the following hold. The headers merge; the
  -- algorithm is there, is not "none", and is accepted; "crit" is acceptable; "b64" is protected; the JWK
  -- permits verification; the signature is there, and the primitive accepts it for the very octets
  -- received; and the payload is what the signed segment stands for.
  pub verify_signature-IsVerified :
      (payload : Bytes)
      → verify_signature lib protected_seg protected unprotected payload_seg sig_seg key opts
        ≡ ok payload
      → IsVerified payload
  unfolding verify_signature
  verify_signature-IsVerified payload h =
      let (merged, merges, h₁) = >>=-eq-ok (merge_headers (protected ∷ unprotected ∷ [])) _ h in
      let (_, given, h₂) =
        >>=-eq-ok (guard (not (is_empty (algorithm merged))) invalid_header) _ h₁ in
      let (_, secured, h₃) =
        >>=-eq-ok (guard (not (eqb (algorithm merged) none_alg)) none_alg_disallowed) _ h₂ in
      let (_, allowed, h₄) =
        >>=-eq-ok (guard (is_accepted (algorithm merged) opts.algorithms) signature_invalid) _ h₃ in
      let (_, crit, h₅) =
        >>=-eq-ok (check_critical protected (codes "b64" ∷ opts.known_critical)) _ h₄ in
      let (_, free, h₆) =
        >>=-eq-ok (guard (not (is_present (codes "b64") unprotected)) unprotected_b64) _ h₅ in
      let (b64, flag, h₇) =
        >>=-eq-ok (b64_value (lookup (codes "b64") protected) (crit_names protected)) _ h₆ in
      let (segment, taken, h₈) = >>=-eq-ok (payload_segment b64 payload_seg opts) _ h₇ in
      let (a, found, h₉) = >>=-eq-ok (lookup_sig_alg (algorithm merged)) _ h₈ in
      let (_, usage, h₁₀) =
        >>=-eq-ok
          (check_jwk_usage key (key_id merged) (codes "sig") (algorithm merged ∷ [])
            (codes "verify" ∷ []))
          _ h₉ in
      let (resolved, resolves, h₁₁) = >>=-eq-ok (resolve_key lib.keys key (key_id merged)) _ h₁₀ in
      let (_, some_sig, h₁₂) = >>=-eq-ok (guard (not (is_empty sig_seg)) signature_invalid) _ h₁₁ in
      let (sig, decoded, h₁₃) = >>=-eq-ok (relabel malformed (decode_segment sig_seg)) _ h₁₂ in
      let (_, run, last) =
        >>=-eq-ok
          (verify_kind lib.signing a.kind (signing_input protected_seg segment) sig resolved) _
          h₁₃ in
      record {
        merged = merged;
        merges = merges;
        alg_given = nonempty (algorithm merged) (guard-ok _ invalid_header given);
        alg_secured = differs (algorithm merged) none_alg (guard-ok _ none_alg_disallowed secured);
        alg_accepted =
            accepted (algorithm merged) opts.algorithms (guard-ok _ signature_invalid allowed);
        critical_known = (check_critical_iff protected (codes "b64" ∷ opts.known_critical)).0 crit;
        b64_protected = absent (codes "b64") unprotected (guard-ok _ unprotected_b64 free);
        alg = a;
        alg_found = found;
        permitted = usage;
        resolved = resolved;
        resolves = resolves;
        signature = sig;
        signature_given = nonempty sig_seg (guard-ok _ signature_invalid some_sig);
        signature_decoded =
            ((decode_segment_iff sig_seg sig).0
              (relabel-ok malformed (decode_segment sig_seg) sig decoded)).0;
        segment = segment;
        segment_given = segment-of b64 payload_seg opts segment taken;
        verified = run;
        denotes =
            Denotes-of protected (lookup (codes "b64") protected) b64 segment payload refl flag
              last;
      }
