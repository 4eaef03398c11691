-- ===== src/Jws/Matching.antt =====
-- A verifier's options that match the signer's, and the payload from `serializedPayload` to `verifySignature`.
use jose.Common.{
  ◌≡◌, ◌≢◌, refl, sym, ap, ◌∙◌, inl, inr, Bool, true, false, if◌then◌else◌, [], ◌∷◌, is_empty,
  Bytes, All, IsByte, Bool-cases, arith,
}
use jose.Common.Outcome.{ok, ok-inj}
use jose.Base64.{encode_segment}
use jose.Base64.RoundTrip.{decode-encode}
use jose.Jwk.Export.Fields.{encode-nonempty}
use jose.Jws.{
  SignOptions, VerifyOptions, has_dot, serialized_payload, payload_segment, returned_payload,
}

-- The options of a verifier who knows what the signer declares, and has the payload if it is detached.
abbrev pub matching_options : SignOptions → Bytes → VerifyOptions
matching_options opts payload = record {
  algorithms = [];
  known_critical = opts.critical;
  detached_payload = if opts.detach_payload then payload else [];
}

pub serialized-is :
    (b64 : Bool) (payload encoded : Bytes)
    → serialized_payload b64 payload ≡ ok encoded
    → (if b64 then encode_segment payload else payload) ≡ encoded
unfolding serialized_payload
serialized-is true payload encoded h = ok-inj _ encoded h
serialized-is false payload encoded h = elim (Bool-cases (has_dot payload)) [
  | inl dotted ↦ absurd (ground (arith, dotted, h))
  | inr undotted ↦ ground (arith, undotted, h)
]

pub is_empty-false : (b : Bytes) → b ≢ [] → is_empty b ≡ false
is_empty-false [] h = absurd (h refl)
is_empty-false (x ∷ b) h = refl

pub serialized-nonempty :
    (b64 : Bool) (payload : Bytes)
    → payload ≢ []
    → is_empty (if b64 then encode_segment payload else payload) ≡ false
serialized-nonempty true payload h = encode-nonempty payload h
serialized-nonempty false payload h = is_empty-false payload h

-- The payload segment that the verifier uses is the one that was signed.
pub segment_of :
    (b64 : Bool) (opts : SignOptions) (payload encoded : Bytes)
    → payload ≢ []
    → serialized_payload b64 payload ≡ ok encoded
    → payload_segment b64
        (if opts.detach_payload then [] else encoded)
        (matching_options opts payload)
      ≡ ok encoded
unfolding payload_segment
segment_of b64 opts payload encoded filled h =
    let is = serialized-is b64 payload encoded h in
    elim (Bool-cases opts.detach_payload) [
      | inl detached ↦ rw (detached, is_empty-false payload filled) (ap ok is)
      | inr attached ↦
          let some_text : is_empty encoded ≡ false =
            ap is_empty (sym is) ∙ serialized-nonempty b64 payload filled in
          rw (attached, some_text) refl
    ]

pub returned :
    (b64 : Bool) (payload encoded : Bytes)
    → All IsByte payload
    → serialized_payload b64 payload ≡ ok encoded
    → returned_payload b64 encoded ≡ ok payload
unfolding returned_payload
returned true payload encoded octets h =
    rw (← serialized-is true payload encoded h, decode-encode payload octets) refl
returned false payload encoded octets h = ap ok (sym (serialized-is false payload encoded h))
