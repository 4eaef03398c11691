-- ===== src/Jws/RoundTrip.antt =====
-- What `Sign` makes with a key, `Verify` accepts with the key that verifies for it.
pub mod Tests
use jose.Common.{
  ℕ, ◌≡◌, ◌≢◌, refl, sym, ap, ◌∙◌, inl, inr, Bool, true, false, not, ◌&&◌, if◌then◌else◌, Option,
  none, some, List, [], ◌∷◌, is_empty, Bytes, codes, eqb, lookup, All, IsByte, Bool-cases,
  Option-cases, arith,
}
use mathlib.Core.Path.{subst}
use jose.Common.Outcome.{ok, err, ok-inj, relabel}
use jose.Errors.{malformed}
use jose.Base64.{encode_segment, decode_segment}
use jose.Base64.RoundTrip.{decode-encode}
use jose.Codec.{
  is_ascii, is_name, names, lookup-name, IsReread, IsHeaderCodec, reread-str,
  decode_header-encode_header,
}
use jose.Token.{decode_header}
use jose.Json.{Value, str}
use jose.Header.{
  Header, is_present, string_of, header_string, algorithm, merge_headers, check_critical,
  copy_header,
}
use jose.Header.Merge.{IsMap, Disjoint, or_else, merged, merge_total}
use jose.Keys.{Key, Curve}
use jose.Keys.Pairs.{IsPair}
use jose.Jwk.{go_key, resolve_key, check_jwk_usage, select_jwk}
use jose.Jwk.Export.Fields.{encode-nonempty}
use jose.Signature.{SigAlg, sig_algs, none_alg, lookup_sig_alg, verify_kind}
use jose.Signature.RoundTrip.{IsSigning, verifier_of, verify_kind-sign_kind}
use jose.Signature.Octets.{GivesSignatures, lookup_sig_alg-HasWidth, sign_kind-IsSignature}
use jose.Jws.{
  Library, SignOptions, VerifyOptions, Signed, signing_input, protected_header, b64_value, has_dot,
  serialized_payload, payload_segment, crit_names, returned_payload, is_accepted, verify_signature,
  verify_parts, verify_with_options, sign,
}
use jose.Jws.Tokens.{IsSigned, shown_payload, split-sign}
use jose.Jws.Reread.{
  IsProtected, protected_header-IsProtected, check_critical-reread, b64_value-reread,
}
use jose.Jws.Matching.{
  matching_options, serialized-is, is_empty-false, serialized-nonempty, segment_of, returned,
}

names-checked : names sig_algs ≡ true
unfolding names is_name is_ascii sig_algs
names-checked = refl

-- An algorithm of the table has a name, which is not "none".
alg-name :
    (alg : Bytes) (a : SigAlg)
    → lookup_sig_alg alg ≡ ok a
    → (is_ascii alg ≡ true) × (is_empty alg ≡ false) × (eqb alg none_alg ≡ false)
unfolding lookup_sig_alg is_name
alg-name alg a h = elim (Bool-cases (eqb alg none_alg)) [
  | inl bad ↦ absurd (ground (arith, bad, h))
  | inr other ↦ elim (Option-cases (lookup alg sig_algs)) [
    | inl missing ↦ absurd (ground (arith, other, missing, h))
    | inr (b, e) ↦
        let named = lookup-name sig_algs alg names-checked e in
        (ground (arith, named), ground (arith, named), other)
  ]
]

-- A header merged with no other is the same to its readers.
merged_alone :
    (h : Header) (alg : Bytes)
    → IsMap h
    → lookup (codes "alg") h ≡ some (str alg)
    → (m : Header) × (merge_headers (h ∷ [] ∷ []) ≡ ok m) × (algorithm m ≡ alg)
unfolding algorithm header_string string_of
merged_alone h alg unique there =
    let (m, run) = merge_total h [] unique tt (λ k. inr (unfold lookup in refl)) in
    let reads = (merged h [] unique tt m run).1 in
    (
      m,
      run,
      ap string_of (reads (codes "alg") ∙ ap (λ o. or_else o (lookup (codes "alg") [])) there),
    )

module _ (lib : Library) (marshal_value : Value → Option Bytes)
    (codec : IsHeaderCodec marshal_value lib.marshal lib.unmarshal)
    (point : Curve → ℕ → Option (ℕ × ℕ)) (laws : IsSigning lib.keys point lib.signing)
    (gives : GivesSignatures lib.signing) where
  -- The chain of `verifySignature` for a Go key, when each of its steps succeeds.
  verify_steps :
      (segment shown sig_seg sig payload encoded alg : Bytes) (b64 : Bool) (a : SigAlg) (own : Key)
      (received alone : Header) (signing : SignOptions)
      → merge_headers (received ∷ [] ∷ []) ≡ ok alone
      → algorithm alone ≡ alg
      → (is_ascii alg ≡ true) × (is_empty alg ≡ false) × (eqb alg none_alg ≡ false)
      → check_critical received (codes "b64" ∷ signing.critical) ≡ ok tt
      → b64_value (lookup (codes "b64") received) (crit_names received) ≡ ok b64
      → payload_segment b64 shown (matching_options signing payload) ≡ ok encoded
      → lookup_sig_alg alg ≡ ok a
      → is_empty sig_seg ≡ false
      → decode_segment sig_seg ≡ ok sig
      → verify_kind lib.signing a.kind (signing_input segment encoded) sig own ≡ ok tt
      → returned_payload b64 encoded ≡ ok payload
      → verify_signature lib segment received [] shown sig_seg
          (go_key own)
          (matching_options signing payload)
        ≡ ok payload
  unfolding verify_signature is_accepted check_jwk_usage select_jwk resolve_key lookup
  verify_steps segment shown sig_seg sig payload encoded alg b64 a own received alone signing merges
        alg_is alg_ok crit b64_is segment_is found sig_there decoded accepted gets =
      rw
        (
          merges, alg_is, alg_ok.1, alg_ok.2, crit, b64_is, segment_is, found, sig_there, decoded,
          accepted,
        )
        gets

  -- What `signOne` made verifies, with the header as it is read back.
  pub record IsAccepted (payload : Bytes) (own : Key) (opts : SignOptions) (s : Signed)
      : Type 0 where
    pub received : Header
    pub decoded : decode_header lib.unmarshal s.protected ≡ ok received
    pub alone : Header
    pub merges : merge_headers (received ∷ [] ∷ []) ≡ ok alone
    pub gives_back :
        verify_signature lib s.protected received []
          (shown_payload opts s)
          s.signature
          (go_key own)
          (matching_options opts payload)
        ≡ ok payload

  pub sign_one-IsAccepted :
      (payload : Bytes) (key : Key) (opts : SignOptions) (s : Signed)
      → IsPair lib.keys point key
      → All IsByte payload
      → payload ≢ []
      → lookup (codes "crit") (copy_header (opts.header ∷ [])) ≡ none
      → All (λ c. is_ascii c ≡ true) opts.critical
      → IsSigned lib payload (go_key key) opts s
      → IsAccepted payload (verifier_of key) opts s
  unfolding resolve_key
  sign_one-IsAccepted payload key opts s pair octets filled no_crit ascii m =
      let same : m.resolved ≡ key = ok-inj m.resolved key (sym m.resolves) in
      let header = protected_header (go_key key) opts m.alg in
      let alg_ok = alg-name m.alg m.a m.found in
      let (received, decoded, alike) =
        decode_header-encode_header marshal_value lib.marshal lib.unmarshal codec header s.protected
          m.header in
      let is = protected_header-IsProtected (go_key key) opts m.alg no_crit in
      let alg_there =
        reread-str marshal_value header received alike (codes "alg") m.alg (unfold is_ascii in refl)
          alg_ok.0 is.alg_is in
      let (alone, merges, alg_is) = merged_alone received m.alg alike.unique alg_there in
      let (sig_octets, sig_filled) =
        sign_kind-IsSignature lib.signing gives m.a.kind (signing_input s.protected s.payload) m.sig
          m.resolved (lookup_sig_alg-HasWidth m.alg m.a m.found) m.made in
      let (_, accepted) =
        verify_kind-sign_kind lib.keys point lib.signing laws m.a.kind
          (signing_input s.protected s.payload) m.sig m.resolved
          (subst (IsPair lib.keys point) (sym same) pair) m.made in
      let steps =
        verify_steps s.protected (shown_payload opts s) s.signature m.sig payload s.payload m.alg
          m.b64 m.a (verifier_of key) received alone opts merges alg_is alg_ok
          (check_critical-reread marshal_value header received alike opts.critical ascii m.alg is
            (codes "b64") m.critical)
          (b64_value-reread marshal_value header received alike opts.critical ascii m.alg is m.b64
            m.b64_is)
          (segment_of m.b64 opts payload s.payload filled m.body) m.found
          (ap is_empty (sym m.signature) ∙ encode-nonempty m.sig sig_filled)
          (ap decode_segment (sym m.signature) ∙ decode-encode m.sig sig_octets)
          (subst
            (λ k.
              verify_kind lib.signing m.a.kind (signing_input s.protected s.payload) m.sig
                (verifier_of k)
              ≡ ok tt)
            same accepted)
          (returned m.b64 payload s.payload octets m.body) in
      record {
        received = received;
        decoded = decoded;
        alone = alone;
        merges = merges;
        gives_back = steps;
      }

  -- A token that `Sign` makes is accepted with the key that verifies for the signing key, and gives the payload
  -- back: attached or detached, encoded or not, with any extensions declared critical that the verifier knows.
  -- The payload is octets and not empty, the caller's header has no "crit" of its own, the names declared critical
  -- are ASCII, the halves of a private key belong together, and the libraries are as documented.
  pub verify-sign :
      (payload token : Bytes) (key : Key) (opts : SignOptions)
      → IsPair lib.keys point key
      → All IsByte payload
      → payload ≢ []
      → lookup (codes "crit") (copy_header (opts.header ∷ [])) ≡ none
      → All (λ s. is_ascii s ≡ true) opts.critical
      → sign lib payload (go_key key) opts ≡ ok token
      → (received : Header) × (verify_with_options lib token
            (go_key (verifier_of key))
            (matching_options opts payload)
          ≡ ok (payload, received))
  unfolding verify_with_options verify_parts
  verify-sign payload token key opts pair octets filled no_crit ascii h =
      let (s, m, _, parts) = split-sign lib payload (go_key key) opts token h in
      let is = sign_one-IsAccepted payload key opts s pair octets filled no_crit ascii m in
      (is.received, rw (parts, is.decoded, is.gives_back) refl)
