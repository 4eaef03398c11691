-- ===== src/Jws/General/RoundTrip.antt =====
-- What `SignJSON` makes with a key, `VerifyJSON` accepts with the key that verifies for it.
use jose.Common.{
  ℕ, ◌≡◌, ◌≢◌, refl, sym, ap, ◌∙◌, true, false, ◌&&◌, Option, none, some, [], ◌∷◌, is_empty, Bytes,
  codes, lookup, All, IsByte, Bool-cases, inl, inr, arith,
}
use jose.Common.Outcome.{ok, ok-inj, >>=-ok, >>=-eq-ok}
use jose.Errors.{Error, signature_invalid}
use jose.Base64.{encode_segment}
use jose.Codec.{is_ascii, encode_segment-ascii, IsHeaderCodec}
use jose.Json.{Value}
use jose.Header.{Header, copy_header}
use jose.Keys.{Key, Curve}
use jose.Keys.Pairs.{IsPair}
use jose.Jwk.{AnyKey, go_key}
use jose.Jwk.Export.Fields.{encode-nonempty}
use jose.Token.{encode_header, encode_header-ok}
use jose.Signature.RoundTrip.{IsSigning, verifier_of}
use jose.Signature.Octets.{GivesSignatures}
use jose.Jws.{
  Library, VerifyOptions, SignOptions, Signed, protected_header, serialized_payload, sign_one,
}
use jose.Jws.Tokens.{IsSigned, sign_one-IsSigned, shown_payload}
use jose.Jws.Matching.{matching_options, serialized-is}
use jose.Jws.RoundTrip.{IsAccepted, sign_one-IsAccepted}
use jose.Jws.Reread.{b64_of}
use jose.Jws.General.{
  JwsSignature, JwsJson, DocumentLibrary, or_empty, is_flattened, signatures_of, protected_of,
  verify_one, first_verified, document_of, verify_json_with_options, copy_header_or_nil,
  add_signature, sign_rest, signed_document, marshalled, sign_json_multi, sign_json,
}

-- A document in the general form with this one entry, which has no unprotected header.
abbrev pub single_document : Bytes → Bytes → Bytes → JwsJson
single_document payload protected signature = record {
  payload = payload;
  signatures = record { protected = protected; header = none; signature = signature } ∷ [];
  protected = [];
  header = none;
  signature = [];
}

-- What is documented of `encoding/json` and the tags of `jwsJSON`: a document of ASCII texts is read back
-- as it was.
pub record IsDocumentCodec (lib : DocumentLibrary) : Type 0 where
  pub rereads :
      (payload protected signature text : Bytes)
      → (is_ascii payload && (is_ascii protected && is_ascii signature)) ≡ true
      → lib.marshal_document (single_document payload protected signature) ≡ some text
      → lib.unmarshal_document text ≡ some (single_document payload protected signature)

-- The parts of what `signOne` made are ASCII, unless the payload is not encoded.
signed-ascii :
    (lib : Library) (payload : Bytes) (key : Key) (opts : SignOptions) (s : Signed)
    → lookup (codes "b64") (copy_header (opts.header ∷ [])) ≡ none
    → IsSigned lib payload (go_key key) opts s
    → (is_ascii s.protected ≡ true)
      × (is_ascii (shown_payload opts s) ≡ true)
      × (is_ascii s.signature ≡ true)
unfolding is_ascii
signed-ascii lib payload key opts s encoded m =
    let (raw, _, header) =
      encode_header-ok lib.marshal (protected_header (go_key key) opts m.alg) s.protected
        m.header in
    let b64 : m.b64 ≡ true = b64_of (go_key key) opts m.alg m.b64 encoded m.b64_is in
    let body : encode_segment payload ≡ s.payload =
      serialized-is true payload s.payload
        (ap (λ b. serialized_payload b payload) (sym b64) ∙ m.body) in
    (
      ap is_ascii (sym header) ∙ encode_segment-ascii raw,
      elim (Bool-cases opts.detach_payload) [
        | inl detached ↦ rw detached refl
        | inr attached ↦ rw attached (ap is_ascii (sym body) ∙ encode_segment-ascii payload)
      ],
      ap is_ascii (sym m.signature) ∙ encode_segment-ascii m.sig,
    )

marshalled-ok : (o : Option Bytes) (text : Bytes) → marshalled o ≡ ok text → o ≡ some text
unfolding marshalled
marshalled-ok none text h = absurd (ground arith)
marshalled-ok (some t) text h = ap some (ok-inj t text h)

module _ (lib : DocumentLibrary) (documents : IsDocumentCodec lib)
    (marshal_value : Value → Option Bytes)
    (codec : IsHeaderCodec marshal_value lib.base.marshal lib.base.unmarshal)
    (point : Curve → ℕ → Option (ℕ × ℕ)) (laws : IsSigning lib.base.keys point lib.base.signing)
    (gives : GivesSignatures lib.base.signing) where
  -- The document of one signer without unprotected headers.
  signed_alone :
      (payload : Bytes) (key : Key) (opts : SignOptions) (doc : JwsJson)
      → opts.unprotected ≡ []
      → signed_document lib.base payload (record { key = go_key key; options = opts } ∷ []) ≡ ok doc
      → (s : Signed) × IsSigned lib.base payload (go_key key) opts s
        × (single_document (shown_payload opts s) s.protected s.signature ≡ doc)
  unfolding signed_document sign_rest add_signature copy_header_or_nil
  signed_alone payload key opts doc bare h =
      let (s, run, last) = >>=-eq-ok (sign_one lib.base payload (go_key key) opts) _ h in
      let single : JwsSignature → JwsJson =
        λ e. record (single_document (shown_payload opts s) [] []) { signatures = e ∷ [] } in
      (
        s,
        sign_one-IsSigned lib.base payload (go_key key) opts s run,
        ap
              (λ u. single (record {
                protected = s.protected;
                header = copy_header_or_nil u;
                signature = s.signature;
              }))
              (sym bare)
            ∙ ok-inj _ doc last,
      )

  protected-filled :
      (h : Header) (seg : Bytes) → encode_header lib.base.marshal h ≡ ok seg → is_empty seg ≡ false
  protected-filled h seg e =
      let (raw, made, same) = encode_header-ok lib.base.marshal h seg e in
      ap is_empty (sym same) ∙ encode-nonempty raw (codec.marshal-filled h raw made)

  -- The one signature of the document verifies.
  verify_single :
      (payload : Bytes) (own : Key) (opts : SignOptions) (s : Signed)
      → is_empty s.protected ≡ false
      → (is : IsAccepted lib.base marshal_value codec point laws gives payload own opts s)
      → verify_one lib.base
          (shown_payload opts s)
          (go_key own)
          (matching_options opts payload)
          (record { protected = s.protected; header = none; signature = s.signature })
        ≡ ok (payload, is.alone)
  unfolding verify_one protected_of or_empty
  verify_single payload own opts s filled is =
      rw (filled, is.decoded, is.gives_back, is.merges) refl

  first_of_one :
      (payload : Bytes) (key : AnyKey) (opts : VerifyOptions) (e : Error) (s : JwsSignature)
      (found : Bytes × Header)
      → verify_one lib.base payload key opts s ≡ ok found
      → first_verified lib.base payload key opts e (s ∷ []) ≡ ok found
  unfolding first_verified
  first_of_one payload key opts e s found h = rw (first_verified, h) refl

  document_read :
      (text : Bytes) (doc : JwsJson)
      → lib.unmarshal_document text ≡ some doc
      → document_of lib text ≡ ok doc
  unfolding document_of
  document_read text doc h = rw (document_of, h) refl

  -- A document that `SignJSON` makes is accepted by `VerifyJSON` with the key that verifies for the signing key, and
  -- gives the payload back, attached or detached. The payload is octets and not empty; the caller's header has
  -- no "crit" and no "b64" of its own and no parameter is unprotected; the names declared critical are ASCII
  -- and known to the verifier; the halves of a private key belong together; and the libraries are as documented.
  pub verify_json-sign_json :
      (payload text : Bytes) (key : Key) (opts : SignOptions)
      → IsPair lib.base.keys point key
      → All IsByte payload
      → payload ≢ []
      → lookup (codes "crit") (copy_header (opts.header ∷ [])) ≡ none
      → lookup (codes "b64") (copy_header (opts.header ∷ [])) ≡ none
      → opts.unprotected ≡ []
      → All (λ c. is_ascii c ≡ true) opts.critical
      → sign_json lib payload (go_key key) opts ≡ ok text
      → (merged : Header) × (verify_json_with_options lib text
            (go_key (verifier_of key))
            (matching_options opts payload)
          ≡ ok (payload, merged))
  unfolding sign_json sign_json_multi marshalled verify_json_with_options signatures_of is_flattened
  verify_json-sign_json payload text key opts pair octets filled no_crit no_b64 bare ascii h =
      let signers = record { key = go_key key; options = opts } ∷ [] in
      let (doc, made, last) = >>=-eq-ok (signed_document lib.base payload signers) _ h in
      let (s, m, same) = signed_alone payload key opts doc bare made in
      let shown = shown_payload opts s in
      let printed =
        ap lib.marshal_document same ∙ marshalled-ok (lib.marshal_document doc) text last in
      let (first, second, third) = signed-ascii lib.base payload key opts s no_b64 m in
      let read =
        documents.rereads shown s.protected s.signature text (rw (first, second, third) refl)
          printed in
      let is =
        sign_one-IsAccepted lib.base marshal_value codec point laws gives payload key opts s pair
          octets filled no_crit ascii m in
      (
        is.alone,
        >>=-ok (document_of lib text) _ (document_read text _ read)
            ∙ first_of_one shown (go_key (verifier_of key)) (matching_options opts payload)
                signature_invalid
                (record { protected = s.protected; header = none; signature = s.signature })
                (payload, is.alone)
                (verify_single payload (verifier_of key) opts s
                  (protected-filled _ s.protected m.header) is),
      )
