-- ===== src/Jws/General/Tests.antt =====
-- Runs of the JSON serialization of jws.go with a detached payload.
use jose.Common.{
  ◌≡◌, refl, sym, ap, true, false, ◌&&◌, Bool, Bool-cases, inl, inr, if◌then◌else◌, Option, none,
  some, List, [], ◌∷◌, Bytes, codes, eqb, eqb_iff, lookup, IsByte, arith,
}
use jose.Common.Outcome.{ok}
use jose.Hashing.{hash_size}
use jose.Header.{Header, copy_header}
use jose.Jwk.{go_key}
use jose.Jws.Matching.{matching_options}
use jose.Jws.RoundTrip.Tests.{
  lib, key, options, no_json, lib-IsHeaderCodec, signing-GivesSignatures, no_crit,
}
use jose.Jws.General.{
  JwsSignature, JwsJson, DocumentLibrary, Signer, is_flattened, signed_document, sign_json,
  verify_json_with_options,
}
use jose.Jws.General.Signers.{AreSigned, all_detached, signed_document-AreSigned}
use jose.Jws.General.RoundTrip.{single_document, IsDocumentCodec, verify_json-sign_json}
use jose.Samples.{point, signing-IsSigning, some-injective}

abbrev header_segment : Bytes
header_segment = codes "e30"

abbrev signature : Bytes
signature = codes "BwcHBwcHBwcHBwcHBwcHBwcHBwcHBwcHBwcHBwcHBwc"

abbrev document : JwsJson
document = single_document [] header_segment signature

abbrev is_entry : List JwsSignature → Bool
is_entry (s ∷ []) = eqb s.protected header_segment && eqb s.signature signature
is_entry _ = false

abbrev documents : DocumentLibrary
documents = record {
  base = lib;
  marshal_document =
      λ d. if eqb d.payload [] && is_entry d.signatures then some (codes "{}") else none;
  unmarshal_document = λ text. some document;
}

documents-IsDocumentCodec : IsDocumentCodec documents
documents-IsDocumentCodec = record {
  rereads = λ payload protected sig text ascii e.
      elim (Bool-cases (eqb payload [] && (eqb protected header_segment && eqb sig signature))) [
        | inl is ↦
            let a : payload ≡ [] = (eqb_iff payload _).0 (ground (arith, is)) in
            let b : protected ≡ header_segment = (eqb_iff protected _).0 (ground (arith, is)) in
            let c : sig ≡ signature = (eqb_iff sig _).0 (ground (arith, is)) in rw (a, b, c) refl
        | inr other ↦ absurd (ground (arith, other, e))
      ];
}

abbrev signers : List Signer
signers = record { key = go_key key; options = options } ∷ []

signs : signed_document lib (codes "fo") signers ≡ ok document
unfolding jose.Jws.General.signed_document jose.Jws.General.sign_rest jose.Jws.General.add_signature
    jose.Jws.General.copy_header_or_nil lookup eqb hash_size jose.Jws.sign_one jose.Jws.choose_alg
    jose.Jws.protected_header jose.Jws.with_kid jose.Jws.with_crit jose.Jws.jwk_kid
    jose.Header.copy_header jose.Header.copy_all jose.Header.copy_one jose.Token.encode_header
    jose.Base64.encode_segment jose.Base64.symbol jose.Jws.serialized_payload
    jose.Header.check_critical_produced jose.Signature.sign_kind jose.Header.merge_headers
    jose.Header.merge_all jose.Header.merge_one jose.Common.insert jose.Common.contains
    jose.Header.check_critical jose.Header.critical jose.Jws.b64_value jose.Signature.lookup_sig_alg
    jose.Signature.sig_algs jose.Jwk.check_jwk_usage jose.Jwk.resolve_key jose.Jwk.select_jwk
    jose.Jws.signing_input jose.Signature.secret_of jose.Samples.Flat.same_header
    jose.Samples.Flat.same_value
signs = refl

signed_document-AreSigned_example :
    (encoded : Bytes) × AreSigned lib (codes "fo") encoded signers document.signatures
    × (document.payload ≡ (if all_detached signers then [] else encoded))
    × (is_flattened document ≡ false)
signed_document-AreSigned_example =
    signed_document-AreSigned lib (codes "fo") signers document signs

prints : sign_json documents (codes "fo") (go_key key) options ≡ ok (codes "{}")
unfolding jose.Jws.General.sign_json jose.Jws.General.sign_json_multi jose.Jws.General.marshalled
    jose.Jws.General.signed_document jose.Jws.General.sign_rest jose.Jws.General.add_signature
    jose.Jws.General.copy_header_or_nil lookup eqb hash_size jose.Jws.sign_one jose.Jws.choose_alg
    jose.Jws.protected_header jose.Jws.with_kid jose.Jws.with_crit jose.Jws.jwk_kid
    jose.Header.copy_header jose.Header.copy_all jose.Header.copy_one jose.Token.encode_header
    jose.Base64.encode_segment jose.Base64.symbol jose.Jws.serialized_payload
    jose.Header.check_critical_produced jose.Signature.sign_kind jose.Header.merge_headers
    jose.Header.merge_all jose.Header.merge_one jose.Common.insert jose.Common.contains
    jose.Header.check_critical jose.Header.critical jose.Jws.b64_value jose.Signature.lookup_sig_alg
    jose.Signature.sig_algs jose.Jwk.check_jwk_usage jose.Jwk.resolve_key jose.Jwk.select_jwk
    jose.Jws.signing_input jose.Signature.secret_of jose.Samples.Flat.same_header
    jose.Samples.Flat.same_value
prints = refl

no_b64 : lookup (codes "b64") (copy_header (options.header ∷ [])) ≡ none
unfolding copy_header jose.Header.copy_all jose.Header.copy_one lookup
no_b64 = refl

verify_json-sign_json_example :
    (merged : Header) × (verify_json_with_options documents
        (codes "{}")
        (go_key key)
        (matching_options options (codes "fo"))
      ≡ ok (codes "fo", merged))
verify_json-sign_json_example =
    verify_json-sign_json documents documents-IsDocumentCodec no_json lib-IsHeaderCodec point
      (signing-IsSigning lib.keys) signing-GivesSignatures (codes "fo") (codes "{}") key options tt
      (omega arith) (λ e. cc) no_crit no_b64 refl tt prints
