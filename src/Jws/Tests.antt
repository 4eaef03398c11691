-- ===== src/Jws/Tests.antt =====
-- Runs of jws.go with concrete libraries.
use jose.Common.{
  ◌≡◌, ◌↔◌, refl, none, some, true, List, [], ◌∷◌, Bytes, codes, eqb, lookup, insert, contains,
}
use jose.Common.Outcome.{ok}
use jose.Json.{str}
use jose.Header.{
  Header, merge_headers, merge_all, merge_one, algorithm, header_string, string_of, check_critical,
  critical, key_id,
}
use jose.Base64.{
  decode_segment, decode_string, four, is_symbol, last_three, last_two, quanta, screen, sextet,
  value, without_newlines,
}
use jose.Hashing.{hash_size}
use jose.Signature.{lookup_sig_alg, sig_algs, secret_of, verify_kind}
use jose.Keys.{secret}
use jose.Jwk.{AnyKey, go_key, check_jwk_usage, resolve_key, select_jwk}
use jose.Jws.{
  Library, no_options, verify_signature, is_accepted, b64_value, payload_segment, crit_names,
  returned_payload, signing_input,
}
use jose.Jws.Verified.{IsVerified, verify_signature-IsVerified}
use jose.Jws.General.{JwsSignature, JwsJson, DocumentLibrary, verify_json_with_options}
use jose.Jws.General.First.{HasForm, IsFirst, verify_json_iff}
use jose.Samples.{signing}

abbrev pub protected : Header
protected = (codes "alg", str (codes "HS256")) ∷ []

abbrev pub library : Library
library = record {
  keys = record {
    validates = λ k. true;
    precompute = λ k. none;
    is_on_curve = λ c x y. true;
    order = λ c. 7;
    key_from_seed = λ seed. seed;
    new_x25519_public = λ b. none;
    new_x25519_private = λ b. none;
  };
  signing = signing;
  marshal = λ h. some (codes "{}");
  unmarshal = λ b. some (some protected);
}

abbrev key : AnyKey
key = go_key (secret (codes "k"))

abbrev signature : Bytes
signature = codes "BwcHBwcHBwcHBwcHBwcHBwcHBwcHBwcHBwcHBwcHBwc"

runs :
    verify_signature library (codes "e30") protected [] (codes "Zm8") signature key no_options
    ≡ ok (codes "fo")
unfolding verify_signature merge_headers merge_all merge_one lookup insert contains algorithm
    header_string string_of eqb is_accepted check_critical critical b64_value payload_segment
    lookup_sig_alg sig_algs decode_segment decode_string four is_symbol last_three last_two quanta
    screen sextet value without_newlines key_id check_jwk_usage resolve_key select_jwk crit_names
    returned_payload signing_input secret_of verify_kind hash_size
runs = refl

verify_signature-IsVerified_example :
    IsVerified library
      (codes "e30")
      protected
      []
      (codes "Zm8")
      signature
      key
      no_options
      (codes "fo")
verify_signature-IsVerified_example =
    verify_signature-IsVerified library (codes "e30") protected [] (codes "Zm8") signature key
      no_options (codes "fo") runs

abbrev entry : JwsSignature
entry = record { protected = codes "e30"; header = none; signature = signature }

abbrev document : JwsJson
document = record {
  payload = codes "Zm8";
  signatures = entry ∷ [];
  protected = [];
  header = none;
  signature = [];
}

abbrev documents : DocumentLibrary
documents = record {
  base = library;
  marshal_document = λ doc. some (codes "{}");
  unmarshal_document = λ text. some document;
}

verify_json_iff_example :
    (verify_json_with_options documents (codes "{}") key no_options ≡ ok (codes "fo", protected))
    ↔ ((doc : JwsJson) × (sigs : List JwsSignature) × (some document ≡ some doc)
        × HasForm doc sigs
        × IsFirst library doc.payload key no_options sigs (codes "fo", protected))
verify_json_iff_example =
    verify_json_iff documents (codes "{}") key no_options (codes "fo", protected)
