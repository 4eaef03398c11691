-- ===== src/Jws/General.antt =====
-- jws.go: the general and the flattened JSON serialization of a JWS.
pub mod Tests
pub mod Signers
pub mod RoundTrip
pub mod First
use jose.Common.{
  is_some, is_empty, Bool, true, false, not, ◌&&◌, ◌||◌, Option, none, some, List, [], ◌∷◌, ◌++◌,
  if◌then◌else◌, Bytes, eqb,
}
use jose.Common.Outcome.{Result, ok, err, ◌>>=◌, ◌>>◌, guard}
use jose.Errors.{Error, malformed, signature_invalid, invalid_key, invalid_header, external}
use jose.Header.{Header, copy_header, merge_headers}
use jose.Token.{decode_header}
use jose.Jwk.{AnyKey}
use jose.Jws.{Library, SignOptions, VerifyOptions, Signed, sign_one, verify_signature, no_options}

-- `jwsSignature` and `jwsJSON`; a nil map is `none`.
pub record JwsSignature : Type 0 where
  pub protected : Bytes
  pub header : Option Header
  pub signature : Bytes

pub record JwsJson : Type 0 where
  pub payload : Bytes
  pub signatures : List JwsSignature
  pub protected : Bytes
  pub header : Option Header
  pub signature : Bytes

-- `json.Marshal` and `json.Unmarshal` of a `jwsJSON`.
pub record DocumentLibrary : Type 0 where
  pub base : Library
  pub marshal_document : JwsJson → Option Bytes
  pub unmarshal_document : Bytes → Option JwsJson

unfoldable pub or_empty : Option Header → Header
or_empty none = []
or_empty (some h) = h

-- The signatures of `VerifyJSONWithOptions`: the array, or those of the flattened form.
pub is_flattened : JwsJson → Bool
is_flattened doc =
    not (is_empty doc.signature) || (not (is_empty doc.protected) || is_some doc.header)

pub top_level : JwsJson → JwsSignature
top_level doc = record { protected = doc.protected; header = doc.header; signature = doc.signature }

pub signatures_of : JwsJson → Result Error (List JwsSignature)
signatures_of doc = do
  guard (not (not (is_empty doc.signatures) && is_flattened doc)) malformed
  guard (not (is_flattened doc && is_empty doc.signature)) malformed
  let sigs = if is_flattened doc then doc.signatures ++ (top_level doc ∷ []) else doc.signatures
  guard (not (is_empty sigs)) malformed
  ok sigs

-- The loop of `VerifyJSONWithOptions`: one signature, and the first that verifies.
pub protected_of : Library → JwsSignature → Result Error Header
protected_of lib s = if is_empty s.protected then ok [] else decode_header lib.unmarshal s.protected

module _ (lib : Library) (payload : Bytes) (key : AnyKey) (opts : VerifyOptions) where
  pub verify_one : JwsSignature → Result Error (Bytes × Header)
  verify_one s = do
    protected ← protected_of lib s
    pl ← verify_signature lib s.protected protected (or_empty s.header) payload s.signature key opts
    merged ← merge_headers (protected ∷ or_empty s.header ∷ [])
    ok (pl, merged)

  pub first_verified : Error → List JwsSignature → Result Error (Bytes × Header)
  first_verified last [] = err last
  first_verified last (s ∷ sigs) = elim (verify_one s) [
    | ok found ↦ ok found
    | err e ↦ first_verified e sigs
  ]

pub document_of : DocumentLibrary → Bytes → Result Error JwsJson
document_of lib text = elim (lib.unmarshal_document text) [
  | none ↦ err malformed
  | some doc ↦ ok doc
]

pub verify_json_with_options :
    DocumentLibrary → Bytes → AnyKey → VerifyOptions → Result Error (Bytes × Header)
verify_json_with_options lib text key opts = do
  doc ← document_of lib text
  sigs ← signatures_of doc
  first_verified lib.base doc.payload key opts signature_invalid sigs

pub verify_json : DocumentLibrary → Bytes → AnyKey → Result Error (Bytes × Header)
verify_json lib text key = verify_json_with_options lib text key no_options

-- `Signer`, and the loop of `SignJSONMulti` over the signers after the first, whose encoded payload
-- all must share.
pub record Signer : Type 0 where
  pub key : AnyKey
  pub options : SignOptions

unfoldable pub copy_header_or_nil : Header → Option Header
copy_header_or_nil [] = none
copy_header_or_nil (e ∷ h) = some (copy_header ((e ∷ h) ∷ []))

pub add_signature : JwsJson → Signer → Signed → JwsJson
add_signature doc s made = record {
  payload = if s.options.detach_payload then doc.payload else made.payload;
  signatures =
      doc.signatures
      ++ (record {
        protected = made.protected;
        header = copy_header_or_nil s.options.unprotected;
        signature = made.signature;
      }
          ∷ []);
  protected = doc.protected;
  header = doc.header;
  signature = doc.signature;
}

abbrev pub empty_document : JwsJson
empty_document = record {
  payload = [];
  signatures = [];
  protected = [];
  header = none;
  signature = [];
}

pub sign_rest : Library → Bytes → Bytes → JwsJson → List Signer → Result Error JwsJson
sign_rest lib payload encoded doc [] = ok doc
sign_rest lib payload encoded doc (s ∷ signers) = do
  made ← sign_one lib payload s.key s.options
  guard (eqb made.payload encoded) invalid_header
  sign_rest lib payload encoded (add_signature doc s made) signers

pub signed_document : Library → Bytes → List Signer → Result Error JwsJson
signed_document lib payload [] = err invalid_key
signed_document lib payload (s ∷ signers) = do
  made ← sign_one lib payload s.key s.options
  sign_rest lib payload made.payload (add_signature empty_document s made) signers

pub marshalled : Option Bytes → Result Error Bytes
marshalled none = err external
marshalled (some text) = ok text

pub sign_json_multi : DocumentLibrary → Bytes → List Signer → Result Error Bytes
sign_json_multi lib payload signers = do
  doc ← signed_document lib.base payload signers
  marshalled (lib.marshal_document doc)

pub sign_json : DocumentLibrary → Bytes → AnyKey → SignOptions → Result Error Bytes
sign_json lib payload key opts =
    sign_json_multi lib payload (record { key = key; options = opts } ∷ [])
