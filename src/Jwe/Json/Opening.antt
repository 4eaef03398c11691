-- ===== src/Jwe/Json/Opening.antt =====
-- jwe_json.go: `DecryptJSONWithOptions` and the order in which it tries the recipients.
pub mod Order
pub mod Loop
pub mod Document
pub mod Tests
use jose.Common.{
  is_empty, is_some, ℕ, zero, suc, ◌+◌, Bool, true, false, not, ◌&&◌, ◌||◌, Option, none, some,
  List, [], ◌∷◌, ◌++◌, if◌then◌else◌, Bytes, codes, eqb, length,
}
use jose.Common.Outcome.{Result, ok, err, ◌>>=◌, ◌>>◌, guard, relabel}
use jose.Errors.{Error, invalid_header, malformed, decrypt_failed}
use jose.Base64.{decode_segment}
use jose.Header.{Header, key_id, is_present, check_critical, merge_headers}
use jose.Token.{decode_header}
use jose.Jwk.{AnyKey}
use jose.Jws.{jwk_kid}
use jose.Jws.General.{or_empty}
use jose.ContentEnc.{Sealed}
use jose.Jwe.{DecryptOptions, JweLibrary}
use jose.Jwe.Decrypt.{jwe_aad, decode_optional_segment, decrypt_one, zero_options}
use jose.Jwe.Json.{JweRecipient, JweJson, JweDocuments}

-- The recipients of a document, in either form.
pub recipients_of : JweJson → Result Error (List JweRecipient)
recipients_of doc =
    if is_empty doc.recipients
    then ok (record { header = doc.header; encrypted_key = doc.encrypted_key } ∷ [])
    else if is_some doc.header || not (is_empty doc.encrypted_key)
    then err malformed
    else ok doc.recipients

-- `recipientOrder`. The "kid" of a recipient is the last one among the headers that is not empty.
pub last_kid : Bytes → List Header → Bytes
last_kid kid [] = kid
last_kid kid (h ∷ hs) = last_kid (if is_empty (key_id h) then kid else key_id h) hs

pub recipient_kid_of : Header → Header → JweRecipient → Bytes
recipient_kid_of protected unprotected r =
    last_kid [] (protected ∷ unprotected ∷ or_empty r.header ∷ [])

pub range : ℕ → ℕ → List ℕ
range i zero = []
range i (suc n) = i ∷ range (i + 1) n

-- The variables `first` and `rest` of its loop.
module _ (want : Bytes) (protected unprotected : Header) where
  pub ordered : List ℕ → List ℕ → ℕ → List JweRecipient → List ℕ
  ordered first rest i [] = first ++ rest
  ordered first rest i (r ∷ rs) =
      let matched = ordered (first ++ (i ∷ [])) rest (i + 1) rs in
      let other = ordered first (rest ++ (i ∷ [])) (i + 1) rs in
      if eqb (recipient_kid_of protected unprotected r) want then matched else other

pub recipient_order : List JweRecipient → Header → Header → AnyKey → List ℕ
recipient_order recipients protected unprotected key =
    if is_empty (jwk_kid key)
    then range 0 (length recipients)
    else ordered (jwk_kid key) protected unprotected [] [] 0 recipients

-- The encoded members of a document that all its recipients share.
pub record Contents : Type 0 where
  pub protected : Header
  pub sealed : Sealed

pub protected_header_of : JweLibrary → Bytes → Result Error Header
protected_header_of lib seg = if is_empty seg then ok [] else decode_header lib.mgmt.unmarshal seg

pub check_aad : Bytes → Result Error (Unit {0})
check_aad aad =
    if is_empty aad then ok tt else (relabel malformed (decode_segment aad) >>= λ _. ok tt)

pub contents_of : JweLibrary → JweJson → Result Error Contents
contents_of lib doc = do
  protected ← protected_header_of lib doc.protected
  iv ← decode_optional_segment doc.iv
  ciphertext ← decode_optional_segment doc.ciphertext
  tag ← decode_optional_segment doc.tag
  check_aad doc.aad
  ok (record {
    protected = protected;
    sealed = record { iv = iv; ciphertext = ciphertext; tag = tag };
  })

pub element {ℓ} : {A : Type ℓ} → List A → ℕ → Option A
element [] i = none
element (x ∷ xs) zero = some x
element (x ∷ xs) (suc i) = element xs i

module _ (lib : JweLibrary) (doc : JweJson) (contents : Contents) (key : AnyKey)
    (opts : DecryptOptions) where
  -- One turn of the loop of `DecryptJSONWithOptions`.
  pub open_for : JweRecipient → Result Error (Bytes × Header)
  open_for r = do
    guard (not (is_present (codes "zip") (or_empty doc.unprotected))) invalid_header
    guard (not (is_present (codes "zip") (or_empty r.header))) invalid_header
    merged ← merge_headers (contents.protected ∷ or_empty doc.unprotected ∷ or_empty r.header ∷ [])
    check_critical contents.protected opts.known_critical
    encrypted_key ← decode_optional_segment r.encrypted_key
    body ←
        decrypt_one lib merged encrypted_key contents.sealed (jwe_aad doc.protected doc.aad) key
          opts
    ok (body, merged)

  -- The loop. An index out of range would panic; it gives the error so far.
  pub open_first : List JweRecipient → Error → List ℕ → Result Error (Bytes × Header)
  open_first recipients last [] = err last
  open_first recipients last (i ∷ order) = elim (element recipients i) [
    | none ↦ err last
    | some r ↦ elim (open_for r) [ ok found ↦ ok found | err e ↦ open_first recipients e order ]
  ]

pub decrypt_document :
    JweLibrary → JweJson → AnyKey → DecryptOptions → Result Error (Bytes × Header)
decrypt_document lib doc key opts = do
  recipients ← recipients_of doc
  contents ← contents_of lib doc
  let order = recipient_order recipients contents.protected (or_empty doc.unprotected) key
  open_first lib doc contents key opts recipients decrypt_failed order

-- `DecryptJSONWithOptions` and `DecryptJSON`
pub jwe_document : JweDocuments → Bytes → Result Error JweJson
jwe_document lib text = elim (lib.unmarshal_document text) [
  | none ↦ err malformed
  | some doc ↦ ok doc
]

pub decrypt_json_with_options :
    JweDocuments → Bytes → AnyKey → DecryptOptions → Result Error (Bytes × Header)
decrypt_json_with_options lib text key opts = do
  doc ← jwe_document lib text
  decrypt_document lib.base doc key opts

pub decrypt_json : JweDocuments → Bytes → AnyKey → Result Error (Bytes × Header)
decrypt_json lib text key = decrypt_json_with_options lib text key zero_options
