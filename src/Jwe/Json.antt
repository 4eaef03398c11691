-- ===== src/Jwe/Json.antt =====
-- jwe_json.go: encryption for several recipients and decryption, in the JSON serialization.
pub mod Opening
pub mod Recipients
pub mod Carried
pub mod Shared
pub mod Tests
use jose.Common.{
  is_empty, is_some, ℕ, zero, suc, ◌+◌, Bool, true, false, not, ◌&&◌, ◌||◌, Option, none, some,
  List, [], ◌∷◌, ◌++◌, ◌==◌, if◌then◌else◌, Bytes, codes, ltb, eqb, lookup, insert, length,
}
use jose.Common.Outcome.{Result, ok, err, ◌>>=◌, ◌>>◌, guard}
use jose.Errors.{
  Error, invalid_header, malformed, decrypt_failed, invalid_key, unsupported_algorithm,
}
use jose.Base64.{encode_segment, decode_segment}
use jose.Json.{Value, str}
use jose.Header.{
  Header, header_string, key_id, is_present, check_critical, check_critical_produced, copy_header,
  merge_headers,
}
use jose.Token.{encode_header, decode_header}
use jose.Jwk.{AnyKey, resolve_key, check_jwk_usage}
use jose.Jws.{jwk_kid}
use jose.Jws.General.{or_empty, copy_header_or_nil, marshalled}
use jose.ContentEnc.{Random, ContentEnc, Sealed, lookup_enc}
use jose.KeyMgmt.{KeyMgmt, Draws, lookup_key_mgmt, derives_cek}
use jose.KeyMgmt.Dispatch.{encrypt_key}
use jose.Jwe.{
  EncryptOptions, DecryptOptions, JweLibrary, choose_key_mgmt_alg, choose_enc, encrypt_ops,
  with_zip, content_of,
}
use jose.Jwe.Decrypt.{jwe_aad, decode_optional_segment, decrypt_one, zero_options}

pub record Recipient : Type 0 where
  pub key : AnyKey
  pub algorithm : Bytes
  pub key_id : Bytes
  pub header : Header

-- `jweRecipient` and `jweJSON`; a nil map is `none`.
pub record JweRecipient : Type 0 where
  pub header : Option Header
  pub encrypted_key : Bytes

pub record JweJson : Type 0 where
  pub protected : Bytes
  pub unprotected : Option Header
  pub recipients : List JweRecipient
  pub aad : Bytes
  pub iv : Bytes
  pub ciphertext : Bytes
  pub tag : Bytes
  pub header : Option Header
  pub encrypted_key : Bytes

-- `json.Marshal` and `json.Unmarshal` of a `jweJSON`.
pub record JweDocuments : Type 0 where
  pub base : JweLibrary
  pub marshal_document : JweJson → Option Bytes
  pub unmarshal_document : Bytes → Option JweJson

-- The shared protected header of `EncryptJSONMulti`, before the recipients. Its "kid" is the caller's
-- if there is one recipient.
pub shared_header : EncryptOptions → Bytes → Bool → Header
shared_header opts enc_name single =
    let header = with_zip opts.compress (
      insert (codes "enc") (str enc_name)
        (copy_header (opts.header ∷ opts.additional_headers ∷ []))) in
    if not (is_empty opts.key_id) && single
    then insert (codes "kid") (str opts.key_id) header
    else header

-- The header of one recipient, before its key is encrypted.
pub recipient_kid : Header → Recipient → Header → Header
recipient_kid protected r header =
    if not (is_empty r.key_id)
    then insert (codes "kid") (str r.key_id) header
    else if not (is_empty (jwk_kid r.key))
        && (not (is_present (codes "kid") header) && not (is_present (codes "kid") protected))
    then insert (codes "kid") (str (jwk_kid r.key)) header
    else header

pub recipient_header : Header → Recipient → Bytes → Header
recipient_header protected r alg =
    recipient_kid protected r (insert (codes "alg") (str alg) (copy_header (r.header ∷ [])))

-- For a single recipient, the protected parameters join its header. A "kid" there stays.
pub fold_protected : Header → Header → Result Error Header
fold_protected header [] = ok header
fold_protected header ((k, v) ∷ protected) =
    let skipped = fold_protected header protected in
    let set = fold_protected (insert k v header) protected in
    if is_present k header then if eqb k (codes "kid") then skipped else err invalid_header else set

pub folded : Bool → Header → Header → Result Error Header
folded single header protected = if single then fold_protected header protected else ok header

-- The variables of the loop of `EncryptJSONMulti`: the protected header, the content encryption key, nil
-- before the first recipient, and `out.Recipients`.
pub record Sealing : Type 0 where
  pub protected : Header
  pub cek : Option Bytes
  pub recipients : List JweRecipient

pub add_recipient : Bool → Sealing → Header → Bytes → Bytes → Sealing
add_recipient true s written cek encrypted = record {
  protected = written;
  cek = some cek;
  recipients =
      s.recipients ++ (record { header = none; encrypted_key = encode_segment encrypted } ∷ []);
}
add_recipient false s written cek encrypted = record {
  protected = s.protected;
  cek = some cek;
  recipients =
      s.recipients
      ++ (record { header = some written; encrypted_key = encode_segment encrypted } ∷ []);
}

-- The loop of `EncryptJSONMulti` over the recipients; `total` is their number. `draws` is what the
-- random source gives for each.
module _ (lib : JweLibrary) (enc_name : Bytes) (enc : ContentEnc) (total : ℕ) where
  pub seal_for : Draws → Sealing → Recipient → Result Error Sealing
  seal_for draws s r = do
    resolved ← resolve_key lib.mgmt.keys r.key r.key_id
    alg ← choose_key_mgmt_alg r.algorithm r.key resolved
    km ← lookup_key_mgmt alg
    check_jwk_usage r.key r.key_id (codes "enc") (alg ∷ enc_name ∷ []) encrypt_ops
    guard (not (derives_cek km && ltb 1 total)) unsupported_algorithm
    header ← folded (total == 1) (recipient_header s.protected r alg) s.protected
    (written, cek, encrypted) ← encrypt_key lib.mgmt km enc draws resolved header s.cek
    ok (add_recipient (total == 1) s written cek encrypted)

  pub seal_all : (ℕ → Draws) → ℕ → Sealing → List Recipient → Result Error Sealing
  seal_all draws i s [] = ok s
  seal_all draws i s (r ∷ rs) = do next ← seal_for (draws i) s r; seal_all draws (i + 1) next rs

-- The checks of `EncryptJSONMulti` before the loop and after it.
pub check_no_zip : List Recipient → Result Error (Unit {0})
check_no_zip [] = ok tt
check_no_zip (r ∷ rs) = do
  guard (not (is_present (codes "zip") r.header)) invalid_header
  check_no_zip rs

pub check_merges : Header → Header → List JweRecipient → Result Error (Unit {0})
check_merges protected unprotected [] = ok tt
check_merges protected unprotected (r ∷ rs) = do
  _ ← merge_headers (protected ∷ unprotected ∷ or_empty r.header ∷ [])
  check_merges protected unprotected rs

-- A nil content encryption key, which no run that comes here has, is of length 0.
pub cek_of : Option Bytes → Bytes
cek_of none = []
cek_of (some cek) = cek

module _ (lib : JweLibrary) where
  pub sealed_document :
      (ℕ → Draws) → Random → Bytes → EncryptOptions → List Recipient → Result Error JweJson
  sealed_document draws random plaintext opts recipients = do
    guard (not (is_empty recipients)) invalid_key
    guard (not (is_present (codes "zip") opts.unprotected)) invalid_header
    check_no_zip recipients
    let enc_name = choose_enc opts.encryption
    enc ← lookup_enc enc_name
    let protected = shared_header opts enc_name (length recipients == 1)
    s ←
        seal_all lib enc_name enc (length recipients) draws 0
          (record { protected = protected; cek = none; recipients = [] }) recipients
    check_critical_produced s.protected
    check_merges s.protected (or_empty (copy_header_or_nil opts.unprotected)) s.recipients
    body ← content_of lib (header_string s.protected (codes "zip")) plaintext
    text ← encode_header lib.marshal s.protected
    let aad = if is_empty opts.additional_data then [] else encode_segment opts.additional_data
    sealed ←
        jose.ContentEnc.encrypt lib.mgmt.primitives enc random (cek_of s.cek) body
          (jwe_aad text aad)
    ok (record {
      protected = text;
      unprotected = copy_header_or_nil opts.unprotected;
      recipients = s.recipients;
      aad = aad;
      iv = encode_segment sealed.iv;
      ciphertext = encode_segment sealed.ciphertext;
      tag = encode_segment sealed.tag;
      header = none;
      encrypted_key = [];
    })

-- `EncryptJSONMulti` and `EncryptJSON`
pub encrypt_json_multi :
    JweDocuments
    → (ℕ → Draws)
    → Random
    → Bytes
    → EncryptOptions
    → List Recipient
    → Result Error Bytes
encrypt_json_multi lib draws random plaintext opts recipients = do
  doc ← sealed_document lib.base draws random plaintext opts recipients
  marshalled (lib.marshal_document doc)

pub encrypt_json :
    JweDocuments → (ℕ → Draws) → Random → Bytes → AnyKey → EncryptOptions → Result Error Bytes
encrypt_json lib draws random plaintext key opts =
    encrypt_json_multi lib draws random plaintext opts
      (record { key = key; algorithm = opts.algorithm; key_id = opts.key_id; header = [] } ∷ [])
