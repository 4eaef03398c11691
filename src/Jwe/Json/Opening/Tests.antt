-- ===== src/Jwe/Json/Opening/Tests.antt =====
-- Runs of `DecryptJSON` with concrete libraries: two recipients, the second of which the key opens.
use jose.Common.{
  ℕ, zero, suc, ◌+◌, ◌≡◌, ◌⊎◌, inl, inr, refl, true, false, Option, some, none, List, [], ◌∷◌, ◌++◌,
  Bytes, codes, replicate, length, All, lookup, insert, eqb, ltb, arith,
}
use mathlib.Core.List.{Permᴰ}
use jose.Common.Outcome.{ok}
use jose.Base64.{encode_segment}
use jose.Json.{str}
use jose.Header.{Header}
use jose.Jws.General.{or_empty}
use jose.Jwk.{AnyKey, Jwk, go_key, jwk}
use jose.Jws.{jwk_kid}
use jose.Jwk.Export.{okp_jwk}
use jose.ContentEnc.{ContentEnc, Sealed, gcm, lookup_enc}
use jose.Jwe.{EncryptOptions, choose_enc}
use jose.Jwe.Decrypt.{zero_options, jwe_aad}
use jose.Jwe.Json.{
  JweRecipient, JweJson, JweDocuments, Recipient, Sealing, seal_all, sealed_document,
}
use jose.Jwe.Json.Opening.{
  Contents, recipients_of, contents_of, recipient_order, range, open_for, decrypt_json_with_options,
}
use jose.Jwe.Json.Opening.Order.{IsSplit, recipient_order-Perm}
use jose.Jwe.Json.Opening.Document.{
  IsRead, HasJweForm, decrypt_json-IsFirstOpened, decrypt_json-opens,
}
use jose.Jwe.Json.Opening.Loop.{IsFirstOpened}
use jose.Jwe.Tests.{header, library, key}

abbrev closed : JweRecipient
closed = record { header = none; encrypted_key = codes "AAAA" }

abbrev addressed : JweRecipient
addressed = record { header = none; encrypted_key = [] }

abbrev pub document : JweJson
document = record {
  protected = codes "e30";
  unprotected = none;
  recipients = closed ∷ addressed ∷ [];
  aad = [];
  iv = codes "CQkJCQkJCQkJCQkJ";
  ciphertext = codes "aGk";
  tag = codes "BwcHBwcHBwcHBwcHBwcHBw";
  header = none;
  encrypted_key = [];
}

abbrev documents : JweDocuments
documents = record {
  base = library;
  marshal_document = λ doc. some (codes "{}");
  unmarshal_document = λ text. some document;
}

abbrev contents : Contents
contents = record {
  protected = header;
  sealed = record { iv = replicate 12 9; ciphertext = codes "hi"; tag = replicate 16 7 };
}

reads : IsRead documents (codes "{}") key zero_options document (closed ∷ addressed ∷ []) contents
unfolding recipients_of contents_of jose.Jwe.Json.Opening.protected_header_of
    jose.Jwe.Json.Opening.check_aad jose.Jwe.Decrypt.decode_optional_segment
    jose.Token.decode_header jose.Token.decoded_header jose.Base64.decode_segment
    jose.Base64.decode_string jose.Base64.four jose.Base64.is_symbol jose.Base64.last_three
    jose.Base64.last_two jose.Base64.quanta jose.Base64.screen jose.Base64.sextet jose.Base64.value
    jose.Base64.without_newlines eqb
reads = (refl, refl, refl)

opens : open_for library document contents key zero_options addressed ≡ ok (codes "hi", header)
unfolding open_for jose.Header.merge_headers jose.Header.merge_all jose.Header.merge_one
    jose.Jws.General.or_empty insert jwe_aad jose.Jwe.Decrypt.decode_optional_segment
    jose.Jwe.Decrypt.decrypt_one jose.Jwe.Decrypt.maybe_inflate jose.Jwe.Decrypt.inflate_named
    jose.Token.decode_header jose.Token.decoded_header jose.Base64.decode_segment
    jose.Base64.decode_string jose.Base64.four jose.Base64.is_symbol jose.Base64.last_three
    jose.Base64.last_two jose.Base64.quanta jose.Base64.screen jose.Base64.sextet jose.Base64.value
    jose.Base64.without_newlines jose.Header.check_critical jose.Header.critical
    jose.Header.algorithm jose.Header.encryption jose.Header.header_string jose.Header.string_of
    jose.Header.key_id jose.Common.lookup jose.Common.eqb jose.Common.contains jose.Jws.is_accepted
    jose.KeyMgmt.lookup_key_mgmt jose.KeyMgmt.key_mgmts jose.KeyMgmt.symmetric_key
    jose.ContentEnc.lookup_enc jose.ContentEnc.content_encs jose.ContentEnc.decrypt_mode
    jose.ContentEnc.decrypt_gcm jose.Jwk.check_jwk_usage jose.Jwk.resolve_key jose.Jwk.select_jwk
    jose.KeyMgmt.Dispatch.decrypt_key jose.KeyMgmt.Dispatch.decrypt_kind jose.ContentEnc.decrypt
opens = refl

abbrev found : Bytes × Header
found = (codes "hi", header)

decrypt_json-opens_example :
    (out : Bytes × Header) × (decrypt_json_with_options documents (codes "{}") key zero_options
      ≡ ok out)
unfolding jose.Jwe.Json.Opening.element
decrypt_json-opens_example =
    decrypt_json-opens documents (codes "{}") key zero_options document (closed ∷ addressed ∷ [])
      contents 1 addressed found reads refl opens

runs : decrypt_json_with_options documents (codes "{}") key zero_options ≡ ok found
unfolding decrypt_json_with_options jose.Jwe.Json.Opening.jwe_document
    jose.Jwe.Json.Opening.decrypt_document jose.Jwe.Json.Opening.recipient_order
    jose.Jwe.Json.Opening.open_first jose.Jwe.Json.Opening.element jose.Jwe.Json.Opening.range
    jose.Jws.jwk_kid recipients_of contents_of jose.Jwe.Json.Opening.protected_header_of
    jose.Jwe.Json.Opening.check_aad jose.Jwe.Decrypt.decode_optional_segment
    jose.Token.decode_header jose.Token.decoded_header jose.Base64.decode_segment
    jose.Base64.decode_string jose.Base64.four jose.Base64.is_symbol jose.Base64.last_three
    jose.Base64.last_two jose.Base64.quanta jose.Base64.screen jose.Base64.sextet jose.Base64.value
    jose.Base64.without_newlines open_for jose.Header.merge_headers jose.Header.merge_all
    jose.Header.merge_one jose.Jws.General.or_empty insert jwe_aad jose.Jwe.Decrypt.decrypt_one
    jose.Jwe.Decrypt.maybe_inflate jose.Jwe.Decrypt.inflate_named jose.Header.check_critical
    jose.Header.critical jose.Header.algorithm jose.Header.encryption jose.Header.header_string
    jose.Header.string_of jose.Header.key_id jose.Common.lookup jose.Common.eqb jose.Common.contains
    jose.Jws.is_accepted jose.KeyMgmt.lookup_key_mgmt jose.KeyMgmt.key_mgmts
    jose.KeyMgmt.symmetric_key jose.ContentEnc.lookup_enc jose.ContentEnc.content_encs
    jose.ContentEnc.decrypt_mode jose.ContentEnc.decrypt_gcm jose.Jwk.check_jwk_usage
    jose.Jwk.resolve_key jose.Jwk.select_jwk jose.KeyMgmt.Dispatch.decrypt_key
    jose.KeyMgmt.Dispatch.decrypt_kind jose.ContentEnc.decrypt
runs = refl

decrypt_json-IsFirstOpened_example :
    (doc : JweJson) × (recipients : List JweRecipient) × (contents : Contents) × IsRead documents
      (codes "{}")
      key
      zero_options
      doc
      recipients
      contents
    × HasJweForm doc recipients
    × IsFirstOpened library doc contents key zero_options recipients
        (recipient_order recipients contents.protected (or_empty doc.unprotected) key)
        found
decrypt_json-IsFirstOpened_example =
    decrypt_json-IsFirstOpened documents (codes "{}") key zero_options found runs

abbrev second : Jwk
second = record (okp_jwk (codes "X25519") (codes "x")) { kid = codes "2" }

abbrev named : JweRecipient
named = record { header = some ((codes "kid", str (codes "2")) ∷ []); encrypted_key = [] }

recipient_order-Perm_example :
    Permᴰ (recipient_order (closed ∷ named ∷ []) [] [] (jwk (some second))) (range 0 2)
    × ((jwk_kid (jwk (some second)) ≡ [])
        ⊎ IsSplit
            (jwk_kid (jwk (some second)))
            []
            []
            (closed ∷ named ∷ [])
            (recipient_order (closed ∷ named ∷ []) [] [] (jwk (some second))))
recipient_order-Perm_example = recipient_order-Perm (closed ∷ named ∷ []) [] [] (jwk (some second))
