-- ===== src/Jwe/Json/Tests.antt =====
-- Runs of `EncryptJSONMulti` with concrete libraries and two recipients.
use jose.Common.{
  ℕ, zero, suc, ◌+◌, ◌≡◌, ◌⊎◌, inl, inr, refl, true, false, Option, some, none, List, [], ◌∷◌, ◌++◌,
  Bytes, codes, replicate, length, All, lookup, insert, eqb, ltb, arith,
}
use jose.Common.Outcome.{ok}
use jose.Base64.{encode_segment}
use jose.Json.{str}
use jose.Header.{Header}
use jose.Jws.General.{or_empty}
use jose.Jwk.{AnyKey, Jwk, go_key, jwk}
use jose.Jws.{jwk_kid}
use jose.ContentEnc.{ContentEnc, Sealed, gcm, lookup_enc}
use jose.Jwe.{EncryptOptions, choose_enc}
use jose.Jwe.Decrypt.{zero_options, jwe_aad}
use jose.Jwe.Json.{
  JweRecipient, JweJson, JweDocuments, Recipient, Sealing, seal_all, sealed_document,
}
use jose.Jwe.Json.Recipients.{IsShared, seal_all-IsShared}
use jose.Jwe.Json.Shared.{IsSealed, sealed_document-IsSealed}
use jose.Jwe.Json.Opening.Tests.{document}
use jose.Jwe.Tests.{library, key}
use jose.Samples.{random, draws}

abbrev to_one : Recipient
to_one = record { key = key; algorithm = codes "A128GCMKW"; key_id = []; header = [] }

abbrev entry : JweRecipient
entry = record {
  header = some (
      (codes "alg", str (codes "A128GCMKW"))
      ∷ (codes "iv", str (codes "CQkJCQkJCQkJCQkJ"))
      ∷ (codes "tag", str (codes "BwcHBwcHBwcHBwcHBwcHBw"))
      ∷ []);
  encrypted_key = codes "CQkJCQkJCQkJCQkJCQkJCQ";
}

abbrev a128_gcm : ContentEnc
a128_gcm = record { name = codes "A128GCM"; key_size = 16; mode = gcm }

abbrev start : Sealing
start = record { protected = []; cek = none; recipients = [] }

abbrev ended : Sealing
ended = record { protected = []; cek = some (replicate 16 9); recipients = entry ∷ entry ∷ [] }

sealing :
    seal_all library (codes "A128GCM") a128_gcm 2 (λ i. draws) 0 start (to_one ∷ to_one ∷ [])
    ≡ ok ended
unfolding seal_all jose.Jwe.Json.seal_for jose.Jwe.choose_key_mgmt_alg jose.Jwe.Json.folded
    jose.Jwe.Json.recipient_header jose.Jwe.Json.recipient_kid jose.Jws.jwk_kid jose.Jws.jwk_alg
    jose.Jwe.Json.add_recipient jose.KeyMgmt.Dispatch.encrypt_key jose.KeyMgmt.Dispatch.encrypt_kind
    jose.KeyMgmt.Dispatch.transported_cek jose.KeyMgmt.derives_cek jose.KeyMgmt.kind_derives_cek
    jose.KeyMgmt.new_cek jose.KeyMgmt.symmetric_key jose.KeyMgmt.wrap_key_size
    jose.KeyMgmt.aes_gcm_wrap jose.ContentEnc.read_random jose.KeyMgmt.lookup_key_mgmt
    jose.KeyMgmt.key_mgmts jose.Jwk.resolve_key jose.Jwk.check_jwk_usage jose.Jwk.select_jwk insert
    jose.Common.lookup jose.Common.eqb encode_segment jose.Base64.symbol jose.Header.copy_header
    jose.Header.copy_all jose.Header.copy_one
sealing = refl

seal_all-IsShared_example :
    IsShared library (codes "A128GCM") a128_gcm 2 refl ended
    × (ended.protected ≡ start.protected)
    × (length ended.recipients ≡ length start.recipients + length (to_one ∷ to_one ∷ []))
seal_all-IsShared_example =
    seal_all-IsShared library (codes "A128GCM") a128_gcm 2 refl (λ i. draws) 0 start ended
      (to_one ∷ to_one ∷ []) (inl (refl, refl)) sealing

abbrev options : EncryptOptions
options = record {
  algorithm = [];
  encryption = codes "A128GCM";
  key_id = [];
  header = [];
  additional_headers = [];
  unprotected = [];
  additional_data = [];
  compress = false;
}

abbrev made : JweJson
made = record document { recipients = entry ∷ entry ∷ [] }

makes :
    sealed_document library (λ i. draws) random (codes "hi") options (to_one ∷ to_one ∷ [])
    ≡ ok made
unfolding sealed_document jose.Jwe.Json.check_no_zip jose.Jwe.choose_enc jose.ContentEnc.lookup_enc
    jose.ContentEnc.content_encs jose.Jwe.Json.shared_header jose.Jwe.with_zip
    jose.Header.check_critical_produced jose.Header.critical jose.Jwe.Json.check_merges
    jose.Header.merge_headers jose.Header.merge_all jose.Header.merge_one jose.Jws.General.or_empty
    jose.Jws.General.copy_header_or_nil jose.Jwe.content_of jose.Header.header_string
    jose.Header.string_of jose.Token.encode_header jose.ContentEnc.encrypt
    jose.ContentEnc.encrypt_mode jose.ContentEnc.encrypt_gcm jose.Jwe.Json.cek_of
    jose.Jwe.Decrypt.jwe_aad seal_all jose.Jwe.Json.seal_for jose.Jwe.choose_key_mgmt_alg
    jose.Jwe.Json.folded jose.Jwe.Json.recipient_header jose.Jwe.Json.recipient_kid jose.Jws.jwk_kid
    jose.Jws.jwk_alg jose.Jwe.Json.add_recipient jose.KeyMgmt.Dispatch.encrypt_key
    jose.KeyMgmt.Dispatch.encrypt_kind jose.KeyMgmt.Dispatch.transported_cek
    jose.KeyMgmt.derives_cek jose.KeyMgmt.kind_derives_cek jose.KeyMgmt.new_cek
    jose.KeyMgmt.symmetric_key jose.KeyMgmt.wrap_key_size jose.KeyMgmt.aes_gcm_wrap
    jose.ContentEnc.read_random jose.KeyMgmt.lookup_key_mgmt jose.KeyMgmt.key_mgmts
    jose.Jwk.resolve_key jose.Jwk.check_jwk_usage jose.Jwk.select_jwk insert jose.Common.lookup
    jose.Common.eqb encode_segment jose.Base64.symbol jose.Header.copy_header jose.Header.copy_all
    jose.Header.copy_one
makes = refl

sealed_document-IsSealed_example :
    IsSealed library (λ i. draws) random (codes "hi") options (to_one ∷ to_one ∷ []) made
sealed_document-IsSealed_example =
    sealed_document-IsSealed library (λ i. draws) random (codes "hi") options (to_one ∷ to_one ∷ [])
      made refl makes
