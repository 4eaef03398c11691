-- ===== src/Jwe/Json/Shared.antt =====
-- `EncryptJSONMulti` for several recipients: the key that the content and the recipients share.
use jose.Common.{
  ℕ, ◌≡◌, refl, sym, ap, ◌∙◌, inl, inr, true, false, not, Option, none, List, [], ◌==◌, Bytes,
  codes, ltb, length, arith, is_empty, if◌then◌else◌,
}
use mathlib.Core.Path.{subst}
use jose.Common.Outcome.{ok, guard, >>=-eq-ok}
use jose.Errors.{invalid_key, invalid_header}
use jose.Base64.{encode_segment}
use jose.Header.{Header, header_string, is_present, check_critical_produced}
use jose.Token.{encode_header}
use jose.Jws.General.{or_empty, copy_header_or_nil}
use jose.ContentEnc.{Random, ContentEnc, Sealed, lookup_enc}
use jose.KeyMgmt.{Draws}
use jose.Jwe.{EncryptOptions, JweLibrary, choose_enc, content_of}
use jose.Jwe.Decrypt.{jwe_aad}
use jose.Jwe.Json.{
  Recipient, JweJson, Sealing, seal_all, check_no_zip, check_merges, cek_of, shared_header,
  sealed_document,
}
use jose.Jwe.Json.Recipients.{seal_all-IsShared}
use jose.Jwe.Json.Carried.{AreFor, IsBody, content_of-IsBody, seal_all-AreAdded}

abbrev document_with : Sealing → Bytes → Option Header → Bytes → Sealed → JweJson
document_with t text unprotected aad s = record {
  protected = text;
  unprotected = unprotected;
  recipients = t.recipients;
  aad = aad;
  iv = encode_segment s.iv;
  ciphertext = encode_segment s.ciphertext;
  tag = encode_segment s.tag;
  header = none;
  encrypted_key = [];
}

-- One content encryption key seals the plaintext, compressed if the header says so, with the header and the
-- additional data as they stand in the document; and the entries are one for each recipient, in their order, each with
-- the encryption of that key for the recipient's own key under the recipient's own algorithm.
pub record IsSealed (lib : JweLibrary) (draws : ℕ → Draws) (random : Random) (plaintext : Bytes)
    (opts : EncryptOptions) (recipients : List Recipient) (doc : JweJson) : Type 0 where
  pub enc : ContentEnc
  pub enc_found : lookup_enc (choose_enc opts.encryption) ≡ ok enc
  pub protected : Header
  pub protected_is : protected ≡ shared_header opts (choose_enc opts.encryption) false
  pub header_shown : encode_header lib.marshal protected ≡ ok doc.protected
  pub aad_shown :
      doc.aad ≡ (if is_empty opts.additional_data then [] else encode_segment opts.additional_data)
  pub body : Bytes
  pub body_is : IsBody lib (header_string protected (codes "zip")) plaintext body
  pub cek : Bytes
  pub sealed : Sealed
  pub seals :
      jose.ContentEnc.encrypt lib.mgmt.primitives enc random cek body
        (jwe_aad doc.protected doc.aad)
      ≡ ok sealed
  pub iv_shown : doc.iv ≡ encode_segment sealed.iv
  pub ciphertext_shown : doc.ciphertext ≡ encode_segment sealed.ciphertext
  pub tag_shown : doc.tag ≡ encode_segment sealed.tag
  pub carried :
      AreFor lib (choose_enc opts.encryption) enc draws protected cek 0 recipients doc.recipients

-- A document that `EncryptJSONMulti` makes for several recipients: one content encryption key seals the plaintext,
-- compressed if the header says so, with the header and the additional data as they stand in the document; and the
-- entries are one for each recipient, in their order, each with the encryption of that key for the recipient's own
-- key, under the algorithm chosen for the recipient, which transports the key, and with the recipient's own header.
pub sealed_document-IsSealed :
    (lib : JweLibrary) (draws : ℕ → Draws) (random : Random) (plaintext : Bytes)
    (opts : EncryptOptions) (recipients : List Recipient) (doc : JweJson)
    → ltb 1 (length recipients) ≡ true
    → sealed_document lib draws random plaintext opts recipients ≡ ok doc
    → IsSealed lib draws random plaintext opts recipients doc
unfolding sealed_document cek_of
sealed_document-IsSealed lib draws random plaintext opts recipients doc several run =
    let n = length recipients in
    let (_, _, h₁) = >>=-eq-ok (guard (not (is_empty recipients)) invalid_key) _ run in
    let (_, _, h₂) =
      >>=-eq-ok (guard (not (is_present (codes "zip") opts.unprotected)) invalid_header) _ h₁ in
    let (_, _, h₃) = >>=-eq-ok (check_no_zip recipients) _ h₂ in
    let enc_name = choose_enc opts.encryption in
    let (enc, found, h₄) = >>=-eq-ok (lookup_enc enc_name) _ h₃ in
    let protected = shared_header opts enc_name (n == 1) in
    let start : Sealing = record { protected = protected; cek = none; recipients = [] } in
    let (t, looped, h₅) = >>=-eq-ok (seal_all lib enc_name enc n draws 0 start recipients) _ h₄ in
    let (_, _, h₆) = >>=-eq-ok (check_critical_produced t.protected) _ h₅ in
    let (_, _, h₇) =
      >>=-eq-ok
        (check_merges t.protected (or_empty (copy_header_or_nil opts.unprotected)) t.recipients) _
        h₆ in
    let (body, contents, h₈) =
      >>=-eq-ok (content_of lib (header_string t.protected (codes "zip")) plaintext) _ h₇ in
    let (text, shown, h₉) = >>=-eq-ok (encode_header lib.marshal t.protected) _ h₈ in
    let aad = if is_empty opts.additional_data then [] else encode_segment opts.additional_data in
    let (s, made, last) =
      >>=-eq-ok
        (jose.ContentEnc.encrypt lib.mgmt.primitives enc random (cek_of t.cek) body
          (jwe_aad text aad))
        _ h₉ in
    let (shared, header, count) =
      seal_all-IsShared lib enc_name enc n several draws 0 start t recipients (inl (refl, refl))
        looped in
    let added = seal_all-AreAdded lib enc_name enc draws n several 0 start t recipients looped in
    let single : (n == 1) ≡ false = ground (arith, several) in
    let plain : t.protected ≡ shared_header opts enc_name false =
      header ∙ ap (shared_header opts enc_name) single in
    let same : document_with t text (copy_header_or_nil opts.unprotected) aad s ≡ doc =
      ground (arith, last) in
    elim shared [
      | inl (fresh, nobody) ↦ absurd (ground (arith, count, ap length nobody, several))
      | inr (cek, e, all) ↦ rw (← same) (record {
        enc = enc;
        enc_found = found;
        protected = t.protected;
        protected_is = plain;
        header_shown = shown;
        aad_shown = refl;
        body = body;
        body_is =
            content_of-IsBody lib (header_string t.protected (codes "zip")) plaintext body contents;
        cek = cek;
        sealed = s;
        seals =
            ap
              (λ k.
                jose.ContentEnc.encrypt lib.mgmt.primitives enc random (cek_of k) body
                  (jwe_aad text aad))
              (sym e)
            ∙ made;
        iv_shown = refl;
        ciphertext_shown = refl;
        tag_shown = refl;
        carried =
            subst (AreFor lib enc_name enc draws t.protected cek 0 recipients) (sym added.appended)
              (subst (λ h. AreFor lib enc_name enc draws h cek 0 recipients added.entries)
                (sym header) (added.are_for cek e));
      })
    ]
