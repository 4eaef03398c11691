-- ===== src/Jwe/Json/Opening/Document.antt =====
-- Which recipient of a JWE in the JSON serialization is the one whose plaintext is returned.
use jose.Common.{
  is_empty, is_some, is_empty→nil, nonempty, ℕ, ◌≡◌, ◌≢◌, refl, ap, ◌∙◌, ◌⊎◌, inl, inr, false, not,
  ◌||◌, Option, none, some, List, [], ◌∷◌, Bytes, Option-cases, Bool-cases, arith,
}
use mathlib.Core.Path.{subst}
use jose.Common.Outcome.{Result, ok, >>=-ok, >>=-eq-ok}
use jose.Errors.{Error, decrypt_failed}
use jose.Header.{Header}
use jose.Jwk.{AnyKey}
use jose.Jws.General.{or_empty}
use jose.Jwe.{DecryptOptions}
use jose.Jwe.Json.{JweRecipient, JweJson, JweDocuments}
use jose.Jwe.Json.Opening.{
  Contents, recipients_of, recipient_order, contents_of, element, open_for, open_first,
  decrypt_document, jwe_document, decrypt_json_with_options,
}
use jose.Jwe.Json.Opening.Loop.{IsFirstOpened, opening-cases, below_element}

-- The two forms a document may have: the general one, with nothing of a flattened JWE at the top level, and
-- the flattened one.
abbrev pub HasJweForm : JweJson → List JweRecipient → Type 0
HasJweForm doc recipients =
    (doc.recipients ≢ []
      × (doc.header ≡ none)
      × (doc.encrypted_key ≡ [])
      × (recipients ≡ doc.recipients))
    ⊎ ((doc.recipients ≡ [])
        × (recipients ≡ record { header = doc.header; encrypted_key = doc.encrypted_key } ∷ []))

none-of : (h : Option Header) → is_some h ≡ false → h ≡ none
none-of none e = refl
none-of (some h) e = cc

top_free :
    (h : Option Header) (k : Bytes)
    → (is_some h || not (is_empty k)) ≡ false
    → (h ≡ none) × (k ≡ [])
top_free h [] e = (none-of h (ground (arith, e)), refl)
top_free h (c ∷ k) e = absurd (ground (arith, e))

recipients-form :
    (doc : JweJson) (recipients : List JweRecipient)
    → recipients_of doc ≡ ok recipients
    → HasJweForm doc recipients
unfolding recipients_of
recipients-form doc recipients h = elim (Bool-cases (is_empty doc.recipients)) [
  | inl bare ↦ inr (is_empty→nil doc.recipients bare, ground (arith, bare))
  | inr many ↦ elim (Bool-cases (is_some doc.header || not (is_empty doc.encrypted_key))) [
    | inl mixed ↦ absurd (ground (arith, many, mixed))
    | inr general ↦
        let (no_header, no_key) = top_free doc.header doc.encrypted_key general in
        inl (
          nonempty doc.recipients (ground (arith, many)),
          no_header,
          no_key,
          ground (arith, many, general),
        )
  ]
]

document-read :
    (lib : JweDocuments) (text : Bytes) (doc : JweJson)
    → jwe_document lib text ≡ ok doc
    → lib.unmarshal_document text ≡ some doc
unfolding jwe_document
document-read lib text doc h = elim (Option-cases (lib.unmarshal_document text)) [
  | inl bad ↦ absurd (ground (arith, bad))
  | inr (d, e) ↦ e ∙ ap some (ground (arith, e))
]

read-document :
    (lib : JweDocuments) (text : Bytes) (doc : JweJson)
    → lib.unmarshal_document text ≡ some doc
    → jwe_document lib text ≡ ok doc
unfolding jwe_document
read-document lib text doc e = rw (jwe_document, e) refl

module _ (lib : JweDocuments) (text : Bytes) (key : AnyKey) (opts : DecryptOptions) where
  -- The document, its recipients and the contents they share, as read from the text.
  abbrev pub IsRead : JweJson → List JweRecipient → Contents → Type 0
  IsRead doc recipients contents =
      (lib.unmarshal_document text ≡ some doc)
      × (recipients_of doc ≡ ok recipients)
      × (contents_of lib.base doc ≡ ok contents)

  run-document :
      (doc : JweJson) (recipients : List JweRecipient) (contents : Contents)
      {m : Result Error (Bytes × Header)}
      → IsRead doc recipients contents
      → open_first lib.base doc contents key opts recipients decrypt_failed
          (recipient_order recipients contents.protected (or_empty doc.unprotected) key)
        ≡ m
      → decrypt_json_with_options lib text key opts ≡ m
  unfolding decrypt_json_with_options decrypt_document
  run-document doc recipients contents (read, formed, held) run =
      >>=-ok (jwe_document lib text) _ (read-document lib text doc read)
      ∙ (>>=-ok (recipients_of doc) _ formed ∙ (>>=-ok (contents_of lib.base doc) _ held ∙ run))

  -- `DecryptJSONWithOptions` returns a plaintext only for a document that is of one of the two forms and not of
  -- both, and whose shared members decode. The plaintext is that of the first recipient, in the order of
  -- `recipientOrder`, that opens: all before it fail.
  pub decrypt_json-IsFirstOpened :
      (found : Bytes × Header)
      → decrypt_json_with_options lib text key opts ≡ ok found
      → (doc : JweJson) × (recipients : List JweRecipient) × (contents : Contents) × IsRead doc
          recipients contents
        × HasJweForm doc recipients
        × IsFirstOpened lib.base doc contents key opts recipients
            (recipient_order recipients contents.protected (or_empty doc.unprotected) key)
            found
  unfolding decrypt_json_with_options decrypt_document
  decrypt_json-IsFirstOpened found h =
      let (doc, read, h₁) = >>=-eq-ok (jwe_document lib text) _ h in
      let (recipients, formed, h₂) = >>=-eq-ok (recipients_of doc) _ h₁ in
      let (contents, held, last) = >>=-eq-ok (contents_of lib.base doc) _ h₂ in
      elim (opening-cases lib.base doc contents key opts recipients) [
        | inl (found', run, first) ↦
            let same : found' ≡ found = ground (arith, run, last) in
            (
              doc,
              recipients,
              contents,
              (document-read lib text doc read, formed, held),
              recipients-form doc recipients formed,
              subst (IsFirstOpened lib.base doc contents key opts recipients _) same first,
            )
        | inr (e, run, failed) ↦ absurd (ground (arith, run, last))
      ]

  -- If any recipient of a document that is read opens with the key, `DecryptJSONWithOptions` returns a plaintext:
  -- no order of the recipients and no failure of another one hides it.
  pub decrypt_json-opens :
      (doc : JweJson) (recipients : List JweRecipient) (contents : Contents) (k : ℕ)
      (r : JweRecipient) (opened : Bytes × Header)
      → IsRead doc recipients contents
      → element recipients k ≡ some r
      → open_for lib.base doc contents key opts r ≡ ok opened
      → (found : Bytes × Header) × (decrypt_json_with_options lib text key opts ≡ ok found)
  decrypt_json-opens doc recipients contents k r opened read here e =
      elim (opening-cases lib.base doc contents key opts recipients) [
        | inl (found, run, first) ↦ (found, run-document doc recipients contents read run)
        | inr (f, run, failed) ↦
            let (q, x, there, bad) = failed k (below_element recipients k r here) in
            absurd (ground (arith, here, there, e, bad))
      ]
