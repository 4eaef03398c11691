-- ===== src/Jws/General/First.antt =====
-- Which signature of a JWS in the JSON serialization is the one whose payload is returned.
use jose.Common.{
  is_empty, ◌≡◌, ◌≢◌, ◌↔◌, ◌⊎◌, inl, inr, refl, sym, ap, ◌∙◌, Bool, true, false, not, ◌&&◌, some,
  List, [], ◌∷◌, ◌++◌, if◌then◌else◌, Bytes, All, Option-cases, arith,
}
use jose.Common.Outcome.{Result, ok, err, ◌>>◌, guard, >>=-eq-ok, Result-cases}
use jose.Errors.{Error, malformed, signature_invalid}
use jose.Header.{Header}
use jose.Jwk.{AnyKey}
use jose.Jws.{Library, VerifyOptions}
use jose.Jws.General.{
  JwsSignature, JwsJson, DocumentLibrary, is_flattened, top_level, signatures_of, verify_one,
  first_verified, document_of, verify_json_with_options,
}

List-cases {ℓ} : {A : Type ℓ} (l : List A) → (l ≡ []) ⊎ ((x : A) × (xs : List A) × (l ≡ x ∷ xs))
List-cases [] = inl refl
List-cases (x ∷ xs) = inr (x, xs, refl)

module _ (lib : Library) (payload : Bytes) (key : AnyKey) (opts : VerifyOptions) where
  abbrev pub Fails : JwsSignature → Type 0
  Fails s = (e : Error) × (verify_one lib payload key opts s ≡ err e)

  -- The first signature that verifies, with what it returns.
  abbrev pub IsFirst : List JwsSignature → Bytes × Header → Type 0
  IsFirst sigs r =
      (before : List JwsSignature) × (s : JwsSignature) × (after : List JwsSignature) × (sigs
        ≡ before ++ (s ∷ after))
      × All Fails before
      × (verify_one lib payload key opts s ≡ ok r)

  first_step :
      (last : Error) (s : JwsSignature) (sigs : List JwsSignature)
      (m : Result Error (Bytes × Header))
      → verify_one lib payload key opts s ≡ m
      → first_verified lib payload key opts last (s ∷ sigs)
        ≡ elim m [ ok found ↦ ok found | err e ↦ first_verified lib payload key opts e sigs ]
  unfolding first_verified
  first_step last s sigs m e =
      ap (λ n. elim n [ ok found ↦ ok found | err e ↦ first_verified lib payload key opts e sigs ])
        e

  is_first :
      (last : Error) (sigs : List JwsSignature) (r : Bytes × Header)
      → first_verified lib payload key opts last sigs ≡ ok r
      → IsFirst sigs r
  unfolding first_verified
  is_first last [] r h = absurd (ground arith)
  is_first last (s ∷ sigs) r h = elim (Result-cases (verify_one lib payload key opts s)) [
    | inl (a, e) ↦ ([], s, sigs, refl, tt, e ∙ (sym (first_step last s sigs (ok a) e) ∙ h))
    | inr (x, e) ↦
        let (before, t, after, same, failed, found) =
          is_first x sigs r (sym (first_step last s sigs (err x) e) ∙ h) in
        (s ∷ before, t, after, ap (λ l. s ∷ l) same, ((x, e), failed), found)
  ]

  first_found :
      (last : Error) (before : List JwsSignature) (s : JwsSignature) (after : List JwsSignature)
      (r : Bytes × Header)
      → All Fails before
      → verify_one lib payload key opts s ≡ ok r
      → first_verified lib payload key opts last (before ++ (s ∷ after)) ≡ ok r
  unfolding first_verified
  first_found last [] s after r failed e = first_step last s after (ok r) e
  first_found last (t ∷ before) s after r failed e =
      first_step last t (before ++ (s ∷ after)) (err failed.0.0) failed.0.1
      ∙ first_found failed.0.0 before s after r failed.1 e

-- The two forms a document may have: the general one, with nothing of a flattened JWS at the top
-- level, and the flattened one.
abbrev pub HasForm : JwsJson → List JwsSignature → Type 0
HasForm doc sigs =
    (doc.signatures ≢ [] × (is_flattened doc ≡ false) × (sigs ≡ doc.signatures))
    ⊎ ((doc.signatures ≡ []) × (doc.signature ≢ []) × (sigs ≡ top_level doc ∷ []))

-- The same of the parts that the code looks at.
chosen : List JwsSignature → Bool → Bytes → JwsSignature → Result Error (List JwsSignature)
chosen l flat sg top = do
  guard (not (not (is_empty l) && flat)) malformed
  guard (not (flat && is_empty sg)) malformed
  let sigs = if flat then l ++ (top ∷ []) else l
  guard (not (is_empty sigs)) malformed
  ok sigs

chosen-form :
    (l : List JwsSignature) (flat : Bool) (sg : Bytes) (top : JwsSignature)
    (sigs : List JwsSignature)
    → chosen l flat sg top ≡ ok sigs
    → (l ≢ [] × (flat ≡ false) × (sigs ≡ l)) ⊎ ((l ≡ []) × (sg ≢ []) × (sigs ≡ top ∷ []))
unfolding chosen
chosen-form [] true [] top sigs h = absurd (ground arith)
chosen-form [] true (c ∷ sg) top sigs h = inr (refl, (λ e. cc), ground arith)
chosen-form [] false sg top sigs h = absurd (ground arith)
chosen-form (s ∷ l) true sg top sigs h = absurd (ground arith)
chosen-form (s ∷ l) false sg top sigs h = inl ((λ e. cc), refl, ground arith)

form-chosen :
    (l : List JwsSignature) (flat : Bool) (sg : Bytes) (top : JwsSignature)
    (sigs : List JwsSignature)
    → (sg ≢ [] → flat ≡ true)
    → (l ≢ [] × (flat ≡ false) × (sigs ≡ l)) ⊎ ((l ≡ []) × (sg ≢ []) × (sigs ≡ top ∷ []))
    → chosen l flat sg top ≡ ok sigs
unfolding chosen
form-chosen [] flat sg top sigs up (inl (filled, plain, same)) = absurd (filled refl)
form-chosen (s ∷ l) flat sg top sigs up (inl (filled, plain, same)) = rw (plain, same) refl
form-chosen l flat [] top sigs up (inr (none_there, given, same)) = absurd (given refl)
form-chosen l flat (c ∷ sg) top sigs up (inr (none_there, given, same)) =
    rw (none_there, up given, same) refl

flattened : (doc : JwsJson) → doc.signature ≢ [] → is_flattened doc ≡ true
unfolding is_flattened
flattened doc h = elim (List-cases doc.signature) [
  | inl gone ↦ absurd (h gone)
  | inr (c, s, there) ↦ rw there refl
]

has-form :
    (doc : JwsJson) (sigs : List JwsSignature) → (signatures_of doc ≡ ok sigs) ↔ HasForm doc sigs
unfolding signatures_of chosen
has-form doc sigs = (
  chosen-form doc.signatures (is_flattened doc) doc.signature (top_level doc) sigs,
  form-chosen doc.signatures (is_flattened doc) doc.signature (top_level doc) sigs (flattened doc),
)

document-of :
    (lib : DocumentLibrary) (text : Bytes) (doc : JwsJson)
    → document_of lib text ≡ ok doc
    → lib.unmarshal_document text ≡ some doc
unfolding document_of
document-of lib text doc h = elim (Option-cases (lib.unmarshal_document text)) [
  | inl bad ↦ absurd (ground (arith, bad))
  | inr (d, e) ↦ ground (arith, e)
]

of-document :
    (lib : DocumentLibrary) (text : Bytes) (doc : JwsJson)
    → lib.unmarshal_document text ≡ some doc
    → document_of lib text ≡ ok doc
unfolding document_of
of-document lib text doc e = rw (document_of, e) refl

-- `VerifyJSONWithOptions` returns a payload and a header exactly if the document unmarshals, is of
-- one of the two forms and not of both, and its first signature that verifies returns them.
pub verify_json_iff :
    (lib : DocumentLibrary) (text : Bytes) (key : AnyKey) (opts : VerifyOptions)
    (r : Bytes × Header)
    → (verify_json_with_options lib text key opts ≡ ok r) ↔ (
        (doc : JwsJson) × (sigs : List JwsSignature) × (lib.unmarshal_document text ≡ some doc)
        × HasForm doc sigs
        × IsFirst lib.base doc.payload key opts sigs r)
unfolding verify_json_with_options
verify_json_iff lib text key opts r = (
  (λ h.
      let (doc, read, h₁) = >>=-eq-ok (document_of lib text) _ h in
      let (sigs, formed, last) = >>=-eq-ok (signatures_of doc) _ h₁ in
      (
        doc,
        sigs,
        document-of lib text doc read,
        (has-form doc sigs).0 formed,
        is_first lib.base doc.payload key opts signature_invalid sigs r last,
      )),
  λ (doc, sigs, read, form, (before, s, after, same, failed, found)).
      rw (of-document lib text doc read, (has-form doc sigs).1 form, same)
        (first_found lib.base doc.payload key opts signature_invalid before s after r failed found),
)
