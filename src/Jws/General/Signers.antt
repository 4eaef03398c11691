-- ===== src/Jws/General/Signers.antt =====
-- What `SignJSONMulti` makes of its signers.
use jose.Common.{
  ◌≡◌, refl, sym, ap, ◌∙◌, Bool, true, false, ◌&&◌, if◌then◌else◌, List, [], ◌∷◌, ◌++◌,
  append_assoc, append-nil, Bytes, eqb, eqb_iff, arith,
}
use mathlib.Core.Path.{subst}
use jose.Common.Outcome.{ok, guard, guard-ok, ok-inj, >>=-eq-ok}
use jose.Errors.{invalid_header}
use jose.Jws.{Library, Signed, sign_one}
use jose.Jws.General.{
  JwsSignature, JwsJson, Signer, copy_header_or_nil, is_flattened, add_signature, empty_document,
  sign_rest, signed_document,
}

abbrev entry_of : Signer → Signed → JwsSignature
entry_of s made = record {
  protected = made.protected;
  header = copy_header_or_nil s.options.unprotected;
  signature = made.signature;
}

pub all_detached : List Signer → Bool
all_detached [] = true
all_detached (s ∷ signers) = s.options.detach_payload && all_detached signers

module _ (lib : Library) (payload encoded : Bytes) where
  -- Each entry is the signature of the signer at its place, over the same payload as it is serialized.
  abbrev pub AreSigned : List Signer → List JwsSignature → Type 0
  AreSigned [] [] = Unit {0}
  AreSigned (s ∷ signers) (entry ∷ entries) =
      ((made : Signed) × (sign_one lib payload s.key s.options ≡ ok made)
        × (made.payload ≡ encoded)
        × (entry ≡ entry_of s made))
      × AreSigned signers entries
  AreSigned _ _ = ⊥

  record Extends (doc out : JwsJson) (signers : List Signer) : Type 0 where
    entries : List JwsSignature
    signed : AreSigned signers entries
    listed : out.signatures ≡ doc.signatures ++ entries
    shown : out.payload ≡ (if all_detached signers then doc.payload else encoded)
    flat : is_flattened out ≡ is_flattened doc

  shown_then :
      (b c : Bool) (first : Bytes)
      → (if c then (if b then first else encoded) else encoded)
        ≡ (if b && c then first else encoded)
  shown_then true true first = refl
  shown_then true false first = refl
  shown_then false true first = refl
  shown_then false false first = refl

  sign_rest-Extends :
      (signers : List Signer) (doc out : JwsJson)
      → sign_rest lib payload encoded doc signers ≡ ok out
      → Extends doc out signers
  unfolding sign_rest add_signature is_flattened all_detached
  sign_rest-Extends [] doc out h =
      let same : doc ≡ out = ok-inj doc out h in
      record {
        entries = [];
        signed = tt;
        listed = ap (λ (d : JwsJson). d.signatures) (sym same) ∙ sym (append-nil doc.signatures);
        shown = ap (λ (d : JwsJson). d.payload) (sym same);
        flat = ap is_flattened (sym same);
      }
  sign_rest-Extends (s ∷ signers) doc out h =
      let (made, run, h₁) = >>=-eq-ok (sign_one lib payload s.key s.options) _ h in
      let (_, alike, last) = >>=-eq-ok (guard (eqb made.payload encoded) invalid_header) _ h₁ in
      let same : made.payload ≡ encoded =
        (eqb_iff made.payload encoded).0 (guard-ok _ invalid_header alike) in
      let rest = sign_rest-Extends signers (add_signature doc s made) out last in
      record {
        entries = entry_of s made ∷ rest.entries;
        signed = ((made, run, same, refl), rest.signed);
        listed = rest.listed ∙ append_assoc doc.signatures (entry_of s made ∷ []) rest.entries;
        shown =
            rest.shown
            ∙ (ap
                  (λ (p : Bytes).
                    if all_detached signers
                    then (if s.options.detach_payload then doc.payload else p)
                    else encoded)
                  same
                ∙ shown_then s.options.detach_payload (all_detached signers) doc.payload);
        flat = rest.flat;
      }

-- The document of `SignJSONMulti` has one signature for each signer, in their order, made with the signer's key and
-- options; all are over the same payload as it is serialized, which the document shows unless every signer
-- detaches it; and the document is in the general form, never the flattened one.
pub signed_document-AreSigned :
    (lib : Library) (payload : Bytes) (signers : List Signer) (doc : JwsJson)
    → signed_document lib payload signers ≡ ok doc
    → (encoded : Bytes) × AreSigned lib payload encoded signers doc.signatures
      × (doc.payload ≡ (if all_detached signers then [] else encoded))
      × (is_flattened doc ≡ false)
unfolding signed_document add_signature is_flattened all_detached
signed_document-AreSigned lib payload [] doc h = absurd (ground arith)
signed_document-AreSigned lib payload (s ∷ signers) doc h =
    let (made, run, last) = >>=-eq-ok (sign_one lib payload s.key s.options) _ h in
    let encoded = made.payload in
    let rest =
      sign_rest-Extends lib payload encoded signers (add_signature empty_document s made) doc
        last in
    let signed : AreSigned lib payload encoded (s ∷ signers) (entry_of s made ∷ rest.entries) =
      ((made, run, refl, refl), rest.signed) in
    (
      encoded,
      subst (AreSigned lib payload encoded (s ∷ signers)) (sym rest.listed) signed,
      rest.shown
          ∙ shown_then lib payload encoded s.options.detach_payload (all_detached signers) [],
      rest.flat,
    )
