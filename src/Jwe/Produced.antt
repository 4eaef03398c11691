-- ===== src/Jwe/Produced.antt =====
-- The parameters of the header that `Encrypt` produces.
use jose.Common.{
  ◌≡◌, refl, ◌∙◌, inl, inr, Bool, true, false, not, ◌&&◌, if◌then◌else◌, none, some, [], ◌∷◌,
  is_empty, Bytes, codes, eqb, lookup, insert, Bool-cases,
}
use jose.Json.{str}
use jose.Header.{Header, is_present, copy_header}
use jose.Jwk.{AnyKey}
use jose.Jws.{jwk_kid}
use jose.KeyMgmt.Reading.{lookup_last, lookup_before, lookup_other}
use jose.Jwe.{EncryptOptions, def, with_recipient_kid, with_zip, produced_header}

-- The headers that the caller gives.
abbrev pub given_header : EncryptOptions → Header
given_header opts = copy_header (opts.header ∷ opts.additional_headers ∷ [])

with_recipient_kid-other :
    (key : AnyKey) (kid : Bytes) (header : Header) (name : Bytes)
    → eqb (codes "kid") name ≡ false
    → lookup name (with_recipient_kid key kid header) ≡ lookup name header
unfolding with_recipient_kid
with_recipient_kid-other key kid header name other = elim (Bool-cases (not (is_empty kid))) [
  | inl named ↦ rw named (lookup_other (codes "kid") name (str kid) header other)
  | inr unnamed ↦
      elim (Bool-cases (not (is_empty (jwk_kid key)) && not (is_present (codes "kid") header))) [
        | inl own ↦
            rw (unnamed, own) (lookup_other (codes "kid") name (str (jwk_kid key)) header other)
        | inr absent ↦ rw (unnamed, absent) refl
      ]
]

with_zip-other :
    (compress : Bool) (header : Header) (name : Bytes)
    → eqb (codes "zip") name ≡ false
    → lookup name (with_zip compress header) ≡ lookup name header
unfolding with_zip
with_zip-other true header name other = lookup_other (codes "zip") name (str def) header other
with_zip-other false header name other = refl

with_zip-zip :
    (compress : Bool) (header : Header)
    → lookup (codes "zip") header ≡ none
    → lookup (codes "zip") (with_zip compress header) ≡ (if compress then some (str def) else none)
unfolding with_zip
with_zip-zip true header absent = lookup_last (codes "zip") (str def) header
with_zip-zip false header absent = absent

-- The names are different ones.
others :
    (eqb (codes "zip") (codes "alg") ≡ false)
    × (eqb (codes "kid") (codes "alg") ≡ false)
    × (eqb (codes "enc") (codes "alg") ≡ false)
    × (eqb (codes "zip") (codes "enc") ≡ false)
    × (eqb (codes "kid") (codes "enc") ≡ false)
    × (eqb (codes "zip") (codes "crit") ≡ false)
    × (eqb (codes "kid") (codes "crit") ≡ false)
    × (eqb (codes "enc") (codes "crit") ≡ false)
    × (eqb (codes "alg") (codes "crit") ≡ false)
    × (eqb (codes "kid") (codes "zip") ≡ false)
    × (eqb (codes "enc") (codes "zip") ≡ false)
    × (eqb (codes "alg") (codes "zip") ≡ false)
unfolding eqb
others = (refl, refl, refl, refl, refl, refl, refl, refl, refl, refl, refl, refl)

-- A header with these algorithms and this compression, and without "crit".
pub record IsHeaderFor (alg enc_name : Bytes) (compress : Bool) (header : Header) : Type 0 where
  pub alg_is : lookup (codes "alg") header ≡ some (str alg)
  pub enc_is : lookup (codes "enc") header ≡ some (str enc_name)
  pub no_crit : lookup (codes "crit") header ≡ none
  pub zip_is : lookup (codes "zip") header ≡ (if compress then some (str def) else none)

module _ (key : AnyKey) (opts : EncryptOptions) (alg enc_name : Bytes) where
  named : Header
  named = insert (codes "enc") (str enc_name) (insert (codes "alg") (str alg) (given_header opts))

  produced-other :
      (name : Bytes)
      → eqb (codes "zip") name ≡ false
      → eqb (codes "kid") name ≡ false
      → lookup name (produced_header key opts alg enc_name) ≡ lookup name named
  unfolding produced_header named
  produced-other name zip kid =
      with_zip-other opts.compress (with_recipient_kid key opts.key_id named) name zip
      ∙ with_recipient_kid-other key opts.key_id named name kid

  named-other :
      (name : Bytes)
      → eqb (codes "enc") name ≡ false
      → eqb (codes "alg") name ≡ false
      → lookup name named ≡ lookup name (given_header opts)
  unfolding named
  named-other name enc other =
      lookup_other (codes "enc") name (str enc_name) _ enc
      ∙ lookup_other (codes "alg") name (str alg) (given_header opts) other

  pub produced_header-IsHeaderFor :
      lookup (codes "crit") (given_header opts) ≡ none
      → lookup (codes "zip") (given_header opts) ≡ none
      → IsHeaderFor alg enc_name opts.compress (produced_header key opts alg enc_name)
  unfolding produced_header named
  produced_header-IsHeaderFor no_crit no_zip = record {
    alg_is =
        produced-other (codes "alg") others.0 others.1
        ∙ lookup_before (codes "alg") (codes "enc") (str enc_name) (str alg) (given_header opts)
            others.2;
    enc_is =
        produced-other (codes "enc") others.3 others.4 ∙ lookup_last (codes "enc") (str enc_name) _;
    no_crit =
        produced-other (codes "crit") others.5 others.6
        ∙ (named-other (codes "crit") others.7 others.8 ∙ no_crit);
    zip_is = with_zip-zip opts.compress (with_recipient_kid key opts.key_id named) (
        with_recipient_kid-other key opts.key_id named (codes "zip") others.9
        ∙ (named-other (codes "zip") others.10 others.11 ∙ no_zip));
  }
