-- ===== src/Jws/Reread.antt =====
-- The protected header of `Sign`, and what the verifier reads of it.
use jose.Common.{
  ◌≡◌, ◌≢◌, refl, sym, ap, ◌∙◌, inl, inr, Bool, true, false, not, ◌&&◌, if◌then◌else◌, Option, none,
  some, List, [], ◌∷◌, is_empty, is_empty→nil, ap₂, Bytes, codes, eqb, lookup, insert, All, In,
  Bool-cases, Option-cases, arith,
}
use mathlib.Core.Path.{subst}
use jose.Common.Outcome.{ok, ok-inj}
use jose.Codec.{is_ascii, Rereads, IsReread}
use jose.Json.{Value, null, bool, float, arr, obj, int, str, strs}
use jose.Header.{
  Header, is_present, string_list, critical, check_critical, check_critical_produced, copy_header,
}
use jose.Header.Critical.{IsUnderstood, check_critical_iff}
use jose.Header.Produced.{produced_by}
use jose.Jwk.{AnyKey}
use jose.KeyMgmt.Reading.{lookup_last, lookup_other}
use jose.Jws.{SignOptions, jwk_kid, with_kid, with_crit, protected_header, b64_value, crit_names}

-- The names in "crit" that the options give.
abbrev pub crit_of : List Bytes → Option (List Bytes)
crit_of names = if is_empty names then none else some names

apart :
    (eqb (codes "kid") (codes "alg") ≡ false)
    × (eqb (codes "crit") (codes "alg") ≡ false)
    × (eqb (codes "kid") (codes "crit") ≡ false)
    × (eqb (codes "alg") (codes "crit") ≡ false)
    × (eqb (codes "kid") (codes "b64") ≡ false)
    × (eqb (codes "crit") (codes "b64") ≡ false)
    × (eqb (codes "alg") (codes "b64") ≡ false)
unfolding eqb
apart = (refl, refl, refl, refl, refl, refl, refl)

plain :
    (is_ascii (codes "alg") ≡ true)
    × (is_ascii (codes "crit") ≡ true)
    × (is_ascii (codes "b64") ≡ true)
unfolding is_ascii
plain = (refl, refl, refl)

with_kid-other :
    (key : AnyKey) (opts : SignOptions) (header : Header) (name : Bytes)
    → eqb (codes "kid") name ≡ false
    → lookup name (with_kid key opts header) ≡ lookup name header
unfolding with_kid
with_kid-other key opts header name other = elim (Bool-cases (not (is_empty opts.key_id))) [
  | inl named ↦ rw named (lookup_other (codes "kid") name (str opts.key_id) header other)
  | inr unnamed ↦
      elim (Bool-cases (
        not (is_empty (jwk_kid key))
        && (not (is_present (codes "kid") header)
            && not (is_present (codes "kid") opts.unprotected)))) [
              | inl own ↦
                  rw (unnamed, own)
                    (lookup_other (codes "kid") name (str (jwk_kid key)) header other)
              | inr absent ↦ rw (unnamed, absent) refl
            ]
]

with_crit-other :
    (opts : SignOptions) (header : Header) (name : Bytes)
    → eqb (codes "crit") name ≡ false
    → lookup name (with_crit opts header) ≡ lookup name header
unfolding with_crit
with_crit-other opts header name other = elim (Bool-cases (is_empty opts.critical)) [
  | inl nothing ↦ rw nothing refl
  | inr names ↦ rw names (lookup_other (codes "crit") name (strs opts.critical) header other)
]

with_crit-crit :
    (opts : SignOptions) (header : Header)
    → lookup (codes "crit") header ≡ none
    → lookup (codes "crit") (with_crit opts header)
      ≡ (if is_empty opts.critical then none else some (strs opts.critical))
unfolding with_crit
with_crit-crit opts header absent = elim (Bool-cases (is_empty opts.critical)) [
  | inl nothing ↦ rw nothing absent
  | inr names ↦ rw names (lookup_last (codes "crit") (strs opts.critical) header)
]

-- A protected header with this algorithm and these names in "crit".
pub record IsProtected (alg : Bytes) (names : List Bytes) (header : Header) : Type 0 where
  pub alg_is : lookup (codes "alg") header ≡ some (str alg)
  pub crit_is : lookup (codes "crit") header ≡ (if is_empty names then none else some (strs names))

pub protected_header-IsProtected :
    (key : AnyKey) (opts : SignOptions) (alg : Bytes)
    → lookup (codes "crit") (copy_header (opts.header ∷ [])) ≡ none
    → IsProtected alg opts.critical (protected_header key opts alg)
unfolding protected_header
protected_header-IsProtected key opts alg no_crit =
    let base = copy_header (opts.header ∷ []) in
    let named = insert (codes "alg") (str alg) base in
    record {
      alg_is =
          with_crit-other opts (with_kid key opts named) (codes "alg") apart.1
          ∙ (with_kid-other key opts named (codes "alg") apart.0
              ∙ lookup_last (codes "alg") (str alg) base);
      crit_is = with_crit-crit opts (with_kid key opts named) (
          with_kid-other key opts named (codes "crit") apart.2
          ∙ (lookup_other (codes "alg") (codes "crit") (str alg) base apart.3 ∙ no_crit));
    }

-- Without a "b64" of the caller, the payload is encoded.
pub b64_of :
    (key : AnyKey) (opts : SignOptions) (alg : Bytes) (b64 : Bool)
    → lookup (codes "b64") (copy_header (opts.header ∷ [])) ≡ none
    → b64_value (lookup (codes "b64") (protected_header key opts alg)) opts.critical ≡ ok b64
    → b64 ≡ true
unfolding protected_header b64_value
b64_of key opts alg b64 absent h =
    let base = copy_header (opts.header ∷ []) in
    let named = insert (codes "alg") (str alg) base in
    let gone : lookup (codes "b64") (with_crit opts (with_kid key opts named)) ≡ none =
      with_crit-other opts (with_kid key opts named) (codes "b64") apart.5
      ∙ (with_kid-other key opts named (codes "b64") apart.4
          ∙ (lookup_other (codes "alg") (codes "b64") (str alg) base apart.6 ∙ absent)) in
    sym (ok-inj true b64 (sym (ap (λ o. b64_value o opts.critical) gone) ∙ h))

module _ (marshal_value : Value → Option Bytes) (sent received : Header)
    (same : IsReread marshal_value sent received) (names : List Bytes)
    (ascii : All (λ s. is_ascii s ≡ true) names) (alg : Bytes)
    (is : IsProtected alg names sent) where
  -- "crit" is read back as the list that it was.
  pub critical-reread : (critical received ≡ crit_of names) × (critical sent ≡ crit_of names)
  unfolding critical Rereads string_list
  critical-reread = elim (Bool-cases (is_empty names)) [
    | inl nothing ↦
        let gone : lookup (codes "crit") sent ≡ none = is.crit_is ∙ rw nothing refl in
        (
          rw (nothing, critical, same.absent (codes "crit") plain.1 gone) refl,
          rw (nothing, critical, gone) refl,
        )
    | inr filled ↦
        let there : lookup (codes "crit") sent ≡ some (strs names) = is.crit_is ∙ rw filled refl in
        let (v, got, list) = same.present (codes "crit") (strs names) plain.1 there filled ascii in
        (rw (filled, critical, got) list, rw (filled, critical, there) refl)
  ]

  names-IsUnderstood :
      (rest known : List Bytes)
      → All (λ s. is_ascii s ≡ true) rest
      → ((name : Bytes) → In name rest → In name known)
      → All (IsUnderstood sent names) rest
      → All (IsUnderstood received known) rest
  names-IsUnderstood [] known plain_rest sub h = tt
  names-IsUnderstood (name ∷ rest) known plain_rest sub h = (
    record {
      named = h.0.named;
      extension = h.0.extension;
      present = present_back name plain_rest.0 h.0.present;
      understood = sub name (inl refl);
    },
    names-IsUnderstood rest known plain_rest.1 (λ n i. sub n (inr i)) h.1,
  )
    where
      present_back :
          (n : Bytes) → is_ascii n ≡ true → is_present n sent ≡ true → is_present n received ≡ true
      present_back n n_ascii there = elim (Option-cases (lookup n sent)) [
        | inl gone ↦ absurd (ground (arith, gone, there))
        | inr (v, e) ↦ let (w, got) = same.stays n v n_ascii e in rw (is_present, got) refl
      ]

  -- A verifier who knows the names accepts "crit".
  pub check_critical-reread :
      (extra : Bytes)
      → check_critical_produced sent ≡ ok tt
      → check_critical received (extra ∷ names) ≡ ok tt
  check_critical-reread extra produced = elim (Bool-cases (is_empty names)) [
    | inl nothing ↦
        let gone : lookup (codes "crit") sent ≡ none = is.crit_is ∙ rw nothing refl in
        (check_critical_iff received (extra ∷ names)).1
          (inl (same.absent (codes "crit") plain.1 gone))
    | inr filled ↦
        let listed : critical sent ≡ some names = critical-reread.1 ∙ rw filled refl in
        let read : critical received ≡ some names = critical-reread.0 ∙ rw filled refl in
        elim ((check_critical_iff sent names).0 (sym (produced_by sent names listed) ∙ produced)) [
          | inl absent ↦ absurd (let there = is.crit_is in ground (arith, absent, there, filled))
          | inr (crit, e, some_names, understood) ↦
              let same_names : names ≡ crit = ground (arith, listed, e) in
              (check_critical_iff received (extra ∷ names)).1 (
                inr (
                  names,
                  read,
                  subst (λ c. c ≢ []) (sym same_names) some_names,
                  names-IsUnderstood names (extra ∷ names) ascii (λ n i. inr i)
                      (subst (All (IsUnderstood sent names)) (sym same_names) understood),
                ))
        ]
  ]

  crit_names-reread : crit_names received ≡ names
  unfolding crit_names
  crit_names-reread = elim (Bool-cases (is_empty names)) [
    | inl nothing ↦
        let none_read : critical received ≡ none = critical-reread.0 ∙ rw nothing refl in
        rw (crit_names, none_read) (sym (is_empty→nil names nothing))
    | inr filled ↦
        let read : critical received ≡ some names = critical-reread.0 ∙ rw filled refl in
        rw (crit_names, read) refl
  ]

  b64_known :
      (v : Value) (b64 : Bool) → b64_value (some v) names ≡ ok b64 → (b : Bool) × (v ≡ bool b)
  unfolding b64_value
  b64_known (bool b) b64 h = (b, refl)
  b64_known null b64 h = absurd (ground arith)
  b64_known (float _ _) b64 h = absurd (ground arith)
  b64_known (str _) b64 h = absurd (ground arith)
  b64_known (arr _) b64 h = absurd (ground arith)
  b64_known (obj _) b64 h = absurd (ground arith)
  b64_known (strs _) b64 h = absurd (ground arith)
  b64_known (int _) b64 h = absurd (ground arith)

  b64-reread :
      (b64 : Bool)
      → b64_value (lookup (codes "b64") sent) names ≡ ok b64
      → lookup (codes "b64") received ≡ lookup (codes "b64") sent
  unfolding Rereads
  b64-reread b64 h = elim (Option-cases (lookup (codes "b64") sent)) [
    | inl gone ↦ same.absent (codes "b64") plain.2 gone ∙ sym gone
    | inr (v, e) ↦
        let (b, is_bool) = b64_known v b64 (ap (λ o. b64_value o names) (sym e) ∙ h) in
        let there = e ∙ ap some is_bool in
        same.present (codes "b64") (bool b) plain.2 there ∙ sym there
  ]

  -- "b64" is read back as it was.
  pub b64_value-reread :
      (b64 : Bool)
      → b64_value (lookup (codes "b64") sent) names ≡ ok b64
      → b64_value (lookup (codes "b64") received) (crit_names received) ≡ ok b64
  b64_value-reread b64 h = ap₂ b64_value (b64-reread b64 h) crit_names-reread ∙ h
