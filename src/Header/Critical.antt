-- ===== src/Header/Critical.antt =====
-- What `checkCritical` demands of a header.
use jose.Common.{
  ◌≡◌, ◌≢◌, ◌↔◌, ◌⊎◌, inl, inr, refl, true, false, none, some, List, [], ◌∷◌, Bytes, All, In, codes,
  eqb, eqb_iff, eqb-false, contains_iff, lookup, Option-cases, arith,
}
use jose.Common.Outcome.{ok}
use jose.Header.{Header, critical, is_present, is_registered_header, check_names, check_critical}

-- What RFC 7515 §4.1.11 asks of one name: an extension, in the protected header, and understood.
pub record IsUnderstood (protected : Header) (known : List Bytes) (name : Bytes) : Type 0 where
  pub named : name ≢ []
  pub extension : is_registered_header name ≡ false
  pub present : is_present name protected ≡ true
  pub understood : In name known

check_names-ok :
    (protected : Header) (known crit : List Bytes)
    → check_names protected known crit ≡ ok tt
    → All (IsUnderstood protected known) crit
unfolding check_names
check_names-ok protected known [] h = tt
check_names-ok protected known (name ∷ crit) h = (
  record {
    named = λ e. let same = (eqb_iff name []).1 e in ground (arith, same);
    extension = ground arith;
    present = ground arith;
    understood = (contains_iff known name).0 (ground arith);
  },
  check_names-ok protected known crit (ground arith),
)

check_names-All :
    (protected : Header) (known crit : List Bytes)
    → All (IsUnderstood protected known) crit
    → check_names protected known crit ≡ ok tt
unfolding check_names
check_names-All protected known [] h = refl
check_names-All protected known (name ∷ crit) h =
    let named : eqb name [] ≡ false = eqb-false name [] h.0.named in
    ground (
      arith,
      named,
      h.0.extension,
      h.0.present,
      (contains_iff known name).1 h.0.understood,
      check_names-All protected known crit h.1,
    )

-- What makes a header acceptable: no "crit", or a list of at least one name, all understood.
abbrev pub IsAcceptable : Header → List Bytes → Type 0
IsAcceptable protected known =
    (lookup (codes "crit") protected ≡ none)
    ⊎ ((crit : List Bytes) × (critical protected ≡ some crit)
        × (crit ≢ [])
        × All (IsUnderstood protected known) crit)

check_critical-ok :
    (protected : Header) (known : List Bytes)
    → check_critical protected known ≡ ok tt
    → IsAcceptable protected known
unfolding check_critical
check_critical-ok protected known h = elim (Option-cases (critical protected)) [
  | inl e ↦ elim (Option-cases (lookup (codes "crit") protected)) [
    | inl absent ↦ inl absent
    | inr (v, there) ↦ absurd (ground arith)
  ]
  | inr ([], e) ↦ absurd (ground arith)
  | inr (name ∷ crit, e) ↦
      inr (name ∷ crit, e, (λ p. cc), check_names-ok protected known (name ∷ crit) (ground arith))
]

check_critical-IsAcceptable :
    (protected : Header) (known : List Bytes)
    → IsAcceptable protected known
    → check_critical protected known ≡ ok tt
check_critical-IsAcceptable protected known (inl absent) =
    unfold check_critical critical in ground (arith, absent)
check_critical-IsAcceptable protected known (inr ([], e, some_name, h)) = absurd (some_name refl)
check_critical-IsAcceptable protected known (inr (name ∷ crit, e, _, h)) =
    unfold check_critical in ground (arith, e, check_names-All protected known (name ∷ crit) h)

-- `checkCritical` accepts a protected header exactly if it has no "crit", or if "crit" is a list of
-- strings with at least one name, and each name is not empty, is no registered parameter, is in the
-- protected header itself, and is one that the recipient knows. A name may stand there twice.
pub check_critical_iff :
    (protected : Header) (known : List Bytes)
    → (check_critical protected known ≡ ok tt) ↔ IsAcceptable protected known
check_critical_iff protected known =
    (check_critical-ok protected known, check_critical-IsAcceptable protected known)
