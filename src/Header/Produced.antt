-- ===== src/Header/Produced.antt =====
-- What a producer checks against what a recipient checks.
use jose.Common.{
  ◌≡◌, ◌↔◌, inl, inr, refl, sym, ◌∙◌, none, some, List, [], ◌∷◌, Bytes, All, In, codes, lookup,
  Option-cases, arith,
}
use jose.Common.Outcome.{ok}
use jose.Header.{Header, critical, check_critical, check_critical_produced}
use jose.Header.Critical.{IsUnderstood, check_critical_iff}

-- The recipient knows every name that the header declares critical.
abbrev pub Knows : Header → List Bytes → Type 0
Knows protected known =
    (crit : List Bytes) → critical protected ≡ some crit → All (λ name. In name known) crit

All-In : (names : List Bytes) → All (λ name. In name names) names
All-In names = each names (λ name h. h)
  where
    each :
        (rest : List Bytes)
        → ((name : Bytes) → In name rest → In name names)
        → All (λ name. In name names) rest
    each [] f = tt
    each (name ∷ rest) f = (f name (inl refl), each rest (λ n h. f n (inr h)))

module _ (protected : Header) where
  IsUnderstood-by :
      (k l crit : List Bytes)
      → All (IsUnderstood protected k) crit
      → All (λ name. In name l) crit
      → All (IsUnderstood protected l) crit
  IsUnderstood-by k l [] h m = tt
  IsUnderstood-by k l (name ∷ crit) h m = (
    record {
      named = h.0.named;
      extension = h.0.extension;
      present = h.0.present;
      understood = m.0;
    },
    IsUnderstood-by k l crit h.1 m.1,
  )

  known_names :
      (k crit : List Bytes) → All (IsUnderstood protected k) crit → All (λ name. In name k) crit
  known_names k [] h = tt
  known_names k (name ∷ crit) h = (h.0.understood, known_names k crit h.1)

  -- A header with "crit" is produced if it is acceptable to whom knows just the names in it.
  pub produced_by :
      (crit : List Bytes)
      → critical protected ≡ some crit
      → check_critical_produced protected ≡ check_critical protected crit
  unfolding check_critical_produced critical
  produced_by crit e = elim (Option-cases (lookup (codes "crit") protected)) [
    | inl absent ↦ absurd (ground arith)
    | inr (v, there) ↦ ground arith
  ]

  produced_absent :
      lookup (codes "crit") protected ≡ none → check_critical_produced protected ≡ ok tt
  unfolding check_critical_produced
  produced_absent e = ground arith

  produced_unreadable :
      critical protected ≡ none
      → check_critical_produced protected ≡ ok tt
      → lookup (codes "crit") protected ≡ none
  unfolding check_critical_produced
  produced_unreadable e h = ground arith

  critical_absent : lookup (codes "crit") protected ≡ none → critical protected ≡ none
  unfolding critical
  critical_absent e = ground arith

module _ (protected : Header) (known : List Bytes) where
  received :
      check_critical protected known ≡ ok tt
      → (check_critical_produced protected ≡ ok tt) × Knows protected known
  received h = elim ((check_critical_iff protected known).0 h) [
    | inl absent ↦ (
      produced_absent protected absent,
      λ crit e. let gone = critical_absent protected absent in absurd (ground (arith, gone, e)),
    )
    | inr (crit, e, nonempty, understood) ↦
        let names = known_names protected known crit understood in
        (
          produced_by protected crit e
              ∙ (check_critical_iff protected crit).1 (
                  inr (
                    crit,
                    e,
                    nonempty,
                    IsUnderstood-by protected known crit crit understood (All-In crit),
                  )),
          λ crit' e'. let same : crit ≡ crit' = ground (arith, e, e') in rw (← same) names,
        )
  ]

  produced_received :
      check_critical_produced protected ≡ ok tt
      → Knows protected known
      → check_critical protected known ≡ ok tt
  produced_received h knows = elim (Option-cases (critical protected)) [
    | inl e ↦ (check_critical_iff protected known).1 (inl (produced_unreadable protected e h))
    | inr (crit, e) ↦
        elim ((check_critical_iff protected crit).0 (sym (produced_by protected crit e) ∙ h)) [
          | inl absent ↦ (check_critical_iff protected known).1 (inl absent)
          | inr (crit', e', nonempty, understood) ↦ (check_critical_iff protected known).1 (
              inr (
                crit',
                e',
                nonempty,
                IsUnderstood-by protected crit known crit' understood (knows crit' e'),
              ))
        ]
  ]

  -- A recipient accepts "crit" exactly if the producer's own check passes and the recipient knows
  -- every name in it. So nothing that passes the producer's check is refused for its form.
  pub check_critical-produced :
      (check_critical protected known ≡ ok tt)
      ↔ ((check_critical_produced protected ≡ ok tt) × Knows protected known)
  check_critical-produced = (received, λ h. produced_received h.0 h.1)
