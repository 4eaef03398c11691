-- ===== src/Jwk/Usage.antt =====
-- The restrictions that a JWK places on its use.
use jose.Common.{
  is_empty, ◌≡◌, ◌↔◌, ◌⊎◌, inl, inr, refl, Bool, true, false, ◌||◌, some, List, [], ◌∷◌, Bytes, In,
  eqb, eqb_iff, contains, contains_iff, Bool-cases, Option-cases, arith,
}
use jose.Common.Outcome.{ok}
use mathlib.Core.Bool.{false≢true}
use jose.Jwk.{Jwk, AnyKey, permits, select_jwk, check_usage, check_jwk_usage}

-- Some operation of `ops` is listed.
abbrev Overlaps : List Bytes → List Bytes → Type 0
Overlaps key_ops [] = ⊥
Overlaps key_ops (op ∷ ops) = In op key_ops ⊎ Overlaps key_ops ops

permits-Overlaps : (key_ops ops : List Bytes) → permits key_ops ops ≡ true → Overlaps key_ops ops
unfolding permits
permits-Overlaps key_ops [] h = absurd (ground arith)
permits-Overlaps key_ops (op ∷ ops) h = elim (Bool-cases (contains key_ops op)) [
  | inl here ↦ inl ((contains_iff key_ops op).0 here)
  | inr other ↦ inr (permits-Overlaps key_ops ops (ground arith))
]

Overlaps-permits : (key_ops ops : List Bytes) → Overlaps key_ops ops → permits key_ops ops ≡ true
unfolding permits
Overlaps-permits key_ops [] h = elim h [ ]
Overlaps-permits key_ops (op ∷ ops) (inl h) = ground (arith, (contains_iff key_ops op).1 h)
Overlaps-permits key_ops (op ∷ ops) (inr h) = ground (arith, Overlaps-permits key_ops ops h)

-- RFC 7517 §4.2 to §4.4: each member that is stated permits the operation.
pub record IsPermitted (j : Jwk) (key_use : Bytes) (algs ops : List Bytes) : Type 0 where
  pub by_use : (j.key_use ≡ []) ⊎ (j.key_use ≡ key_use)
  pub by_alg : (j.alg ≡ []) ⊎ In j.alg algs
  pub by_ops : (j.key_ops ≡ []) ⊎ Overlaps j.key_ops ops

blank-cases : (s : Bytes) → (is_empty s ≡ true) ↔ (s ≡ [])
blank-cases [] = ((λ h. refl), λ h. refl)
blank-cases (c ∷ s) = ((λ h. absurd (ground arith)), λ h. absurd (ground arith))

none-cases : (l : List Bytes) → (is_empty l ≡ true) ↔ (l ≡ [])
none-cases [] = ((λ h. refl), λ h. refl)
none-cases (c ∷ s) = ((λ h. absurd (ground arith)), λ h. absurd (ground arith))

-- A disjunction of two tests, each with its meaning.
or_iff {ℓ κ} :
    {P : Type ℓ} {Q : Type κ} (a b : Bool)
    → (a ≡ true) ↔ P
    → (b ≡ true) ↔ Q
    → ((a || b) ≡ true) ↔ (P ⊎ Q)
or_iff true b p q = ((λ h. inl (p.0 refl)), λ h. refl)
or_iff false b p q =
    ((λ h. inr (q.0 h)), λ h. elim h [ inl x ↦ absurd (false≢true (p.1 x)) | inr y ↦ q.1 y ])

module _ (j : Jwk) (key_use : Bytes) (algs ops : List Bytes) where
  use_iff :
      ((is_empty j.key_use || eqb j.key_use key_use) ≡ true)
      ↔ ((j.key_use ≡ []) ⊎ (j.key_use ≡ key_use))
  use_iff = or_iff _ _ (blank-cases j.key_use) (eqb_iff j.key_use key_use)

  alg_iff : ((is_empty j.alg || contains algs j.alg) ≡ true) ↔ ((j.alg ≡ []) ⊎ In j.alg algs)
  alg_iff = or_iff _ _ (blank-cases j.alg) (contains_iff algs j.alg)

  ops_iff :
      ((is_empty j.key_ops || permits j.key_ops ops) ≡ true)
      ↔ ((j.key_ops ≡ []) ⊎ Overlaps j.key_ops ops)
  ops_iff =
      or_iff _ _ (none-cases j.key_ops)
        (permits-Overlaps j.key_ops ops, Overlaps-permits j.key_ops ops)

  check_usage-ok : check_usage j key_use algs ops ≡ ok tt → IsPermitted j key_use algs ops
  unfolding check_usage
  check_usage-ok h = record {
    by_use = use_iff.0 (ground arith);
    by_alg = alg_iff.0 (ground arith);
    by_ops = ops_iff.0 (ground arith);
  }

  check_usage-IsPermitted : IsPermitted j key_use algs ops → check_usage j key_use algs ops ≡ ok tt
  unfolding check_usage
  check_usage-IsPermitted h =
      ground (arith, use_iff.1 h.by_use, alg_iff.1 h.by_alg, ops_iff.1 h.by_ops)

-- `checkJWKUsage` passes exactly if no JWK is selected, or if each of "use", "alg" and "key_ops" that
-- the selected JWK states permits the operation: the same use, an algorithm that the operation
-- names, and an operation in common.
pub check_jwk_usage_iff :
    (key : AnyKey) (kid key_use : Bytes) (algs ops : List Bytes)
    → (check_jwk_usage key kid key_use algs ops ≡ ok tt)
      ↔ ((j : Jwk) → select_jwk key kid ≡ some j → IsPermitted j key_use algs ops)
check_jwk_usage_iff key kid key_use algs ops = (
  (λ h j e. check_usage-ok j key_use algs ops (unfold check_jwk_usage in ground (arith, e, h))),
  λ h. elim (Option-cases (select_jwk key kid)) [
    | inl e ↦ unfold check_jwk_usage in ground (arith, e)
    | inr (j, e) ↦
        unfold check_jwk_usage in
        ground (arith, e, check_usage-IsPermitted j key_use algs ops (h j e))
  ],
)
