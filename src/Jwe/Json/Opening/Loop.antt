-- ===== src/Jwe/Json/Opening/Loop.antt =====
-- The loop over the recipients: the first that opens, or none.
use jose.Common.{
  ℕ, zero, suc, ◌+◌, ◌<◌, ◌≡◌, refl, ap, ◌∙◌, ◌⊎◌, inl, inr, none, some, List, [], ◌∷◌, ◌++◌, Bytes,
  All, length, arith,
}
use mathlib.Core.Path.{subst}
use mathlib.Core.List.{Permᴰ}
use mathlib.Core.List.Permᴰ
use jose.Common.Outcome.{Result, ok, err, Result-cases}
use jose.Errors.{Error, decrypt_failed}
use jose.Header.{Header}
use jose.Jwk.{AnyKey}
use jose.Jws.General.{or_empty}
use jose.Jwe.{JweLibrary, DecryptOptions}
use jose.Jwe.Json.{JweRecipient, JweJson}
use jose.Jwe.Json.Opening.{Contents, recipient_order, range, element, open_for, open_first}
use jose.Jwe.Json.Opening.Order.{recipient_order-Perm}

module _ (P : ℕ → Type 0) where
  All-Perm : {l m : List ℕ} → Permᴰ l m → All P l → All P m
  All-Perm Permᴰ.nil h = tt
  All-Perm (Permᴰ.cons e p) h = (subst P e h.0, All-Perm p h.1)
  All-Perm (Permᴰ.swap e f) h = (subst P f h.1.0, (subst P e h.0, h.1.1))
  All-Perm (Permᴰ.trans p q) h = All-Perm q (All-Perm p h)

  All-range : (i n : ℕ) → ((k : ℕ) → k < n → P (i + k)) → All P (range i n)
  unfolding range
  All-range i zero h = tt
  All-range i (suc n) h = (
    subst P (omega arith) (h 0 (omega arith)),
    All-range (i + 1) n λ k below. subst P (omega arith) (h (suc k) (omega arith)),
  )

  range-All : (i n : ℕ) → All P (range i n) → (k : ℕ) → k < n → P (i + k)
  unfolding range
  range-All i zero h k below = absurd (omega arith)
  range-All i (suc n) h zero below = subst P (omega arith) h.0
  range-All i (suc n) h (suc k) below =
      subst P (omega arith) (range-All (i + 1) n h.1 k (omega arith))

element_below {ℓ} :
    {A : Type ℓ} (xs : List A) (k : ℕ) → k < length xs → (x : A) × (element xs k ≡ some x)
unfolding element
element_below [] k h = absurd (omega arith)
element_below (x ∷ xs) zero h = (x, refl)
element_below (x ∷ xs) (suc k) h = element_below xs k (omega arith)

pub below_element {ℓ} :
    {A : Type ℓ} (xs : List A) (k : ℕ) (x : A) → element xs k ≡ some x → k < length xs
unfolding element
below_element [] k x h = cc
below_element (y ∷ xs) zero x h = omega arith
below_element (y ∷ xs) (suc k) x h = let deeper = below_element xs k x h in omega arith

module _ (lib : JweLibrary) (doc : JweJson) (contents : Contents) (key : AnyKey)
    (opts : DecryptOptions) (recipients : List JweRecipient) where
  abbrev pub CannotOpen : ℕ → Type 0
  CannotOpen i =
      (r : JweRecipient) × (e : Error) × (element recipients i ≡ some r)
      × (open_for lib doc contents key opts r ≡ err e)

  -- The first index in an order whose recipient can be opened, with what that gives.
  abbrev pub IsFirstOpened : List ℕ → Bytes × Header → Type 0
  IsFirstOpened order found =
      (before : List ℕ) × (i : ℕ) × (after : List ℕ) × (r : JweRecipient) × (order
        ≡ before ++ (i ∷ after))
      × All CannotOpen before
      × (element recipients i ≡ some r)
      × (open_for lib doc contents key opts r ≡ ok found)

  abbrev IsThere : ℕ → Type 0
  IsThere i = (r : JweRecipient) × (element recipients i ≡ some r)

  open_step :
      (last : Error) (i : ℕ) (order : List ℕ) (r : JweRecipient) (m : Result Error (Bytes × Header))
      → element recipients i ≡ some r
      → open_for lib doc contents key opts r ≡ m
      → open_first lib doc contents key opts recipients last (i ∷ order) ≡ elim m [
        | ok found ↦ ok found
        | err e ↦ open_first lib doc contents key opts recipients e order
      ]
  unfolding open_first
  open_step last i order r m here e =
      ap
        (λ o. elim o [
          | none ↦ err last
          | some q ↦ elim (open_for lib doc contents key opts q) [
            | ok found ↦ ok found
            | err f ↦ open_first lib doc contents key opts recipients f order
          ]
        ])
        here
      ∙ ap
          (λ n. elim n [
            | ok found ↦ ok found
            | err f ↦ open_first lib doc contents key opts recipients f order
          ])
          e

  first_opened :
      (last : Error) (order : List ℕ)
      → All IsThere order
      → ((found : Bytes × Header) × (open_first lib doc contents key opts recipients last order
            ≡ ok found)
          × IsFirstOpened order found)
        ⊎ ((e : Error) × (open_first lib doc contents key opts recipients last order ≡ err e)
            × All CannotOpen order)
  unfolding open_first
  first_opened last [] there = inr (last, refl, tt)
  first_opened last (i ∷ order) ((r, here), there) =
      elim (Result-cases (open_for lib doc contents key opts r)) [
        | inl (found, e) ↦ inl (
          found,
          open_step last i order r (ok found) here e,
          ([], i, order, r, refl, tt, here, e),
        )
        | inr (x, e) ↦ elim (first_opened x order there) [
          | inl (found, run, (before, j, after, q, same, failed, at, opened)) ↦ inl (
            found,
            open_step last i order r (err x) here e ∙ run,
            (i ∷ before, j, after, q, ap (λ l. i ∷ l) same, ((r, x, here, e), failed), at, opened),
          )
          | inr (f, run, failed) ↦
              inr (f, open_step last i order r (err x) here e ∙ run, ((r, x, here, e), failed))
        ]
      ]

  abbrev order : List ℕ
  order = recipient_order recipients contents.protected (or_empty doc.unprotected) key

  order-Perm : Permᴰ order (range 0 (length recipients))
  order-Perm = (recipient_order-Perm recipients contents.protected (or_empty doc.unprotected) key).0

  order-IsThere : All IsThere order
  order-IsThere = All-Perm IsThere (Permᴰ.symm order-Perm) (
      All-range IsThere 0 (length recipients)
        λ k below. element_below recipients (0 + k) (omega arith))

  -- The whole loop: the first recipient in the order that opens, or none at all does.
  pub opening-cases :
      ((found : Bytes × Header) × (open_first lib doc contents key opts recipients decrypt_failed
            order
          ≡ ok found)
        × IsFirstOpened order found)
      ⊎ ((e : Error) × (open_first lib doc contents key opts recipients decrypt_failed order
            ≡ err e)
          × ((k : ℕ) → k < length recipients → CannotOpen k))
  opening-cases = elim (first_opened decrypt_failed order order-IsThere) [
    | inl first ↦ inl first
    | inr (e, run, failed) ↦ inr (
      e,
      run,
      λ k below. subst CannotOpen (omega arith) (
          range-All CannotOpen 0 (length recipients) (All-Perm CannotOpen order-Perm failed) k
            below),
    )
  ]
