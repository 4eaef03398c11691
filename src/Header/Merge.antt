-- ===== src/Header/Merge.antt =====
-- The merged view of two headers.
use jose.Common.{
  ◌≡◌, ◌⊎◌, inl, inr, refl, sym, ap, ◌∙◌, Option, none, some, [], ◌∷◌, Bytes, eqb, eqb_iff,
  eqb_refl, lookup, insert, lookup-insert, Option-cases, Bool-cases, arith,
}
use jose.Common.Outcome.{Result, ok, err, ◌>>=◌}
use jose.Errors.{Error, invalid_header}
use jose.Json.{Value}
use jose.Header.{Header, merge_one, merge_all, merge_headers}

-- A Go map holds each key once.
abbrev pub IsMap : Header → Type 0
IsMap [] = Unit
IsMap ((k, v) ∷ h) = (lookup k h ≡ none) × IsMap h

abbrev pub or_else : Option Value → Option Value → Option Value
or_else none b = b
or_else (some v) b = some v

-- No parameter is in both headers.
abbrev pub Disjoint : Header → Header → Type 0
Disjoint a b = (k : Bytes) → (lookup k a ≡ none) ⊎ (lookup k b ≡ none)

module _ (j : Bytes) (v : Value) (h out : Header) where
  merge_one_step :
      (m : Header)
      → merge_one out ((j, v) ∷ h) ≡ ok m
      → (lookup j out ≡ none) × (merge_one (insert j v out) h ≡ ok m)
  unfolding merge_one
  merge_one_step m e = elim (Option-cases (lookup j out)) [
    | inl absent ↦ (absent, ground arith)
    | inr (w, there) ↦ absurd (ground arith)
  ]

  merge_one_cons : lookup j out ≡ none → merge_one out ((j, v) ∷ h) ≡ merge_one (insert j v out) h
  unfolding merge_one
  merge_one_cons e = ground arith

-- A parameter of the merged header comes from the one that has it.
merge_one-lookup :
    (h out m : Header)
    → IsMap h
    → merge_one out h ≡ ok m
    → (k : Bytes) → lookup k m ≡ or_else (lookup k out) (lookup k h)
merge_one-lookup [] out m im e k =
    let same : out ≡ m = unfold merge_one in ground arith in
    rw (← same) (unfold lookup in ground arith)
merge_one-lookup ((j, v) ∷ h) out m im e k =
    let (absent, rest) = merge_one_step j v h out m e in
    merge_one-lookup h (insert j v out) m im.1 rest k
    ∙ unfold lookup in ground (arith, lookup-insert j k v out, eqb_iff j k, im.0, absent)

merge_one-Disjoint : (h out m : Header) → IsMap h → merge_one out h ≡ ok m → Disjoint out h
merge_one-Disjoint [] out m im e k = inr (unfold lookup in refl)
merge_one-Disjoint ((j, v) ∷ h) out m im e k =
    let (absent, rest) = merge_one_step j v h out m e in
    let ih = merge_one-Disjoint h (insert j v out) m im.1 rest k in
    elim (Bool-cases (eqb j k)) [
      | inl same ↦ inl (rw (← (eqb_iff j k).0 same) absent)
      | inr other ↦ elim ih [
        | inl none_out ↦ inl (ground (arith, lookup-insert j k v out, other))
        | inr none_h ↦ inr (unfold lookup in ground (arith, other))
      ]
    ]

merge_one_total :
    (h out : Header) → IsMap h → Disjoint out h → (m : Header) × (merge_one out h ≡ ok m)
merge_one_total [] out im d = (out, unfold merge_one in refl)
merge_one_total ((j, v) ∷ h) out im d =
    let (m, e) = merge_one_total h (insert j v out) im.1 disjoint in
    (m, merge_one_cons j v h out absent ∙ e)
  where
    absent : lookup j out ≡ none
    absent = elim (d j) [ inl e ↦ e | inr e ↦ absurd (unfold lookup in ground (arith, eqb_refl j)) ]

    disjoint : Disjoint (insert j v out) h
    disjoint k = elim (Bool-cases (eqb j k)) [
      | inl same ↦ inr (rw (← (eqb_iff j k).0 same) im.0)
      | inr other ↦ elim (d k) [
        | inl e ↦ inl (ground (arith, lookup-insert j k v out, other))
        | inr e ↦ inr (unfold lookup in ground (arith, other))
      ]
    ]

merge_one_cases :
    (h out : Header)
    → ((m : Header) × (merge_one out h ≡ ok m)) ⊎ (merge_one out h ≡ err invalid_header)
merge_one_cases [] out = inl (out, unfold merge_one in refl)
merge_one_cases ((j, v) ∷ h) out = elim (Option-cases (lookup j out)) [
  | inl absent ↦ elim (merge_one_cases h (insert j v out)) [
    | inl (m, run) ↦ inl (m, merge_one_cons j v h out absent ∙ run)
    | inr run ↦ inr (merge_one_cons j v h out absent ∙ run)
  ]
  | inr (w, there) ↦ inr (unfold merge_one in ground (arith, there))
]

-- Copying a header into the empty one keeps every parameter.
copied : (a m : Header) → IsMap a → merge_one [] a ≡ ok m → (k : Bytes) → lookup k m ≡ lookup k a
copied a m im e k = merge_one-lookup a [] m im e k ∙ unfold lookup in refl

module _ (a b : Header) (im_a : IsMap a) (im_b : IsMap b) where
  copy_a : (m : Header) × (merge_one [] a ≡ ok m)
  copy_a = merge_one_total a [] im_a (λ k. inl (unfold lookup in refl))

  merge_two : merge_headers (a ∷ b ∷ []) ≡ merge_one copy_a.0 b
  unfolding merge_headers merge_all
  merge_two = rw (copy_a.1) (last (merge_one copy_a.0 b))
    where
      last : (r : Result Error Header) → (r >>= λ m. ok m) ≡ r
      last (ok m) = refl
      last (err e) = refl

  pub merged :
      (m : Header)
      → merge_headers (a ∷ b ∷ []) ≡ ok m
      → Disjoint a b × ((k : Bytes) → lookup k m ≡ or_else (lookup k a) (lookup k b))
  merged m e =
      let run = sym merge_two ∙ e in
      (
        (λ k. elim (merge_one-Disjoint b copy_a.0 m im_b run k) [
          | inl h ↦ inl (sym (copied a copy_a.0 im_a copy_a.1 k) ∙ h)
          | inr h ↦ inr h
        ]),
        λ k.
            merge_one-lookup b copy_a.0 m im_b run k
            ∙ ap (λ (o : Option Value). or_else o (lookup k b)) (copied a copy_a.0 im_a copy_a.1 k),
      )

  pub merge_total : Disjoint a b → (m : Header) × (merge_headers (a ∷ b ∷ []) ≡ ok m)
  merge_total d =
      let (m, e) =
        merge_one_total b copy_a.0 im_b (λ k. elim (d k) [
          | inl h ↦ inl (copied a copy_a.0 im_a copy_a.1 k ∙ h)
          | inr h ↦ inr h
        ]) in
      (m, merge_two ∙ e)

  -- Two headers that have no parameter in common merge, and each parameter of the merged header is that of the one
  -- which has it; any other two are refused as an invalid header.
  pub merge_headers_lem :
      (Disjoint a b
        × ((m : Header) × (merge_headers (a ∷ b ∷ []) ≡ ok m)
            × ((k : Bytes) → lookup k m ≡ or_else (lookup k a) (lookup k b))))
      ⊎ ((¬ Disjoint a b) × (merge_headers (a ∷ b ∷ []) ≡ err invalid_header))
  merge_headers_lem = elim (merge_one_cases b copy_a.0) [
    | inl (m, run) ↦
        let found = merge_two ∙ run in
        let (apart, union) = merged m found in inl (apart, (m, found, union))
    | inr run ↦
        let failed = merge_two ∙ run in
        inr (
          (λ d.
              let (m, found) = merge_total d in
              let clash : ok m ≡ err invalid_header = sym found ∙ failed in cc),
          failed,
        )
  ]
