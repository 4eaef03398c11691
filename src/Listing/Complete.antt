-- ===== src/Listing/Complete.antt =====
-- What the listing functions promise: the names in order, and exactly those that the package looks up.
use jose.Common.{
  ◌≡◌, refl, ap, ◌∙◌, ◌⊎◌, inl, inr, ◌↔◌, Bool-cases, true, false, none, some, List, [], ◌∷◌, Bytes,
  eqb, eqb_iff, In, lookup, arith, Option-cases,
}
use jose.Common.Outcome.{Result, ok}
use jose.Errors.{Error}
use jose.Signature.{SigAlg, sig_algs, none_alg, lookup_sig_alg}
use jose.ContentEnc.{ContentEnc, content_encs, lookup_enc}
use jose.KeyMgmt.{KeyMgmt, key_mgmts, lookup_key_mgmt}
use jose.Listing.{
  at_most, place, sort_strings, keys_of, signature_algorithms, key_management_algorithms,
  content_encryption_algorithms,
}

↔-trans {ℓ κ μ} : {A : Type ℓ} {B : Type κ} {C : Type μ} → A ↔ B → B ↔ C → A ↔ C
↔-trans f g = (λ a. g.0 (f.0 a), λ c. f.1 (g.1 c))

-- Each string comes before its successor, or is the same.
abbrev pub IsSorted : List Bytes → Type 0
IsSorted [] = Unit {0}
IsSorted (s ∷ []) = Unit {0}
IsSorted (s ∷ t ∷ list) = (at_most s t ≡ true) × IsSorted (t ∷ list)

at_most_total : (s t : Bytes) → at_most s t ≡ false → at_most t s ≡ true
unfolding at_most
at_most_total [] t h = absurd (ground arith)
at_most_total (a ∷ s) [] h = refl
at_most_total (a ∷ s) (b ∷ t) h = ground (arith, at_most_total s t)

place-after :
    (t s : Bytes) (list : List Bytes)
    → at_most t s ≡ true
    → IsSorted (t ∷ list)
    → IsSorted (t ∷ place s list)
unfolding place
place-after t s [] h sorted = (h, tt)
place-after t s (u ∷ list) h sorted = elim (Bool-cases (at_most s u)) [
  | inl before ↦ rw before (h, (before, sorted.1))
  | inr after ↦ rw after (sorted.0, place-after u s list (at_most_total s u after) sorted.1)
]

place-IsSorted : (s : Bytes) (list : List Bytes) → IsSorted list → IsSorted (place s list)
unfolding place
place-IsSorted s [] sorted = tt
place-IsSorted s (t ∷ list) sorted = elim (Bool-cases (at_most s t)) [
  | inl before ↦ rw before (before, sorted)
  | inr after ↦ rw after (place-after t s list (at_most_total s t after) sorted)
]

sort_strings-IsSorted : (list : List Bytes) → IsSorted (sort_strings list)
unfolding sort_strings
sort_strings-IsSorted [] = tt
sort_strings-IsSorted (s ∷ list) = place-IsSorted s (sort_strings list) (sort_strings-IsSorted list)

In-place : (k s : Bytes) (list : List Bytes) → In k (place s list) ↔ ((s ≡ k) ⊎ In k list)
unfolding place
In-place k s [] = (λ h. h, λ h. h)
In-place k s (t ∷ list) = elim (Bool-cases (at_most s t)) [
  | inl before ↦ rw before (λ h. h, λ h. h)
  | inr after ↦ rw after ground (arith, In-place k s list)
]

In-sort_strings : (k : Bytes) (list : List Bytes) → In k (sort_strings list) ↔ In k list
unfolding sort_strings
In-sort_strings k [] = (λ h. h, λ h. h)
In-sort_strings k (s ∷ list) =
    ground (arith, In-place k s (sort_strings list), In-sort_strings k list)

module _ {ℓ} {V : Type ℓ} where
  In-keys_of :
      (k : Bytes) (table : List (Bytes × V))
      → In k (keys_of table) ↔ ((v : V) × (lookup k table ≡ some v))
  unfolding keys_of lookup
  In-keys_of k [] = (λ h. elim h [ ], λ (v, e). cc)
  In-keys_of k ((j, v) ∷ table) = elim (Bool-cases (eqb j k)) [
    | inl here ↦ rw here (λ h. (v, refl), λ h. inl ((eqb_iff j k).0 here))
    | inr other ↦ rw other (
      λ h. elim h [
        | inl e ↦ absurd (ground (arith, other, (eqb_iff j k).1 e))
        | inr later ↦ (In-keys_of k table).0 later
      ],
      λ h. inr ((In-keys_of k table).1 h),
    )
  ]

  -- The names listed are those that the table has.
  In-listed :
      (k : Bytes) (table : List (Bytes × V))
      → In k (sort_strings (keys_of table)) ↔ ((v : V) × (lookup k table ≡ some v))
  In-listed k table =
      let sorted = In-sort_strings k (keys_of table) in
      let keys = In-keys_of k table in (λ h. keys.0 (sorted.0 h), λ h. sorted.1 (keys.1 h))

found_enc :
    (k : Bytes)
    → ((v : ContentEnc) × (lookup k content_encs ≡ some v))
      ↔ ((v : ContentEnc) × (lookup_enc k ≡ ok v))
unfolding lookup_enc
found_enc k = (
  λ (v, there). (v, rw (there, lookup_enc) refl),
  λ (v, run). elim (Option-cases (lookup k content_encs)) [
    | inl missing ↦ absurd (ground (arith, missing, run))
    | inr found ↦ found
  ],
)

found_key_mgmt :
    (k : Bytes)
    → ((v : KeyMgmt) × (lookup k key_mgmts ≡ some v)) ↔ ((v : KeyMgmt) × (lookup_key_mgmt k ≡ ok v))
unfolding lookup_key_mgmt
found_key_mgmt k = (
  λ (v, there). (v, rw (there, lookup_key_mgmt) refl),
  λ (v, run). elim (Option-cases (lookup k key_mgmts)) [
    | inl missing ↦ absurd (ground (arith, missing, run))
    | inr found ↦ found
  ],
)

none_missing : lookup none_alg sig_algs ≡ none
unfolding lookup eqb sig_algs
none_missing = refl

found_sig_alg :
    (k : Bytes)
    → ((v : SigAlg) × (lookup k sig_algs ≡ some v)) ↔ ((v : SigAlg) × (lookup_sig_alg k ≡ ok v))
unfolding lookup_sig_alg
found_sig_alg k = elim (Bool-cases (eqb k none_alg)) [
  | inl same ↦
      let missing : lookup k sig_algs ≡ none =
        ap (λ n. lookup n sig_algs) ((eqb_iff k none_alg).0 same) ∙ none_missing in
      (
        λ (v, there). absurd (ground (arith, missing, there)),
        λ (v, run). absurd (ground (arith, same, run)),
      )
  | inr other ↦ (
    λ (v, there). (v, rw (other, there) refl),
    λ (v, run). elim (Option-cases (lookup k sig_algs)) [
      | inl missing ↦ absurd (ground (arith, other, missing, run))
      | inr found ↦ found
    ],
  )
]

-- A list of names in order, that holds exactly those that the lookup accepts.
abbrev pub IsListing : {V : Type 0} → List Bytes → (Bytes → Result Error V) → Type 0
IsListing {V} list look = IsSorted list × ((k : Bytes) → In k list ↔ ((v : V) × (look k ≡ ok v)))

-- `SignatureAlgorithms`, `KeyManagementAlgorithms` and `ContentEncryptionAlgorithms` each give, in the order of
-- strings, exactly the names that `lookupSigAlg`, `lookupKeyMgmt` and `lookupEnc` accept; "none" is not among them.
pub algorithms-AreListed :
    IsListing signature_algorithms lookup_sig_alg
    × IsListing key_management_algorithms lookup_key_mgmt
    × IsListing content_encryption_algorithms lookup_enc
    × ¬ In none_alg signature_algorithms
unfolding signature_algorithms key_management_algorithms content_encryption_algorithms
algorithms-AreListed =
    let sig : (k : Bytes)
        → In k (sort_strings (keys_of sig_algs)) ↔ ((v : SigAlg) × (lookup_sig_alg k ≡ ok v)) =
      λ k. ↔-trans (In-listed k sig_algs) (found_sig_alg k) in
    (
      (sort_strings-IsSorted (keys_of sig_algs), sig),
      (
        sort_strings-IsSorted (keys_of key_mgmts),
        λ k. ↔-trans (In-listed k key_mgmts) (found_key_mgmt k),
      ),
      (
        sort_strings-IsSorted (keys_of content_encs),
        λ k. ↔-trans (In-listed k content_encs) (found_enc k),
      ),
      λ h. let (v, e) = (In-listed none_alg sig_algs).0 h in cc (none_missing, e),
    )
