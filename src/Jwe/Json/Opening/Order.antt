-- ===== src/Jwe/Json/Opening/Order.antt =====
-- The order in which decryption tries the recipients.
use jose.Common.{
  is_empty→nil, ℕ, suc, ◌+◌, ◌≡◌, ◌≢◌, refl, sym, ap, ◌∙◌, ◌⊎◌, inl, inr, some, List, [], ◌∷◌, ◌++◌,
  is_empty, Bytes, eqb, eqb_iff, All, All-append, length, append_assoc, Bool-cases, arith,
}
use mathlib.Core.Path.{subst}
use mathlib.Core.List.{Permᴰ}
use mathlib.Core.List.Permᴰ
use jose.Header.{Header}
use jose.Jwk.{AnyKey}
use jose.Jws.{jwk_kid}
use jose.Jwe.Json.{JweRecipient}
use jose.Jwe.Json.Opening.{recipient_kid_of, range, ordered, recipient_order, element}

Perm-of {ℓ} : {A : Type ℓ} {l m : List A} → l ≡ m → Permᴰ l m
Perm-of {l = l} e = subst (λ m. Permᴰ l m) e (Permᴰ.refl l)

-- An element that joins the first of two lists, or the second.
joins_first :
    (i : ℕ) (first rest more : List ℕ)
    → Permᴰ (((first ++ (i ∷ [])) ++ rest) ++ more) ((first ++ rest) ++ (i ∷ more))
joins_first i first rest more =
    let moved =
      Permᴰ.trans (Perm-of (append_assoc first (i ∷ []) rest)) (Permᴰ.middle i first rest) in
    Permᴰ.trans (Permᴰ.append_right more moved) (Permᴰ.symm (Permᴰ.middle i (first ++ rest) more))

joins_rest :
    (i : ℕ) (first rest more : List ℕ)
    → (first ++ (rest ++ (i ∷ []))) ++ more ≡ (first ++ rest) ++ (i ∷ more)
joins_rest i first rest more =
    ap (λ l. l ++ more) (sym (append_assoc first rest (i ∷ [])))
    ∙ append_assoc (first ++ rest) (i ∷ []) more

module _ (want : Bytes) (protected unprotected : Header) where
  ordered-Perm :
      (first rest : List ℕ) (i : ℕ) (rs : List JweRecipient)
      → Permᴰ
          (ordered want protected unprotected first rest i rs)
          ((first ++ rest) ++ range i (length rs))
  unfolding ordered range
  ordered-Perm first rest i [] = Permᴰ.symm (Permᴰ.append-nil (first ++ rest))
  ordered-Perm first rest i (r ∷ rs) =
      let more = range (i + 1) (length rs) in
      elim (Bool-cases (eqb (recipient_kid_of protected unprotected r) want)) [
        | inl same ↦ rw same (
            Permᴰ.trans (ordered-Perm (first ++ (i ∷ [])) rest (i + 1) rs)
              (joins_first i first rest more))
        | inr other ↦ rw other (
            Permᴰ.trans (ordered-Perm first (rest ++ (i ∷ [])) (i + 1) rs)
              (Perm-of (joins_rest i first rest more)))
      ]

-- The recipient at an index, whose "kid" is the wanted one or is another.
module _ (want : Bytes) (protected unprotected : Header) (recipients : List JweRecipient) where
  abbrev pub IsMatch : ℕ → Type 0
  IsMatch i =
      (r : JweRecipient) × (element recipients i ≡ some r)
      × (recipient_kid_of protected unprotected r ≡ want)

  abbrev pub IsOther : ℕ → Type 0
  IsOther i =
      (r : JweRecipient) × (element recipients i ≡ some r)
      × (recipient_kid_of protected unprotected r ≢ want)

  abbrev pub IsSplit : List ℕ → Type 0
  IsSplit order =
      (matched : List ℕ) × (others : List ℕ) × (order ≡ matched ++ others)
      × All IsMatch matched
      × All IsOther others

  ordered-IsSplit :
      (first rest : List ℕ) (i : ℕ) (rs : List JweRecipient)
      → ((k : ℕ) → element recipients (i + k) ≡ element rs k)
      → All IsMatch first
      → All IsOther rest
      → IsSplit (ordered want protected unprotected first rest i rs)
  unfolding ordered element
  ordered-IsSplit first rest i [] at h₁ h₂ = (first, rest, refl, h₁, h₂)
  ordered-IsSplit first rest i (r ∷ rs) at h₁ h₂ =
      let here : element recipients i ≡ some r = ap (element recipients) (omega arith) ∙ at 0 in
      let later : ((k : ℕ) → element recipients (i + 1 + k) ≡ element rs k) =
        λ k. ap (element recipients) (omega arith) ∙ at (suc k) in
      elim (Bool-cases (eqb (recipient_kid_of protected unprotected r) want)) [
        | inl same ↦ rw same (
            ordered-IsSplit (first ++ (i ∷ [])) rest (i + 1) rs later
              (All-append IsMatch first (i ∷ []) h₁ ((r, here, (eqb_iff _ want).0 same), tt)) h₂)
        | inr other ↦
            let differs : recipient_kid_of protected unprotected r ≢ want =
              λ e. let same = (eqb_iff (recipient_kid_of protected unprotected r) want).1 e in cc in
            rw other (
              ordered-IsSplit first (rest ++ (i ∷ [])) (i + 1) rs later h₁
                (All-append IsOther rest (i ∷ []) h₂ ((r, here, differs), tt)))
      ]

-- `recipientOrder` gives every index of the recipients once and no other. Unless the key has no "kid", those
-- recipients whose effective "kid" is that of the key come before all others.
pub recipient_order-Perm :
    (recipients : List JweRecipient) (protected unprotected : Header) (key : AnyKey)
    → Permᴰ (recipient_order recipients protected unprotected key) (range 0 (length recipients))
      × ((jwk_kid key ≡ [])
          ⊎ IsSplit
              (jwk_kid key)
              protected
              unprotected
              recipients
              (recipient_order recipients protected unprotected key))
unfolding recipient_order
recipient_order-Perm recipients protected unprotected key =
    let all = ordered-Perm (jwk_kid key) protected unprotected [] [] 0 recipients in
    let parts =
      ordered-IsSplit (jwk_kid key) protected unprotected recipients [] [] 0 recipients
        (λ k. ap (element recipients) (omega arith)) tt tt in
    elim (Bool-cases (is_empty (jwk_kid key))) [
      | inl unnamed ↦ rw unnamed (Permᴰ.refl _, inl (is_empty→nil _ unnamed))
      | inr named ↦ rw named (all, inr parts)
    ]
