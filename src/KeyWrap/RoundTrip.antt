-- ===== src/KeyWrap/RoundTrip.antt =====
-- All rounds of key wrap, and the two public functions.
use jose.Common.{
  ◌&&◌, leb, ℕ, zero, suc, ◌+◌, ◌-◌, ◌*◌, ◌/◌, ◌%◌, ◌≤◌, ◌≡◌, refl, sym, ap, ◌∙◌, true, ◌==◌, ◌++◌,
  arith, Bytes, IsByte, All, length, length-append, take-append, drop-append, eqb, eqb_refl, ◌⊎◌,
  Bool-cases, inl, inr, All-append,
}
use mathlib.Core.Path.{subst}
use jose.Common.Outcome.{ok, err, ok-inj}
use jose.Errors.{invalid_key}
use jose.Cipher.{BlockCipher, IsBlockCipher, is_aes_key}
use jose.KeyWrap.{
  aes_kw_iv, Registers, wrap_inner, unwrap_inner, wrap_outer, unwrap_outer, aes_key_wrap,
  aes_key_unwrap,
}
use jose.KeyWrap.Rounds.{IsState, wrap_step-IsState, unwrap_step-wrap_step}

module _ (aes : BlockCipher) (laws : IsBlockCipher aes) (kek : Bytes) (n : ℕ) where
  wrap_inner-IsState :
      (j i : ℕ) → i ≤ n → (s : Registers) → IsState n s → IsState n (wrap_inner aes kek n j i s)
  unfolding wrap_inner
  wrap_inner-IsState j zero le s h = h
  wrap_inner-IsState j (suc i) le s h =
      wrap_step-IsState aes laws kek n j i le _ (wrap_inner-IsState j i (omega arith) s h)

  unwrap_inner-wrap_inner :
      (j i : ℕ)
      → i ≤ n
      → (s : Registers) → IsState n s
      → unwrap_inner aes kek n j i (wrap_inner aes kek n j i s) ≡ s
  unfolding wrap_inner unwrap_inner
  unwrap_inner-wrap_inner j zero le s h = refl
  unwrap_inner-wrap_inner j (suc i) le s h =
      ap (unwrap_inner aes kek n j i)
        (unwrap_step-wrap_step aes laws kek n j i le _ (wrap_inner-IsState j i (omega arith) s h))
      ∙ unwrap_inner-wrap_inner j i (omega arith) s h

  wrap_outer-IsState : (j : ℕ) (s : Registers) → IsState n s → IsState n (wrap_outer aes kek n j s)
  unfolding wrap_outer
  wrap_outer-IsState zero s h = h
  wrap_outer-IsState (suc j) s h = wrap_inner-IsState j n (omega arith) _ (wrap_outer-IsState j s h)

  unwrap_outer-wrap_outer :
      (j : ℕ) (s : Registers)
      → IsState n s
      → unwrap_outer aes kek n j (wrap_outer aes kek n j s) ≡ s
  unfolding wrap_outer unwrap_outer
  unwrap_outer-wrap_outer zero s h = refl
  unwrap_outer-wrap_outer (suc j) s h =
      ap (unwrap_outer aes kek n j)
        (unwrap_inner-wrap_inner j n (omega arith) _ (wrap_outer-IsState j s h))
      ∙ unwrap_outer-wrap_outer j s h

-- The inputs that `AESKeyWrap` accepts: an AES key, and at least two blocks of 8 octets.
abbrev pub IsWrappable : Bytes → Bytes → Type 0
IsWrappable kek plaintext =
    (is_aes_key kek ≡ true) × (length plaintext % 8 ≡ 0) × (16 ≤ length plaintext)

module _ (aes : BlockCipher) (kek plaintext : Bytes) where
  abbrev pub initial : Registers
  initial = record { a = aes_kw_iv; r = plaintext }

  abbrev pub final : Registers
  final = wrap_outer aes kek (length plaintext / 8) 6 initial

  pub aes_key_wrap-eq :
      IsWrappable kek plaintext → aes_key_wrap aes kek plaintext ≡ ok (final.a ++ final.r)
  unfolding aes_key_wrap
  aes_key_wrap-eq (key, multiple, enough) = ground (arith, key)

  initial-IsState :
      All IsByte plaintext → IsWrappable kek plaintext → IsState (length plaintext / 8) initial
  initial-IsState octets fits = record {
    length_a = refl;
    length_r = omega (arith, fits);
    octets_a = omega arith;
    octets_r = octets;
  }

  IsWrappable-cases : IsWrappable kek plaintext ⊎ (¬ IsWrappable kek plaintext)
  IsWrappable-cases = elim (Bool-cases (is_aes_key kek)) [
    | inl key ↦ elim (Bool-cases ((length plaintext % 8 == 0) && leb 16 (length plaintext))) [
      | inl long ↦ inl (key, ground arith, ground arith)
      | inr short ↦ inr (λ h. ground arith)
    ]
    | inr other ↦ inr (λ h. ground arith)
  ]

  aes_key_wrap_refused :
      ¬ IsWrappable kek plaintext → aes_key_wrap aes kek plaintext ≡ err invalid_key
  unfolding aes_key_wrap
  aes_key_wrap_refused h = elim (Bool-cases (is_aes_key kek)) [
    | inl key ↦ elim (Bool-cases ((length plaintext % 8 == 0) && leb 16 (length plaintext))) [
      | inl long ↦ absurd (h (key, ground arith, ground arith))
      | inr short ↦ ground arith
    ]
    | inr other ↦ ground arith
  ]

  -- `AESKeyWrap` succeeds exactly on an AES key and a plaintext of at least two blocks of 8 octets,
  -- and any other input is an invalid key.
  pub aes_key_wrap_total :
      (IsWrappable kek plaintext × ((c : Bytes) × (aes_key_wrap aes kek plaintext ≡ ok c)))
      ⊎ ((¬ IsWrappable kek plaintext) × (aes_key_wrap aes kek plaintext ≡ err invalid_key))
  aes_key_wrap_total = elim IsWrappable-cases [
    | inl fits ↦ inl (fits, (final.a ++ final.r, aes_key_wrap-eq fits))
    | inr other ↦ inr (other, aes_key_wrap_refused other)
  ]

module _ (aes : BlockCipher) (kek : Bytes) where
  -- With an AES key and a ciphertext of the right form, unwrapping is a test of the register A.
  aes_key_unwrap-eq :
      (a r : Bytes) (n : ℕ)
      → is_aes_key kek ≡ true
      → length a ≡ 8
      → length r ≡ n * 8
      → 2 ≤ n
      → (s : Registers) → unwrap_outer aes kek n 6 (record { a = a; r = r }) ≡ s
      → eqb s.a aes_kw_iv ≡ true
      → aes_key_unwrap aes kek (a ++ r) ≡ ok s.r
  unfolding aes_key_unwrap
  aes_key_unwrap-eq a r n key la lr two s run same =
      let total : length (a ++ r) ≡ 8 * n + 8 = omega (arith, length-append a r) in
      let blocks : length (a ++ r) / 8 - 1 ≡ n = omega (arith, total) in
      let whole : length (a ++ r) % 8 ≡ 0 = omega (arith, total) in
      rw (blocks, take-append a r 8 (sym la), drop-append a r 8 (sym la), run)
        (ground (arith, key, same, whole, total))

module _ (aes : BlockCipher) (laws : IsBlockCipher aes) (kek plaintext : Bytes) where
  -- A key that `AESKeyWrap` accepts is wrapped into 8 octets more, and `AESKeyUnwrap` with the same
  -- key-encryption key gives it back. The block cipher is assumed to be a permutation of its blocks.
  pub unwrap-wrap :
      All IsByte plaintext
      → IsWrappable kek plaintext
      → (c : Bytes) × (aes_key_wrap aes kek plaintext ≡ ok c)
        × (length c ≡ length plaintext + 8)
        × (aes_key_unwrap aes kek c ≡ ok plaintext)
  unwrap-wrap octets fits =
      let n = length plaintext / 8 in
      let begin = initial-IsState aes kek plaintext octets fits in
      let s = final aes kek plaintext in
      let end = wrap_outer-IsState aes laws kek n 6 _ begin in
      (
        s.a ++ s.r,
        aes_key_wrap-eq aes kek plaintext fits,
        omega (arith, length-append s.a s.r, end.length_a, end.length_r, fits),
        aes_key_unwrap-eq aes kek s.a s.r n fits.0 end.length_a end.length_r (omega (arith, fits)) _
            (unwrap_outer-wrap_outer aes laws kek n 6 _ begin) (eqb_refl aes_kw_iv),
      )

  -- A wrapped key consists of octets.
  pub aes_key_wrap-IsByte :
      (c : Bytes) → All IsByte plaintext → aes_key_wrap aes kek plaintext ≡ ok c → All IsByte c
  aes_key_wrap-IsByte c octets h = elim (IsWrappable-cases aes kek plaintext) [
    | inl fits ↦
        let n = length plaintext / 8 in
        let s = final aes kek plaintext in
        let end =
          wrap_outer-IsState aes laws kek n 6 _ (initial-IsState aes kek plaintext octets fits) in
        let same = ok-inj (s.a ++ s.r) c (sym (aes_key_wrap-eq aes kek plaintext fits) ∙ h) in
        subst (All IsByte) same (All-append IsByte s.a s.r end.octets_a end.octets_r)
    | inr other ↦ absurd (ground (arith, h, aes_key_wrap_refused aes kek plaintext other))
  ]
