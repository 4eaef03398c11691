-- ===== src/KeyWrap/Reverse.antt =====
-- A wrapped key is accepted only if it is what `AESKeyWrap` makes.
use jose.Common.{
  ℕ, zero, suc, ◌+◌, ◌-◌, ◌*◌, ◌/◌, ◌%◌, ◌≤◌, ◌<◌, ◌≡◌, refl, sym, ap, ap₂, ◌∙◌, true, inl, inr,
  ◌++◌, arith, Bytes, IsByte, All, length, take, drop, length-append, length-take, length-drop,
  take-append-drop, take-append, drop-append, All-append, All-take, All-drop, eqb, eqb_iff,
  Bool-cases,
}
use mathlib.Core.Path.{subst}
use jose.Common.Outcome.{ok}
use jose.Cipher.{BlockCipher, IsBlockCipher, is_aes_key}
use jose.KeyWrap.{
  aes_kw_iv, xor_uint64, slice8, copy8, Registers, counter, wrap_step, unwrap_step, wrap_inner,
  unwrap_inner, wrap_outer, unwrap_outer, aes_key_wrap, aes_key_unwrap,
}
use jose.KeyWrap.Rounds.{
  length-xor_uint64, xor_uint64-IsByte, xor_uint64_cancel, length-slice8, length-copy8,
  slice8-copy8, copy8-copy8, copy8-slice8, copy8-IsByte, IsState,
}
use jose.KeyWrap.RoundTrip.{IsWrappable, aes_key_wrap-eq}

module _ (aes : BlockCipher) (laws : IsBlockCipher aes) (kek : Bytes) (n j i : ℕ) (below : i < n)
    (s : Registers) (h : IsState n s) where
  inside : i * 8 + 8 ≤ length s.r
  inside = omega (arith, below, h.length_r)

  abbrev masked : Bytes
  masked = xor_uint64 s.a (counter n j (i + 1))

  abbrev block : Bytes
  block = masked ++ slice8 s.r (i * 8)

  abbrev buf : Bytes
  buf = aes.decrypt kek block

  length-masked : length masked ≡ 8
  length-masked = length-xor_uint64 s.a _ h.length_a

  length-block : length block ≡ 16
  length-block = omega (
    arith,
    length-masked,
    length-append masked (slice8 s.r (i * 8)),
    length-slice8 s.r (i * 8) inside,
  )

  block-IsByte : All IsByte block
  unfolding slice8
  block-IsByte =
      All-append IsByte masked _ (xor_uint64-IsByte s.a _ h.length_a h.octets_a)
        (All-take IsByte 8 _ (All-drop IsByte (i * 8) s.r h.octets_r))

  first_eight : length (take 8 buf) ≡ 8
  first_eight = omega (arith, laws.length-decrypt kek block length-block, length-take 8 buf)

  last_eight : length (drop 8 buf) ≡ 8
  last_eight = omega (arith, laws.length-decrypt kek block length-block, length-drop 8 buf)

  unwrap_step-IsState : IsState n (unwrap_step aes kek n j i s)
  unfolding unwrap_step
  unwrap_step-IsState =
      let octets = laws.decrypt-IsByte kek block block-IsByte in
      record {
        length_a = first_eight;
        length_r = length-copy8 s.r (i * 8) inside (drop 8 buf) last_eight ∙ h.length_r;
        octets_a = All-take IsByte 8 buf octets;
        octets_r =
            copy8-IsByte s.r (i * 8) inside (drop 8 buf) h.octets_r (All-drop IsByte 8 buf octets);
      }

  -- What the round decrypted is what the round back encrypts.
  encrypted :
      let u = unwrap_step aes kek n j i s in aes.encrypt kek (u.a ++ slice8 u.r (i * 8)) ≡ block
  unfolding unwrap_step
  encrypted =
      ap (aes.encrypt kek) (
        ap (λ (x : Bytes). take 8 buf ++ x)
          (slice8-copy8 s.r (i * 8) inside (drop 8 buf) last_eight)
        ∙ take-append-drop 8 buf)
      ∙ laws.encrypt-decrypt kek block length-block block-IsByte

  forth_a : xor_uint64 (take 8 block) (counter n j (i + 1)) ≡ s.a
  forth_a =
      ap (λ (x : Bytes). xor_uint64 x (counter n j (i + 1)))
        (take-append masked (slice8 s.r (i * 8)) 8 (sym length-masked))
      ∙ xor_uint64_cancel s.a (counter n j (i + 1)) h.length_a

  forth_r : copy8 (unwrap_step aes kek n j i s).r (i * 8) (drop 8 block) ≡ s.r
  unfolding unwrap_step
  forth_r =
      copy8-copy8 s.r (i * 8) inside (drop 8 buf) _ last_eight
      ∙ ap (copy8 s.r (i * 8)) (drop-append masked (slice8 s.r (i * 8)) 8 (sym length-masked))
      ∙ copy8-slice8 s.r (i * 8) inside

  wrap_step-unwrap_step : wrap_step aes kek n j i (unwrap_step aes kek n j i s) ≡ s
  unfolding wrap_step
  wrap_step-unwrap_step =
      let r' = (unwrap_step aes kek n j i s).r in
      ap (registers r') encrypted ∙ λ k. record { a = forth_a k; r = forth_r k }
    where
      registers : Bytes → Bytes → Registers
      registers r b = record {
        a = xor_uint64 (take 8 b) (counter n j (i + 1));
        r = copy8 r (i * 8) (drop 8 b);
      }

module _ (aes : BlockCipher) (laws : IsBlockCipher aes) (kek : Bytes) (n : ℕ) where
  inner_forth :
      (j i : ℕ)
      → i ≤ n
      → (s : Registers) → IsState n s
      → IsState n (unwrap_inner aes kek n j i s)
        × (wrap_inner aes kek n j i (unwrap_inner aes kek n j i s) ≡ s)
  unfolding wrap_inner unwrap_inner
  inner_forth j zero le s h = (h, refl)
  inner_forth j (suc i) le s h =
      let (state, back) =
        inner_forth j i (omega arith) _ (unwrap_step-IsState aes laws kek n j i le s h) in
      (state, ap (wrap_step aes kek n j i) back ∙ wrap_step-unwrap_step aes laws kek n j i le s h)

  outer_forth :
      (j : ℕ) (s : Registers)
      → IsState n s
      → IsState n (unwrap_outer aes kek n j s)
        × (wrap_outer aes kek n j (unwrap_outer aes kek n j s) ≡ s)
  unfolding wrap_outer unwrap_outer
  outer_forth zero s h = (h, refl)
  outer_forth (suc j) s h =
      let (state, back) = inner_forth j n (omega arith) s h in
      let (state', back') = outer_forth j _ state in
      (state', ap (wrap_inner aes kek n j n) back' ∙ back)

module _ (aes : BlockCipher) (kek c : Bytes) where
  abbrev received : Registers
  received = record { a = take 8 c; r = drop 8 c }

  abbrev unwrapped : Registers
  unwrapped = unwrap_outer aes kek (length c / 8 - 1) 6 received

  received-IsState :
      All IsByte c → length c % 8 ≡ 0 → 24 ≤ length c → IsState (length c / 8 - 1) received
  received-IsState octets whole enough = record {
    length_a = omega (arith, length-take 8 c);
    length_r = omega (arith, whole, enough, length-drop 8 c);
    octets_a = All-take IsByte 8 c octets;
    octets_r = All-drop IsByte 8 c octets;
  }

  -- What a successful unwrapping has checked.
  accepted :
      (plaintext : Bytes)
      → aes_key_unwrap aes kek c ≡ ok plaintext
      → (is_aes_key kek ≡ true)
        × (length c % 8 ≡ 0)
        × (24 ≤ length c)
        × (unwrapped.a ≡ aes_kw_iv)
        × (unwrapped.r ≡ plaintext)
  unfolding aes_key_unwrap
  accepted plaintext h = elim (Bool-cases (eqb unwrapped.a aes_kw_iv)) [
    | inl same ↦ (
      ground (arith, same),
      ground (arith, same),
      ground (arith, same),
      (eqb_iff unwrapped.a aes_kw_iv).0 same,
      ground (arith, same),
    )
    | inr other ↦ absurd (ground (arith, other))
  ]

rewrap :
    (aes : BlockCipher) (kek a r : Bytes) (n : ℕ) (t : Registers)
    → a ≡ aes_kw_iv
    → IsWrappable kek r
    → n ≡ length r / 8
    → wrap_outer aes kek n 6 (record { a = a; r = r }) ≡ t
    → aes_key_wrap aes kek r ≡ ok (t.a ++ t.r)
rewrap aes kek a r n t same fits rounds run =
    aes_key_wrap-eq aes kek r fits
    ∙ ap (λ (s : Registers). ok (s.a ++ s.r))
        (ap₂ (λ m x. wrap_outer aes kek m 6 (record { a = x; r = r })) (sym rounds) (sym same)
          ∙ run)

-- `AESKeyUnwrap` accepts nothing but what `AESKeyWrap` makes: a ciphertext of octets that it unwraps
-- is the wrapping of the key that it returns.
pub wrap-unwrap :
    (aes : BlockCipher)
    → IsBlockCipher aes
    → (kek c plaintext : Bytes) → All IsByte c
    → aes_key_unwrap aes kek c ≡ ok plaintext
    → aes_key_wrap aes kek plaintext ≡ ok c
wrap-unwrap aes laws kek c plaintext octets h =
    let (key, whole, enough, same_a, same_r) = accepted aes kek c plaintext h in
    let n = length c / 8 - 1 in
    let (state, back) =
      outer_forth aes laws kek n 6 (received aes kek c)
        (received-IsState aes kek c octets whole enough) in
    let s = unwrapped aes kek c in
    let size : length s.r ≡ n * 8 = state.length_r in
    let rounds : n ≡ length s.r / 8 = omega (arith, size) in
    let fits : IsWrappable kek s.r =
      (key, omega (arith, size), omega (arith, size, enough, whole)) in
    subst (λ (p : Bytes). aes_key_wrap aes kek p ≡ ok c) same_r
      (rewrap aes kek s.a s.r n (received aes kek c) same_a fits rounds back
        ∙ ap ok (take-append-drop 8 c))
