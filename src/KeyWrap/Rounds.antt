-- ===== src/KeyWrap/Rounds.antt =====
-- One round of key wrap, undone by one round of unwrap.
use jose.Common.Octets.{
  put_uint64, xor_octets, xor_octets_cancel, length-xor_octets, xor_octets-IsByte,
  put_uint64-IsByte,
}
use jose.Common.{
  ℕ, ◌+◌, ◌-◌, ◌*◌, ◌≤◌, ◌<◌, ◌≡◌, refl, sym, ap, ap₂, ◌∙◌, ◌++◌, arith, Bytes, IsByte, All, length,
  take, drop, length-append, length-take, length-drop, take-append-drop, take-append, drop-drop,
  drop-append, All-append, All-take, All-drop, append_assoc,
}
use jose.Cipher.{BlockCipher, IsBlockCipher}
use jose.KeyWrap.{xor_uint64, slice8, copy8, Registers, counter, wrap_step, unwrap_step}

-- On 8 octets the whole value is masked.
xor_uint64_eight : (b : Bytes) (t : ℕ) → length b ≡ 8 → xor_uint64 b t ≡ xor_octets b (put_uint64 t)
unfolding xor_uint64
xor_uint64_eight b t h = let e : length b - 8 ≡ 0 = omega arith in rw e

pub length-xor_uint64 : (b : Bytes) (t : ℕ) → length b ≡ 8 → length (xor_uint64 b t) ≡ 8
length-xor_uint64 b t h = rw (xor_uint64_eight b t h, length-xor_octets) h

pub xor_uint64-IsByte :
    (b : Bytes) (t : ℕ) → length b ≡ 8 → All IsByte b → All IsByte (xor_uint64 b t)
xor_uint64-IsByte b t h k =
    rw (xor_uint64_eight b t h) (xor_octets-IsByte b _ k (put_uint64-IsByte t))

-- The mask of a round is its own inverse.
pub xor_uint64_cancel : (b : Bytes) (t : ℕ) → length b ≡ 8 → xor_uint64 (xor_uint64 b t) t ≡ b
xor_uint64_cancel b t h =
    xor_uint64_eight (xor_uint64 b t) t (length-xor_uint64 b t h)
    ∙ rw (xor_uint64_eight b t h) (xor_octets_cancel b _)

-- Cutting a block out of R, and putting one in.
module _ (r : Bytes) (at : ℕ) (inside : at + 8 ≤ length r) where
  pub length-slice8 : length (slice8 r at) ≡ 8
  unfolding slice8
  length-slice8 = omega (arith, length-take 8 (drop at r), length-drop at r)

  pub length-copy8 : (block : Bytes) → length block ≡ 8 → length (copy8 r at block) ≡ length r
  unfolding copy8
  length-copy8 block h = omega (
    arith,
    inside,
    length-append (take at r) (block ++ drop (at + 8) r),
    length-append block (drop (at + 8) r),
    length-take at r,
    length-drop (at + 8) r,
  )

  pub slice8-copy8 : (block : Bytes) → length block ≡ 8 → slice8 (copy8 r at block) at ≡ block
  unfolding slice8 copy8
  slice8-copy8 block h =
      ap (take 8)
        (drop-append (take at r) (block ++ drop (at + 8) r) at (omega (arith, length-take at r)))
      ∙ take-append block _ 8 (omega arith)

  pub copy8-copy8 :
      (block other : Bytes)
      → length block ≡ 8
      → copy8 (copy8 r at block) at other ≡ copy8 r at other
  unfolding copy8
  copy8-copy8 block other h =
      let front : at ≡ length (take at r) = omega (arith, length-take at r) in
      let rest = block ++ drop (at + 8) r in
      let both : at + 8 ≡ length (take at r ++ block) =
        omega (arith, length-append (take at r) block) in
      ap₂ (λ (x y : Bytes). x ++ (other ++ y)) (take-append (take at r) rest at front)
        (ap (drop (at + 8)) (sym (append_assoc (take at r) block (drop (at + 8) r)))
          ∙ drop-append (take at r ++ block) (drop (at + 8) r) (at + 8) both)

  pub copy8-slice8 : copy8 r at (slice8 r at) ≡ r
  unfolding copy8 slice8
  copy8-slice8 =
      ap (λ (x : Bytes). take at r ++ (take 8 (drop at r) ++ x))
        (sym (drop-drop at 8 (at + 8) r refl))
      ∙ ap (λ (x : Bytes). take at r ++ x) (take-append-drop 8 (drop at r))
      ∙ take-append-drop at r

  pub copy8-IsByte :
      (block : Bytes) → All IsByte r → All IsByte block → All IsByte (copy8 r at block)
  unfolding copy8
  copy8-IsByte block h k =
      All-append IsByte (take at r) (block ++ drop (at + 8) r) (All-take IsByte at r h)
        (All-append IsByte block (drop (at + 8) r) k (All-drop IsByte (at + 8) r h))

-- What holds of the registers in every round: 8 octets in A, 8 * n in R.
pub record IsState (n : ℕ) (s : Registers) : Type 0 where
  pub length_a : length s.a ≡ 8
  pub length_r : length s.r ≡ n * 8
  pub octets_a : All IsByte s.a
  pub octets_r : All IsByte s.r

module _ (aes : BlockCipher) (laws : IsBlockCipher aes) (kek : Bytes) (n j i : ℕ)
    (below : i < n) where
  inside_of : (s : Registers) → IsState n s → i * 8 + 8 ≤ length s.r
  inside_of s h = omega (arith, h.length_r)

  block_of : Registers → Bytes
  block_of s = s.a ++ slice8 s.r (i * 8)

  length-block_of : (s : Registers) → IsState n s → length (block_of s) ≡ 16
  unfolding block_of
  length-block_of s h = omega (
    arith,
    h.length_a,
    length-append s.a (slice8 s.r (i * 8)),
    length-slice8 s.r (i * 8) (inside_of s h),
  )

  block_of-IsByte : (s : Registers) → IsState n s → All IsByte (block_of s)
  unfolding block_of slice8
  block_of-IsByte s h =
      All-append IsByte s.a _ h.octets_a
        (All-take IsByte 8 _ (All-drop IsByte (i * 8) s.r h.octets_r))

  pub wrap_step-IsState : (s : Registers) → IsState n s → IsState n (wrap_step aes kek n j i s)
  unfolding wrap_step block_of
  wrap_step-IsState s h =
      let sixteen = laws.length-encrypt kek (block_of s) (length-block_of s h) in
      let octets = laws.encrypt-IsByte kek (block_of s) (block_of-IsByte s h) in
      let buf = aes.encrypt kek (block_of s) in
      let eight : length (take 8 buf) ≡ 8 = omega (arith, sixteen, length-take 8 buf) in
      let eight' : length (drop 8 buf) ≡ 8 = omega (arith, sixteen, length-drop 8 buf) in
      record {
        length_a = length-xor_uint64 (take 8 buf) _ eight;
        length_r = length-copy8 s.r (i * 8) (inside_of s h) (drop 8 buf) eight' ∙ h.length_r;
        octets_a = xor_uint64-IsByte (take 8 buf) _ eight (All-take IsByte 8 buf octets);
        octets_r =
            copy8-IsByte s.r (i * 8) (inside_of s h) (drop 8 buf) h.octets_r
              (All-drop IsByte 8 buf octets);
      }

  -- What the round encrypted is what the round back decrypts.
  decrypted :
      (s : Registers)
      → IsState n s
      → let s' = wrap_step aes kek n j i s in
        aes.decrypt kek (xor_uint64 s'.a (counter n j (i + 1)) ++ slice8 s'.r (i * 8)) ≡ block_of s
  unfolding wrap_step
  decrypted s h =
      let sixteen = laws.length-encrypt kek (block_of s) (length-block_of s h) in
      let buf = aes.encrypt kek (block_of s) in
      let eight : length (take 8 buf) ≡ 8 = omega (arith, sixteen, length-take 8 buf) in
      let eight' : length (drop 8 buf) ≡ 8 = omega (arith, sixteen, length-drop 8 buf) in
      unfold block_of in
      ap (aes.decrypt kek) (
        ap₂ ◌++◌ (xor_uint64_cancel (take 8 buf) (counter n j (i + 1)) eight)
          (slice8-copy8 s.r (i * 8) (inside_of s h) (drop 8 buf) eight')
        ∙ take-append-drop 8 buf)
      ∙ laws.decrypt-encrypt kek (block_of s) (length-block_of s h) (block_of-IsByte s h)

  back_a : (s : Registers) → IsState n s → take 8 (block_of s) ≡ s.a
  unfolding block_of
  back_a s h = take-append s.a _ 8 (sym h.length_a)

  back_r :
      (s : Registers)
      → IsState n s
      → copy8 (wrap_step aes kek n j i s).r (i * 8) (drop 8 (block_of s)) ≡ s.r
  unfolding block_of wrap_step
  back_r s h =
      let buf = aes.encrypt kek (s.a ++ slice8 s.r (i * 8)) in
      let sixteen = laws.length-encrypt kek (block_of s) (length-block_of s h) in
      let eight' : length (drop 8 buf) ≡ 8 = omega (arith, sixteen, length-drop 8 buf) in
      copy8-copy8 s.r (i * 8) (inside_of s h) (drop 8 buf) _ eight'
      ∙ ap (copy8 s.r (i * 8)) (drop-append s.a (slice8 s.r (i * 8)) 8 (sym h.length_a))
      ∙ copy8-slice8 s.r (i * 8) (inside_of s h)

  -- Unwrapping one round after wrapping it gives the registers back.
  pub unwrap_step-wrap_step :
      (s : Registers) → IsState n s → unwrap_step aes kek n j i (wrap_step aes kek n j i s) ≡ s
  unfolding unwrap_step
  unwrap_step-wrap_step s h =
      let r' = (wrap_step aes kek n j i s).r in
      ap (registers r') (decrypted s h) ∙ λ k. record { a = back_a s h k; r = back_r s h k }
    where
      registers : Bytes → Bytes → Registers
      registers r buf = record { a = take 8 buf; r = copy8 r (i * 8) (drop 8 buf) }
