-- ===== src/Pkcs7/RoundTrip.antt =====
-- Padding and unpadding are inverse, at the block size of AES.
use Prim.Native.Nat.{bit_xor, bit_or}
use jose.Common.{
  ℕ, zero, suc, ◌+◌, ◌-◌, ◌%◌, ◌≤◌, ◌<◌, ◌≡◌, ◌↔◌, refl, sym, ap, ◌∙◌, some, [], ◌∷◌, ◌++◌, Bytes,
  length, take, drop, replicate, length-append, length-replicate, take-append, drop-append,
  take-append-drop, length-take, length-drop, arith, All, IsByte, All-append,
}
use jose.Common.Bits.{xor_self, eq_of_xor, or_zero}
use jose.Pkcs7.{pkcs7_pad, last_octet, bad_octets, pkcs7_unpad}

-- The accumulator stays 0 exactly if all octets are `n`.
bad_octets-replicate : (n k : ℕ) → bad_octets n (replicate k n) 0 ≡ 0
unfolding bad_octets
bad_octets-replicate n zero = refl
bad_octets-replicate n (suc k) =
    ap (λ (t : ℕ). bad_octets n (replicate k n) (bit_or 0 t)) (xor_self n)
    ∙ bad_octets-replicate n k

bad_octets_zero :
    (n : ℕ) (b : Bytes) (bad : ℕ)
    → bad_octets n b bad ≡ 0
    → (bad ≡ 0) × (b ≡ replicate (length b) n)
unfolding bad_octets
bad_octets_zero n [] bad e = (e, refl)
bad_octets_zero n (x ∷ b) bad e =
    let (now, rest) = bad_octets_zero n b (bit_or bad (bit_xor x n)) e in
    let (was, same) = or_zero bad (bit_xor x n) now in (was, λ i. eq_of_xor x n same i ∷ rest i)

last_octet-replicate : (b : Bytes) (k n : ℕ) → last_octet (b ++ replicate (suc k) n) ≡ n
unfolding last_octet
last_octet-replicate [] zero n = refl
last_octet-replicate [] (suc k) n = last_octet-replicate [] k n
last_octet-replicate (x ∷ []) k n = last_octet-replicate [] k n
last_octet-replicate (x ∷ y ∷ b) k n = last_octet-replicate (y ∷ b) k n

-- A text whose last `n` octets are `n`.
record IsPadded (p b : Bytes) (n : ℕ) : Type 0 where
  positive : 0 < n
  small : n ≤ 16
  total : length p ≡ length b + n
  multiple : length p % 16 ≡ 0
  last : last_octet p ≡ n
  body : take (length p - n) p ≡ b
  padding : drop (length p - n) p ≡ replicate n n

unpad-IsPadded : (p b : Bytes) (n : ℕ) → IsPadded p b n → pkcs7_unpad p 16 ≡ some b
unfolding pkcs7_unpad
unpad-IsPadded p b n h =
    rw (h.last, h.padding, h.body)
      (ground (arith, bad_octets-replicate n n, h.positive, h.small, h.total, h.multiple))

IsPadded-append :
    (b : Bytes) (k : ℕ)
    → k < 16
    → (length b + suc k) % 16 ≡ 0
    → IsPadded (b ++ replicate (suc k) (suc k)) b (suc k)
IsPadded-append b k small multiple =
    let n = suc k in
    let total = length-append b (replicate n n) in
    let size = length-replicate n n in
    let cut : length (b ++ replicate n n) - n ≡ length b = omega (arith, total, size) in
    record {
      positive = omega arith;
      small = small;
      total = omega (arith, total, size);
      multiple = omega (arith, total, size, multiple);
      last = last_octet-replicate b k n;
      body = take-append b (replicate n n) _ cut;
      padding = drop-append b (replicate n n) _ cut;
    }

-- What is padded is unpadded again.
unpad-pad : (b : Bytes) → pkcs7_unpad (pkcs7_pad b 16) 16 ≡ some b
unfolding pkcs7_pad
unpad-pad b =
    let k = 15 - length b % 16 in
    let n : 16 - length b % 16 ≡ suc k = omega arith in
    let small : suc k % 256 ≡ suc k = omega arith in
    rw (n, small) (unpad-IsPadded _ b (suc k) (IsPadded-append b k (omega arith) (omega arith)))

-- The tests that a text has passed when it is unpadded.
IsPadded-unpad :
    (p b : Bytes)
    → pkcs7_unpad p 16 ≡ some b
    → (0 < last_octet p)
      × (last_octet p ≤ 16)
      × (last_octet p ≤ length p)
      × (length p % 16 ≡ 0)
      × (bad_octets (last_octet p) (drop (length p - last_octet p) p) 0 ≡ 0)
      × (take (length p - last_octet p) p ≡ b)
unfolding pkcs7_unpad
IsPadded-unpad p b e = ground arith

pad-unpad : (p b : Bytes) → pkcs7_unpad p 16 ≡ some b → pkcs7_pad b 16 ≡ p
unfolding pkcs7_pad
pad-unpad p b e =
    let (positive, small, inside, multiple, bad, body) = IsPadded-unpad p b e in
    let n = last_octet p in
    let size : length (drop (length p - n) p) ≡ n =
      omega (arith, inside, length-drop (length p - n) p) in
    let rest = (bad_octets_zero n (drop (length p - n) p) 0 bad).1 in
    let front : length b ≡ length p - n =
      ap length (sym body) ∙ omega (arith, length-take (length p - n) p) in
    let count : 16 - length b % 16 ≡ n = omega (arith, front, inside, multiple, positive, small) in
    let octet : n % 256 ≡ n = omega (arith, small) in
    rw (count, octet)
      (ap (λ (x : Bytes). x ++ replicate n n) (sym body)
        ∙ ap (λ (x : Bytes). take (length p - n) p ++ x)
            (sym (rest ∙ ap (λ (k : ℕ). replicate k n) size))
        ∙ take-append-drop (length p - n) p)

-- At the block size of AES, `pkcs7Unpad` accepts a text exactly if it is the padding of another,
-- and returns that one.
pub pkcs7_unpad_iff : (p b : Bytes) → (pkcs7_unpad p 16 ≡ some b) ↔ (pkcs7_pad b 16 ≡ p)
pkcs7_unpad_iff p b = (pad-unpad p b, λ e. rw (← e) (unpad-pad b))

-- The padded text is a positive number of whole blocks, and at most one block longer.
pub length-pkcs7_pad :
    (b : Bytes)
    → (length (pkcs7_pad b 16) % 16 ≡ 0)
      × (length b < length (pkcs7_pad b 16))
      × (length (pkcs7_pad b 16) ≤ length b + 16)
unfolding pkcs7_pad
length-pkcs7_pad b =
    let n = 16 - length b % 16 in
    omega (arith, length-append b (replicate n (n % 256)), length-replicate n (n % 256))

replicate-IsByte : (k n : ℕ) → n < 256 → All IsByte (replicate k n)
replicate-IsByte zero n h = tt
replicate-IsByte (suc k) n h = (h, replicate-IsByte k n h)

pub pkcs7_pad-IsByte : (b : Bytes) (size : ℕ) → All IsByte b → All IsByte (pkcs7_pad b size)
unfolding pkcs7_pad
pkcs7_pad-IsByte b size h = All-append IsByte b _ h (replicate-IsByte _ _ (omega arith))
