-- ===== src/Pbkdf2/Blocks.antt =====
-- PBKDF2 against the formulas of RFC 8018 §5.2.
use jose.Common.{
  ◌==◌, if◌then◌else◌, ◌⊎◌, ℕ, zero, suc, ◌+◌, ◌-◌, ◌/◌, ◌%◌, ◌^◌, ◌*◌, ◌≡◌, ◌≤◌, ◌<◌, ap, ◌∙◌, [],
  ◌++◌, Bytes, take, length, arith, length-append, length-take,
}
use jose.Common.Int.{ℤ, pos, negsuc, pos_part}
use jose.Common.Octets.{put_uint32, xor_octets, length-xor_octets}
use jose.Common.Outcome.{ok, err}
use jose.Errors.{iteration_count, invalid_key}
use jose.Hashing.{Hash, Hashing, sha1, sha256, sha384, sha512, hash_size, IsHashing}
use jose.Pbkdf2.{iterate, block, blocks_from, pbkdf2}

-- U_1 = PRF (P, S || INT (i)), U_(j+1) = PRF (P, U_j).
abbrev pub chain : (Bytes → Bytes) → Bytes → ℕ → Bytes
chain prf seed zero = prf seed
chain prf seed (suc j) = prf (chain prf seed j)

-- U_1 \xor U_2 \xor … \xor U_(j+1)
abbrev pub chain_xor : (Bytes → Bytes) → Bytes → ℕ → Bytes
chain_xor prf seed zero = chain prf seed zero
chain_xor prf seed (suc j) = xor_octets (chain_xor prf seed j) (chain prf seed (suc j))

-- T_1 || … || T_l, where T_i = F (P, S, c, i).
abbrev pub derived : (Bytes → Bytes) → Bytes → ℕ → ℕ → Bytes
derived prf salt c zero = []
derived prf salt c (suc l) =
    derived prf salt c l ++ chain_xor prf (salt ++ put_uint32 (suc l % 2 ^ 32)) (c - 1)

iterate-chain :
    (prf : Bytes → Bytes) (seed : Bytes) (i j : ℕ)
    → iterate prf i (chain prf seed j) (chain_xor prf seed j) ≡ chain_xor prf seed (j + i)
unfolding iterate
iterate-chain prf seed zero j = let e : j ≡ j + 0 = omega arith in ap (chain_xor prf seed) e
iterate-chain prf seed (suc i) j =
    let e : suc j + i ≡ j + suc i = omega arith in
    iterate-chain prf seed i (suc j) ∙ ap (chain_xor prf seed) e

block-chain :
    (prf : Bytes → Bytes) (salt : Bytes) (c b : ℕ)
    → block prf salt c b ≡ chain_xor prf (salt ++ put_uint32 (b % 2 ^ 32)) (c - 1)
unfolding block
block-chain prf salt c b = iterate-chain prf _ (c - 1) 0 ∙ ap (chain_xor prf _) (omega arith)

blocks_from-derived :
    (prf : Bytes → Bytes) (salt : Bytes) (c left b : ℕ)
    → blocks_from prf salt c left (suc b) (derived prf salt c b) ≡ derived prf salt c (b + left)
unfolding blocks_from
blocks_from-derived prf salt c zero b = let e : b ≡ b + 0 = omega arith in ap (derived prf salt c) e
blocks_from-derived prf salt c (suc left) b =
    let next : suc b + 1 ≡ suc (suc b) = omega arith in
    let sum : suc b + left ≡ b + suc left = omega arith in
    rw (block-chain prf salt c (suc b), next) (blocks_from-derived prf salt c left (suc b))
    ∙ ap (derived prf salt c) sum

module _ (hs : Hashing) (laws : IsHashing hs) (h : Hash) (password salt : Bytes) where
  length-chain : (seed : Bytes) (j : ℕ) → length (chain (hs.hmac h password) seed j) ≡ hash_size h
  length-chain seed zero = laws.length-hmac h password seed
  length-chain seed (suc j) = laws.length-hmac h password _

  length-chain_xor :
      (seed : Bytes) (j : ℕ) → length (chain_xor (hs.hmac h password) seed j) ≡ hash_size h
  length-chain_xor seed zero = length-chain seed zero
  length-chain_xor seed (suc j) =
      let prf = hs.hmac h password in
      length-xor_octets (chain_xor prf seed j) (chain prf seed (suc j)) ∙ length-chain_xor seed j

  length-derived : (c l : ℕ) → length (derived (hs.hmac h password) salt c l) ≡ l * hash_size h
  length-derived c zero = omega arith
  length-derived c (suc l) =
      length-append (derived (hs.hmac h password) salt c l) _
      ∙ omega (
        arith,
        length-derived c l,
        length-chain_xor (salt ++ put_uint32 (suc l % 2 ^ 32)) (c - 1),
      )

-- The blocks hold the octets that are asked for.
enough_blocks : (h : Hash) (n : ℕ) → n ≤ (n + hash_size h - 1) / hash_size h * hash_size h
unfolding hash_size
enough_blocks sha1 n = omega arith
enough_blocks sha256 n = omega arith
enough_blocks sha384 n = omega arith
enough_blocks sha512 n = omega arith

module _ (hs : Hashing) (laws : IsHashing hs) (h : Hash) (password salt : Bytes) (c n : ℕ) where
  abbrev block_count : ℕ
  block_count = (n + hash_size h - 1) / hash_size h

  -- For a positive iteration count and key length, `PBKDF2` returns the first `n` octets of
  -- T_1 || T_2 || … as RFC 8018 §5.2 defines it, and these are `n` octets.
  pub pbkdf2-derived :
      0 < c
      → 0 < n
      → (pbkdf2 hs h password salt (pos c) (pos n)
          ≡ ok (take n (derived (hs.hmac h password) salt c block_count)))
        × (length (take n (derived (hs.hmac h password) salt c block_count)) ≡ n)
  unfolding pbkdf2
  pbkdf2-derived hc hn =
      let dk = derived (hs.hmac h password) salt c block_count in
      let run = blocks_from-derived (hs.hmac h password) salt c block_count 0 in
      let same : 0 + block_count ≡ block_count = omega arith in
      (
        rw (run, same) (ground arith),
        omega (
          arith,
          length-take n dk,
          length-derived hs laws h password salt c block_count,
          enough_blocks h n,
        ),
      )

-- A count or a key length that is not positive is refused; the count is looked at first.
pbkdf2_refused :
    (hs : Hashing) (h : Hash) (password salt : Bytes) (c n : ℤ)
    → (pos_part c ≡ 0) ⊎ (pos_part n ≡ 0)
    → pbkdf2 hs h password salt c n ≡ err (if pos_part c == 0 then iteration_count else invalid_key)
unfolding pbkdf2
pbkdf2_refused hs h password salt (pos c) (pos n) e = ground arith
pbkdf2_refused hs h password salt (pos c) (negsuc n) e = ground arith
pbkdf2_refused hs h password salt (negsuc c) n e = ground arith
