-- ===== src/ConcatKdf/Rounds.antt =====
-- `ConcatKDF` against the formula of NIST SP 800-56A.
use jose.Common.{
  ltb, ℕ, zero, suc, ◌+◌, ◌/◌, ◌%◌, ◌^◌, ◌*◌, ◌≡◌, refl, ◌<◌, ◌∙◌, true, [], ◌++◌, Bytes, take,
  length, arith, length-append, length-take, some,
}
use jose.Common.Int.{pos}
use jose.Common.Octets.{put_uint32}
use jose.Common.Outcome.{ok}
use jose.Hashing.{Hashing, sha256, hash_size, IsHashing}
use jose.ConcatKdf.{length_prefixed, other_info, rounds, concat_kdf}

-- H (1 || Z || OtherInfo) || … || H (l || Z || OtherInfo), the counter a 32-bit word.
abbrev pub hashes : Hashing → Bytes → Bytes → ℕ → Bytes
hashes hs z other zero = []
hashes hs z other (suc l) =
    hashes hs z other l ++ hs.sum sha256 (put_uint32 (suc l % 2 ^ 32) ++ (z ++ other))

module _ (hs : Hashing) (laws : IsHashing hs) (z other : Bytes) where
  length-hashes : (l : ℕ) → length (hashes hs z other l) ≡ l * 32
  unfolding hash_size
  length-hashes zero = omega arith
  length-hashes (suc l) =
      length-append (hashes hs z other l) _
      ∙ omega (
        arith,
        length-hashes l,
        laws.length-sum sha256 (put_uint32 (suc l % 2 ^ 32) ++ (z ++ other)),
      )

  -- After `l` rounds the output is the first `l` hashes; the loop ends with the first that suffice.
  rounds-hashes :
      (n fuel l left : ℕ)
      → l + left ≡ (n + 31) / 32
      → left < fuel
      → rounds hs z other n fuel (suc l % 2 ^ 32) (hashes hs z other l)
        ≡ some (take n (hashes hs z other ((n + 31) / 32)))
  unfolding rounds
  rounds-hashes n zero l left e h = absurd (omega arith)
  rounds-hashes n (suc fuel) l zero e h =
      let all : l ≡ (n + 31) / 32 = omega arith in rw (← all) (ground (arith, length-hashes l))
  rounds-hashes n (suc fuel) l (suc left) e h =
      let more : ltb (length (hashes hs z other l)) n ≡ true = ground (arith, length-hashes l) in
      let next : (suc l % 2 ^ 32 + 1) % 2 ^ 32 ≡ suc (suc l) % 2 ^ 32 = omega arith in
      rw (more, next) (rounds-hashes n fuel (suc l) left (omega arith) (omega arith))

-- OtherInfo, by RFC 7518 4.6.2: each of AlgorithmID, PartyUInfo and PartyVInfo behind its length as a 32-bit word,
-- then SuppPubInfo, the length of the key in bits; SuppPrivInfo is empty.
abbrev pub fixed_info : Bytes → Bytes → Bytes → ℕ → Bytes
fixed_info alg_id apu apv n =
    (put_uint32 (length alg_id % 2 ^ 32) ++ alg_id)
    ++ ((put_uint32 (length apu % 2 ^ 32) ++ apu)
        ++ ((put_uint32 (length apv % 2 ^ 32) ++ apv) ++ put_uint32 (8 * n % 2 ^ 32)))

other_info-fixed_info :
    (alg_id apu apv : Bytes) (n : ℕ) → other_info alg_id apu apv n ≡ fixed_info alg_id apu apv n
unfolding other_info length_prefixed
other_info-fixed_info alg_id apu apv n =
    let bits : n % 2 ^ 32 * 8 % 2 ^ 32 ≡ 8 * n % 2 ^ 32 = omega arith in rw bits refl

module _ (hs : Hashing) (laws : IsHashing hs) (z alg_id apu apv : Bytes) (n : ℕ) where
  abbrev key_octets : Bytes
  key_octets = take n (hashes hs z (fixed_info alg_id apu apv n) ((n + 31) / 32))

  -- For a positive key length the loop of `ConcatKDF` ends, with the first `n` octets of the hashes that
  -- SP 800-56A prescribes, counted from 1, over Z and the OtherInfo of RFC 7518 4.6.2: the algorithm, apu and apv,
  -- each behind its length in octets, and the length of the key in bits. These are `n` octets.
  pub concat_kdf-hashes :
      0 < n
      → (concat_kdf hs z alg_id apu apv (pos n) ≡ ok (some key_octets)) × (length key_octets ≡ n)
  unfolding concat_kdf
  concat_kdf-hashes h =
      let other = other_info alg_id apu apv n in
      let same = other_info-fixed_info alg_id apu apv n in
      let run =
        rounds-hashes hs laws z other n (suc n) 0 ((n + 31) / 32) (omega arith) (omega arith) in
      rw (← same) (
        rw run (ground arith),
        omega (
          arith,
          length-take n (hashes hs z other ((n + 31) / 32)),
          length-hashes hs laws z other ((n + 31) / 32),
        ),
      )
