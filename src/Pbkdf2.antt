-- ===== src/Pbkdf2.antt =====
-- pbkdf2.go: PBKDF2-HMAC (RFC 8018 §5.2).
pub mod Tests
pub mod Blocks
use jose.Common.{
  ℕ, zero, suc, ◌+◌, ◌-◌, ◌/◌, ◌%◌, ◌^◌, ◌*◌, Bool, not, List, [], ◌∷◌, ◌++◌, Bytes, take, length,
}
use jose.Common.Int.{ℤ, pos, negsuc, pos_part, ltb_ℤ}
use jose.Common.Octets.{put_uint32, xor_octets}
use jose.Common.Outcome.{Result, ok, err, ◌>>=◌, ◌>>◌, guard}
use jose.Errors.{Error, iteration_count, invalid_key}
use jose.Hashing.{Hash, Hashing, hash_size}

abbrev pub default_pbes2_count : ℤ
default_pbes2_count = pos 100000

abbrev pub min_pbes2_count : ℤ
min_pbes2_count = pos 1000

abbrev pub max_pbes2_count : ℤ
max_pbes2_count = pos 1000000

abbrev pub max_pbes2_salt_input : ℕ
max_pbes2_salt_input = 1024

module _ (prf : Bytes → Bytes) where
  -- `for i := 1; i < iterations; i++`, on the rounds left.
  pub iterate : ℕ → Bytes → Bytes → Bytes
  iterate zero u t = t
  iterate (suc i) u t = let u' = prf u in iterate i u' (xor_octets t u')

  -- One pass of the outer loop: the block number goes behind the salt.
  pub block : Bytes → ℕ → ℕ → Bytes
  block salt iterations b =
      let u = prf (salt ++ put_uint32 (b % 2 ^ 32)) in iterate (iterations - 1) u u

  -- `for b := 1; b <= blocks; b++`, on the blocks left, from block `b` on.
  pub blocks_from : Bytes → ℕ → ℕ → ℕ → Bytes → Bytes
  blocks_from salt iterations zero b out = out
  blocks_from salt iterations (suc left) b out =
      blocks_from salt iterations left (b + 1) (out ++ block salt iterations b)

-- `PBKDF2`; the prefix `out[:keyLen]` is there, since the blocks have `keyLen` octets at least.
pub pbkdf2 : Hashing → Hash → Bytes → Bytes → ℤ → ℤ → Result Error Bytes
pbkdf2 hs h password salt iterations key_len = do
  guard (ltb_ℤ (pos 0) iterations) iteration_count
  guard (ltb_ℤ (pos 0) key_len) invalid_key
  let n = pos_part key_len
  let blocks = (n + hash_size h - 1) / hash_size h
  ok (take n (blocks_from (hs.hmac h password) salt (pos_part iterations) blocks 1 []))

-- `pbes2SaltInput`
pub pbes2_salt_input : Bytes → Bytes → Bytes
pbes2_salt_input alg p2s = alg ++ (0 ∷ p2s)
