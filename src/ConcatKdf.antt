-- ===== src/ConcatKdf.antt =====
-- ecdh.go: `ConcatKDF` and `lengthPrefixed`, the single-hash form of NIST SP 800-56A.
pub mod Tests
pub mod Rounds
use jose.Common.{
  ℕ, zero, suc, ◌+◌, ◌*◌, ◌%◌, ◌^◌, Option, none, some, List, [], ◌∷◌, ◌++◌, Bytes, take, length,
  ltb, if◌then◌else◌,
}
use jose.Common.Int.{ℤ, pos, pos_part, ltb_ℤ}
use jose.Common.Octets.{put_uint32}
use jose.Common.Outcome.{Result, ok, err, ◌>>=◌, ◌>>◌, guard}
use jose.Errors.{Error, invalid_key}
use jose.Hashing.{Hashing, sha256}

pub length_prefixed : Bytes → Bytes
length_prefixed b = put_uint32 (length b % 2 ^ 32) ++ b

-- AlgorithmID || PartyUInfo || PartyVInfo || SuppPubInfo
pub other_info : Bytes → Bytes → Bytes → ℕ → Bytes
other_info alg_id apu apv key_len =
    length_prefixed alg_id
    ++ (length_prefixed apu ++ (length_prefixed apv ++ put_uint32 (key_len % 2 ^ 32 * 8 % 2 ^ 32)))

-- `for i := uint32(1); len(out) < keyLen; i++`; `none` if the fuel runs out.
pub rounds : Hashing → Bytes → Bytes → ℕ → ℕ → ℕ → Bytes → Option Bytes
rounds hs z other key_len zero i out = none
rounds hs z other key_len (suc fuel) i out =
    let more =
      rounds hs z other key_len fuel ((i + 1) % 2 ^ 32)
        (out ++ hs.sum sha256 (put_uint32 i ++ (z ++ other))) in
    if ltb (length out) key_len then more else some (take key_len out)

-- `ConcatKDF`. Each round adds 32 octets, so `keyLen + 1` tests of the loop are enough.
pub concat_kdf : Hashing → Bytes → Bytes → Bytes → Bytes → ℤ → Result Error (Option Bytes)
concat_kdf hs z alg_id apu apv key_len = do
  guard (ltb_ℤ (pos 0) key_len) invalid_key
  let n = pos_part key_len
  ok (rounds hs z (other_info alg_id apu apv n) n (suc n) 1 [])
