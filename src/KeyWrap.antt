-- ===== src/KeyWrap.antt =====
-- keywrap.go: AES Key Wrap (RFC 3394).
pub mod Tests
pub mod Rounds
pub mod RoundTrip
pub mod Reverse
use jose.Common.Octets.{put_uint64, xor_octets}
use jose.Common.{
  ℕ, zero, suc, ◌+◌, ◌-◌, ◌*◌, ◌/◌, ◌%◌, ◌^◌, Bool, true, false, not, ◌&&◌, ◌||◌, List, [], ◌∷◌,
  ◌++◌, ltb, ◌==◌, if◌then◌else◌, Bytes, length, take, drop, replicate, eqb,
}
use jose.Common.Outcome.{Result, ok, err, ◌>>=◌, ◌>>◌, guard}
use jose.Errors.{Error, invalid_key, malformed, decrypt_failed}
use jose.Cipher.{BlockCipher, is_aes_key}

-- The default initial value A[0].
abbrev pub aes_kw_iv : Bytes
aes_kw_iv = replicate 8 0xa6

-- The last 8 octets of `b` against the octets of `t`.
pub xor_uint64 : Bytes → ℕ → Bytes
xor_uint64 b t = let at = length b - 8 in take at b ++ xor_octets (drop at b) (put_uint64 t)

-- `r[at : at+8]`, and `copy(r[at : at+8], block)`.
pub slice8 : Bytes → ℕ → Bytes
slice8 r at = take 8 (drop at r)

pub copy8 : Bytes → ℕ → Bytes → Bytes
copy8 r at block = take at r ++ (block ++ drop (at + 8) r)

-- The registers of both loops: A, and R as one octet string.
pub record Registers : Type 0 where
  pub a : Bytes
  pub r : Bytes

-- t = (n*j)+i as a `uint64`.
pub counter : ℕ → ℕ → ℕ → ℕ
counter n j i = (n * j + i) % 2 ^ 64

module _ (aes : BlockCipher) (kek : Bytes) (n : ℕ) where
  -- The body of the inner loop of `AESKeyWrap`; `i` counts from 0 here, from 1 in the source.
  pub wrap_step : ℕ → ℕ → Registers → Registers
  wrap_step j i s =
      let buf = aes.encrypt kek (s.a ++ slice8 s.r (i * 8)) in
      record {
        a = xor_uint64 (take 8 buf) (counter n j (i + 1));
        r = copy8 s.r (i * 8) (drop 8 buf);
      }

  pub unwrap_step : ℕ → ℕ → Registers → Registers
  unwrap_step j i s =
      let buf = aes.decrypt kek (xor_uint64 s.a (counter n j (i + 1)) ++ slice8 s.r (i * 8)) in
      record { a = take 8 buf; r = copy8 s.r (i * 8) (drop 8 buf) }

  -- `for i := 1; i <= n; i++`, on the rounds done.
  pub wrap_inner : ℕ → ℕ → Registers → Registers
  wrap_inner j zero s = s
  wrap_inner j (suc i) s = wrap_step j i (wrap_inner j i s)

  -- `for i := n; i >= 1; i--`, on the rounds left.
  pub unwrap_inner : ℕ → ℕ → Registers → Registers
  unwrap_inner j zero s = s
  unwrap_inner j (suc i) s = unwrap_inner j i (unwrap_step j i s)

  -- `for j := 0; j < 6; j++` and `for j := 5; j >= 0; j--`.
  pub wrap_outer : ℕ → Registers → Registers
  wrap_outer zero s = s
  wrap_outer (suc j) s = wrap_inner j n (wrap_outer j s)

  pub unwrap_outer : ℕ → Registers → Registers
  unwrap_outer zero s = s
  unwrap_outer (suc j) s = unwrap_outer j (unwrap_inner j n s)

module _ (aes : BlockCipher) where
  -- `AESKeyWrap`
  pub aes_key_wrap : Bytes → Bytes → Result Error Bytes
  aes_key_wrap kek plaintext = do
    guard (is_aes_key kek) invalid_key
    guard (not (not (length plaintext % 8 == 0) || ltb (length plaintext) 16)) invalid_key
    let n = length plaintext / 8
    let s = wrap_outer aes kek n 6 (record { a = aes_kw_iv; r = plaintext })
    ok (s.a ++ s.r)

  -- `AESKeyUnwrap`
  pub aes_key_unwrap : Bytes → Bytes → Result Error Bytes
  aes_key_unwrap kek ciphertext = do
    guard (is_aes_key kek) invalid_key
    guard (not (not (length ciphertext % 8 == 0) || ltb (length ciphertext) 24)) malformed
    let n = length ciphertext / 8 - 1
    let s = unwrap_outer aes kek n 6 (record { a = take 8 ciphertext; r = drop 8 ciphertext })
    if eqb s.a aes_kw_iv then ok s.r else err decrypt_failed
