-- ===== src/Pkcs7.antt =====
-- contentenc.go: `pkcs7Pad` and `pkcs7Unpad`.
pub mod Tests
pub mod RoundTrip
use Prim.Native.Nat.{bit_xor, bit_or}
use jose.Common.{
  ℕ, zero, suc, ◌+◌, ◌-◌, ◌%◌, Bool, not, ◌||◌, Option, none, some, List, [], ◌∷◌, ◌++◌, ltb, ◌==◌,
  if◌then◌else◌, Bytes, length, take, drop, replicate,
}

pub pkcs7_pad : Bytes → ℕ → Bytes
pkcs7_pad b block_size = let n = block_size - length b % block_size in b ++ replicate n (n % 256)

-- `b[len(b)-1]`, of a slice that is not empty.
pub last_octet : Bytes → ℕ
last_octet [] = 0
last_octet (x ∷ []) = x
last_octet (x ∷ y ∷ b) = last_octet (y ∷ b)

-- `bad |= b[i] ^ byte(n)` over the octets of the padding.
pub bad_octets : ℕ → Bytes → ℕ → ℕ
bad_octets n [] bad = bad
bad_octets n (x ∷ b) bad = bad_octets n b (bit_or bad (bit_xor x n))

pub pkcs7_unpad : Bytes → ℕ → Option Bytes
pkcs7_unpad b block_size =
    let n = last_octet b in
    if length b == 0 || not (length b % block_size == 0)
    then none
    else if n == 0 || (ltb block_size n || ltb (length b) n)
    then none
    else if not (bad_octets n (drop (length b - n) b) 0 == 0)
    then none
    else some (take (length b - n) b)
