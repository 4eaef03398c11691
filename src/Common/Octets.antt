-- ===== src/Common/Octets.antt =====
-- Big-endian words as octets, and the exclusive or of octet strings.
use Prim.Native.Nat.{ℕ, suc, ◌/◌, ◌%◌, ◌^◌, bit_xor}
use mathlib.Core.Path.{◌≡◌, refl, ap, ap₂}
use mathlib.Core.List.{[], ◌∷◌}
use native.Mathlib.Omega.{arith}
use jose.Common.Lists.{length, All}
use jose.Common.Text.{Bytes, IsByte}
use jose.Common.Bits.{xor_cancel, xor_byte}

-- `binary.BigEndian.PutUint32` and `PutUint64`
pub put_uint32 : ℕ → Bytes
put_uint32 t = (t / 2 ^ 24 % 256) ∷ (t / 2 ^ 16 % 256) ∷ (t / 2 ^ 8 % 256) ∷ (t % 256) ∷ []

unfoldable pub put_uint64 : ℕ → Bytes
put_uint64 t =
    (t / 2 ^ 56 % 256)
    ∷ (t / 2 ^ 48 % 256)
    ∷ (t / 2 ^ 40 % 256)
    ∷ (t / 2 ^ 32 % 256)
    ∷ (t / 2 ^ 24 % 256)
    ∷ (t / 2 ^ 16 % 256)
    ∷ (t / 2 ^ 8 % 256)
    ∷ (t % 256)
    ∷ []

-- `b[i] ^= tb[i]` over two slices; past the end of `tb` nothing is written.
unfoldable pub xor_octets : Bytes → Bytes → Bytes
xor_octets [] tb = []
xor_octets (x ∷ b) [] = x ∷ b
xor_octets (x ∷ b) (y ∷ tb) = bit_xor x y ∷ xor_octets b tb

pub xor_octets_cancel : (b tb : Bytes) → xor_octets (xor_octets b tb) tb ≡ b
unfolding xor_octets
xor_octets_cancel [] tb = refl
xor_octets_cancel (x ∷ b) [] = refl
xor_octets_cancel (x ∷ b) (y ∷ tb) = ap₂ ◌∷◌ (xor_cancel x y) (xor_octets_cancel b tb)

pub length-xor_octets : (b tb : Bytes) → length (xor_octets b tb) ≡ length b
unfolding xor_octets
length-xor_octets [] tb = refl
length-xor_octets (x ∷ b) [] = refl
length-xor_octets (x ∷ b) (y ∷ tb) = ap suc (length-xor_octets b tb)

pub xor_octets-IsByte : (b tb : Bytes) → All IsByte b → All IsByte tb → All IsByte (xor_octets b tb)
unfolding xor_octets
xor_octets-IsByte [] tb h k = tt
xor_octets-IsByte (x ∷ b) [] h k = h
xor_octets-IsByte (x ∷ b) (y ∷ tb) h k = (xor_byte x y h.0 k.0, xor_octets-IsByte b tb h.1 k.1)

pub put_uint64-IsByte : (t : ℕ) → All IsByte (put_uint64 t)
unfolding put_uint64
put_uint64-IsByte t = omega arith

pub length-put_uint32 : (t : ℕ) → length (put_uint32 t) ≡ 4
unfolding put_uint32
length-put_uint32 t = refl
