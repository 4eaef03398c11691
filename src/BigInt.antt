-- ===== src/BigInt.antt =====
-- `big.Int`: `SetBytes` and `FillBytes`, the big-endian octets of a number.
use jose.Common.{
  ℕ, zero, suc, ◌+◌, ◌*◌, ◌/◌, ◌%◌, ◌^◌, ◌<◌, ◌≡◌, refl, ◌∙◌, [], ◌∷◌, ◌++◌, Bytes, IsByte, All,
  length, length-append, All-append, arith, ◌≤◌, ◌==◌, if◌then◌else◌, Bool-cases, inl, inr,
}
use native.Mathlib.Nat.{pow-suc}

-- The octets read so far are the number `acc`.
unfoldable pub read_octets : ℕ → Bytes → ℕ
read_octets acc [] = acc
read_octets acc (x ∷ b) = read_octets (acc * 256 + x) b

unfoldable pub set_bytes : Bytes → ℕ
unfolding read_octets
set_bytes b = read_octets 0 b

-- `n.FillBytes` of a slice of `size` octets, for a number that fits. Callers test that it does, since
-- Go panics where it does not.
unfoldable pub fill_bytes : ℕ → ℕ → Bytes
fill_bytes zero n = []
fill_bytes (suc size) n = fill_bytes size (n / 256) ++ (n % 256 ∷ [])

pub length-fill_bytes : (size n : ℕ) → length (fill_bytes size n) ≡ size
unfolding fill_bytes
length-fill_bytes zero n = refl
length-fill_bytes (suc size) n =
    length-append (fill_bytes size (n / 256)) _ ∙ omega (arith, length-fill_bytes size (n / 256))

pub fill_bytes-IsByte : (size n : ℕ) → All IsByte (fill_bytes size n)
unfolding fill_bytes
fill_bytes-IsByte zero n = tt
fill_bytes-IsByte (suc size) n =
    All-append IsByte (fill_bytes size (n / 256)) _ (fill_bytes-IsByte size (n / 256)) (omega arith)

read_octets-append :
    (b : Bytes) (x acc : ℕ) → read_octets acc (b ++ (x ∷ [])) ≡ read_octets acc b * 256 + x
unfolding read_octets
read_octets-append [] x acc = refl
read_octets-append (y ∷ b) x acc = read_octets-append b x (acc * 256 + y)

-- A number that fits is read back from its octets.
pub set_bytes-fill_bytes : (size n : ℕ) → n < 256 ^ size → set_bytes (fill_bytes size n) ≡ n
unfolding set_bytes fill_bytes
set_bytes-fill_bytes zero n h = omega arith
set_bytes-fill_bytes (suc size) n h =
    let ih = set_bytes-fill_bytes size (n / 256) (omega (arith, pow-suc 256 size)) in
    read_octets-append (fill_bytes size (n / 256)) (n % 256) 0 ∙ omega (arith, ih)

-- `n.Bytes()`: the octets with no zero in front. Fuel: there are no more octets than the number says.
pub octets_of : ℕ → ℕ → Bytes
octets_of zero n = []
octets_of (suc fuel) n =
    let rest = octets_of fuel (n / 256) ++ (n % 256 ∷ []) in if n == 0 then [] else rest

pub big_bytes : ℕ → Bytes
unfolding octets_of
big_bytes n = octets_of n n

octets_of-IsByte : (fuel n : ℕ) → All IsByte (octets_of fuel n)
unfolding octets_of
octets_of-IsByte zero n = tt
octets_of-IsByte (suc fuel) n = elim (Bool-cases (n == 0)) [
  | inl done ↦ rw done tt
  | inr more ↦ rw more (
      All-append IsByte (octets_of fuel (n / 256)) _ (octets_of-IsByte fuel (n / 256))
        (omega arith))
]

pub big_bytes-IsByte : (n : ℕ) → All IsByte (big_bytes n)
unfolding big_bytes
big_bytes-IsByte n = octets_of-IsByte n n

set_bytes-octets_of : (fuel n : ℕ) → n ≤ fuel → set_bytes (octets_of fuel n) ≡ n
unfolding set_bytes octets_of
set_bytes-octets_of zero n h = omega arith
set_bytes-octets_of (suc fuel) n h = elim (Bool-cases (n == 0)) [
  | inl done ↦ rw done (ground arith)
  | inr more ↦
      let ih = set_bytes-octets_of fuel (n / 256) (ground arith) in
      rw more (read_octets-append (octets_of fuel (n / 256)) (n % 256) 0 ∙ omega (arith, ih))
]

-- The fuel is enough: a number is read back from its octets.
pub set_bytes-big_bytes : (n : ℕ) → set_bytes (big_bytes n) ≡ n
unfolding big_bytes
set_bytes-big_bytes n = set_bytes-octets_of n n (omega arith)
