-- ===== src/Common/Bits.antt =====
-- `^` and `|` on octets: the laws that padding and key wrap rest on, from the binary digits.
use Prim.Native.Nat.{
  ℕ, zero, suc, ◌+◌, ◌*◌, ◌/◌, ◌%◌, ◌^◌, ◌≤◌, ◌<◌, max, bit_xor, bit_or, digits, bitwise,
  bit_xor-bitwise, bit_or-bitwise, differ,
}
use mathlib.Core.Path.{◌≡◌, refl, sym, ap, ◌∙◌}
use native.Mathlib.Nat.{le_refl, pow-suc}
use native.Mathlib.Omega.{arith}

-- `digits` reads the binary digits with fuel; more fuel than the number changes nothing.
module _ (same : ℕ → ℕ) (combine : ℕ → ℕ → ℕ) where
  digits_enough :
      (fuel more u v : ℕ)
      → u ≤ fuel
      → u ≤ more
      → digits same combine fuel u v ≡ digits same combine more u v
  digits_enough (suc fuel) (suc more) (suc u) v hf hm =
      rw (digits_enough fuel more (suc u / 2) (v / 2) (omega arith) (omega arith))
  digits_enough (suc fuel) (suc more) zero v hf hm = refl
  digits_enough zero (suc more) zero v hf hm = refl
  digits_enough (suc fuel) zero zero v hf hm = refl
  digits_enough zero zero u v hf hm = refl
  digits_enough (suc fuel) zero (suc u) v hf hm = absurd (omega arith)
  digits_enough zero (suc more) (suc u) v hf hm = absurd (omega arith)

  low_digit :
      (u v : ℕ)
      → bitwise same combine (suc u) v
        ≡ bitwise same combine (suc u / 2) (v / 2) * 2 + combine (suc u % 2) (v % 2)
  low_digit u v =
      let rest = digits_enough u (suc u / 2) (suc u / 2) (v / 2) (omega arith) (le_refl _) in
      omega (arith, rest)

-- The digit of `^` is set where exactly one of the two is.
differ_bits : (x y : ℕ) → x < 2 → y < 2 → differ x y ≡ (x + y) % 2
differ_bits zero y hx hy = omega arith
differ_bits (suc zero) zero hx hy = refl
differ_bits (suc zero) (suc zero) hx hy = refl
differ_bits (suc zero) (suc (suc y)) hx hy = absurd (omega arith)
differ_bits (suc (suc x)) y hx hy = absurd (omega arith)

differ_mod : (a b : ℕ) → differ (a % 2) (b % 2) ≡ (a % 2 + b % 2) % 2
differ_mod a b = differ_bits (a % 2) (b % 2) (omega arith) (omega arith)

pub bit_xor_step : (a b : ℕ) → bit_xor a b ≡ bit_xor (a / 2) (b / 2) * 2 + (a % 2 + b % 2) % 2
bit_xor_step zero b = simp bit_xor-bitwise (omega arith)
bit_xor_step (suc a) b = omega (
  arith,
  bit_xor-bitwise (suc a) b,
  bit_xor-bitwise (suc a / 2) (b / 2),
  low_digit (λ y. y) differ a b,
  differ_mod (suc a) b,
)

pub bit_or_step : (u v : ℕ) → bit_or u v ≡ bit_or (u / 2) (v / 2) * 2 + max (u % 2) (v % 2)
bit_or_step zero v = simp bit_or-bitwise (omega arith)
bit_or_step (suc u) v = simp bit_or-bitwise (low_digit (λ d. d) max u v)

xor_zero_left : (b : ℕ) → bit_xor 0 b ≡ b
xor_zero_left b = bit_xor-bitwise 0 b

or_zero_left : (b : ℕ) → bit_or 0 b ≡ b
or_zero_left b = bit_or-bitwise 0 b

xor_self_below : (n b : ℕ) → b ≤ n → bit_xor b b ≡ 0
xor_self_below n zero h = refl
xor_self_below zero (suc b) h = absurd (omega arith)
xor_self_below (suc n) (suc b) h =
    omega (arith, bit_xor_step (suc b) (suc b), xor_self_below n (suc b / 2) (omega arith))

-- Applying the same mask twice gives the value back.
xor_cancel_below : (n a b : ℕ) → a ≤ n → bit_xor (bit_xor a b) b ≡ a
xor_cancel_below n zero b h = rw (xor_zero_left, xor_self_below b b (le_refl b))
xor_cancel_below zero (suc a) b h = absurd (omega arith)
xor_cancel_below (suc n) (suc a) b h =
    let step = bit_xor_step (suc a) b in
    let half : bit_xor (suc a) b / 2 ≡ bit_xor (suc a / 2) (b / 2) = omega arith in
    omega (
      arith,
      bit_xor_step (bit_xor (suc a) b) b,
      ap (λ t. bit_xor t (b / 2)) half,
      xor_cancel_below n (suc a / 2) (b / 2) (omega arith),
    )

pub xor_cancel : (a b : ℕ) → bit_xor (bit_xor a b) b ≡ a
xor_cancel a b = xor_cancel_below a a b (le_refl a)

pub xor_self : (a : ℕ) → bit_xor a a ≡ 0
xor_self a = xor_self_below a a (le_refl a)

pub eq_of_xor : (a b : ℕ) → bit_xor a b ≡ 0 → a ≡ b
eq_of_xor a b e = sym (xor_cancel a b) ∙ ap (λ t. bit_xor t b) e ∙ xor_zero_left b

xor_bits : (k a b : ℕ) → a < 2 ^ k → b < 2 ^ k → bit_xor a b < 2 ^ k
xor_bits zero a b ha hb = omega (arith, xor_zero_left b, ap (λ t. bit_xor t b) (zero_of_lt a ha))
  where
    zero_of_lt : (x : ℕ) → x < 1 → x ≡ 0
    zero_of_lt x h = omega arith
xor_bits (suc k) a b ha hb = omega (
  arith,
  pow-suc 2 k,
  bit_xor_step a b,
  xor_bits k (a / 2) (b / 2) (omega (arith, pow-suc 2 k)) (omega (arith, pow-suc 2 k)),
)

pub xor_byte : (a b : ℕ) → a < 256 → b < 256 → bit_xor a b < 256
xor_byte a b = xor_bits 8 a b

or_zero_below : (n a b : ℕ) → a ≤ n → bit_or a b ≡ 0 → (a ≡ 0) × (b ≡ 0)
or_zero_below n zero b h e = (refl, sym (or_zero_left b) ∙ e)
or_zero_below zero (suc a) b h e = absurd (omega arith)
or_zero_below (suc n) (suc a) b h e =
    let rest =
      or_zero_below n (suc a / 2) (b / 2) (omega arith) (omega (arith, bit_or_step (suc a) b)) in
    omega (arith, bit_or_step (suc a) b, rest)

-- `a | b` is 0 only if both are.
pub or_zero : (a b : ℕ) → bit_or a b ≡ 0 → (a ≡ 0) × (b ≡ 0)
or_zero a b e = or_zero_below a a b (le_refl a) e
