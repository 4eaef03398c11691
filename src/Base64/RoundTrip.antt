-- ===== src/Base64/RoundTrip.antt =====
-- Decoding an encoded segment.
use jose.Common.{
  ℕ, ◌+◌, ◌*◌, ◌/◌, ◌%◌, ◌<◌, ◌≡◌, refl, ap, ◌∙◌, true, some, [], ◌∷◌, arith, IsByte, All, Bytes,
}
use jose.Common.Outcome.{ok}
use jose.Base64.{
  symbol, value, encode_segment, sextet, last_two, last_three, four, quanta, without_newlines,
  decode_string, is_symbol, screen, decode_segment,
}

value-symbol : (n : ℕ) → n < 64 → value (symbol n) ≡ some n
unfolding value symbol
value-symbol n h = ground arith

-- Every symbol passes the screen, and none of them is a dot.
pub is_symbol-symbol : (n : ℕ) → n < 64 → is_symbol (symbol n) ≡ true
unfolding is_symbol symbol
is_symbol-symbol n h = ground arith

sextet-symbol : (n : ℕ) → n < 64 → sextet (symbol n) ≡ ok n
unfolding sextet
sextet-symbol n h = ground (arith, value-symbol n h)

last_two-symbol :
    (x y : ℕ)
    → x < 64
    → y < 64
    → y % 16 ≡ 0
    → last_two (symbol x) (symbol y) ≡ ok ((x * 4 + y / 16) ∷ [])
unfolding last_two
last_two-symbol x y hx hy e = ground (arith, sextet-symbol x hx, sextet-symbol y hy)

last_three-symbol :
    (x y z : ℕ)
    → x < 64
    → y < 64
    → z < 64
    → z % 4 ≡ 0
    → last_three (symbol x) (symbol y) (symbol z)
      ≡ ok ((x * 4 + y / 16) ∷ (y % 16 * 16 + z / 4) ∷ [])
unfolding last_three
last_three-symbol x y z hx hy hz e =
    ground (arith, sextet-symbol x hx, sextet-symbol y hy, sextet-symbol z hz)

four-symbol :
    (x y z w : ℕ) (rest : Bytes)
    → x < 64
    → y < 64
    → z < 64
    → w < 64
    → four (symbol x) (symbol y) (symbol z) (symbol w) (ok rest)
      ≡ ok ((x * 4 + y / 16) ∷ (y % 16 * 16 + z / 4) ∷ (z % 4 * 64 + w) ∷ rest)
unfolding four
four-symbol x y z w rest hx hy hz hw =
    ground (arith, sextet-symbol x hx, sextet-symbol y hy, sextet-symbol z hz, sextet-symbol w hw)

-- The octets come back from their six-bit groups.
one_octet : (a : ℕ) → a < 256 → a / 4 * 4 + a % 4 * 16 / 16 ≡ a
one_octet a h = omega arith

second_octet : (a b : ℕ) → b < 256 → (a % 4 * 16 + b / 16) % 16 * 16 + b % 16 * 4 / 4 ≡ b
second_octet a b h = omega arith

quanta-encode : (seg : Bytes) → All IsByte seg → quanta (encode_segment seg) ≡ ok seg
unfolding quanta encode_segment
quanta-encode [] h = refl
quanta-encode (a ∷ []) h =
    last_two-symbol (a / 4) (a % 4 * 16) (omega arith) (omega arith) (omega arith) ∙ ground arith
quanta-encode (a ∷ b ∷ []) h =
    last_three-symbol (a / 4) (a % 4 * 16 + b / 16) (b % 16 * 4) (omega arith) (omega arith)
      (omega arith) (omega arith)
    ∙ ground arith
quanta-encode (a ∷ b ∷ c ∷ seg) h =
    ap (four _ _ _ _) (quanta-encode seg h.1.1.1)
    ∙ four-symbol (a / 4) (a % 4 * 16 + b / 16) (b % 16 * 4 + c / 64) (c % 64) seg (omega arith)
        (omega arith) (omega arith) (omega arith)
    ∙ ground arith

encode_segment-symbols :
    (seg : Bytes) → All IsByte seg → All (λ c. is_symbol c ≡ true) (encode_segment seg)
unfolding encode_segment
encode_segment-symbols [] h = tt
encode_segment-symbols (a ∷ []) h =
    (is_symbol-symbol _ (omega arith), (is_symbol-symbol _ (omega arith), tt))
encode_segment-symbols (a ∷ b ∷ []) h =
    (symbols_of (omega arith), (symbols_of (omega arith), (symbols_of (omega arith), tt)))
  where
    symbols_of : {n : ℕ} → n < 64 → is_symbol (symbol n) ≡ true
    symbols_of {n} h = is_symbol-symbol n h
encode_segment-symbols (a ∷ b ∷ c ∷ seg) h = (
  symbols_of (omega arith),
  (
    symbols_of (omega arith),
    (symbols_of (omega arith), (symbols_of (omega arith), encode_segment-symbols seg h.1.1.1)),
  ),
)
  where
    symbols_of : {n : ℕ} → n < 64 → is_symbol (symbol n) ≡ true
    symbols_of {n} h = is_symbol-symbol n h

-- The screen lets symbols through, and no newline is one.
pub screen-symbols :
    (i : ℕ) (seg : Bytes) → All (λ c. is_symbol c ≡ true) seg → screen i seg ≡ ok tt
unfolding screen
screen-symbols i [] h = refl
screen-symbols i (c ∷ seg) h = rw (h.0) (screen-symbols (i + 1) seg h.1)

pub without_newlines-symbols :
    (seg : Bytes) → All (λ c. is_symbol c ≡ true) seg → without_newlines seg ≡ seg
unfolding without_newlines is_symbol
without_newlines-symbols [] h = refl
without_newlines-symbols (c ∷ seg) h = ground (arith, h.0, without_newlines-symbols seg h.1)

-- Every octet string is decoded from its encoding.
pub decode-encode : (seg : Bytes) → All IsByte seg → decode_segment (encode_segment seg) ≡ ok seg
unfolding decode_segment decode_string
decode-encode seg h =
    let symbols = encode_segment-symbols seg h in
    rw
      (
        screen-symbols 0 (encode_segment seg) symbols,
        without_newlines-symbols (encode_segment seg) symbols,
      )
      (quanta-encode seg h)
