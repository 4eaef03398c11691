-- ===== src/Base64/Alphabet.antt =====
-- What no encoded segment holds: a dot, which separates the segments of a token.
use jose.Common.{◌≡◌, ◌==◌, ℕ, false, Bytes, All, [], ◌∷◌, arith}
use jose.Base64.{symbol, encode_segment}

abbrev pub IsPlain : ℕ → Type 0
IsPlain c = (c == 46) ≡ false

symbol-IsPlain : (n : ℕ) → IsPlain (symbol n)
unfolding symbol
symbol-IsPlain n = ground arith

pub encode_segment-IsPlain : (seg : Bytes) → All IsPlain (encode_segment seg)
unfolding encode_segment
encode_segment-IsPlain [] = tt
encode_segment-IsPlain (a ∷ []) = (symbol-IsPlain _, (symbol-IsPlain _, tt))
encode_segment-IsPlain (a ∷ b ∷ []) = (symbol-IsPlain _, (symbol-IsPlain _, (symbol-IsPlain _, tt)))
encode_segment-IsPlain (a ∷ b ∷ c ∷ seg) = (
  symbol-IsPlain _,
  (symbol-IsPlain _, (symbol-IsPlain _, (symbol-IsPlain _, encode_segment-IsPlain seg))),
)
