-- ===== src/Base64/Canonical.antt =====
-- A segment that decodes is the encoding of what it decodes to.
use jose.Common.{
  ◌⊎◌, Option-cases, ℕ, ◌+◌, ◌*◌, ◌/◌, ◌%◌, ◌<◌, ◌≡◌, ◌↔◌, refl, true, some, [], ◌∷◌, arith, IsByte,
  All, Bytes, inl, inr,
}
use jose.Common.Outcome.{Result, ok, err, >>=-eq-ok}
use jose.Base64.{
  SegmentError, corrupt, symbol, value, encode_segment, sextet, last_two, last_three, four, quanta,
  decode_string, is_symbol, screen, decode_segment,
}
use jose.Base64.RoundTrip.{decode-encode, without_newlines-symbols}

-- A character is no symbol, or it is the symbol of its value.
symbol-value : (c n : ℕ) → value c ≡ some n → (symbol n ≡ c) × (n < 64)
unfolding value symbol
symbol-value c n e = ground arith

sextet-cases :
    (c : ℕ) → (sextet c ≡ err corrupt) ⊎ ((n : ℕ) × (sextet c ≡ ok n) × (symbol n ≡ c) × (n < 64))
unfolding sextet
sextet-cases c = elim (Option-cases (value c)) [
  | inl e ↦ inl (rw (e, sextet))
  | inr (n, e) ↦ let found = symbol-value c n e in inr (n, rw (e, sextet), found.0, found.1)
]

-- `text` is the encoding of the octets `seg`.
abbrev Encodes : Bytes → Bytes → Type 0
Encodes seg text = (encode_segment seg ≡ text) × All IsByte seg

one-Encodes :
    (a b : ℕ)
    → a < 64
    → b < 64
    → b % 16 ≡ 0
    → Encodes ((a * 4 + b / 16) ∷ []) (symbol a ∷ symbol b ∷ [])
unfolding encode_segment
one-Encodes a b ha hb e =
    let high : (a * 4 + b / 16) / 4 ≡ a = omega arith in
    let low : (a * 4 + b / 16) % 4 * 16 ≡ b = omega arith in (rw (high, low), omega arith)

two-Encodes :
    (a b c : ℕ)
    → a < 64
    → b < 64
    → c < 64
    → c % 4 ≡ 0
    → Encodes ((a * 4 + b / 16) ∷ (b % 16 * 16 + c / 4) ∷ []) (symbol a ∷ symbol b ∷ symbol c ∷ [])
unfolding encode_segment
two-Encodes a b c ha hb hc e =
    let high : (a * 4 + b / 16) / 4 ≡ a = omega arith in
    let mid : (a * 4 + b / 16) % 4 * 16 + (b % 16 * 16 + c / 4) / 16 ≡ b = omega arith in
    let low : (b % 16 * 16 + c / 4) % 16 * 4 ≡ c = omega arith in (rw (high, mid, low), omega arith)

three-Encodes :
    (a b c d : ℕ) (seg text : Bytes)
    → a < 64
    → b < 64
    → c < 64
    → d < 64
    → Encodes seg text
    → Encodes
        ((a * 4 + b / 16) ∷ (b % 16 * 16 + c / 4) ∷ (c % 4 * 64 + d) ∷ seg)
        (symbol a ∷ symbol b ∷ symbol c ∷ symbol d ∷ text)
unfolding encode_segment
three-Encodes a b c d seg text ha hb hc hd e =
    let first : (a * 4 + b / 16) / 4 ≡ a = omega arith in
    let second : (a * 4 + b / 16) % 4 * 16 + (b % 16 * 16 + c / 4) / 16 ≡ b = omega arith in
    let third : (b % 16 * 16 + c / 4) % 16 * 4 + (c % 4 * 64 + d) / 64 ≡ c = omega arith in
    let fourth : (c % 4 * 64 + d) % 64 ≡ d = omega arith in
    (rw (first, second, third, fourth, e.0), (omega arith, (omega arith, (omega arith, e.1))))

last_two-Encodes : (p q : ℕ) (seg : Bytes) → last_two p q ≡ ok seg → Encodes seg (p ∷ q ∷ [])
unfolding last_two
last_two-Encodes p q seg h = elim (sextet-cases p) [
  | inl e ↦ ground arith
  | inr (a, ea, sa, la) ↦ elim (sextet-cases q) [
    | inl e ↦ ground arith
    | inr (b, eb, sb, lb) ↦
        let result : (seg ≡ (a * 4 + b / 16) ∷ []) × (b % 16 ≡ 0) = ground arith in
        rw (result.0, ← sa, ← sb) (one-Encodes a b la lb result.1)
  ]
]

last_three-Encodes :
    (p q r : ℕ) (seg : Bytes) → last_three p q r ≡ ok seg → Encodes seg (p ∷ q ∷ r ∷ [])
unfolding last_three
last_three-Encodes p q r seg h = elim (sextet-cases p) [
  | inl e ↦ ground arith
  | inr (a, ea, sa, la) ↦ elim (sextet-cases q) [
    | inl e ↦ ground arith
    | inr (b, eb, sb, lb) ↦ elim (sextet-cases r) [
      | inl e ↦ ground arith
      | inr (c, ec, sc, lc) ↦
          let result : (seg ≡ (a * 4 + b / 16) ∷ (b % 16 * 16 + c / 4) ∷ []) × (c % 4 ≡ 0) =
            ground arith in
          rw (result.0, ← sa, ← sb, ← sc) (two-Encodes a b c la lb lc result.1)
    ]
  ]
]

-- A quantum of four characters decodes only if each is a symbol and the rest decodes.
four-ok :
    (p q r s : ℕ) (rest : Result SegmentError Bytes) (seg : Bytes)
    → four p q r s rest ≡ ok seg
    → (a b c d : ℕ) × (more : Bytes) × (symbol a ≡ p)
      × (symbol b ≡ q)
      × (symbol c ≡ r)
      × (symbol d ≡ s)
      × (a < 64)
      × (b < 64)
      × (c < 64)
      × (d < 64)
      × (rest ≡ ok more)
      × (seg ≡ (a * 4 + b / 16) ∷ (b % 16 * 16 + c / 4) ∷ (c % 4 * 64 + d) ∷ more)
unfolding four
four-ok p q r s rest seg h = elim (sextet-cases p) [
  | inl e ↦ absurd (ground arith)
  | inr (a, ea, sa, la) ↦ elim (sextet-cases q) [
    | inl e ↦ absurd (ground arith)
    | inr (b, eb, sb, lb) ↦ elim (sextet-cases r) [
      | inl e ↦ absurd (ground arith)
      | inr (c, ec, sc, lc) ↦ elim (sextet-cases s) [
        | inl e ↦ absurd (ground arith)
        | inr (d, ed, sd, ld) ↦
            let more = >>=-eq-ok rest _ (rw (ea, eb, ec, ed) at h) in
            (a, b, c, d, more.0, sa, sb, sc, sd, la, lb, lc, ld, more.1, ground (arith, more.2))
      ]
    ]
  ]
]

quanta-Encodes : (text seg : Bytes) → quanta text ≡ ok seg → Encodes seg text
unfolding quanta encode_segment
quanta-Encodes [] seg h = let e : seg ≡ [] = ground arith in rw e (refl, tt)
quanta-Encodes (p ∷ []) seg h = absurd (ground arith)
quanta-Encodes (p ∷ q ∷ []) seg h = last_two-Encodes p q seg h
quanta-Encodes (p ∷ q ∷ r ∷ []) seg h = last_three-Encodes p q r seg h
quanta-Encodes (p ∷ q ∷ r ∷ s ∷ text) seg h =
    let (a, b, c, d, more, sa, sb, sc, sd, la, lb, lc, ld, decoded, e) =
      four-ok p q r s (quanta text) seg h in
    rw (e, ← sa, ← sb, ← sc, ← sd)
      (three-Encodes a b c d more text la lb lc ld (quanta-Encodes text more decoded))

-- What passes the screen is made of symbols.
screen-ok : (i : ℕ) (text : Bytes) → screen i text ≡ ok tt → All (λ c. is_symbol c ≡ true) text
unfolding screen
screen-ok i [] h = tt
screen-ok i (c ∷ text) h = ground (arith, screen-ok (i + 1) text)

decode_segment-Encodes : (text seg : Bytes) → decode_segment text ≡ ok seg → Encodes seg text
unfolding decode_segment decode_string
decode_segment-Encodes text seg h =
    let (_, screened, decoded) = >>=-eq-ok (screen 0 text) _ h in
    quanta-Encodes text seg
      (rw (without_newlines-symbols text (screen-ok 0 text screened)) at decoded)

-- `DecodeSegment` accepts a text exactly if it is the encoding of octets, and then returns them.
-- So every octet string has one spelling, and two texts never decode alike.
pub decode_segment_iff :
    (text seg : Bytes)
    → (decode_segment text ≡ ok seg) ↔ ((encode_segment seg ≡ text) × All IsByte seg)
decode_segment_iff text seg =
    (decode_segment-Encodes text seg, λ h. rw (← h.0) (decode-encode seg h.1))
