-- ===== src/Token.antt =====
-- header.go, and the compact serializations of jws.go and jwe.go: encoded headers, and the parts of a
-- token.
use jose.Common.{
  ℕ, ◌≡◌, refl, Option, none, some, List, [], ◌∷◌, ◌++◌, ◌==◌, if◌then◌else◌, Bytes, All,
  Option-cases, inl, inr, arith,
}
use mathlib.Core.Path.{subst}
use jose.Common.Outcome.{Result, ok, err, ◌>>=◌, relabel}
use jose.Errors.{Error, malformed, invalid_header}
use jose.Base64.{encode_segment, decode_segment}
use jose.Base64.Alphabet.{IsPlain, encode_segment-IsPlain}
use jose.Header.{Header}

abbrev pub dot : ℕ
dot = 46

-- `encodeHeader` and `decodeHeader`, over the JSON codec.
unfoldable pub encode_header : (Header → Option Bytes) → Header → Result Error Bytes
encode_header marshal h = elim (marshal h) [
  | none ↦ err invalid_header
  | some raw ↦ ok (encode_segment raw)
]

unfoldable pub decoded_header : Option (Option Header) → Result Error Header
decoded_header none = err malformed
decoded_header (some none) = err malformed
decoded_header (some (some h)) = ok h

unfoldable pub decode_header : (Bytes → Option (Option Header)) → Bytes → Result Error Header
decode_header unmarshal seg = do
  raw ← relabel malformed (decode_segment seg)
  decoded_header (unmarshal raw)

-- `strings.Split(token, ".")`: the parts between the dots.
unfoldable pub on_first : (Bytes → Bytes) → List Bytes → List Bytes
on_first f [] = f [] ∷ []
on_first f (p ∷ parts) = f p ∷ parts

unfoldable pub split : Bytes → List Bytes
split [] = [] ∷ []
split (c ∷ s) = let rest = split s in if c == dot then [] ∷ rest else on_first (λ p. c ∷ p) rest

pub split-joined : (a rest : Bytes) → All IsPlain a → split (a ++ (dot ∷ rest)) ≡ a ∷ split rest
unfolding split
split-joined [] rest h = refl
split-joined (c ∷ a) rest h = rw (h.0, split-joined a rest h.1) (unfold on_first in refl)

pub split-last : (a : Bytes) → All IsPlain a → split a ≡ a ∷ []
unfolding split
split-last [] h = refl
split-last (c ∷ a) h = rw (h.0, split-last a h.1) (unfold on_first in refl)

pub encode_header-ok :
    (marshal : Header → Option Bytes) (h : Header) (seg : Bytes)
    → encode_header marshal h ≡ ok seg
    → (raw : Bytes) × (marshal h ≡ some raw) × (encode_segment raw ≡ seg)
unfolding encode_header
encode_header-ok marshal h seg e = elim (Option-cases (marshal h)) [
  | inl bad ↦ absurd (ground (arith, bad))
  | inr (raw, given) ↦ (raw, given, ground (arith, given))
]

pub encode_header-IsPlain :
    (marshal : Header → Option Bytes) (h : Header) (seg : Bytes)
    → encode_header marshal h ≡ ok seg
    → All IsPlain seg
encode_header-IsPlain marshal h seg e =
    let (raw, _, same) = encode_header-ok marshal h seg e in
    subst (All IsPlain) same (encode_segment-IsPlain raw)
