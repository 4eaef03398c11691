-- ===== src/Base64.antt =====
-- base64.go: the base64url segments of a JOSE serialization, without padding and strict.
pub mod Tests
pub mod RoundTrip
pub mod Canonical
pub mod Alphabet
use jose.Common.{
  ℕ, zero, suc, ◌+◌, ◌-◌, ◌*◌, ◌/◌, ◌%◌, Bool, true, false, ◌&&◌, ◌||◌, Option, none, some, List,
  [], ◌∷◌, ltb, leb, ◌==◌, if◌then◌else◌, Bytes,
}
use jose.Common.Outcome.{Result, ok, err, ◌>>=◌, ◌>>◌, guard}

-- What `DecodeSegment` complains of: padding or another character at an offset, or an input that
-- `encoding/base64` refuses (a lone last character, or unused bits that are not zero).
pub data SegmentError : Type 0 where
  padding : ℕ → SegmentError
  invalid_character : ℕ → ℕ → SegmentError
  corrupt : SegmentError

-- The URL-safe alphabet of RFC 4648 §5, and the value of a character in it.
unfoldable pub symbol : ℕ → ℕ
symbol n =
    if ltb n 26
    then n + 65
    else if ltb n 52
    then n + 71
    else if ltb n 62
    then n - 4
    else if n == 62
    then 45
    else 95

unfoldable pub value : ℕ → Option ℕ
value c =
    if leb 65 c && leb c 90
    then some (c - 65)
    else if leb 97 c && leb c 122
    then some (c - 71)
    else if leb 48 c && leb c 57
    then some (c + 4)
    else if c == 45
    then some 62
    else if c == 95
    then some 63
    else none

-- `segmentEncoding.EncodeToString`: three octets become four characters, a rest of one or two
-- octets becomes two or three.
unfoldable pub encode_segment : Bytes → Bytes
encode_segment [] = []
encode_segment (a ∷ []) = symbol (a / 4) ∷ symbol (a % 4 * 16) ∷ []
encode_segment (a ∷ b ∷ []) =
    symbol (a / 4) ∷ symbol (a % 4 * 16 + b / 16) ∷ symbol (b % 16 * 4) ∷ []
encode_segment (a ∷ b ∷ c ∷ seg) =
    symbol (a / 4)
    ∷ symbol (a % 4 * 16 + b / 16)
    ∷ symbol (b % 16 * 4 + c / 64)
    ∷ symbol (c % 64)
    ∷ encode_segment seg

unfoldable pub sextet : ℕ → Result SegmentError ℕ
sextet c = elim (value c) [ none ↦ err corrupt | some n ↦ ok n ]

-- The last quantum, strict: the bits that carry no data must be zero.
unfoldable pub last_two : ℕ → ℕ → Result SegmentError Bytes
last_two p q = do
  a ← sextet p
  b ← sextet q
  guard (b % 16 == 0) corrupt
  ok ((a * 4 + b / 16) ∷ [])

unfoldable pub last_three : ℕ → ℕ → ℕ → Result SegmentError Bytes
last_three p q r = do
  a ← sextet p
  b ← sextet q
  c ← sextet r
  guard (c % 4 == 0) corrupt
  ok ((a * 4 + b / 16) ∷ (b % 16 * 16 + c / 4) ∷ [])

-- Four characters in front of the octets that the rest decodes to.
unfoldable pub four : ℕ → ℕ → ℕ → ℕ → Result SegmentError Bytes → Result SegmentError Bytes
four p q r s rest = do
  a ← sextet p
  b ← sextet q
  c ← sextet r
  d ← sextet s
  octets ← rest
  ok ((a * 4 + b / 16) ∷ (b % 16 * 16 + c / 4) ∷ (c % 4 * 64 + d) ∷ octets)

unfoldable pub quanta : Bytes → Result SegmentError Bytes
quanta [] = ok []
quanta (p ∷ []) = err corrupt
quanta (p ∷ q ∷ []) = last_two p q
quanta (p ∷ q ∷ r ∷ []) = last_three p q r
quanta (p ∷ q ∷ r ∷ s ∷ rest) = four p q r s (quanta rest)

-- `encoding/base64` passes over carriage returns and line feeds wherever they stand.
unfoldable pub without_newlines : Bytes → Bytes
without_newlines [] = []
without_newlines (c ∷ seg) =
    let rest = without_newlines seg in if c == 10 || c == 13 then rest else c ∷ rest

-- `segmentEncoding.DecodeString`
unfoldable pub decode_string : Bytes → Result SegmentError Bytes
decode_string seg = quanta (without_newlines seg)

unfoldable pub is_symbol : ℕ → Bool
is_symbol c =
    (leb 65 c && leb c 90)
    || (leb 97 c && leb c 122)
    || (leb 48 c && leb c 57)
    || c == 45
    || c == 95

-- The loop of `DecodeSegment` that screens the alphabet, from offset `i` on.
unfoldable pub screen : ℕ → Bytes → Result SegmentError (Unit {0})
screen i [] = ok tt
screen i (c ∷ seg) =
    let rest = screen (i + 1) seg in
    if is_symbol c then rest else if c == 61 then err (padding i) else err (invalid_character c i)

unfoldable pub decode_segment : Bytes → Result SegmentError Bytes
decode_segment seg = do screen 0 seg; decode_string seg
