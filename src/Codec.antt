-- ===== src/Codec.antt =====
-- What `encoding/json` documents of a header that is marshalled and unmarshalled again, as header.go
-- does with protected headers, and which texts of the package survive it.
use jose.Common.{
  sym, ◌∙◌, ◌≡◌, ◌≢◌, refl, ◌^◌, ◌≤◌, ◌<◌, Bool, true, false, not, ◌&&◌, inl, inr, Option, none,
  some, List, [], ◌∷◌, is_empty, ltb, Bytes, eqb, eqb_iff, lookup, All, IsByte, Bool-cases, ℕ,
  arith,
}
use mathlib.Core.Path.{subst}
use jose.Common.Int.{ℤ, pos, negsuc}
use jose.Base64.{symbol, encode_segment}
use jose.Base64.RoundTrip.{decode-encode}
use jose.Token.{encode_header, encode_header-ok, decode_header, decoded_header}
use jose.Common.Outcome.{ok}
use jose.Json.{Value, bool, strs, str, int, float, obj, Members, end, member}
use jose.Header.{Header, string_list}
use jose.Header.Merge.{IsMap}

unfoldable pub is_ascii : Bytes → Bool
is_ascii [] = true
is_ascii (c ∷ s) = ltb c 128 && is_ascii s

-- The integers from -2 ^ 53 to 2 ^ 53 are float64s; `negsuc n` is -(n + 1).
abbrev pub IsExact : ℤ → Type 0
IsExact (pos n) = n ≤ 2 ^ 53
IsExact (negsuc n) = n < 2 ^ 53

-- An object whose members are all ASCII texts.
unfoldable pub are_texts : Members → Bool
are_texts end = true
are_texts (member name (str s) m) = is_ascii name && (is_ascii s && are_texts m)
are_texts (member name _ m) = false

-- A member as it is read back, `marshal_value` being `json.Marshal`: an ASCII text is kept, an integer
-- comes back as a float64, a list of one or more ASCII texts as an array of them, and an object of texts as one that
-- gives the same JSON, whose members are sorted. Of the other values it is only said that they stay.
module _ (marshal_value : Value → Option Bytes) where
  unfoldable pub Rereads : Value → Option Value → Type 0
  Rereads (str s) got = is_ascii s ≡ true → got ≡ some (str s)
  Rereads (int n) got = IsExact n → got ≡ some (float n false)
  Rereads (obj m) got =
      (text : Bytes)
      → are_texts m ≡ true
      → marshal_value (obj m) ≡ some text
      → (v : Value) × (got ≡ some v) × (marshal_value v ≡ some text)
  Rereads (bool b) got = got ≡ some (bool b)
  Rereads (strs list) got =
      is_empty list ≡ false
      → All (λ s. is_ascii s ≡ true) list
      → (v : Value) × (got ≡ some v) × (string_list v ≡ some list)
  Rereads _ got = Unit {0}

  pub record IsReread (sent received : Header) : Type 0 where
    pub absent :
        (name : Bytes)
        → is_ascii name ≡ true
        → lookup name sent ≡ none
        → lookup name received ≡ none
    pub present :
        (name : Bytes) (v : Value)
        → is_ascii name ≡ true
        → lookup name sent ≡ some v
        → Rereads v (lookup name received)
    pub stays :
        (name : Bytes) (v : Value)
        → is_ascii name ≡ true
        → lookup name sent ≡ some v
        → (w : Value) × (lookup name received ≡ some w)
    pub unique : IsMap received

  pub record IsHeaderCodec (marshal : Header → Option Bytes)
      (unmarshal : Bytes → Option (Option Header)) : Type 0 where
    pub marshal-IsByte : (h : Header) (raw : Bytes) → marshal h ≡ some raw → All IsByte raw
    pub marshal-filled : (h : Header) (raw : Bytes) → marshal h ≡ some raw → raw ≢ []
    pub reread :
        (h : Header) (raw : Bytes)
        → marshal h ≡ some raw
        → (received : Header) × (unmarshal raw ≡ some (some received)) × IsReread h received

symbol-ascii : (n : ℕ) → ltb (symbol n) 128 ≡ true
unfolding symbol
symbol-ascii n = ground arith

pub encode_segment-ascii : (seg : Bytes) → is_ascii (encode_segment seg) ≡ true
unfolding encode_segment is_ascii
encode_segment-ascii [] = refl
encode_segment-ascii (a ∷ []) = rw (symbol-ascii _, symbol-ascii _) refl
encode_segment-ascii (a ∷ b ∷ []) = rw (symbol-ascii _, symbol-ascii _, symbol-ascii _) refl
encode_segment-ascii (a ∷ b ∷ c ∷ seg) =
    rw (symbol-ascii _, symbol-ascii _, symbol-ascii _, symbol-ascii _) (encode_segment-ascii seg)

-- A member whose value is a text of the package's own.
pub reread-str :
    (marshal_value : Value → Option Bytes) (sent received : Header)
    → IsReread marshal_value sent received
    → (name s : Bytes) → is_ascii name ≡ true
    → is_ascii s ≡ true
    → lookup name sent ≡ some (str s)
    → lookup name received ≡ some (str s)
unfolding Rereads
reread-str marshal_value sent received same name s plain ascii e =
    same.present name (str s) plain e ascii

pub reread-int :
    (marshal_value : Value → Option Bytes) (sent received : Header)
    → IsReread marshal_value sent received
    → (name : Bytes) (n : ℤ) → is_ascii name ≡ true
    → IsExact n
    → lookup name sent ≡ some (int n)
    → lookup name received ≡ some (float n false)
unfolding Rereads
reread-int marshal_value sent received same name n plain exact e =
    same.present name (int n) plain e exact

-- An encoded parameter that may be absent.
pub reread-encoded :
    (marshal_value : Value → Option Bytes) (sent received : Header)
    → IsReread marshal_value sent received
    → (name b : Bytes) → is_ascii name ≡ true
    → lookup name sent ≡ some (str (encode_segment b))
    → lookup name received ≡ lookup name sent
reread-encoded marshal_value sent received same name b plain e =
    reread-str marshal_value sent received same name (encode_segment b) plain
      (encode_segment-ascii b) e
    ∙ sym e

-- The names of a table: not empty, and ASCII.
unfoldable pub is_name : Bytes → Bool
is_name s = is_ascii s && not (is_empty s)

module _ {ℓ} {V : Type ℓ} where
  unfoldable pub names : List (Bytes × V) → Bool
  names [] = true
  names ((k, v) ∷ m) = is_name k && names m

  pub lookup-name :
      (m : List (Bytes × V)) (k : Bytes) {v : V}
      → names m ≡ true
      → lookup k m ≡ some v
      → is_name k ≡ true
  unfolding lookup names
  lookup-name [] k h e = absurd (cc)
  lookup-name ((j, w) ∷ m) k h e = elim (Bool-cases (eqb j k)) [
    | inl here ↦ subst (λ s. is_name s ≡ true) ((eqb_iff j k).0 here) (ground arith)
    | inr other ↦ lookup-name m k (ground arith) (rw other at e)
  ]

-- The segment of a header is decoded to a header that reads the same.
pub decode_header-encode_header :
    (marshal_value : Value → Option Bytes) (marshal : Header → Option Bytes)
    (unmarshal : Bytes → Option (Option Header))
    → IsHeaderCodec marshal_value marshal unmarshal
    → (h : Header) (seg : Bytes) → encode_header marshal h ≡ ok seg
    → (received : Header) × (decode_header unmarshal seg ≡ ok received)
      × IsReread marshal_value h received
unfolding decode_header decoded_header
decode_header-encode_header marshal_value marshal unmarshal codec h seg e =
    let (raw, made, same) = encode_header-ok marshal h seg e in
    let (received, read, alike) = codec.reread h raw made in
    (received, rw (← same, decode-encode raw (codec.marshal-IsByte h raw made), read) refl, alike)
