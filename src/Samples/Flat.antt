-- ===== src/Samples/Flat.antt =====
-- A JSON codec that knows one header, whose values are texts.
use jose.Common.{
  ◌≡◌, refl, sym, ap, ◌∙◌, true, false, ◌&&◌, Bool, Bool-cases, inl, inr, Option, none, some, [],
  ◌∷◌, if◌then◌else◌, Bytes, codes, eqb, eqb_iff, arith,
}
use jose.Codec.{IsReread, IsHeaderCodec}
use jose.Json.{Value, str}
use jose.Header.{Header}
use jose.Samples.{some-injective}

unfoldable pub same_value : Value → Value → Bool
same_value (str a) (str b) = eqb a b
same_value _ _ = false

unfoldable pub same_header : Header → Header → Bool
same_header [] [] = true
same_header ((j, v) ∷ g) ((k, w) ∷ h) = eqb j k && (same_value v w && same_header g h)
same_header _ _ = false

same_value-eq : (v w : Value) → same_value v w ≡ true → v ≡ w
unfolding same_value
same_value-eq (str a) (str b) h = ap str ((eqb_iff a b).0 h)
same_value-eq _ _ h = absurd (ground arith)

same_header-eq : (g h : Header) → same_header g h ≡ true → g ≡ h
unfolding same_header
same_header-eq [] [] e = refl
same_header-eq [] (x ∷ h) e = absurd (ground arith)
same_header-eq (x ∷ g) [] e = absurd (ground arith)
same_header-eq ((j, v) ∷ g) ((k, w) ∷ h) e =
    let key : j ≡ k = (eqb_iff j k).0 (ground arith) in
    let value : v ≡ w = same_value-eq v w (ground (arith)) in
    rw (key, value, same_header-eq g h (ground arith)) refl

abbrev pub marshal_only : Header → Header → Option Bytes
marshal_only header h = if same_header h header then some (codes "{}") else none

marshalled :
    (header h : Header) (raw : Bytes)
    → marshal_only header h ≡ some raw
    → (h ≡ header) × (raw ≡ codes "{}")
marshalled header h raw e = elim (Bool-cases (same_header h header)) [
  | inl same ↦ (
    same_header-eq h header same,
    sym (some-injective (codes "{}") raw (ground (arith, same, e))),
  )
  | inr other ↦ absurd (ground (arith, other, e))
]

pub marshal_only-IsHeaderCodec :
    (marshal_value : Value → Option Bytes) (unmarshal : Bytes → Option (Option Header))
    (header : Header)
    → IsReread marshal_value header header
    → unmarshal (codes "{}") ≡ some (some header)
    → IsHeaderCodec marshal_value (marshal_only header) unmarshal
marshal_only-IsHeaderCodec marshal_value unmarshal header same back = record {
  marshal-IsByte = λ h raw e. rw (marshalled header h raw e).1 (omega arith);
  marshal-filled = λ h raw e. rw (marshalled header h raw e).1 (λ f. cc);
  reread = λ h raw e. (
    header,
    ap unmarshal (marshalled header h raw e).1 ∙ back,
    rw (marshalled header h raw e).0 same,
  );
}
