-- ===== src/Common/Text.antt =====
-- Go strings and byte slices: both are lists of octets.
use Prim.Native.Nat.{ℕ, ◌<◌}
use Prim.Native.Char.{code}
use Prim.Native.String.{String}
use mathlib.Core.Path.{◌≡◌, refl, subst}
use mathlib.Core.Logic.{◌≢◌, ◌↔◌, ◌⊎◌, inl, inr}
use mathlib.Core.Bool.{Bool, true, false, ◌&&◌, ◌||◌}
use mathlib.Core.Option.{Option, none, some}
use mathlib.Core.List.{List, [], ◌∷◌}
use native.Mathlib.Omega.{arith}
use jose.Common.Lists.{All}
use jose.Common.Tests.{◌==◌, if◌then◌else◌, Bool-cases}

abbrev pub Bytes : Type 0
Bytes = List ℕ

abbrev pub IsByte : ℕ → Type 0
IsByte b = b < 256

-- The octets of an ASCII text.
abbrev pub codes : String → Bytes
codes String.[] = []
codes (String.◌∷◌ c s) = code c ∷ codes s

-- `a == b` on strings and byte slices.
unfoldable pub eqb : Bytes → Bytes → Bool
eqb [] [] = true
eqb (x ∷ xs) (y ∷ ys) = (x == y) && eqb xs ys
eqb _ _ = false

pub eqb→eq : (a b : Bytes) → eqb a b ≡ true → a ≡ b
unfolding eqb
eqb→eq [] [] h = refl
eqb→eq (x ∷ xs) (y ∷ ys) h = ground (arith, eqb→eq xs ys)
eqb→eq [] (y ∷ ys) h = cc
eqb→eq (x ∷ xs) [] h = cc

pub eqb_refl : (a : Bytes) → eqb a a ≡ true
unfolding eqb
eqb_refl [] = refl
eqb_refl (x ∷ xs) = ground (arith, eqb_refl xs)

pub eqb_iff : (a b : Bytes) → (eqb a b ≡ true) ↔ (a ≡ b)
eqb_iff a b = (eqb→eq a b, λ e. rw e (eqb_refl b))

pub eqb-false : (a b : Bytes) → a ≢ b → eqb a b ≡ false
eqb-false a b h = ground (arith, eqb_iff a b)

-- `containsString` of header.go.
unfoldable pub contains : List Bytes → Bytes → Bool
contains [] s = false
contains (v ∷ list) s = eqb v s || contains list s

-- `s` stands in the list.
abbrev pub In : Bytes → List Bytes → Type 0
In s [] = ⊥
In s (v ∷ list) = (v ≡ s) ⊎ In s list

pub contains→In : (list : List Bytes) (s : Bytes) → contains list s ≡ true → In s list
unfolding contains
contains→In [] s h = cc
contains→In (v ∷ list) s h = ground (arith, eqb_iff v s, contains→In list s)

pub In→contains : (list : List Bytes) (s : Bytes) → In s list → contains list s ≡ true
unfolding contains
In→contains [] s h = elim h [ ]
In→contains (v ∷ list) s (inl e) = ground (arith, eqb_iff v s)
In→contains (v ∷ list) s (inr h) = ground (arith, eqb_iff v s, In→contains list s h)

pub contains_iff : (list : List Bytes) (s : Bytes) → (contains list s ≡ true) ↔ In s list
contains_iff list s = (contains→In list s, In→contains list s)

-- A Go map with string keys, as an association list: `m[k]` and `m[k] = v`.
module _ {ℓ} {V : Type ℓ} where
  unfoldable pub lookup : Bytes → List (Bytes × V) → Option V
  lookup k [] = none
  lookup k ((j, v) ∷ m) = if eqb j k then some v else lookup k m

  unfoldable pub insert : Bytes → V → List (Bytes × V) → List (Bytes × V)
  insert k v [] = (k, v) ∷ []
  insert k v ((j, w) ∷ m) = if eqb j k then (k, v) ∷ m else (j, w) ∷ insert k v m

  pub lookup-insert :
      (k j : Bytes) (v : V) (m : List (Bytes × V))
      → lookup j (insert k v m) ≡ (if eqb k j then some v else lookup j m)
  unfolding lookup insert
  lookup-insert k j v [] = refl
  lookup-insert k j v ((i, w) ∷ m) =
      ground (arith, eqb_iff k j, eqb_iff i k, eqb_iff i j, lookup-insert k j v m)

-- What holds of every value of a table holds of each value looked up.
pub lookup-All {ℓ κ} :
    {V : Type ℓ} (P : V → Type κ) (m : List (Bytes × V)) (k : Bytes) {v : V}
    → All (λ (e : Bytes × V). P e.1) m
    → lookup k m ≡ some v
    → P v
unfolding lookup
lookup-All P [] k h e = absurd (cc)
lookup-All P ((j, w) ∷ m) k {v} h e = elim (Bool-cases (eqb j k)) [
  | inl here ↦ let same : w ≡ v = ground (arith, here, e) in subst P same h.0
  | inr other ↦ lookup-All P m k h.1 (rw other at e)
]
