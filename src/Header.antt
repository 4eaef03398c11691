-- ===== src/Header.antt =====
-- header.go: decoded JOSE headers, their accessors, and the rules on "crit" and on merging.
pub mod Tests
pub mod Critical
pub mod Produced
pub mod Merge
use jose.Common.{
  is_empty, ℕ, Bool, true, false, not, ◌&&◌, ◌||◌, Option, none, some, List, [], ◌∷◌, if◌then◌else◌,
  Bytes, codes, eqb, contains, lookup, insert,
}
use jose.Common.Outcome.{Result, ok, err, ◌>>=◌, ◌>>◌, guard}
use jose.Errors.{Error, invalid_header, invalid_crit, unprotected_critical}
use jose.Json.{Value, str, arr, strs, Values, nil, cons}

-- `map[string]any`
abbrev pub Header : Type 0
Header = List (Bytes × Value)

-- `Header.String`: "" if the parameter is absent or is no string.
unfoldable pub string_of : Option Value → Bytes
string_of (some (str s)) = s
string_of _ = []

unfoldable pub header_string : Header → Bytes → Bytes
header_string h name = string_of (lookup name h)

unfoldable pub algorithm : Header → Bytes
algorithm h = header_string h (codes "alg")

unfoldable pub encryption : Header → Bytes
encryption h = header_string h (codes "enc")

unfoldable pub key_id : Header → Bytes
key_id h = header_string h (codes "kid")

-- An array whose elements are all strings.
pub strings : Values → Option (List Bytes)
strings nil = some []
strings (cons (str s) vs) = elim (strings vs) [ none ↦ none | some out ↦ some (s ∷ out) ]
strings (cons _ vs) = none

unfoldable pub string_list : Value → Option (List Bytes)
string_list (strs list) = some list
string_list (arr list) = strings list
string_list _ = none

-- `Header.Critical`; `none` stands for a second result `false`.
unfoldable pub critical : Header → Option (List Bytes)
critical h = elim (lookup (codes "crit") h) [ none ↦ none | some raw ↦ string_list raw ]

abbrev pub is_present : Bytes → Header → Bool
is_present name h = elim (lookup name h) [ none ↦ false | some v ↦ true ]

pub registered_headers : List Bytes
registered_headers =
    codes "alg"
    ∷ codes "jku"
    ∷ codes "jwk"
    ∷ codes "kid"
    ∷ codes "x5u"
    ∷ codes "x5c"
    ∷ codes "x5t"
    ∷ codes "x5t#S256"
    ∷ codes "typ"
    ∷ codes "cty"
    ∷ codes "crit"
    ∷ codes "enc"
    ∷ codes "zip"
    ∷ codes "epk"
    ∷ codes "apu"
    ∷ codes "apv"
    ∷ codes "iv"
    ∷ codes "tag"
    ∷ codes "p2s"
    ∷ codes "p2c"
    ∷ []

pub is_registered_header : Bytes → Bool
is_registered_header name = contains registered_headers name

-- The loop of `checkCritical` over the names.
pub check_names : Header → List Bytes → List Bytes → Result Error (Unit {0})
check_names protected known [] = ok tt
check_names protected known (name ∷ crit) = do
  guard (not (eqb name [])) invalid_crit
  guard (not (is_registered_header name)) invalid_crit
  guard (is_present name protected) unprotected_critical
  guard (contains known name) invalid_crit
  check_names protected known crit

-- `checkCritical`
unfoldable pub check_critical : Header → List Bytes → Result Error (Unit {0})
check_critical protected known = elim (critical protected) [
  | none ↦ guard (not (is_present (codes "crit") protected)) invalid_crit
  | some crit ↦ if is_empty crit then err invalid_crit else check_names protected known crit
]

-- `checkCriticalProduced`
unfoldable pub check_critical_produced : Header → Result Error (Unit {0})
check_critical_produced protected =
    if is_present (codes "crit") protected
    then elim (critical protected) [
      | none ↦ err invalid_crit
      | some crit ↦ check_critical protected crit
    ]
    else ok tt

-- `copyHeader` and `mergeHeaders`, over any number of headers.
unfoldable pub copy_one : Header → Header → Header
copy_one out [] = out
copy_one out ((k, v) ∷ h) = copy_one (insert k v out) h

unfoldable pub copy_all : Header → List Header → Header
copy_all out [] = out
copy_all out (h ∷ hs) = copy_all (copy_one out h) hs

unfoldable pub copy_header : List Header → Header
copy_header hs = copy_all [] hs

unfoldable pub merge_one : Header → Header → Result Error Header
merge_one out [] = ok out
merge_one out ((k, v) ∷ h) =
    let rest = merge_one (insert k v out) h in if is_present k out then err invalid_header else rest

unfoldable pub merge_all : Header → List Header → Result Error Header
merge_all out [] = ok out
merge_all out (h ∷ hs) = do merged ← merge_one out h; merge_all merged hs

unfoldable pub merge_headers : List Header → Result Error Header
merge_headers hs = merge_all [] hs
