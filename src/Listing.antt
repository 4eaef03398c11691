-- ===== src/Listing.antt =====
-- The listing functions of jwa_sign.go, jwa_keymgmt.go and contentenc.go: the names of each table, sorted.
pub mod Complete
use jose.Common.{Bool, true, false, ◌&&◌, ◌||◌, List, [], ◌∷◌, ltb, ◌==◌, if◌then◌else◌, Bytes}
use jose.Signature.{sig_algs}
use jose.ContentEnc.{content_encs}
use jose.KeyMgmt.{key_mgmts}

-- `<=` of Go strings: by octets, and a prefix first.
pub at_most : Bytes → Bytes → Bool
at_most [] t = true
at_most (a ∷ s) [] = false
at_most (a ∷ s) (b ∷ t) = ltb a b || (a == b && at_most s t)

-- One string put in its place among sorted ones.
pub place : Bytes → List Bytes → List Bytes
place s [] = s ∷ []
place s (t ∷ list) = let rest = place s list in if at_most s t then s ∷ t ∷ list else t ∷ rest

-- `sort.Strings`
pub sort_strings : List Bytes → List Bytes
sort_strings [] = []
sort_strings (s ∷ list) = place s (sort_strings list)

-- `for k := range m { out = append(out, k) }`, with the keys in the order of the table.
pub keys_of {ℓ} : {V : Type ℓ} → List (Bytes × V) → List Bytes
keys_of [] = []
keys_of ((k, v) ∷ table) = k ∷ keys_of table

-- `SignatureAlgorithms`
pub signature_algorithms : List Bytes
signature_algorithms = sort_strings (keys_of sig_algs)

-- `KeyManagementAlgorithms`
pub key_management_algorithms : List Bytes
key_management_algorithms = sort_strings (keys_of key_mgmts)

-- `ContentEncryptionAlgorithms`
pub content_encryption_algorithms : List Bytes
content_encryption_algorithms = sort_strings (keys_of content_encs)
