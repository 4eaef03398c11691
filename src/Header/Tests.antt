-- ===== src/Header/Tests.antt =====
-- Runs of header.go.
use jose.Common.{◌⊎◌, ◌≡◌, ◌↔◌, false, refl, [], ◌∷◌, Bytes, codes, lookup, eqb}
use jose.Common.Outcome.{err, ok}
use jose.Json.{str, strs, bool}
use jose.Header.{Header, check_critical, check_critical_produced, merge_headers}
use jose.Header.Critical.{IsAcceptable, check_critical_iff}
use jose.Header.Produced.{Knows, check_critical-produced}
use jose.Errors.{invalid_header}
use jose.Header.Merge.{or_else, Disjoint, merge_headers_lem}

abbrev protected : Header
protected =
    (codes "alg", str (codes "HS256"))
    ∷ (codes "crit", strs (codes "b64" ∷ []))
    ∷ (codes "b64", bool false)
    ∷ []

abbrev unprotected : Header
unprotected = (codes "kid", str (codes "1")) ∷ []

check_critical_iff_example :
    (check_critical protected (codes "b64" ∷ []) ≡ ok tt)
    ↔ IsAcceptable protected (codes "b64" ∷ [])
check_critical_iff_example = check_critical_iff protected (codes "b64" ∷ [])

check_critical-produced_example :
    (check_critical protected (codes "b64" ∷ []) ≡ ok tt)
    ↔ ((check_critical_produced protected ≡ ok tt) × Knows protected (codes "b64" ∷ []))
check_critical-produced_example = check_critical-produced protected (codes "b64" ∷ [])

merge_headers_lem_example :
    (Disjoint protected unprotected
      × ((m : Header) × (merge_headers (protected ∷ unprotected ∷ []) ≡ ok m)
          × ((k : Bytes) → lookup k m ≡ or_else (lookup k protected) (lookup k unprotected))))
    ⊎ ((¬ Disjoint protected unprotected)
        × (merge_headers (protected ∷ unprotected ∷ []) ≡ err invalid_header))
unfolding lookup eqb
merge_headers_lem_example =
    merge_headers_lem protected unprotected (refl, (refl, (refl, tt))) (refl, tt)
