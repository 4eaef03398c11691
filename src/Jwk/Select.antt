-- ===== src/Jwk/Select.antt =====
-- The key whose restrictions are checked is the key that is used.
use jose.Common.{
  is_empty, ◌≡◌, ◌⊎◌, inl, inr, refl, ◌&&◌, Option, none, some, List, ◌==◌, Bytes, length,
  Bool-cases,
}
use jose.Common.Outcome.{Result, ok, err}
use jose.Errors.{Error, invalid_key, key_not_found, nil_pointer}
use jose.Keys.{Key, KeyLibrary}
use jose.Jwk.{
  Jwk, AnyKey, go_key, jwk, jwk_set, no_key, first_of, lookup_key_id, jwk_key, element_key,
  found_key, set_key, resolve_key, select_jwk,
}

-- What `resolveKey` does, said of the JWK that `selectJWK` selects.
abbrev pub Resolved : KeyLibrary → AnyKey → Option Jwk → Result Error Key → Type 0
Resolved lib key (some j) r = r ≡ jwk_key lib j
Resolved lib (go_key k) none r = r ≡ ok k
Resolved lib _ none r = (r ≡ err invalid_key) ⊎ ((r ≡ err key_not_found) ⊎ (r ≡ err nil_pointer))

module _ (lib : KeyLibrary) (keys : List (Option Jwk)) where
  by_element : (o : Option Jwk) → Resolved lib (jwk_set (some keys)) o (element_key lib o)
  unfolding element_key
  by_element none = inr (inr refl)
  by_element (some j) = refl

  by_found : (o : Option Jwk) → Resolved lib (jwk_set (some keys)) o (found_key lib o)
  unfolding found_key
  by_found none = inr (inl refl)
  by_found (some j) = refl

  set_key-Resolved :
      (kid : Bytes)
      → Resolved lib
          (jwk_set (some keys))
          (select_jwk (jwk_set (some keys)) kid)
          (set_key lib keys kid)
  unfolding select_jwk set_key
  set_key-Resolved kid = elim (Bool-cases (is_empty kid && length keys == 1)) [
    | inl single ↦ rw single (by_element (first_of keys))
    | inr several ↦ rw several (by_found (lookup_key_id keys kid))
  ]

module _ (lib : KeyLibrary) where
  -- `resolveKey` resolves the very JWK that `selectJWK` selects. Where that selects none, a Go key
  -- passes through, and a JWK or a set is refused (or the run panics on a nil element).
  pub resolve_key-select_jwk :
      (key : AnyKey) (kid : Bytes) → Resolved lib key (select_jwk key kid) (resolve_key lib key kid)
  unfolding resolve_key select_jwk
  resolve_key-select_jwk (go_key k) kid = refl
  resolve_key-select_jwk (jwk none) kid = inl refl
  resolve_key-select_jwk (jwk (some j)) kid = refl
  resolve_key-select_jwk (jwk_set none) kid = inl refl
  resolve_key-select_jwk (jwk_set (some keys)) kid = set_key-Resolved lib keys kid
  resolve_key-select_jwk no_key kid = inl refl
