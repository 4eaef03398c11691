-- ===== src/Jwe/Opened.antt =====
-- What `decryptOne` has checked for one recipient when it returns a plaintext.
use jose.Common.{
  nonempty, is_empty, ℕ, ◌≤◌, ◌≡◌, ◌≢◌, refl, ap, ◌⊎◌, inl, inr, ==_iff, not, Option, none, some,
  [], ◌∷◌, ◌==◌, Bytes, codes, In, eqb, eqb_iff, lookup, length, Bool-cases, arith,
}
use jose.Common.Outcome.{ok, guard, guard-ok, >>=-eq-ok}
use jose.Errors.{invalid_header, decrypt_failed}
use jose.Json.{Value, str, null, bool, float, arr, obj, strs, int}
use jose.Header.{Header, algorithm, encryption, key_id}
use jose.Keys.{Key}
use jose.Jwk.{AnyKey, resolve_key, check_jwk_usage}
use jose.Jws.{is_accepted}
use jose.Jws.Verified.{accepted}
use jose.ContentEnc.{ContentEnc, Sealed, lookup_enc}
use jose.KeyMgmt.{KeyMgmt, lookup_key_mgmt}
use jose.KeyMgmt.Dispatch.{decrypt_key}
use jose.Jwe.{DecryptOptions, JweLibrary, def, decrypt_ops}
use jose.Jwe.Decrypt.{inflate, inflate_limit, inflate_named, maybe_inflate, decrypt_one}

inflate-fits :
    (lib : JweLibrary) (b : Bytes) (limit : ℕ) (out : Bytes)
    → inflate lib b limit ≡ ok out
    → length out ≤ limit
unfolding inflate
inflate-fits lib b limit out h = ground arith

-- How a plaintext comes from the octets that were encrypted.
abbrev pub IsContent : JweLibrary → DecryptOptions → Option Value → Bytes → Bytes → Type 0
IsContent lib opts zip body plaintext =
    ((zip ≡ none) × (plaintext ≡ body))
    ⊎ ((zip ≡ some (str def))
        × (inflate lib body (inflate_limit opts.max_decompressed) ≡ ok plaintext)
        × (length plaintext ≤ inflate_limit opts.max_decompressed))

named-IsContent :
    (lib : JweLibrary) (opts : DecryptOptions) (zip : Option Value) (body plaintext : Bytes)
    → inflate_named lib zip body opts ≡ ok plaintext
    → IsContent lib opts zip body plaintext
unfolding inflate_named
named-IsContent lib opts none body plaintext h = inl (refl, ground arith)
named-IsContent lib opts (some (str name)) body plaintext h = elim (Bool-cases (eqb name def)) [
  | inl same ↦
      let run : inflate lib body (inflate_limit opts.max_decompressed) ≡ ok plaintext =
        ground (arith, same) in
      inr (
        ap (λ n. some (str n)) ((eqb_iff name def).0 same),
        run,
        inflate-fits lib body _ plaintext run,
      )
  | inr other ↦ absurd (ground (arith, other))
]
named-IsContent lib opts (some null) body plaintext h = absurd (ground arith)
named-IsContent lib opts (some (bool b)) body plaintext h = absurd (ground arith)
named-IsContent lib opts (some (float v f)) body plaintext h = absurd (ground arith)
named-IsContent lib opts (some (arr vs)) body plaintext h = absurd (ground arith)
named-IsContent lib opts (some (obj ms)) body plaintext h = absurd (ground arith)
named-IsContent lib opts (some (strs l)) body plaintext h = absurd (ground arith)
named-IsContent lib opts (some (int v)) body plaintext h = absurd (ground arith)

module _ (lib : JweLibrary) (header : Header) (encrypted_key : Bytes) (s : Sealed) (aad : Bytes)
    (key : AnyKey) (opts : DecryptOptions) where
  -- What the code has checked for one recipient, and how the plaintext comes about.
  pub record IsOpened (plaintext : Bytes) : Type 0 where
    pub alg_given : algorithm header ≢ []
    pub alg_accepted : (opts.algorithms ≡ []) ⊎ In (algorithm header) opts.algorithms
    pub enc_given : encryption header ≢ []
    pub enc_accepted : (opts.encryptions ≡ []) ⊎ In (encryption header) opts.encryptions
    pub km : KeyMgmt
    pub km_found : lookup_key_mgmt (algorithm header) ≡ ok km
    pub enc : ContentEnc
    pub enc_found : lookup_enc (encryption header) ≡ ok enc
    pub permitted :
        check_jwk_usage key
          (key_id header)
          (codes "enc")
          (algorithm header ∷ encryption header ∷ [])
          decrypt_ops
        ≡ ok tt
    pub resolved : Key
    pub resolves : resolve_key lib.mgmt.keys key (key_id header) ≡ ok resolved
    pub cek : Bytes
    pub recovered : decrypt_key lib.mgmt km enc resolved header encrypted_key ≡ ok cek
    pub cek_fits : length cek ≡ enc.key_size
    pub body : Bytes
    pub authentic : jose.ContentEnc.decrypt lib.mgmt.primitives enc cek s aad ≡ ok body
    pub content : IsContent lib opts (lookup (codes "zip") header) body plaintext

  pub decrypt_one-IsOpened :
      (plaintext : Bytes)
      → decrypt_one lib header encrypted_key s aad key opts ≡ ok plaintext
      → IsOpened plaintext
  unfolding decrypt_one maybe_inflate
  decrypt_one-IsOpened plaintext h =
      let alg = algorithm header in
      let enc_name = encryption header in
      let (_, given, h₁) = >>=-eq-ok (guard (not (is_empty alg)) invalid_header) _ h in
      let (_, allowed, h₂) =
        >>=-eq-ok (guard (is_accepted alg opts.algorithms) decrypt_failed) _ h₁ in
      let (_, given_enc, h₃) = >>=-eq-ok (guard (not (is_empty enc_name)) invalid_header) _ h₂ in
      let (_, allowed_enc, h₄) =
        >>=-eq-ok (guard (is_accepted enc_name opts.encryptions) decrypt_failed) _ h₃ in
      let (km, found, h₅) = >>=-eq-ok (lookup_key_mgmt alg) _ h₄ in
      let (enc, found_enc, h₆) = >>=-eq-ok (lookup_enc enc_name) _ h₅ in
      let (_, usage, h₇) =
        >>=-eq-ok
          (check_jwk_usage key (key_id header) (codes "enc") (alg ∷ enc_name ∷ []) decrypt_ops) _
          h₆ in
      let (resolved, resolves, h₈) =
        >>=-eq-ok (resolve_key lib.mgmt.keys key (key_id header)) _ h₇ in
      let (cek, recovered, h₉) =
        >>=-eq-ok (decrypt_key lib.mgmt km enc resolved header encrypted_key) _ h₈ in
      let (_, sized, h₁₀) = >>=-eq-ok (guard (length cek == enc.key_size) decrypt_failed) _ h₉ in
      let (body, authentic, last) =
        >>=-eq-ok (jose.ContentEnc.decrypt lib.mgmt.primitives enc cek s aad) _ h₁₀ in
      record {
        alg_given = nonempty alg (guard-ok _ invalid_header given);
        alg_accepted = accepted alg opts.algorithms (guard-ok _ decrypt_failed allowed);
        enc_given = nonempty enc_name (guard-ok _ invalid_header given_enc);
        enc_accepted = accepted enc_name opts.encryptions (guard-ok _ decrypt_failed allowed_enc);
        km = km;
        km_found = found;
        enc = enc;
        enc_found = found_enc;
        permitted = usage;
        resolved = resolved;
        resolves = resolves;
        cek = cek;
        recovered = recovered;
        cek_fits = (==_iff (length cek) enc.key_size).0 (guard-ok _ decrypt_failed sized);
        body = body;
        authentic = authentic;
        content = named-IsContent lib opts (lookup (codes "zip") header) body plaintext last;
      }
