-- ===== src/Jws/Tokens.antt =====
-- A token of `Sign` splits into the parts that were joined.
use jose.Common.{
  is_empty, refl, ◌≡◌, sym, ap, ◌∙◌, Bool, true, false, not, [], ◌∷◌, ◌++◌, if◌then◌else◌, Bytes,
  All, lookup, codes, Bool-cases, inl, inr, arith,
}
use mathlib.Core.Path.{subst}
use jose.Common.Outcome.{ok, ok-inj, guard, >>=-eq-ok}
use jose.Errors.{invalid_header, unprotected_b64}
use jose.Base64.{encode_segment}
use jose.Base64.Alphabet.{IsPlain, encode_segment-IsPlain}
use jose.Header.{is_present, merge_headers, check_critical_produced}
use jose.Token.{dot, encode_header, split, split-joined, split-last, encode_header-IsPlain}
use jose.Keys.{Key}
use jose.Jwk.{AnyKey, resolve_key, check_jwk_usage}
use jose.Signature.{SigAlg, lookup_sig_alg, sign_kind}
use jose.Jws.{
  Library, SignOptions, Signed, signing_input, choose_alg, protected_header, b64_value, has_dot,
  serialized_payload, sign_one, sign,
}

has_dot-IsPlain : (s : Bytes) → has_dot s ≡ false → All IsPlain s
unfolding has_dot
has_dot-IsPlain [] h = tt
has_dot-IsPlain (c ∷ s) h = (ground arith, has_dot-IsPlain s (ground arith))

serialized_payload-IsPlain :
    (b64 : Bool) (payload encoded : Bytes)
    → serialized_payload b64 payload ≡ ok encoded
    → All IsPlain encoded
unfolding serialized_payload
serialized_payload-IsPlain true payload encoded h =
    let same : encode_segment payload ≡ encoded = ground (arith, h) in
    subst (All IsPlain) same (encode_segment-IsPlain payload)
serialized_payload-IsPlain false payload encoded h = elim (Bool-cases (has_dot payload)) [
  | inl dotted ↦ absurd (ground (arith, dotted))
  | inr plain ↦
      let same : payload ≡ encoded = ground (arith, plain) in
      subst (All IsPlain) same (has_dot-IsPlain payload plain)
]

-- The three parts that are joined hold no dot.
abbrev pub HasPlainParts : Signed → Type 0
HasPlainParts s = All IsPlain s.protected × All IsPlain s.payload × All IsPlain s.signature

-- How the parts were made.
pub record IsSigned (lib : Library) (payload : Bytes) (key : AnyKey) (opts : SignOptions)
    (s : Signed) : Type 0 where
  pub resolved : Key
  pub resolves : resolve_key lib.keys key opts.key_id ≡ ok resolved
  pub alg : Bytes
  pub a : SigAlg
  pub found : lookup_sig_alg alg ≡ ok a
  pub b64 : Bool
  pub b64_is :
      b64_value (lookup (codes "b64") (protected_header key opts alg)) opts.critical ≡ ok b64
  pub critical : check_critical_produced (protected_header key opts alg) ≡ ok tt
  pub header : encode_header lib.marshal (protected_header key opts alg) ≡ ok s.protected
  pub body : serialized_payload b64 payload ≡ ok s.payload
  pub sig : Bytes
  pub made : sign_kind lib.signing a.kind (signing_input s.protected s.payload) resolved ≡ ok sig
  pub signature : encode_segment sig ≡ s.signature

split-parts :
    (a b c : Bytes)
    → All IsPlain a
    → All IsPlain b
    → All IsPlain c
    → split (a ++ (dot ∷ (b ++ (dot ∷ c)))) ≡ a ∷ b ∷ c ∷ []
split-parts a b c ha hb hc =
    split-joined a (b ++ (dot ∷ c)) ha
    ∙ ap (λ l. a ∷ l) (split-joined b c hb ∙ ap (λ l. b ∷ l) (split-last c hc))

pub sign_one-IsSigned :
    (lib : Library) (payload : Bytes) (key : AnyKey) (opts : SignOptions) (s : Signed)
    → sign_one lib payload key opts ≡ ok s
    → IsSigned lib payload key opts s
unfolding sign_one
sign_one-IsSigned lib payload key opts s h =
    let (resolved, resolves, h₁) = >>=-eq-ok (resolve_key lib.keys key opts.key_id) _ h in
    let (alg, _, h₂) = >>=-eq-ok (choose_alg key resolved opts) _ h₁ in
    let (a, found, h₃) = >>=-eq-ok (lookup_sig_alg alg) _ h₂ in
    let (_, _, h₄) =
      >>=-eq-ok (check_jwk_usage key opts.key_id (codes "sig") (alg ∷ []) (codes "sign" ∷ [])) _
        h₃ in
    let (_, _, h₅) =
      >>=-eq-ok (guard (not (is_present (codes "b64") opts.unprotected)) unprotected_b64) _ h₄ in
    let protected = protected_header key opts alg in
    let (b64, b64_is, h₆) =
      >>=-eq-ok (b64_value (lookup (codes "b64") protected) opts.critical) _ h₅ in
    let (_, _, h₇) = >>=-eq-ok (merge_headers (protected ∷ opts.unprotected ∷ [])) _ h₆ in
    let (_, critical, h₈) = >>=-eq-ok (check_critical_produced protected) _ h₇ in
    let (segment, header, h₉) = >>=-eq-ok (encode_header lib.marshal protected) _ h₈ in
    let (encoded, body, h₁₀) = >>=-eq-ok (serialized_payload b64 payload) _ h₉ in
    let (sig, made, last) =
      >>=-eq-ok (sign_kind lib.signing a.kind (signing_input segment encoded) resolved) _ h₁₀ in
    let whole : Signed = record {
      protected = segment;
      signature = encode_segment sig;
      payload = encoded;
    } in
    let is : IsSigned lib payload key opts whole = record {
      resolved = resolved;
      resolves = resolves;
      alg = alg;
      a = a;
      found = found;
      b64 = b64;
      b64_is = b64_is;
      critical = critical;
      header = header;
      body = body;
      sig = sig;
      made = made;
      signature = refl;
    } in
    subst (IsSigned lib payload key opts) (ok-inj whole s last) is

sign_one-HasPlainParts :
    (lib : Library) (payload : Bytes) (key : AnyKey) (opts : SignOptions) (s : Signed)
    → IsSigned lib payload key opts s
    → HasPlainParts s
sign_one-HasPlainParts lib payload key opts s h = (
  encode_header-IsPlain lib.marshal (protected_header key opts h.alg) s.protected h.header,
  serialized_payload-IsPlain h.b64 payload s.payload h.body,
  subst (All IsPlain) h.signature (encode_segment-IsPlain h.sig),
)

abbrev pub shown_payload : SignOptions → Signed → Bytes
shown_payload opts s = if opts.detach_payload then [] else s.payload

shown_payload-IsPlain :
    (b : Bool) (encoded : Bytes) → All IsPlain encoded → All IsPlain (if b then [] else encoded)
shown_payload-IsPlain true encoded h = tt
shown_payload-IsPlain false encoded h = h

-- A token that `Sign` makes splits into exactly three parts: the protected header, the payload (empty if
-- it is detached) and the signature that `signOne` made, none of which holds a dot.
pub split-sign :
    (lib : Library) (payload : Bytes) (key : AnyKey) (opts : SignOptions) (token : Bytes)
    → sign lib payload key opts ≡ ok token
    → (s : Signed) × IsSigned lib payload key opts s
      × HasPlainParts s
      × (split token ≡ s.protected ∷ shown_payload opts s ∷ s.signature ∷ [])
unfolding sign
split-sign lib payload key opts token h =
    let (_, compact, h₁) = >>=-eq-ok (guard (is_empty opts.unprotected) invalid_header) _ h in
    let (s, run, last) = >>=-eq-ok (sign_one lib payload key opts) _ h₁ in
    let made = sign_one-IsSigned lib payload key opts s run in
    let plain = sign_one-HasPlainParts lib payload key opts s made in
    let shown = shown_payload opts s in
    let same : s.protected ++ (dot ∷ (shown ++ (dot ∷ s.signature))) ≡ token =
      ground (arith, last) in
    (
      s,
      made,
      plain,
      ap split (sym same)
          ∙ split-parts s.protected shown s.signature plain.0
              (shown_payload-IsPlain opts.detach_payload s.payload plain.1) plain.2,
    )
