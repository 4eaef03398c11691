-- ===== src/Jwe/Tokens.antt =====
-- A token of `Encrypt` splits into the parts that were joined, and they decode.
use jose.Common.{◌≡◌, sym, ap, ◌∙◌, is_empty, none, [], ◌∷◌, Bytes, codes, All}
use jose.Common.Outcome.{ok, guard, ok-inj, >>=-eq-ok}
use jose.Errors.{invalid_header}
use jose.Base64.{encode_segment}
use jose.Base64.Alphabet.{IsPlain, encode_segment-IsPlain}
use jose.Header.{Header, header_string, check_critical_produced}
use jose.Token.{split, encode_header, split-joined, split-last, encode_header-IsPlain}
use jose.Keys.{Key}
use jose.Jwk.{AnyKey, resolve_key, check_jwk_usage}
use jose.ContentEnc.{ContentEnc, Random, Sealed, lookup_enc}
use jose.KeyMgmt.{KeyMgmt, Draws, lookup_key_mgmt}
use jose.KeyMgmt.Dispatch.{encrypt_key}
use jose.Jwe.{
  JweLibrary, EncryptOptions, choose_key_mgmt_alg, choose_enc, encrypt_ops, produced_header,
  content_of, join5, encrypt,
}

split-join5 :
    (protected encrypted_key : Bytes) (s : Sealed)
    → All IsPlain protected
    → split (join5 protected encrypted_key s)
      ≡ protected
        ∷ encode_segment encrypted_key
        ∷ encode_segment s.iv
        ∷ encode_segment s.ciphertext
        ∷ encode_segment s.tag
        ∷ []
unfolding join5
split-join5 protected encrypted_key s plain =
    split-joined protected _ plain
    ∙ ap (λ l. protected ∷ l)
        (split-joined (encode_segment encrypted_key) _ (encode_segment-IsPlain encrypted_key)
          ∙ ap (λ l. encode_segment encrypted_key ∷ l)
              (split-joined (encode_segment s.iv) _ (encode_segment-IsPlain s.iv)
                ∙ ap (λ l. encode_segment s.iv ∷ l)
                    (split-joined (encode_segment s.ciphertext) _
                        (encode_segment-IsPlain s.ciphertext)
                      ∙ ap (λ l. encode_segment s.ciphertext ∷ l)
                          (split-last (encode_segment s.tag) (encode_segment-IsPlain s.tag)))))

module _ (lib : JweLibrary) (draws : Draws) (random : Random) (plaintext : Bytes) (key : AnyKey)
    (opts : EncryptOptions) where
  -- How a token was made: the key is encrypted first, which completes the header; the header is encoded; and the
  -- content is sealed under the key together with the encoded header.
  pub record IsMade (token : Bytes) : Type 0 where
    pub alg : Bytes
    pub km : KeyMgmt
    pub km_found : lookup_key_mgmt alg ≡ ok km
    pub enc : ContentEnc
    pub enc_found : lookup_enc (choose_enc opts.encryption) ≡ ok enc
    pub resolved : Key
    pub resolves : resolve_key lib.mgmt.keys key opts.key_id ≡ ok resolved
    pub chosen : choose_key_mgmt_alg opts.algorithm key resolved ≡ ok alg
    pub critical :
        check_critical_produced (produced_header key opts alg (choose_enc opts.encryption)) ≡ ok tt
    pub written : Header
    pub cek : Bytes
    pub encrypted_key : Bytes
    pub delivered :
        encrypt_key lib.mgmt km enc draws resolved
          (produced_header key opts alg (choose_enc opts.encryption))
          none
        ≡ ok (written, cek, encrypted_key)
    pub body : Bytes
    pub content : content_of lib (header_string written (codes "zip")) plaintext ≡ ok body
    pub protected : Bytes
    pub encoded : encode_header lib.marshal written ≡ ok protected
    pub sealed : Sealed
    pub seals :
        jose.ContentEnc.encrypt lib.mgmt.primitives enc random cek body protected ≡ ok sealed
    pub parts :
        split token
        ≡ protected
          ∷ encode_segment encrypted_key
          ∷ encode_segment sealed.iv
          ∷ encode_segment sealed.ciphertext
          ∷ encode_segment sealed.tag
          ∷ []

  -- A token that `Encrypt` makes splits into exactly five parts: the encoded header in which the key management
  -- algorithm wrote, the encrypted key that it delivered, and the initialisation vector, the ciphertext and the
  -- tag of the content, which is sealed under the delivered key with the first part as the additional data.
  pub split-encrypt :
      (token : Bytes) → encrypt lib draws random plaintext key opts ≡ ok token → IsMade token
  unfolding encrypt
  split-encrypt token h =
      let (_, _, h₁) = >>=-eq-ok (guard (is_empty opts.unprotected) invalid_header) _ h in
      let (_, _, h₂) = >>=-eq-ok (guard (is_empty opts.additional_data) invalid_header) _ h₁ in
      let (resolved, resolves, h₃) = >>=-eq-ok (resolve_key lib.mgmt.keys key opts.key_id) _ h₂ in
      let (alg, chosen, h₄) = >>=-eq-ok (choose_key_mgmt_alg opts.algorithm key resolved) _ h₃ in
      let (km, km_found, h₅) = >>=-eq-ok (lookup_key_mgmt alg) _ h₄ in
      let enc_name = choose_enc opts.encryption in
      let (enc, enc_found, h₆) = >>=-eq-ok (lookup_enc enc_name) _ h₅ in
      let (_, _, h₇) =
        >>=-eq-ok (check_jwk_usage key opts.key_id (codes "enc") (alg ∷ enc_name ∷ []) encrypt_ops)
          _ h₆ in
      let header = produced_header key opts alg enc_name in
      let (_, critical, h₈) = >>=-eq-ok (check_critical_produced header) _ h₇ in
      let ((written, cek, encrypted_key), delivered, h₉) =
        >>=-eq-ok (encrypt_key lib.mgmt km enc draws resolved header none) _ h₈ in
      let (body, content, h₁₀) =
        >>=-eq-ok (content_of lib (header_string written (codes "zip")) plaintext) _ h₉ in
      let (protected, encoded, h₁₁) = >>=-eq-ok (encode_header lib.marshal written) _ h₁₀ in
      let (sealed, seals, last) =
        >>=-eq-ok (jose.ContentEnc.encrypt lib.mgmt.primitives enc random cek body protected) _
          h₁₁ in
      let same : join5 protected encrypted_key sealed ≡ token = ok-inj _ token last in
      record {
        alg = alg;
        km = km;
        km_found = km_found;
        enc = enc;
        enc_found = enc_found;
        resolved = resolved;
        resolves = resolves;
        chosen = chosen;
        critical = critical;
        written = written;
        cek = cek;
        encrypted_key = encrypted_key;
        delivered = delivered;
        body = body;
        content = content;
        protected = protected;
        encoded = encoded;
        sealed = sealed;
        seals = seals;
        parts =
            ap split (sym same)
            ∙ split-join5 protected encrypted_key sealed
                (encode_header-IsPlain lib.marshal written protected encoded);
      }
