-- ===== src/Jwe/Decrypted.antt =====
-- What decryption has checked when it returns a plaintext.
use jose.Common.{◌≡◌, refl, List, [], ◌∷◌, Bytes, arith}
use jose.Common.Outcome.{ok, relabel-ok, >>=-eq-ok}
use jose.Errors.{malformed}
use jose.Base64.{encode_segment, decode_segment}
use jose.Base64.Canonical.{decode_segment_iff}
use jose.Header.{Header, check_critical}
use jose.Header.Critical.{IsAcceptable, check_critical_iff}
use jose.Token.{split, decode_header}
use jose.Jwk.{AnyKey}
use jose.ContentEnc.{Sealed}
use jose.Jwe.{DecryptOptions, JweLibrary}
use jose.Jwe.Decrypt.{
  decode_optional_segment, decrypt_one, decode_parts, decrypt_parts, decrypt_with_options,
}
use jose.Jwe.Opened.{IsOpened, decrypt_one-IsOpened}

-- A segment that may be empty decodes to octets that it is the encoding of.
pub optional-encodes : (seg b : Bytes) → decode_optional_segment seg ≡ ok b → encode_segment b ≡ seg
unfolding decode_optional_segment encode_segment
optional-encodes [] b h = let none_given : [] ≡ b = ground arith in rw (← none_given) refl
optional-encodes (c ∷ seg) b h =
    ((decode_segment_iff (c ∷ seg) b).0 (relabel-ok malformed (decode_segment (c ∷ seg)) b h)).0

module _ (lib : JweLibrary) (key : AnyKey) (opts : DecryptOptions) where
  -- The parts of a token that was decrypted. The additional authenticated data is the header segment as
  -- it was received.
  pub record IsDecrypted (token plaintext : Bytes) (header : Header) : Type 0 where
    pub segment : Bytes
    pub encrypted_key : Bytes
    pub sealed : Sealed
    pub parts :
        split token
        ≡ segment
          ∷ encode_segment encrypted_key
          ∷ encode_segment sealed.iv
          ∷ encode_segment sealed.ciphertext
          ∷ encode_segment sealed.tag
          ∷ []
    pub decoded : decode_header lib.mgmt.unmarshal segment ≡ ok header
    pub critical_known : IsAcceptable header opts.known_critical
    pub opened : IsOpened lib header encrypted_key sealed segment key opts plaintext

  parts-encode :
      (k i c t e : Bytes) (s : Sealed)
      → decode_parts lib k i c t ≡ ok (e, s)
      → (encode_segment e ≡ k)
        × (encode_segment s.iv ≡ i)
        × (encode_segment s.ciphertext ≡ c)
        × (encode_segment s.tag ≡ t)
  unfolding decode_parts
  parts-encode k i c t e s h =
      let (e', dk, h₁) = >>=-eq-ok (decode_optional_segment k) _ h in
      let (iv, di, h₂) = >>=-eq-ok (decode_optional_segment i) _ h₁ in
      let (ciphertext, dc, h₃) = >>=-eq-ok (decode_optional_segment c) _ h₂ in
      let (tag, dt, last) = >>=-eq-ok (decode_optional_segment t) _ h₃ in
      let same : e' ≡ e = ground (arith, last) in
      let sealed : record { iv = iv; ciphertext = ciphertext; tag = tag } ≡ s =
        ground (arith, last) in
      (
        rw (← same) (optional-encodes k e' dk),
        rw (← sealed) (optional-encodes i iv di),
        rw (← sealed) (optional-encodes c ciphertext dc),
        rw (← sealed) (optional-encodes t tag dt),
      )

  parts-IsDecrypted :
      (token p k i c t plaintext : Bytes) (header : Header)
      → split token ≡ p ∷ k ∷ i ∷ c ∷ t ∷ []
      → decrypt_parts lib (p ∷ k ∷ i ∷ c ∷ t ∷ []) key opts ≡ ok (plaintext, header)
      → IsDecrypted token plaintext header
  unfolding decrypt_parts
  parts-IsDecrypted token p k i c t plaintext header e h =
      let (protected, decoded, h₁) = >>=-eq-ok (decode_header lib.mgmt.unmarshal p) _ h in
      let (_, crit, h₂) = >>=-eq-ok (check_critical protected opts.known_critical) _ h₁ in
      let ((encrypted_key, s), split_up, h₃) = >>=-eq-ok (decode_parts lib k i c t) _ h₂ in
      let (body, run, last) =
        >>=-eq-ok (decrypt_one lib protected encrypted_key s p key opts) _ h₃ in
      let text : body ≡ plaintext = ground (arith, last) in
      let head : protected ≡ header = ground (arith, last) in
      let (ek, ei, ec, et) = parts-encode k i c t encrypted_key s split_up in
      record {
        segment = p;
        encrypted_key = encrypted_key;
        sealed = s;
        parts = rw (ek, ei, ec, et) e;
        decoded = rw (← head) decoded;
        critical_known = (check_critical_iff header opts.known_critical).0 (rw (← head) crit);
        opened =
            rw (← head, ← text)
              (decrypt_one-IsOpened lib protected encrypted_key s p key opts body run);
      }

  five_parts :
      (token plaintext : Bytes) (header : Header) (l : List Bytes)
      → split token ≡ l
      → decrypt_parts lib l key opts ≡ ok (plaintext, header)
      → IsDecrypted token plaintext header
  unfolding decrypt_parts
  five_parts token plaintext header (p ∷ k ∷ i ∷ c ∷ t ∷ []) e h =
      parts-IsDecrypted token p k i c t plaintext header e h
  five_parts token plaintext header [] e h = absurd (ground arith)
  five_parts token plaintext header (_ ∷ []) e h = absurd (ground arith)
  five_parts token plaintext header (_ ∷ _ ∷ []) e h = absurd (ground arith)
  five_parts token plaintext header (_ ∷ _ ∷ _ ∷ []) e h = absurd (ground arith)
  five_parts token plaintext header (_ ∷ _ ∷ _ ∷ _ ∷ []) e h = absurd (ground arith)
  five_parts token plaintext header (_ ∷ _ ∷ _ ∷ _ ∷ _ ∷ _ ∷ _) e h = absurd (ground arith)

  -- A plaintext comes out of `DecryptWithOptions` only from a token of five parts, the last four of which
  -- are canonical encodings. The header is the decoded first part and its "crit" is acceptable. "alg" and
  -- "enc" are there and accepted, and name algorithms of the package; the JWK permits decryption; the key
  -- recovered has the size of the algorithm; the content is authentic under it together with the header as
  -- received; and the plaintext is that content, or it was compressed and inflates within the limit.
  pub decrypt-IsDecrypted :
      (token plaintext : Bytes) (header : Header)
      → decrypt_with_options lib token key opts ≡ ok (plaintext, header)
      → IsDecrypted token plaintext header
  unfolding decrypt_with_options
  decrypt-IsDecrypted token plaintext header h =
      five_parts token plaintext header (split token) refl h
