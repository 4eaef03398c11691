-- ===== src/ContentEnc/Octets.antt =====
-- Sealed content consists of octets, as the segments of a token must.
use jose.Common.{◌≡◌, sym, Bytes, IsByte, All, All-take, All-drop, length, ==_iff}
use mathlib.Core.Path.{subst}
use jose.Common.Outcome.{ok, guard, guard-ok, >>=-eq-ok}
use jose.Errors.{invalid_key}
use jose.Hashing.{Hash}
use jose.Pkcs7.{pkcs7_pad}
use jose.Pkcs7.RoundTrip.{pkcs7_pad-IsByte}
use jose.Cbc.RoundTrip.{cbc_encrypt-IsByte}
use jose.ContentEnc.{
  Mode, gcm, cbc_hmac, ContentEnc, Primitives, Random, Sealed, cbc_split, cbc_tag, encrypt_gcm,
  encrypt_cbc_hmac, encrypt_mode, encrypt,
}
use jose.ContentEnc.RoundTrip.{IsPrimitives, IsRandom, encrypt_gcm-ok, encrypt_cbc_hmac-ok}

-- The libraries give octets.
pub record GivesOctets (p : Primitives) : Type 0 where
  pub seal-IsByte :
      (key nonce text aad : Bytes) → All IsByte text → All IsByte (p.aead.seal key nonce text aad)
  pub hmac-IsByte : (h : Hash) (key input : Bytes) → All IsByte (p.hashing.hmac h key input)

abbrev pub IsSealed : Sealed → Type 0
IsSealed s = All IsByte s.iv × All IsByte s.ciphertext × All IsByte s.tag

module _ (p : Primitives) (laws : IsPrimitives p) (octets : GivesOctets p) (random : Random)
    (source : IsRandom random) (cek plaintext aad : Bytes) (plain : All IsByte plaintext) where
  encrypt_gcm-IsSealed : (s : Sealed) → encrypt_gcm p random cek plaintext aad ≡ ok s → IsSealed s
  encrypt_gcm-IsSealed s h =
      let (iv, read, _, iv_eq, (text_eq, tag_eq)) =
        encrypt_gcm-ok p laws random source cek plaintext aad s h in
      let sealed = octets.seal-IsByte cek iv plaintext aad plain in
      (
        subst (All IsByte) (sym iv_eq) (source.read-IsByte 12 iv read),
        subst (All IsByte) (sym text_eq) (All-take IsByte _ _ sealed),
        subst (All IsByte) (sym tag_eq) (All-drop IsByte _ _ sealed),
      )

  encrypt_cbc_hmac-IsSealed :
      (hash : Hash) (s : Sealed)
      → encrypt_cbc_hmac p hash random cek plaintext aad ≡ ok s
      → IsSealed s
  unfolding cbc_tag
  encrypt_cbc_hmac-IsSealed hash s h =
      let (iv, read, _, iv_eq, text_eq, tag_eq) =
        encrypt_cbc_hmac-ok p laws random source cek plaintext aad hash s h in
      let drawn = source.read-IsByte 16 iv read in
      (
        subst (All IsByte) (sym iv_eq) drawn,
        subst (All IsByte) (sym text_eq) (
            cbc_encrypt-IsByte p.aes laws.aes (cbc_split cek).1 iv (pkcs7_pad plaintext 16) drawn
              (pkcs7_pad-IsByte plaintext 16 plain)),
        subst (All IsByte) (sym tag_eq) (
            All-take IsByte (length (cbc_split cek).0) _
              (octets.hmac-IsByte hash (cbc_split cek).0 _)),
      )

  encrypt_mode-IsSealed :
      (m : Mode) (s : Sealed) → encrypt_mode p m random cek plaintext aad ≡ ok s → IsSealed s
  unfolding encrypt_mode
  encrypt_mode-IsSealed gcm s h = encrypt_gcm-IsSealed s h
  encrypt_mode-IsSealed (cbc_hmac hash) s h = encrypt_cbc_hmac-IsSealed hash s h

  -- The content is octets, and the key had the size for it.
  pub encrypt-IsSealed :
      (ce : ContentEnc) (s : Sealed)
      → encrypt p ce random cek plaintext aad ≡ ok s
      → IsSealed s × (length cek ≡ ce.key_size)
  unfolding encrypt
  encrypt-IsSealed ce s h =
      let (_, sized, h₁) = >>=-eq-ok (guard _ invalid_key) _ h in
      (encrypt_mode-IsSealed ce.mode s h₁, (==_iff _ _).0 (guard-ok _ invalid_key sized))
