-- ===== src/Jwk/Export/Fields.antt =====
-- A member of a JWK read back: octets and integers through `encodeSegment`, `b64Field` and `b64Int`.
use jose.Common.{
  is_empty, ℕ, ◌<◌, ◌≡◌, ◌≢◌, refl, sym, ap, ◌∙◌, false, [], ◌∷◌, Bytes, IsByte, All, length, arith,
}
use jose.Common.Outcome.{ok}
use jose.Base64.{encode_segment}
use jose.Base64.RoundTrip.{decode-encode}
use jose.BigInt.{
  set_bytes, fill_bytes, big_bytes, set_bytes-fill_bytes, fill_bytes-IsByte, length-fill_bytes,
  set_bytes-big_bytes, big_bytes-IsByte,
}
use jose.Ecdh.{pad_big}
use jose.Ecdh.Agreement.{pad_big-ok}
use jose.Jwk.{b64_field, b64_int}

pub encode-nonempty : (b : Bytes) → b ≢ [] → is_empty (encode_segment b) ≡ false
unfolding encode_segment
encode-nonempty [] h = absurd (h refl)
encode-nonempty (a ∷ []) h = refl
encode-nonempty (a ∷ b ∷ []) h = refl
encode-nonempty (a ∷ b ∷ c ∷ l) h = refl

-- A field that was encoded is read back.
pub field_back : (b : Bytes) → b ≢ [] → All IsByte b → b64_field (encode_segment b) ≡ ok b
unfolding b64_field
field_back b h octets = rw (encode-nonempty b h, decode-encode b octets) refl

pub int_back :
    (b : Bytes) (n : ℕ)
    → b ≢ []
    → All IsByte b
    → set_bytes b ≡ n
    → b64_int (encode_segment b) ≡ ok n
unfolding b64_int
int_back b n h octets e = rw (field_back b h octets, e) refl

pub big_bytes-nonempty : (n : ℕ) → 0 < n → big_bytes n ≢ []
unfolding set_bytes
big_bytes-nonempty n h e = omega (arith, sym (set_bytes-big_bytes n) ∙ ap set_bytes e)

pub big_back : (n : ℕ) → 0 < n → b64_int (encode_segment (big_bytes n)) ≡ ok n
big_back n h =
    int_back (big_bytes n) n (big_bytes-nonempty n h) (big_bytes-IsByte n) (set_bytes-big_bytes n)

pub nonempty-of : (b : Bytes) (n : ℕ) → length b ≡ n → 0 < n → b ≢ []
nonempty-of [] n e h = λ f. omega arith
nonempty-of (x ∷ b) n e h = λ f. cc

pub pad_back :
    (n size : ℕ) (b : Bytes) → 0 < size → pad_big n size ≡ ok b → b64_int (encode_segment b) ≡ ok n
pad_back n size b some_size h =
    let (same, fits) = pad_big-ok n size b h in
    rw same (
      int_back (fill_bytes size n) n (nonempty-of _ size (length-fill_bytes size n) some_size)
        (fill_bytes-IsByte size n) (set_bytes-fill_bytes size n fits))

pub pad-nonempty :
    (n size : ℕ) (b : Bytes)
    → 0 < size
    → pad_big n size ≡ ok b
    → is_empty (encode_segment b) ≡ false
pad-nonempty n size b some_size h =
    let (same, fits) = pad_big-ok n size b h in
    rw same (
      encode-nonempty (fill_bytes size n) (nonempty-of _ size (length-fill_bytes size n) some_size))
