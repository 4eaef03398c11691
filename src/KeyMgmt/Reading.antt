-- ===== src/KeyMgmt/Reading.antt =====
-- What a recipient reads back: wrapped keys, and the parameters that the sender wrote.
use jose.Common.{
  eqb, eqb_refl, ℕ, ◌-◌, ◌≡◌, refl, sym, ap, ◌∙◌, inl, inr, ==_iff, false, Option, none, some, [],
  Bytes, codes, lookup, insert, lookup-insert, length, take, drop, take-append-drop, length-drop,
  All, All-drop, IsByte, Option-cases, arith,
}
use jose.Common.Int.{ℤ}
use jose.Common.Outcome.{ok, guard, guard-ok, relabel-ok, >>=-eq-ok}
use jose.Errors.{invalid_key, invalid_header}
use jose.Base64.{encode_segment, decode_segment}
use jose.Base64.RoundTrip.{decode-encode}
use jose.Base64.Canonical.{decode_segment_iff}
use jose.Cipher.{BlockCipher, IsBlockCipher, Gcm, IsGcm, is_aes_key}
use jose.ContentEnc.{Random, Sealed, read_random}
use jose.ContentEnc.RoundTrip.{IsRandom}
use jose.KeyWrap.{aes_key_wrap, aes_key_unwrap}
use jose.KeyWrap.RoundTrip.{aes_key_wrap_total, unwrap-wrap}
use jose.Json.{Value, str, int, null, bool, float, arr, obj, strs}
use jose.Header.{Header}
use jose.KeyMgmt.{bytes_of, header_bytes, header_int, aes_gcm_wrap, aes_gcm_unwrap}
use jose.KeyMgmt.Pbes2.{chosen_count, required_count, chosen_salt}

pub wrap_opens :
    (aes : BlockCipher)
    → IsBlockCipher aes
    → (kek cek c : Bytes) → All IsByte cek
    → aes_key_wrap aes kek cek ≡ ok c
    → aes_key_unwrap aes kek c ≡ ok cek
wrap_opens aes laws kek cek c octets h = elim (aes_key_wrap_total aes kek cek) [
  | inl (fits, made) ↦
      let (c', wrapped, _, unwrapped) = unwrap-wrap aes laws kek cek octets fits in
      let same : c' ≡ c = ground (arith, wrapped, h) in
      ap (aes_key_unwrap aes kek) (sym same) ∙ unwrapped
  | inr (other, bad) ↦ absurd (ground (arith, bad, h))
]

-- Sealing of octets gives octets.
abbrev pub SealsOctets : Gcm → Type 0
SealsOctets aead =
    (key nonce text aad : Bytes) → All IsByte text → All IsByte (aead.seal key nonce text aad)

pub random-read :
    (random : Random) (n : ℕ) (b : Bytes) → read_random random n ≡ ok b → random n ≡ some b
unfolding read_random
random-read random n b h = elim (Option-cases (random n)) [
  | inl bad ↦ absurd (ground (arith, bad))
  | inr (c, e) ↦ e ∙ ap some (ground (arith, e))
]

module _ (aead : Gcm) (laws : IsGcm aead) (octets : SealsOctets aead) (random : Random)
    (source : IsRandom random) where
  pub gcm_opens :
      (kek cek : Bytes) (s : Sealed)
      → All IsByte cek
      → aes_gcm_wrap aead random kek cek ≡ ok s
      → (aes_gcm_unwrap aead kek s ≡ ok cek) × All IsByte s.iv × All IsByte s.tag
  unfolding aes_gcm_wrap aes_gcm_unwrap
  gcm_opens kek cek s plain h =
      let (_, key, h₁) = >>=-eq-ok (guard (is_aes_key kek) invalid_key) _ h in
      let (iv, drawn, last) = >>=-eq-ok (read_random random 12) _ h₁ in
      let valid = guard-ok _ invalid_key key in
      let read = random-read random 12 iv drawn in
      let text = aead.seal kek iv cek [] in
      let n = length text - 16 in
      let long = laws.length-seal kek iv cek [] in
      let split : record { iv = iv; ciphertext = take n text; tag = drop n text } ≡ s =
        ground (arith, last) in
      let sized : length (drop n text) ≡ 16 = omega (arith, long, length-drop n text) in
      let size = source.length-read 12 iv read in
      let back = laws.open-seal kek iv cek [] size in
      rw (← split) (
        rw (valid, (==_iff _ _).1 size, (==_iff _ _).1 sized, take-append-drop n text, back) refl,
        source.read-IsByte 12 iv read,
        All-drop IsByte n text (octets kek iv cek [] plain),
      )

-- The count and the salt that the header is given are those it is read back as.
pub chosen_count-required :
    (o : Option Value) (count : ℤ)
    → chosen_count o ≡ ok count
    → required_count (some (int count)) ≡ ok count
unfolding required_count header_int
chosen_count-required o count h = refl

pub bytes_of-IsByte : (o : Option Value) (b : Bytes) → bytes_of o ≡ ok b → All IsByte b
unfolding bytes_of
bytes_of-IsByte none b h = absurd (ground arith)
bytes_of-IsByte (some (str s)) b h =
    ((decode_segment_iff s b).0 (relabel-ok invalid_header (decode_segment s) b h)).1
bytes_of-IsByte (some null) b h = absurd (ground arith)
bytes_of-IsByte (some (bool _)) b h = absurd (ground arith)
bytes_of-IsByte (some (float _ _)) b h = absurd (ground arith)
bytes_of-IsByte (some (arr _)) b h = absurd (ground arith)
bytes_of-IsByte (some (obj _)) b h = absurd (ground arith)
bytes_of-IsByte (some (strs _)) b h = absurd (ground arith)
bytes_of-IsByte (some (int _)) b h = absurd (ground arith)

pub chosen_salt-IsByte :
    (random : Random)
    → IsRandom random
    → (header : Header) (o : Option Value) (salt : Bytes) → chosen_salt random header o ≡ ok salt
    → All IsByte salt
unfolding chosen_salt header_bytes
chosen_salt-IsByte random source header none salt h =
    source.read-IsByte 16 salt (random-read random 16 salt h)
chosen_salt-IsByte random source header (some raw) salt h =
    bytes_of-IsByte (lookup (codes "p2s") header) salt h

-- A parameter that holds encoded octets gives them back.
pub bytes_of-encoded :
    (o : Option Value) (b : Bytes)
    → All IsByte b
    → o ≡ some (str (encode_segment b))
    → bytes_of o ≡ ok b
unfolding bytes_of
bytes_of-encoded o b octets e = rw (e, decode-encode b octets) refl

-- What was written last under a name, and next to last with another name after it.
pub lookup_last : (k : Bytes) (v : Value) (m : Header) → lookup k (insert k v m) ≡ some v
lookup_last k v m = lookup-insert k k v m ∙ rw (eqb_refl k) refl

pub lookup_before :
    (j k : Bytes) (v w : Value) (m : Header)
    → eqb k j ≡ false
    → lookup j (insert k v (insert j w m)) ≡ some w
lookup_before j k v w m other = lookup-insert k j v (insert j w m) ∙ rw other (lookup_last j w m)

pub apart : (eqb (codes "p2c") (codes "p2s") ≡ false) × (eqb (codes "tag") (codes "iv") ≡ false)
unfolding eqb
apart = (refl, refl)

-- What was written under another name is not seen.
pub lookup_other :
    (k j : Bytes) (v : Value) (m : Header) → eqb k j ≡ false → lookup j (insert k v m) ≡ lookup j m
lookup_other k j v m other = lookup-insert k j v m ∙ rw other refl
