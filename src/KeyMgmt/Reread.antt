-- ===== src/KeyMgmt/Reread.antt =====
-- What the recipient reads back of the parameters that AES-GCM key wrap and PBES2 write.
use jose.Base64.{decode_segment}
use jose.Base64.Canonical.{decode_segment_iff}
use jose.Common.{
  Option-cases, inl, inr, true, ◌≡◌, refl, sym, ap, ◌∙◌, false, some, [], Bytes, codes, lookup,
  insert, All, All-take, IsByte, take, length, ◌-◌, arith,
}
use mathlib.Core.Path.{subst}
use jose.Common.Outcome.{ok, relabel-ok, guard, guard-ok, >>=-eq-ok}
use jose.Common.Int.{ℤ, pos, negsuc}
use jose.Errors.{invalid_header, invalid_key, iteration_count}
use jose.Base64.{encode_segment}
use jose.Cipher.{Gcm, is_aes_key}
use jose.Codec.{
  is_ascii, IsReread, encode_segment-ascii, reread-str, reread-int, reread-encoded, IsExact,
}
use jose.ContentEnc.{Random, Sealed, read_random}
use jose.Hashing.{Hash}
use jose.KeyWrap.{aes_key_wrap}
use jose.Json.{Value, obj, null, bool, arr, strs, str, int, float}
use jose.Header.{Header}
use jose.Keys.{Key}
use jose.KeyMgmt.{
  pbes2, KeyMgmt, KeyMgmtLibrary, password_key, aes_gcm_wrap, bytes_of, header_bytes_optional,
  optional_bytes, header_int,
}
use jose.KeyMgmt.Pbes2.{
  chosen_count, required_count, check_count, chosen_salt, check_salt, pbes2_kek, encrypt_key_pbes2,
}
use jose.KeyMgmt.Reading.{SealsOctets, lookup_last, lookup_before, apart}
use jose.KeyMgmt.Opens.{ReadsSame}

-- The names of the parameters that are read back.
pub plain :
    (is_ascii (codes "iv") ≡ true)
    × (is_ascii (codes "tag") ≡ true)
    × (is_ascii (codes "p2c") ≡ true)
    × (is_ascii (codes "p2s") ≡ true)
    × (is_ascii (codes "apu") ≡ true)
    × (is_ascii (codes "apv") ≡ true)
    × (is_ascii (codes "epk") ≡ true)
unfolding is_ascii
plain = (refl, refl, refl, refl, refl, refl, refl)

module _ (lib : KeyMgmtLibrary) (km : KeyMgmt) where
  -- What PBES2 writes, and what it delivers.
  pub record IsSalted (prf : Hash) (key : Key) (header written : Header) (cek c e : Bytes)
      : Type 0 where
    pub count : ℤ
    pub bounded : check_count count ≡ ok tt
    pub salt : Bytes
    pub kek : Bytes
    pub head :
        insert (codes "p2c") (int count) (insert (codes "p2s") (str (encode_segment salt)) header)
        ≡ written
    pub wraps : aes_key_wrap lib.primitives.aes kek cek ≡ ok e

  pub encrypt_key_pbes2-IsSalted :
      (prf : Hash) (random : Random) (key : Key) (header written : Header) (cek c e : Bytes)
      → encrypt_key_pbes2 lib.primitives km prf random key header cek ≡ ok (written, c, e)
      → IsSalted prf key header written cek c e
  unfolding encrypt_key_pbes2
  encrypt_key_pbes2-IsSalted prf random key header written cek c e h =
      let (pass, _, h₁) = >>=-eq-ok (password_key key) _ h in
      let (count, _, h₂) = >>=-eq-ok (chosen_count (lookup (codes "p2c") header)) _ h₁ in
      let (_, bounded, h₃) = >>=-eq-ok (check_count count) _ h₂ in
      let (salt, _, h₄) =
        >>=-eq-ok (chosen_salt random header (lookup (codes "p2s") header)) _ h₃ in
      let (_, _, h₅) = >>=-eq-ok (check_salt salt) _ h₄ in
      let (kek, _, h₆) = >>=-eq-ok (pbes2_kek lib.primitives km prf pass salt count) _ h₅ in
      let (wrapped, made, last) = >>=-eq-ok (aes_key_wrap lib.primitives.aes kek cek) _ h₆ in
      record {
        count = count;
        bounded = bounded;
        salt = salt;
        kek = kek;
        head = ground (arith, last);
        wraps = made ∙ ap ok (ground (arith, last));
      }

  pub gcm_wrap-octets :
      (aead : Gcm) (random : Random) (kek cek : Bytes) (s : Sealed)
      → SealsOctets aead
      → All IsByte cek
      → aes_gcm_wrap aead random kek cek ≡ ok s
      → All IsByte s.ciphertext
  unfolding aes_gcm_wrap
  gcm_wrap-octets aead random kek cek s seals octets h =
      let (_, _, h₁) = >>=-eq-ok (guard (is_aes_key kek) invalid_key) _ h in
      let (iv, _, last) = >>=-eq-ok (read_random random 12) _ h₁ in
      let text = aead.seal kek iv cek [] in
      let same : take (length text - 16) text ≡ s.ciphertext = ground (arith, last) in
      subst (All IsByte) same (All-take IsByte _ text (seals kek iv cek [] octets))

  -- A count within the bounds is read back from a float64.
  count_reread :
      (count : ℤ)
      → check_count count ≡ ok tt
      → IsExact count × (required_count (some (float count false)) ≡ ok count)
  unfolding check_count required_count header_int
  count_reread (pos n) h = let fits = guard-ok _ iteration_count h in (ground arith, ground arith)
  count_reread (negsuc n) h = let fits = guard-ok _ iteration_count h in absurd (ground arith)

  pub bytes_reread :
      (sent received : Header)
      → IsReread lib.marshal_value sent received
      → (name b : Bytes) → is_ascii name ≡ true
      → lookup name sent ≡ some (str (encode_segment b))
      → bytes_of (lookup name received) ≡ bytes_of (lookup name sent)
  bytes_reread sent received same name b plain e = ap bytes_of (
      reread-str lib.marshal_value sent received same name (encode_segment b) plain
        (encode_segment-ascii b) e
      ∙ sym e)

  pub pbes2-ReadsSame :
      (prf : Hash) (key : Key) (header written received : Header) (cek c e : Bytes)
      → IsSalted prf key header written cek c e
      → IsReread lib.marshal_value written received
      → ReadsSame lib (pbes2 prf) written received
  unfolding ReadsSame required_count header_int
  pbes2-ReadsSame prf key header written received cek c e h same =
      let set = insert (codes "p2s") (str (encode_segment h.salt)) header in
      let p2c =
        ap (λ w. lookup (codes "p2c") w) (sym h.head)
        ∙ lookup_last (codes "p2c") (int h.count) set in
      let p2s =
        ap (λ w. lookup (codes "p2s") w) (sym h.head)
        ∙ lookup_before (codes "p2s") (codes "p2c") (int h.count) (str (encode_segment h.salt))
            header apart.0 in
      let (exact, read) = count_reread h.count h.bounded in
      (
        ap required_count (
              reread-int lib.marshal_value written received same (codes "p2c") h.count plain.2 exact
                p2c)
            ∙ (read ∙ sym (ap required_count p2c)),
        bytes_reread written received same (codes "p2s") h.salt plain.3 p2s,
      )

  -- An encoded parameter that is absent or decodes.
  encoded-str : (v : Value) (b : Bytes) → bytes_of (some v) ≡ ok b → v ≡ str (encode_segment b)
  unfolding bytes_of
  encoded-str (str s) b h =
      ap str (sym ((decode_segment_iff s b).0 (relabel-ok invalid_header (decode_segment s) b h)).0)
  encoded-str null b h = absurd (ground arith)
  encoded-str (bool _) b h = absurd (ground arith)
  encoded-str (float _ _) b h = absurd (ground arith)
  encoded-str (arr _) b h = absurd (ground arith)
  encoded-str (obj _) b h = absurd (ground arith)
  encoded-str (strs _) b h = absurd (ground arith)
  encoded-str (int _) b h = absurd (ground arith)

  pub optional_reread :
      (sent received : Header)
      → IsReread lib.marshal_value sent received
      → (name b : Bytes) → is_ascii name ≡ true
      → header_bytes_optional sent name ≡ ok b
      → header_bytes_optional received name ≡ header_bytes_optional sent name
  unfolding header_bytes_optional optional_bytes
  optional_reread sent received same name b plain h = elim (Option-cases (lookup name sent)) [
    | inl absent ↦ ap optional_bytes (same.absent name plain absent ∙ sym absent)
    | inr (v, there) ↦
        let read : bytes_of (some v) ≡ ok b = ap optional_bytes (sym there) ∙ h in
        ap optional_bytes (
          reread-encoded lib.marshal_value sent received same name b plain
            (there ∙ ap some (encoded-str v b read)))
  ]
