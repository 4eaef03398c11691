-- ===== src/KeyMgmt/Pbes2/Opened.antt =====
-- The recipient of a PBES2 key recovers it with the same password.
use jose.Common.{◌≡◌, sym, ap, ◌∙◌, Bytes, codes, lookup, insert, All, IsByte, arith}
use jose.Common.Outcome.{ok, >>=-ok, >>=-eq-ok}
use jose.Base64.{encode_segment}
use jose.ContentEnc.{Random}
use jose.ContentEnc.RoundTrip.{IsPrimitives, IsRandom}
use jose.Hashing.{Hash}
use jose.KeyWrap.{aes_key_wrap, aes_key_unwrap}
use jose.Json.{str, int}
use jose.Header.{Header}
use jose.Keys.{Key}
use jose.KeyMgmt.{pbes2, KeyMgmt, KeyMgmtLibrary, password_key, bytes_of, header_bytes}
use jose.KeyMgmt.Pbes2.{
  chosen_count, required_count, check_count, chosen_salt, check_salt, pbes2_kek, encrypt_key_pbes2,
  decrypt_key_pbes2,
}
use jose.KeyMgmt.Reading.{
  wrap_opens, chosen_count-required, chosen_salt-IsByte, bytes_of-encoded, lookup_last,
  lookup_before, apart,
}
use jose.KeyMgmt.Opens.{ReadsSame}

module _ (lib : KeyMgmtLibrary) (laws : IsPrimitives lib.primitives) (km : KeyMgmt) where
  pub pbes2_opens :
      (prf : Hash) (random : Random)
      → IsRandom random
      → (key : Key) (header written received : Header) (cek c e : Bytes) → All IsByte cek
      → encrypt_key_pbes2 lib.primitives km prf random key header cek ≡ ok (written, c, e)
      → ReadsSame lib (pbes2 prf) written received
      → decrypt_key_pbes2 lib.primitives km prf key received e ≡ ok c
  unfolding encrypt_key_pbes2 decrypt_key_pbes2 ReadsSame header_bytes
  pbes2_opens prf random source key header written received cek c e octets h
        (count_same, salt_same) =
      let (pass, from, h₁) = >>=-eq-ok (password_key key) _ h in
      let (count, counted, h₂) = >>=-eq-ok (chosen_count (lookup (codes "p2c") header)) _ h₁ in
      let (_, bounded, h₃) = >>=-eq-ok (check_count count) _ h₂ in
      let (salt, salted, h₄) =
        >>=-eq-ok (chosen_salt random header (lookup (codes "p2s") header)) _ h₃ in
      let (_, sized, h₅) = >>=-eq-ok (check_salt salt) _ h₄ in
      let (kek, derived, h₆) = >>=-eq-ok (pbes2_kek lib.primitives km prf pass salt count) _ h₅ in
      let (wrapped, made, last) = >>=-eq-ok (aes_key_wrap lib.primitives.aes kek cek) _ h₆ in
      let set = insert (codes "p2s") (str (encode_segment salt)) header in
      let head : insert (codes "p2c") (int count) set ≡ written = ground (arith, last) in
      let key_same : cek ≡ c = ground (arith, last) in
      let carried : wrapped ≡ e = ground (arith, last) in
      let p2c = lookup_last (codes "p2c") (int count) set in
      let p2s =
        lookup_before (codes "p2s") (codes "p2c") (int count) (str (encode_segment salt)) header
          apart.0 in
      let read_count : required_count (lookup (codes "p2c") received) ≡ ok count =
        count_same
        ∙ (ap (λ w. required_count (lookup (codes "p2c") w)) (sym head)
            ∙ (ap required_count p2c ∙ chosen_count-required _ count counted)) in
      let read_salt : bytes_of (lookup (codes "p2s") received) ≡ ok salt =
        salt_same
        ∙ (ap (λ w. bytes_of (lookup (codes "p2s") w)) (sym head)
            ∙ bytes_of-encoded _ salt (chosen_salt-IsByte random source header _ salt salted)
                p2s) in
      >>=-ok (password_key key) _ from
      ∙ (>>=-ok (required_count (lookup (codes "p2c") received)) _ read_count
          ∙ (>>=-ok (check_count count) _ bounded
              ∙ (>>=-ok (bytes_of (lookup (codes "p2s") received)) _ read_salt
                  ∙ (>>=-ok (check_salt salt) _ sized
                      ∙ (>>=-ok (pbes2_kek lib.primitives km prf pass salt count) _ derived
                          ∙ (ap (aes_key_unwrap lib.primitives.aes kek) (sym carried)
                              ∙ (wrap_opens lib.primitives.aes laws.aes kek cek wrapped octets made
                                  ∙ ap ok key_same)))))))
