-- ===== src/KeyMgmt/Pbes2.antt =====
-- jwa_keymgmt.go: PBES2, key wrapping under a password.
pub mod Opened
use jose.Common.{not, ◌||◌, Option, none, some, ltb, Bytes, codes, lookup, insert, length}
use jose.Common.Int.{ℤ, pos, ltb_ℤ}
use jose.Common.Outcome.{Result, ok, err, ◌>>=◌, ◌>>◌, guard}
use jose.Errors.{Error, invalid_header, iteration_count}
use jose.Base64.{encode_segment}
use jose.ContentEnc.{Random, Primitives, read_random}
use jose.Hashing.{Hash}
use jose.Pbkdf2.{
  default_pbes2_count, min_pbes2_count, max_pbes2_count, max_pbes2_salt_input, pbkdf2,
  pbes2_salt_input,
}
use jose.KeyWrap.{aes_key_wrap, aes_key_unwrap}
use jose.Json.{Value, str, int}
use jose.Header.{Header}
use jose.Keys.{Key}
use jose.KeyMgmt.{KeyMgmt, wrap_key_size, password_key, header_bytes, header_int}

-- The count that the header gives, and the bounds on it.
pub chosen_count : Option Value → Result Error ℤ
chosen_count none = ok default_pbes2_count
chosen_count (some raw) = header_int raw

unfoldable pub required_count : Option Value → Result Error ℤ
required_count none = err invalid_header
required_count (some raw) = header_int raw

unfoldable pub check_count : ℤ → Result Error (Unit {0})
check_count count =
    guard (not (ltb_ℤ count min_pbes2_count || ltb_ℤ max_pbes2_count count)) iteration_count

-- The salt that the header gives, or a fresh one of 16 octets.
unfoldable pub chosen_salt : Random → Header → Option Value → Result Error Bytes
chosen_salt random header none = read_random random 16
chosen_salt random header (some raw) = header_bytes header (codes "p2s")

unfoldable pub check_salt : Bytes → Result Error (Unit {0})
check_salt salt =
    guard (not (ltb (length salt) 8 || ltb max_pbes2_salt_input (length salt))) invalid_header

module _ (p : Primitives) (km : KeyMgmt) (prf : Hash) where
  -- The key that wraps, derived from the password.
  unfoldable pub pbes2_kek : Bytes → Bytes → ℤ → Result Error Bytes
  pbes2_kek secret salt count =
      pbkdf2 p.hashing prf secret (pbes2_salt_input km.name salt) count (pos (wrap_key_size km))

  -- `encryptKeyPBES2`; the header is written to.
  unfoldable pub encrypt_key_pbes2 :
      Random → Key → Header → Bytes → Result Error (Header × Bytes × Bytes)
  encrypt_key_pbes2 random key header cek = do
    secret ← password_key key
    count ← chosen_count (lookup (codes "p2c") header)
    check_count count
    salt ← chosen_salt random header (lookup (codes "p2s") header)
    check_salt salt
    let written =
        insert (codes "p2c") (int count) (insert (codes "p2s") (str (encode_segment salt)) header)
    kek ← pbes2_kek secret salt count
    wrapped ← aes_key_wrap p.aes kek cek
    ok (written, cek, wrapped)

  -- `decryptKeyPBES2`
  unfoldable pub decrypt_key_pbes2 : Key → Header → Bytes → Result Error Bytes
  decrypt_key_pbes2 key header encrypted_key = do
    secret ← password_key key
    count ← required_count (lookup (codes "p2c") header)
    check_count count
    salt ← header_bytes header (codes "p2s")
    check_salt salt
    kek ← pbes2_kek secret salt count
    aes_key_unwrap p.aes kek encrypted_key
