-- ===== src/KeyMgmt/Bounds.antt =====
-- The bounds on the work that a PBES2 header can ask for.
use jose.Common.{
  ℕ, ◌≤◌, ◌≡◌, refl, sym, ap, ◌∙◌, Option, none, some, Bytes, codes, lookup, length, arith,
}
use jose.Common.Int.{ℤ, pos, negsuc}
use jose.Common.Outcome.{ok, >>=-eq-ok}
use jose.ContentEnc.{Primitives}
use jose.Hashing.{Hash}
use jose.Pbkdf2.{pbkdf2, pbes2_salt_input}
use jose.KeyWrap.{aes_key_unwrap}
use jose.Json.{Value}
use jose.Header.{Header}
use jose.Keys.{Key}
use jose.KeyMgmt.{KeyMgmt, wrap_key_size, password_key, header_bytes, header_int}
use jose.KeyMgmt.Pbes2.{required_count, check_count, check_salt, pbes2_kek, decrypt_key_pbes2}

-- A count of iterations within the bounds.
abbrev pub IsCount : ℕ → Type 0
IsCount n = (1000 ≤ n) × (n ≤ 1000000)

pub check_count-IsCount :
    (count : ℤ) → check_count count ≡ ok tt → (n : ℕ) × (count ≡ pos n) × IsCount n
unfolding check_count
check_count-IsCount (pos n) h = (n, refl, (ground arith, ground arith))
check_count-IsCount (negsuc n) h = absurd (ground arith)

pub IsCount-check_count : (n : ℕ) → IsCount n → check_count (pos n) ≡ ok tt
unfolding check_count
IsCount-check_count n (low, high) = ground arith

abbrev pub IsSalt : Bytes → Type 0
IsSalt salt = (8 ≤ length salt) × (length salt ≤ 1024)

pub check_salt-IsSalt : (salt : Bytes) → check_salt salt ≡ ok tt → IsSalt salt
unfolding check_salt
check_salt-IsSalt salt h = (ground arith, ground arith)

pub IsSalt-check_salt : (salt : Bytes) → IsSalt salt → check_salt salt ≡ ok tt
unfolding check_salt
IsSalt-check_salt salt (low, high) = ground arith

required-given :
    (o : Option Value) (count : ℤ)
    → required_count o ≡ ok count
    → (raw : Value) × (o ≡ some raw) × (header_int raw ≡ ok count)
unfolding required_count
required-given none count h = absurd (ground arith)
required-given (some raw) count h = (raw, refl, h)

module _ (p : Primitives) (km : KeyMgmt) (prf : Hash) (key : Key) (header : Header)
    (encrypted : Bytes) where
  -- A key that a password unwrapped: the count and the salt are the header's and within the bounds.
  pub record IsPasswordUnwrapped (cek : Bytes) : Type 0 where
    pub secret : Bytes
    pub secret_of : password_key key ≡ ok secret
    pub raw : Value
    pub raw_given : lookup (codes "p2c") header ≡ some raw
    pub count : ℕ
    pub counted : header_int raw ≡ ok (pos count)
    pub count_fits : IsCount count
    pub salt : Bytes
    pub salt_given : header_bytes header (codes "p2s") ≡ ok salt
    pub salt_fits : IsSalt salt
    pub kek : Bytes
    pub derived :
        pbkdf2 p.hashing prf secret
          (pbes2_salt_input km.name salt)
          (pos count)
          (pos (wrap_key_size km))
        ≡ ok kek
    pub unwrapped : aes_key_unwrap p.aes kek encrypted ≡ ok cek

  -- A PBES2 key comes out only if the count of iterations in the header is between 1000 and 1000000 and the salt
  -- has between 8 and 1024 octets; it is then unwrapped under the key derived with that very count and salt.
  pub decrypt_key_pbes2-IsBounded :
      (cek : Bytes)
      → decrypt_key_pbes2 p km prf key header encrypted ≡ ok cek
      → IsPasswordUnwrapped cek
  unfolding decrypt_key_pbes2 pbes2_kek
  decrypt_key_pbes2-IsBounded cek h =
      let (secret, secret_of, h₁) = >>=-eq-ok (password_key key) _ h in
      let (count, counted, h₂) = >>=-eq-ok (required_count (lookup (codes "p2c") header)) _ h₁ in
      let (_, bounded, h₃) = >>=-eq-ok (check_count count) _ h₂ in
      let (salt, salted, h₄) = >>=-eq-ok (header_bytes header (codes "p2s")) _ h₃ in
      let (_, sized, h₅) = >>=-eq-ok (check_salt salt) _ h₄ in
      let (kek, derived, last) = >>=-eq-ok (pbes2_kek p km prf secret salt count) _ h₅ in
      let (raw, given, read) = required-given (lookup (codes "p2c") header) count counted in
      let (n, same, fits) = check_count-IsCount count bounded in
      record {
        secret = secret;
        secret_of = secret_of;
        raw = raw;
        raw_given = given;
        count = n;
        counted = read ∙ ap ok same;
        count_fits = fits;
        salt = salt;
        salt_given = salted;
        salt_fits = check_salt-IsSalt salt sized;
        kek = kek;
        derived =
            ap
              (λ c.
                pbkdf2 p.hashing prf secret (pbes2_salt_input km.name salt) c
                  (pos (wrap_key_size km)))
              (sym same)
            ∙ derived;
        unwrapped = last;
      }
