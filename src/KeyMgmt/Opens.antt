-- ===== src/KeyMgmt/Opens.antt =====
-- Which key opens what another one sealed, and what the two ends must agree on.
use jose.Codec.{IsReread}
use jose.Keys.{RsaPublic}
use jose.Keys.Pairs.{IsRsaPair}
use jose.Common.{
  eqb, ◌≡◌, ap, false, Option, none, some, Bytes, codes, lookup, length, All, IsByte, arith,
}
use jose.Common.Outcome.{ok}
use jose.Hashing.{Hash}
use jose.Header.{Header}
use jose.Keys.{RsaPrivate, Key, rsa_private}
use jose.Signature.{rsa_public_of, or_external}
use jose.KeyMgmt.{KeyMgmtKind, rsa, ecdh, gcmkw, pbes2, KeyMgmtLibrary, bytes_of}
use jose.KeyMgmt.Pbes2.{required_count}
use jose.Keys.{EcdhCurve, EcdhPrivate}
use jose.Ecdh.{as_ecdh_public, as_ecdh_private}
use jose.Ecdh.Agreement.{IsKeyPair, IsEcdh}
use jose.KeyMgmt.{header_bytes_optional}
use jose.KeyMgmt.EcdhEs.{ephemeral_key}
use jose.KeyMgmt.EcdhEs.Epk.{IsJwkCodec, IsDrawn}

-- What the recipient reads of the header in which the algorithm wrote.
unfoldable pub ReadsSame : KeyMgmtLibrary → KeyMgmtKind → Header → Header → Type 0
ReadsSame lib ecdh written received =
    (header_bytes_optional received (codes "apu") ≡ header_bytes_optional written (codes "apu"))
    × (header_bytes_optional received (codes "apv") ≡ header_bytes_optional written (codes "apv"))
    × (ephemeral_key lib received ≡ ephemeral_key lib written)
ReadsSame lib gcmkw written received =
    (bytes_of (lookup (codes "iv") received) ≡ bytes_of (lookup (codes "iv") written))
    × (bytes_of (lookup (codes "tag") received) ≡ bytes_of (lookup (codes "tag") written))
ReadsSame lib (pbes2 prf) written received =
    (required_count (lookup (codes "p2c") received) ≡ required_count (lookup (codes "p2c") written))
    × (bytes_of (lookup (codes "p2s") received) ≡ bytes_of (lookup (codes "p2s") written))
ReadsSame lib _ written received = Unit {0}

-- The key that opens what another one sealed. An RSA private key is one that `Validate` accepts, and one of
-- crypto/ecdh is what `NewPrivateKey` gives of its octets.
unfoldable pub Opens : KeyMgmtLibrary → KeyMgmtKind → Key → Key → Type 0
Opens lib (rsa h) key own =
    (priv : RsaPrivate) × IsRsaPair lib.keys priv
    × (rsa_public_of key ≡ ok priv.public)
    × (own ≡ rsa_private priv)
Opens lib ecdh key own =
    (priv : EcdhPrivate) × IsKeyPair lib.agreement priv
    × (as_ecdh_public lib.agreement key ≡ ok priv.public)
    × (as_ecdh_private lib.agreement own ≡ ok priv)
Opens lib _ key own = own ≡ key

-- What is documented of RSA encryption: decryption under a private key that `Validate` accepts undoes it. The session key is
-- of the length asked for.
pub record IsRsaEncryption (lib : KeyMgmtLibrary) : Type 0 where
  pub pkcs1_opens :
      (priv : RsaPrivate) (cek c : Bytes)
      → IsRsaPair lib.keys priv
      → lib.encrypt_pkcs1 priv.public cek ≡ some c
      → lib.decrypt_pkcs1_session priv c (length cek) ≡ some cek
  pub oaep_opens :
      (h : Hash) (priv : RsaPrivate) (cek c : Bytes)
      → IsRsaPair lib.keys priv
      → lib.encrypt_oaep h priv.public cek ≡ some c
      → lib.decrypt_oaep h priv c ≡ some cek

pub external-ok : (o : Option Bytes) (a : Bytes) → or_external o ≡ ok a → o ≡ some a
unfolding or_external
external-ok none a h = absurd (ground arith)
external-ok (some b) a h = ap some (ground arith)

-- What is documented of key agreement: crypto/ecdh, and the JWK of the ephemeral key.
pub record IsAgreement (lib : KeyMgmtLibrary) : Type 0 where
  pub exchanges : IsEcdh lib.agreement
  pub jwks : IsJwkCodec lib

-- `GenerateKey` gives key pairs of crypto/ecdh.
abbrev pub DrawsKeys : KeyMgmtLibrary → (EcdhCurve → Option EcdhPrivate) → Type 0
DrawsKeys lib generate =
    (c : EcdhCurve) (k : EcdhPrivate)
    → generate c ≡ some k
    → IsDrawn lib k.public × IsKeyPair lib.agreement k

-- The names that no algorithm writes.
abbrev pub IsUnwritten : Bytes → Type 0
IsUnwritten name =
    (eqb (codes "iv") name ≡ false)
    × (eqb (codes "tag") name ≡ false)
    × (eqb (codes "p2s") name ≡ false)
    × (eqb (codes "p2c") name ≡ false)
    × (eqb (codes "epk") name ≡ false)

-- RSA encryption gives octets.
pub record EncryptsOctets (lib : KeyMgmtLibrary) : Type 0 where
  pub pkcs1-IsByte :
      (key : RsaPublic) (cek c : Bytes)
      → All IsByte cek
      → lib.encrypt_pkcs1 key cek ≡ some c
      → All IsByte c
  pub oaep-IsByte :
      (h : Hash) (key : RsaPublic) (cek c : Bytes)
      → All IsByte cek
      → lib.encrypt_oaep h key cek ≡ some c
      → All IsByte c

-- A header in which an algorithm wrote, and the encrypted key that goes with it.
pub record IsWritten (lib : KeyMgmtLibrary) (kind : KeyMgmtKind) (header written : Header)
    (e : Bytes) : Type 0 where
  pub kept : (name : Bytes) → IsUnwritten name → lookup name written ≡ lookup name header
  pub carried : All IsByte e
  pub reads :
      (received : Header)
      → IsReread lib.marshal_value written received
      → ReadsSame lib kind written received
