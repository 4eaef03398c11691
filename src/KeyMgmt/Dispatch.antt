-- ===== src/KeyMgmt/Dispatch.antt =====
-- jwa_keymgmt.go: `encryptKey` and `decryptKey`, over all the key management algorithms.
use jose.Common.{
  is_empty, is_some, not, ◌&&◌, Option, none, some, [], if◌then◌else◌, Bytes, codes, insert,
}
use jose.Common.Outcome.{Result, ok, err, ◌>>=◌, ◌>>◌, guard}
use jose.Errors.{Error, invalid_key_type, decrypt_failed, malformed, unsupported_algorithm}
use jose.Base64.{encode_segment}
use jose.ContentEnc.{ContentEnc}
use jose.Hashing.{Hash}
use jose.KeyWrap.{aes_key_wrap, aes_key_unwrap}
use jose.Json.{str}
use jose.Header.{Header}
use jose.Keys.{RsaPublic, RsaPrivate, Key, rsa_private}
use jose.Signature.{rsa_public_of, or_external}
use jose.KeyMgmt.{
  KeyMgmtKind, rsa, kw, dir, ecdh, gcmkw, pbes2, KeyMgmt, KeyMgmtLibrary, Draws, wrap_key_size,
  derives_cek, new_cek, symmetric_key, header_bytes, aes_gcm_wrap, aes_gcm_unwrap,
}
use jose.KeyMgmt.Pbes2.{encrypt_key_pbes2, decrypt_key_pbes2}
use jose.KeyMgmt.EcdhEs.{encrypt_key_ecdh, decrypt_key_ecdh}

-- The key to transport: the caller's, or a fresh one. An algorithm that derives the key has none.
unfoldable pub transported_cek : KeyMgmt → ContentEnc → Draws → Option Bytes → Result Error Bytes
transported_cek km enc draws (some cek) = ok cek
transported_cek km enc draws none = if derives_cek km then ok [] else new_cek draws.cek enc.key_size

module _ (lib : KeyMgmtLibrary) (km : KeyMgmt) (enc : ContentEnc) where
  unfoldable pub rsa_encrypt : Option Hash → RsaPublic → Bytes → Result Error Bytes
  rsa_encrypt none key cek = or_external (lib.encrypt_pkcs1 key cek)
  rsa_encrypt (some h) key cek = or_external (lib.encrypt_oaep h key cek)

  -- The cases of the switch of `encryptKey`: the header as it is then, the content encryption key and the
  -- encrypted key.
  unfoldable pub encrypt_kind :
      KeyMgmtKind → Draws → Key → Header → Bytes → Result Error (Header × Bytes × Bytes)
  encrypt_kind (rsa h) draws key header cek = do
    recipient ← rsa_public_of key
    encrypted ← rsa_encrypt h recipient cek
    ok (header, cek, encrypted)
  encrypt_kind kw draws key header cek = do
    kek ← symmetric_key key (wrap_key_size km)
    encrypted ← aes_key_wrap lib.primitives.aes kek cek
    ok (header, cek, encrypted)
  encrypt_kind dir draws key header cek = do
    derived ← symmetric_key key enc.key_size
    ok (header, derived, [])
  encrypt_kind ecdh draws key header cek =
      encrypt_key_ecdh lib km enc draws.ephemeral key header cek
  encrypt_kind gcmkw draws key header cek = do
    kek ← symmetric_key key (wrap_key_size km)
    s ← aes_gcm_wrap lib.primitives.aead draws.nonce kek cek
    ok (
      insert (codes "tag") (str (encode_segment s.tag))
          (insert (codes "iv") (str (encode_segment s.iv)) header),
      cek,
      s.ciphertext,
    )
  encrypt_kind (pbes2 prf) draws key header cek =
      encrypt_key_pbes2 lib.primitives km prf draws.salt key header cek

  -- `encryptKey`
  unfoldable pub encrypt_key :
      Draws → Key → Header → Option Bytes → Result Error (Header × Bytes × Bytes)
  encrypt_key draws key header cek = do
    guard (not (is_some cek && derives_cek km)) unsupported_algorithm
    transported ← transported_cek km enc draws cek
    encrypt_kind km.kind draws key header transported

  unfoldable pub rsa_decrypt : Option Hash → RsaPrivate → Bytes → Option Bytes
  rsa_decrypt none priv encrypted = lib.decrypt_pkcs1_session priv encrypted enc.key_size
  rsa_decrypt (some h) priv encrypted = lib.decrypt_oaep h priv encrypted

  unfoldable pub or_failed : Option Bytes → Result Error Bytes
  or_failed none = err decrypt_failed
  or_failed (some cek) = ok cek

  unfoldable pub rsa_recipient : Key → Result Error RsaPrivate
  rsa_recipient (rsa_private k) = ok k
  rsa_recipient _ = err invalid_key_type

  -- `decryptKey`
  unfoldable pub decrypt_kind : KeyMgmtKind → Key → Header → Bytes → Result Error Bytes
  decrypt_kind (rsa h) key header encrypted = do
    priv ← rsa_recipient key
    or_failed (rsa_decrypt h priv encrypted)
  decrypt_kind kw key header encrypted = do
    kek ← symmetric_key key (wrap_key_size km)
    aes_key_unwrap lib.primitives.aes kek encrypted
  decrypt_kind dir key header encrypted = do
    guard (is_empty encrypted) malformed
    symmetric_key key enc.key_size
  decrypt_kind ecdh key header encrypted = decrypt_key_ecdh lib km enc key header encrypted
  decrypt_kind gcmkw key header encrypted = do
    kek ← symmetric_key key (wrap_key_size km)
    iv ← header_bytes header (codes "iv")
    tag ← header_bytes header (codes "tag")
    aes_gcm_unwrap lib.primitives.aead kek (record { iv = iv; ciphertext = encrypted; tag = tag })
  decrypt_kind (pbes2 prf) key header encrypted =
      decrypt_key_pbes2 lib.primitives km prf key header encrypted

  unfoldable pub decrypt_key : Key → Header → Bytes → Result Error Bytes
  decrypt_key key header encrypted = decrypt_kind km.kind key header encrypted
