-- ===== src/KeyMgmt/RoundTrip.antt =====
-- The recipient recovers the content encryption key that the sender delivered.
use jose.Common.{
  ◌≡◌, refl, sym, ap, ◌∙◌, inl, inr, false, not, ◌&&◌, Option, none, some, [], is_some, Bytes,
  codes, lookup, insert, length, All, IsByte, Bool-cases, arith,
}
use jose.Common.Outcome.{ok, guard, >>=-eq-ok}
use jose.Errors.{unsupported_algorithm}
use jose.Base64.{encode_segment}
use jose.ContentEnc.{ContentEnc}
use jose.ContentEnc.RoundTrip.{IsPrimitives, IsRandom}
use jose.Hashing.{Hash}
use jose.KeyWrap.{aes_key_wrap}
use jose.Json.{str}
use jose.Header.{Header}
use jose.Keys.{RsaPrivate, Key}
use jose.Keys.Pairs.{IsRsaPair}
use jose.Signature.{rsa_public_of}
use jose.KeyMgmt.{
  KeyMgmtKind, rsa, kw, dir, ecdh, gcmkw, pbes2, KeyMgmt, KeyMgmtLibrary, Draws, wrap_key_size,
  kind_derives_cek, derives_cek, new_cek, symmetric_key, bytes_of, header_bytes, aes_gcm_wrap,
}
use jose.KeyMgmt.Pbes2.{decrypt_key_pbes2}
use jose.KeyMgmt.Dispatch.{
  transported_cek, rsa_encrypt, encrypt_kind, encrypt_key, decrypt_key, rsa_decrypt, or_failed,
  rsa_recipient, decrypt_kind,
}
use jose.KeyMgmt.Opens.{ReadsSame, Opens, IsRsaEncryption, external-ok, IsAgreement, DrawsKeys}
use jose.KeyMgmt.Pbes2.Opened.{pbes2_opens}
use jose.KeyMgmt.EcdhEs.Opened.{ecdh-Opens}
use jose.KeyMgmt.Reading.{
  wrap_opens, SealsOctets, random-read, gcm_opens, bytes_of-encoded, lookup_last, lookup_before,
  apart,
}

module _ (lib : KeyMgmtLibrary) (laws : IsPrimitives lib.primitives) (km : KeyMgmt) where
  module _ (enc : ContentEnc) (rsa_laws : IsRsaEncryption lib) (agree : IsAgreement lib)
      (seals : SealsOctets lib.primitives.aead) (draws : Draws) (nonces : IsRandom draws.nonce)
      (salts : IsRandom draws.salt) (ephemerals : DrawsKeys lib draws.ephemeral) where
    rsa_opens :
        (o : Option Hash) (priv : RsaPrivate) (cek c : Bytes)
        → IsRsaPair lib.keys priv
        → length cek ≡ enc.key_size
        → rsa_encrypt lib km enc o priv.public cek ≡ ok c
        → rsa_decrypt lib km enc o priv c ≡ some cek
    unfolding rsa_encrypt rsa_decrypt
    rsa_opens none priv cek c pair size h =
        ap (lib.decrypt_pkcs1_session priv c) (sym size)
        ∙ rsa_laws.pkcs1_opens priv cek c pair (external-ok _ c h)
    rsa_opens (some hash) priv cek c pair size h =
        rsa_laws.oaep_opens hash priv cek c pair (external-ok _ c h)

    kind-Opens :
        (kind : KeyMgmtKind) (key own : Key) (header written received : Header) (cek c e : Bytes)
        → Opens lib kind key own
        → All IsByte cek
        → (kind_derives_cek kind km.wrap_bits ≡ false → length cek ≡ enc.key_size)
        → encrypt_kind lib km enc kind draws key header cek ≡ ok (written, c, e)
        → ReadsSame lib kind written received
        → decrypt_kind lib km enc kind own received e ≡ ok c
    unfolding encrypt_kind decrypt_kind Opens ReadsSame rsa_recipient or_failed header_bytes
        kind_derives_cek
    kind-Opens (rsa o) key own header written received cek c e (priv, pair, public_of, private)
          octets size h same =
        let (recipient, from, h₁) = >>=-eq-ok (rsa_public_of key) _ h in
        let (sealed, made, last) = >>=-eq-ok (rsa_encrypt lib km enc o recipient cek) _ h₁ in
        let for_them : recipient ≡ priv.public = ground (arith, from, public_of) in
        let key_same : cek ≡ c = ground (arith, last) in
        let carried : sealed ≡ e = ground (arith, last) in
        let back =
          rsa_opens o priv cek sealed pair (size refl)
            (ap (λ r. rsa_encrypt lib km enc o r cek) (sym for_them) ∙ made) in
        rw (private, ← carried, back) (ap ok key_same)
    kind-Opens kw key own header written received cek c e alike octets size h same =
        let (kek, from, h₁) = >>=-eq-ok (symmetric_key key (wrap_key_size km)) _ h in
        let (sealed, made, last) = >>=-eq-ok (aes_key_wrap lib.primitives.aes kek cek) _ h₁ in
        let key_same : cek ≡ c = ground (arith, last) in
        let carried : sealed ≡ e = ground (arith, last) in
        rw (alike, ← carried, from)
          (wrap_opens lib.primitives.aes laws.aes kek cek sealed octets made ∙ ap ok key_same)
    kind-Opens dir key own header written received cek c e alike octets size h same =
        let (derived, from, last) = >>=-eq-ok (symmetric_key key enc.key_size) _ h in
        let key_same : derived ≡ c = ground (arith, last) in
        let carried : [] ≡ e = ground (arith, last) in rw (alike, ← carried) (from ∙ ap ok key_same)
    kind-Opens ecdh key own header written received cek c e alike octets size h same =
        ecdh-Opens lib laws agree km enc draws.ephemeral ephemerals key own header written received
          cek c e alike octets h same
    kind-Opens gcmkw key own header written received cek c e alike octets size h
          (iv_same, tag_same) =
        let (kek, from, h₁) = >>=-eq-ok (symmetric_key key (wrap_key_size km)) _ h in
        let (s, made, last) =
          >>=-eq-ok (aes_gcm_wrap lib.primitives.aead draws.nonce kek cek) _ h₁ in
        let (back, iv_octets, tag_octets) =
          gcm_opens lib.primitives.aead laws.aead seals draws.nonce nonces kek cek s octets made in
        let set = insert (codes "iv") (str (encode_segment s.iv)) header in
        let head : insert (codes "tag") (str (encode_segment s.tag)) set ≡ written =
          ground (arith, last) in
        let key_same : cek ≡ c = ground (arith, last) in
        let carried : s.ciphertext ≡ e = ground (arith, last) in
        let tag = lookup_last (codes "tag") (str (encode_segment s.tag)) set in
        let iv =
          lookup_before (codes "iv") (codes "tag") (str (encode_segment s.tag))
            (str (encode_segment s.iv)) header apart.1 in
        let read_iv : bytes_of (lookup (codes "iv") received) ≡ ok s.iv =
          iv_same
          ∙ (ap (λ w. bytes_of (lookup (codes "iv") w)) (sym head)
              ∙ bytes_of-encoded _ s.iv iv_octets iv) in
        let read_tag : bytes_of (lookup (codes "tag") received) ≡ ok s.tag =
          tag_same
          ∙ (ap (λ w. bytes_of (lookup (codes "tag") w)) (sym head)
              ∙ bytes_of-encoded _ s.tag tag_octets tag) in
        rw (alike, from, read_iv, read_tag, ← carried) (back ∙ ap ok key_same)
    kind-Opens (pbes2 prf) key own header written received cek c e alike octets size h same =
        ap (λ k. decrypt_key_pbes2 lib.primitives km prf k received e) alike
        ∙ pbes2_opens lib laws km prf draws.salt salts key header written received cek c e octets h
            same

  -- The key that is transported: of the size for the content, or none where the algorithm derives it.
  abbrev pub IsTransported : ContentEnc → Bytes → Type 0
  IsTransported enc cek = All IsByte cek × (derives_cek km ≡ false → length cek ≡ enc.key_size)

  pub transported_cek-IsTransported :
      (enc : ContentEnc) (draws : Draws)
      → IsRandom draws.cek
      → (given : Option Bytes) (cek : Bytes)
      → ((c : Bytes) → given ≡ some c → All IsByte c × (length c ≡ enc.key_size))
      → transported_cek km enc draws given ≡ ok cek
      → IsTransported enc cek
  unfolding transported_cek new_cek
  transported_cek-IsTransported enc draws source (some c) cek fits h =
      let same : c ≡ cek = ground (arith, h) in
      let (octets, size) = fits c refl in rw (← same) (octets, λ own. size)
  transported_cek-IsTransported enc draws source none cek fits h =
      elim (Bool-cases (derives_cek km)) [
        | inl derives ↦
            let same : [] ≡ cek = ground (arith, h, derives) in
            rw (← same) (tt, λ own. absurd (ground (arith, own, derives)))
        | inr own ↦
            let read = random-read draws.cek enc.key_size cek (ground (arith, h, own)) in
            (
              source.read-IsByte enc.key_size cek read,
              λ _. source.length-read enc.key_size cek read,
            )
      ]

module _ (lib : KeyMgmtLibrary) (laws : IsPrimitives lib.primitives)
    (rsa_laws : IsRsaEncryption lib) (agree : IsAgreement lib)
    (seals : SealsOctets lib.primitives.aead) (km : KeyMgmt) (enc : ContentEnc) (draws : Draws)
    (ceks : IsRandom draws.cek) (nonces : IsRandom draws.nonce) (salts : IsRandom draws.salt)
    (ephemerals : DrawsKeys lib draws.ephemeral) where
  -- For every key management algorithm, what `encryptKey` delivers `decryptKey` recovers with the key that opens
  -- it, from any header that reads the same where the algorithm looks. A content encryption key that is given
  -- has the size for the content; an RSA or ECDH private key is a valid pair; the libraries, the random sources
  -- and the generator of ephemeral keys are as documented.
  pub decrypt_key-encrypt_key :
      (key own : Key) (header written received : Header) (given : Option Bytes) (cek e : Bytes)
      → ((c : Bytes) → given ≡ some c → All IsByte c × (length c ≡ enc.key_size))
      → Opens lib km.kind key own
      → encrypt_key lib km enc draws key header given ≡ ok (written, cek, e)
      → ReadsSame lib km.kind written received
      → decrypt_key lib km enc own received e ≡ ok cek
  unfolding encrypt_key decrypt_key derives_cek
  decrypt_key-encrypt_key key own header written received given cek e fits opens h same =
      let (_, _, h₁) =
        >>=-eq-ok (guard (not (is_some given && derives_cek km)) unsupported_algorithm) _ h in
      let (transported, from, last) = >>=-eq-ok (transported_cek km enc draws given) _ h₁ in
      let (octets, size) =
        transported_cek-IsTransported lib laws km enc draws ceks given transported fits from in
      kind-Opens lib laws km enc rsa_laws agree seals draws nonces salts ephemerals km.kind key own
        header written received transported cek e opens octets size last same
