-- ===== src/KeyMgmt/Transport.antt =====
-- Key transport: the key that is delivered is the one to be transported.
use jose.Common.{
  ◌≡◌, sym, ap, ◌∙◌, Bool, true, false, not, ◌&&◌, Option, some, is_some, ◌==◌, Bytes, codes,
  lookup, insert, arith,
}
use jose.Common.Outcome.{ok, guard, guard-ok, >>=-eq-ok}
use jose.Errors.{unsupported_algorithm}
use jose.ContentEnc.{ContentEnc, Random}
use jose.Hashing.{Hash}
use jose.KeyWrap.{aes_key_wrap}
use jose.Header.{Header}
use jose.Keys.{Key, EcdhCurve, EcdhPrivate, ecdh_public}
use jose.Ecdh.{as_ecdh_public, ecdh_generate}
use jose.Jwk.Export.{from_go_key}
use jose.Json.{obj}
use jose.Signature.{rsa_public_of}
use jose.KeyMgmt.{
  KeyMgmtKind, rsa, kw, dir, ecdh, gcmkw, pbes2, KeyMgmt, KeyMgmtLibrary, Draws, wrap_key_size,
  kind_derives_cek, derives_cek, password_key, symmetric_key, aes_gcm_wrap,
}
use jose.KeyMgmt.Pbes2.{
  chosen_count, check_count, chosen_salt, check_salt, pbes2_kek, encrypt_key_pbes2,
}
use jose.KeyMgmt.EcdhEs.{members_of, jwk_to_map, agreed_key, wrap_under, encrypt_key_ecdh}
use jose.KeyMgmt.Dispatch.{transported_cek, rsa_encrypt, encrypt_kind, encrypt_key}

pub transported-given :
    (km : KeyMgmt) (enc : ContentEnc) (draws : Draws) (given c : Bytes)
    → transported_cek km enc draws (some given) ≡ ok c
    → given ≡ c
unfolding transported_cek
transported-given km enc draws given c h = ground (arith, h)

module _ (lib : KeyMgmtLibrary) where
  under-keeps :
      (wraps : Bool) (w h : Header) (agreed cek c e : Bytes)
      → wraps ≡ false
      → wrap_under lib wraps w agreed cek ≡ ok (h, c, e)
      → c ≡ cek
  unfolding wrap_under
  under-keeps true w h agreed cek c e b run = absurd (ground arith)
  under-keeps false w h agreed cek c e b run =
      let (wrapped, _, last) = >>=-eq-ok (aes_key_wrap lib.primitives.aes agreed cek) _ run in
      ground (arith, last)

  pbes2-keeps :
      (km : KeyMgmt) (prf : Hash) (random : Random) (key : Key) (header h : Header)
      (cek c e : Bytes)
      → encrypt_key_pbes2 lib.primitives km prf random key header cek ≡ ok (h, c, e)
      → c ≡ cek
  unfolding encrypt_key_pbes2
  pbes2-keeps km prf random key header h cek c e run =
      let (secret, _, h₁) = >>=-eq-ok (password_key key) _ run in
      let (count, _, h₂) = >>=-eq-ok (chosen_count (lookup (codes "p2c") header)) _ h₁ in
      let (_, _, h₃) = >>=-eq-ok (check_count count) _ h₂ in
      let (salt, _, h₄) =
        >>=-eq-ok (chosen_salt random header (lookup (codes "p2s") header)) _ h₃ in
      let (_, _, h₅) = >>=-eq-ok (check_salt salt) _ h₄ in
      let (kek, _, h₆) = >>=-eq-ok (pbes2_kek lib.primitives km prf secret salt count) _ h₅ in
      let (wrapped, _, last) = >>=-eq-ok (aes_key_wrap lib.primitives.aes kek cek) _ h₆ in
      ground (arith, last)

  ecdh-keeps :
      (km : KeyMgmt) (enc : ContentEnc) (generate : EcdhCurve → Option EcdhPrivate) (key : Key)
      (header h : Header) (cek c e : Bytes)
      → (km.wrap_bits == 0) ≡ false
      → encrypt_key_ecdh lib km enc generate key header cek ≡ ok (h, c, e)
      → c ≡ cek
  unfolding encrypt_key_ecdh
  ecdh-keeps km enc generate key header h cek c e wraps run =
      let (recipient, _, h₁) = >>=-eq-ok (as_ecdh_public lib.agreement key) _ run in
      let (eph, _, h₂) = >>=-eq-ok (ecdh_generate generate recipient) _ h₁ in
      let (epk, _, h₃) = >>=-eq-ok (from_go_key (ecdh_public eph.public)) _ h₂ in
      let (epk_map, _, h₄) = >>=-eq-ok (jwk_to_map lib epk) _ h₃ in
      let written = insert (codes "epk") (obj (members_of epk_map)) header in
      let (agreed, _, last) = >>=-eq-ok (agreed_key lib km enc eph recipient written) _ h₄ in
      under-keeps (km.wrap_bits == 0) written h agreed cek c e wraps last

  module _ (km : KeyMgmt) (enc : ContentEnc) (draws : Draws) (key : Key) (header : Header) where
    pub kind-keeps :
        (kind : KeyMgmtKind) (h : Header) (cek c e : Bytes)
        → kind_derives_cek kind km.wrap_bits ≡ false
        → encrypt_kind lib km enc kind draws key header cek ≡ ok (h, c, e)
        → c ≡ cek
    unfolding encrypt_kind kind_derives_cek
    kind-keeps (rsa hash) h cek c e own run =
        let (recipient, _, h₁) = >>=-eq-ok (rsa_public_of key) _ run in
        let (encrypted, _, last) = >>=-eq-ok (rsa_encrypt lib km enc hash recipient cek) _ h₁ in
        ground (arith, last)
    kind-keeps kw h cek c e own run =
        let (kek, _, h₁) = >>=-eq-ok (symmetric_key key (wrap_key_size km)) _ run in
        let (encrypted, _, last) = >>=-eq-ok (aes_key_wrap lib.primitives.aes kek cek) _ h₁ in
        ground (arith, last)
    kind-keeps dir h cek c e own run = absurd (ground (arith, own))
    kind-keeps ecdh h cek c e own run =
        ecdh-keeps km enc draws.ephemeral key header h cek c e own run
    kind-keeps gcmkw h cek c e own run =
        let (kek, _, h₁) = >>=-eq-ok (symmetric_key key (wrap_key_size km)) _ run in
        let (s, _, last) = >>=-eq-ok (aes_gcm_wrap lib.primitives.aead draws.nonce kek cek) _ h₁ in
        ground (arith, last)
    kind-keeps (pbes2 prf) h cek c e own run =
        pbes2-keeps km prf draws.salt key header h cek c e run

    -- A key that is transported, be it given or fresh, is delivered.
    pub encrypt_key-delivers :
        (given : Option Bytes) (h : Header) (c e : Bytes)
        → derives_cek km ≡ false
        → encrypt_key lib km enc draws key header given ≡ ok (h, c, e)
        → (encrypt_kind lib km enc km.kind draws key header c ≡ ok (h, c, e))
          × (transported_cek km enc draws given ≡ ok c)
    unfolding encrypt_key derives_cek
    encrypt_key-delivers given h c e own run =
        let (_, _, h₁) =
          >>=-eq-ok (guard (not (is_some given && derives_cek km)) unsupported_algorithm) _ run in
        let (transported, from, last) = >>=-eq-ok (transported_cek km enc draws given) _ h₁ in
        let same = kind-keeps km.kind h transported c e own last in
        (
          ap (λ k. encrypt_kind lib km enc km.kind draws key header k) same ∙ last,
          from ∙ ap ok (sym same),
        )

    -- Where `encryptKey` succeeds on a content encryption key that is given, the algorithm is not one that
    -- derives the key, and what is sealed and delivered is the very key that is given.
    pub encrypt_key-given :
        (given : Bytes) (h : Header) (c e : Bytes)
        → encrypt_key lib km enc draws key header (some given) ≡ ok (h, c, e)
        → (derives_cek km ≡ false)
          × (c ≡ given)
          × (encrypt_kind lib km enc km.kind draws key header given ≡ ok (h, given, e))
    unfolding encrypt_key
    encrypt_key-given given h c e run =
        let (_, allowed, _) =
          >>=-eq-ok (guard (not (is_some (some given) && derives_cek km)) unsupported_algorithm) _
            run in
        let own : derives_cek km ≡ false =
          ground (arith, guard-ok _ unsupported_algorithm allowed) in
        let (sealed, from) = encrypt_key-delivers (some given) h c e own run in
        let same = transported-given km enc draws given c from in (own, sym same, rw same sealed)
