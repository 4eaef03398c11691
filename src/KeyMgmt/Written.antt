-- ===== src/KeyMgmt/Written.antt =====
-- What the algorithms write: parameters that a recipient reads back from a header that was marshalled,
-- and an encrypted key of octets. Every other parameter stays as it was.
use jose.Common.{
  not, ◌&&◌, is_some, ◌≡◌, sym, ap, ◌∙◌, false, Option, none, some, [], Bytes, codes, eqb, lookup,
  insert, All, IsByte, length, arith,
}
use mathlib.Core.Path.{subst}
use jose.Common.Outcome.{ok, guard, >>=-eq-ok}
use jose.Errors.{unsupported_algorithm}
use jose.Base64.{encode_segment}
use jose.ContentEnc.{ContentEnc}
use jose.ContentEnc.RoundTrip.{IsPrimitives, IsRandom}
use jose.ContentEnc.Octets.{GivesOctets}
use jose.Hashing.{Hash}
use jose.KeyWrap.{aes_key_wrap}
use jose.KeyWrap.RoundTrip.{aes_key_wrap-IsByte}
use jose.Json.{Value, str, int}
use jose.Header.{Header}
use jose.Keys.{RsaPublic, Key}
use jose.Signature.{rsa_public_of}
use jose.KeyMgmt.{
  KeyMgmtKind, rsa, kw, dir, ecdh, gcmkw, pbes2, KeyMgmt, KeyMgmtLibrary, Draws, wrap_key_size,
  symmetric_key, aes_gcm_wrap, derives_cek,
}
use jose.KeyMgmt.Dispatch.{rsa_encrypt, encrypt_kind, encrypt_key, transported_cek}
use jose.KeyMgmt.Reading.{lookup_last, lookup_before, lookup_other, apart}
use jose.KeyMgmt.RoundTrip.{transported_cek-IsTransported}
use jose.KeyMgmt.EcdhEs.Written.{ecdh-IsWritten}
use jose.KeyMgmt.Opens.{EncryptsOctets, IsWritten, ReadsSame, external-ok, IsAgreement, DrawsKeys}
use jose.KeyMgmt.Reread.{
  plain, encrypt_key_pbes2-IsSalted, gcm_wrap-octets, bytes_reread, pbes2-ReadsSame,
}

kept_twice :
    (j k : Bytes) (v w : Value) (header written : Header) (name : Bytes)
    → insert k v (insert j w header) ≡ written
    → eqb j name ≡ false
    → eqb k name ≡ false
    → lookup name written ≡ lookup name header
kept_twice j k v w header written name head before last =
    ap (lookup name) (sym head)
    ∙ (lookup_other k name v (insert j w header) last ∙ lookup_other j name w header before)

module _ (lib : KeyMgmtLibrary) (km : KeyMgmt) (laws : IsPrimitives lib.primitives)
    (rsa_octets : EncryptsOctets lib) (agree : IsAgreement lib)
    (octets : GivesOctets lib.primitives) (enc : ContentEnc) (draws : Draws)
    (ephemerals : DrawsKeys lib draws.ephemeral) where
  rsa-IsByte :
      (o : Option Hash) (key : RsaPublic) (cek c : Bytes)
      → All IsByte cek
      → rsa_encrypt lib km enc o key cek ≡ ok c
      → All IsByte c
  unfolding rsa_encrypt
  rsa-IsByte none key cek c plain_cek h =
      rsa_octets.pkcs1-IsByte key cek c plain_cek (external-ok _ c h)
  rsa-IsByte (some hash) key cek c plain_cek h =
      rsa_octets.oaep-IsByte hash key cek c plain_cek (external-ok _ c h)

  -- Whatever the algorithm, it writes only its own parameters, and these are read back.
  pub kind-IsWritten :
      (kind : KeyMgmtKind) (key : Key) (header written : Header) (cek c e : Bytes)
      → All IsByte cek
      → encrypt_kind lib km enc kind draws key header cek ≡ ok (written, c, e)
      → IsWritten lib kind header written e
  unfolding encrypt_kind ReadsSame
  kind-IsWritten (rsa o) key header written cek c e plain_cek h =
      let (recipient, _, h₁) = >>=-eq-ok (rsa_public_of key) _ h in
      let (sealed, made, last) = >>=-eq-ok (rsa_encrypt lib km enc o recipient cek) _ h₁ in
      let head : header ≡ written = ground (arith, last) in
      let sent : sealed ≡ e = ground (arith, last) in
      record {
        kept = λ name other. ap (lookup name) (sym head);
        carried = subst (All IsByte) sent (rsa-IsByte o recipient cek sealed plain_cek made);
        reads = λ received same. tt;
      }
  kind-IsWritten kw key header written cek c e plain_cek h =
      let (kek, _, h₁) = >>=-eq-ok (symmetric_key key (wrap_key_size km)) _ h in
      let (sealed, made, last) = >>=-eq-ok (aes_key_wrap lib.primitives.aes kek cek) _ h₁ in
      let head : header ≡ written = ground (arith, last) in
      let sent : sealed ≡ e = ground (arith, last) in
      record {
        kept = λ name other. ap (lookup name) (sym head);
        carried =
            subst (All IsByte) sent
              (aes_key_wrap-IsByte lib.primitives.aes laws.aes kek cek sealed plain_cek made);
        reads = λ received same. tt;
      }
  kind-IsWritten dir key header written cek c e plain_cek h =
      let (derived, _, last) = >>=-eq-ok (symmetric_key key enc.key_size) _ h in
      let head : header ≡ written = ground (arith, last) in
      let none_sent : [] ≡ e = ground (arith, last) in
      record {
        kept = λ name other. ap (lookup name) (sym head);
        carried = subst (All IsByte) none_sent tt;
        reads = λ received same. tt;
      }
  kind-IsWritten ecdh key header written cek c e plain_cek h =
      ecdh-IsWritten lib km laws agree enc draws.ephemeral ephemerals key header written cek c e
        plain_cek h
  kind-IsWritten gcmkw key header written cek c e plain_cek h =
      let (kek, _, h₁) = >>=-eq-ok (symmetric_key key (wrap_key_size km)) _ h in
      let (s, made, last) = >>=-eq-ok (aes_gcm_wrap lib.primitives.aead draws.nonce kek cek) _ h₁ in
      let v = str (encode_segment s.tag) in
      let w = str (encode_segment s.iv) in
      let set = insert (codes "iv") w header in
      let head : insert (codes "tag") v set ≡ written = ground (arith, last) in
      let sent : s.ciphertext ≡ e = ground (arith, last) in
      let tag = ap (lookup (codes "tag")) (sym head) ∙ lookup_last (codes "tag") v set in
      let iv =
        ap (lookup (codes "iv")) (sym head)
        ∙ lookup_before (codes "iv") (codes "tag") v w header apart.1 in
      record {
        kept = λ name (other_iv, other_tag, _, _, _).
            kept_twice (codes "iv") (codes "tag") v w header written name head other_iv other_tag;
        carried = subst (All IsByte) sent (
            gcm_wrap-octets lib km lib.primitives.aead draws.nonce kek cek s octets.seal-IsByte
              plain_cek made);
        reads = λ received same. (
          bytes_reread lib km written received same (codes "iv") s.iv plain.0 iv,
          bytes_reread lib km written received same (codes "tag") s.tag plain.1 tag,
        );
      }
  kind-IsWritten (pbes2 prf) key header written cek c e plain_cek h =
      let p = encrypt_key_pbes2-IsSalted lib km prf draws.salt key header written cek c e h in
      record {
        kept = λ name (_, _, other_salt, other_count, _).
            kept_twice (codes "p2s") (codes "p2c") (int p.count) (str (encode_segment p.salt))
              header written name p.head other_salt other_count;
        carried = aes_key_wrap-IsByte lib.primitives.aes laws.aes p.kek cek e plain_cek p.wraps;
        reads =
            λ received same. pbes2-ReadsSame lib km prf key header written received cek c e p same;
      }

module _ (lib : KeyMgmtLibrary) (km : KeyMgmt) (laws : IsPrimitives lib.primitives)
    (rsa_octets : EncryptsOctets lib) (agree : IsAgreement lib)
    (octets : GivesOctets lib.primitives) (enc : ContentEnc) (draws : Draws)
    (ceks : IsRandom draws.cek) (ephemerals : DrawsKeys lib draws.ephemeral) where
  pub encrypt_key-IsWritten :
      (key : Key) (header written : Header) (given : Option Bytes) (cek e : Bytes)
      → ((c : Bytes) → given ≡ some c → All IsByte c × (length c ≡ enc.key_size))
      → encrypt_key lib km enc draws key header given ≡ ok (written, cek, e)
      → IsWritten lib km.kind header written e
  unfolding encrypt_key
  encrypt_key-IsWritten key header written given cek e fits h =
      let (_, _, h₁) =
        >>=-eq-ok (guard (not (is_some given && derives_cek km)) unsupported_algorithm) _ h in
      let (transported, from, last) = >>=-eq-ok (transported_cek km enc draws given) _ h₁ in
      let (octets_of, _) =
        transported_cek-IsTransported lib laws km enc draws ceks given transported fits from in
      kind-IsWritten lib km laws rsa_octets agree octets enc draws ephemerals km.kind key header
        written transported cek e octets_of last
