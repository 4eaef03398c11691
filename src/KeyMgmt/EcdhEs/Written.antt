-- ===== src/KeyMgmt/EcdhEs/Written.antt =====
-- What ECDH-ES writes, and what a recipient reads back of it.
use jose.Common.{
  Option, true, Bool, ◌==◌, ◌≡◌, sym, ap, ◌∙◌, false, Option, some, [], Bytes, codes, lookup,
  insert, All, IsByte, arith,
}
use mathlib.Core.Path.{subst}
use jose.Common.Outcome.{ok, >>=-eq-ok}
use jose.Codec.{IsReread}
use jose.ContentEnc.{ContentEnc}
use jose.ContentEnc.RoundTrip.{IsPrimitives}
use jose.KeyWrap.{aes_key_wrap}
use jose.KeyWrap.RoundTrip.{aes_key_wrap-IsByte}
use jose.Json.{obj}
use jose.Header.{Header}
use jose.Keys.{EcdhCurve, Key, EcdhPublic, EcdhPrivate, ecdh_public}
use jose.Jwk.{Jwk}
use jose.KeyMgmt.EcdhEs.Epk.{IsDrawn}
use jose.Ecdh.{as_ecdh_public, ecdh_generate}
use jose.Jwk.Export.{from_go_key}
use jose.KeyMgmt.{ecdh, KeyMgmt, KeyMgmtLibrary}
use jose.KeyMgmt.EcdhEs.{jwk_to_map, members_of, agreed_key, wrap_under, encrypt_key_ecdh}
use jose.KeyMgmt.Reading.{lookup_last, lookup_other}
use jose.KeyMgmt.Opens.{IsWritten, ReadsSame, IsAgreement, DrawsKeys}
use jose.KeyMgmt.EcdhEs.{ephemeral_key}
use jose.KeyMgmt.EcdhEs.Epk.{epk_json-printed, epk_back}
use jose.Ecdh.Agreement.{or_invalid-ok}
use jose.Codec.{Rereads}
use jose.KeyMgmt.{header_bytes_optional}
use jose.KeyMgmt.Reread.{optional_reread, plain}

module _ (lib : KeyMgmtLibrary) (km : KeyMgmt) (laws : IsPrimitives lib.primitives)
    (agree : IsAgreement lib) (enc : ContentEnc) (generate : EcdhCurve → Option EcdhPrivate)
    (ephemerals : DrawsKeys lib generate) where
  under-carried :
      (derives : Bool) (w written : Header) (agreed cek c e : Bytes)
      → All IsByte cek
      → wrap_under lib derives w agreed cek ≡ ok (written, c, e)
      → (w ≡ written) × All IsByte e
  unfolding wrap_under
  under-carried true w written agreed cek c e plain_cek h =
      let none_sent : [] ≡ e = ground (arith, h) in
      (ground (arith, h), subst (All IsByte) none_sent tt)
  under-carried false w written agreed cek c e plain_cek h =
      let (wrapped, made, last) = >>=-eq-ok (aes_key_wrap lib.primitives.aes agreed cek) _ h in
      let sent : wrapped ≡ e = ground (arith, last) in
      (
        ground (arith, last),
        subst (All IsByte) sent
            (aes_key_wrap-IsByte lib.primitives.aes laws.aes agreed cek wrapped plain_cek made),
      )

  agreed-reread :
      (eph : EcdhPrivate) (recipient : EcdhPublic) (sent received : Header) (agreed : Bytes)
      → IsReread lib.marshal_value sent received
      → agreed_key lib km enc eph recipient sent ≡ ok agreed
      → (header_bytes_optional received (codes "apu") ≡ header_bytes_optional sent (codes "apu"))
        × (header_bytes_optional received (codes "apv") ≡ header_bytes_optional sent (codes "apv"))
  unfolding agreed_key
  agreed-reread eph recipient sent received agreed same h =
      let (apu, from_u, h₁) = >>=-eq-ok (header_bytes_optional sent (codes "apu")) _ h in
      let (apv, from_v, _) = >>=-eq-ok (header_bytes_optional sent (codes "apv")) _ h₁ in
      (
        optional_reread lib km sent received same (codes "apu") apu plain.4 from_u,
        optional_reread lib km sent received same (codes "apv") apv plain.5 from_v,
      )

  epk-reread :
      (k : EcdhPublic) (j : Jwk) (h sent received : Header)
      → IsDrawn lib k
      → from_go_key (ecdh_public k) ≡ ok j
      → jwk_to_map lib j ≡ ok h
      → lookup (codes "epk") sent ≡ some (obj (members_of h))
      → IsReread lib.marshal_value sent received
      → ephemeral_key lib received ≡ ephemeral_key lib sent
  unfolding Rereads
  epk-reread k j h sent received drawn made mapped there same =
      let (texts, (text, printed, back)) =
        epk_back lib agree.exchanges k j agree.jwks drawn made h mapped in
      let (v, got, again) =
        same.present (codes "epk") (obj (members_of h)) plain.6 there text texts printed in
      back received (epk_json-printed lib _ v text got again)
      ∙ sym (back sent (epk_json-printed lib _ (obj (members_of h)) text there printed))

  pub ecdh-IsWritten :
      (key : Key) (header written : Header) (cek c e : Bytes)
      → All IsByte cek
      → encrypt_key_ecdh lib km enc generate key header cek ≡ ok (written, c, e)
      → IsWritten lib ecdh header written e
  unfolding encrypt_key_ecdh ecdh_generate ReadsSame
  ecdh-IsWritten key header written cek c e plain_cek run =
      let (recipient, _, h₁) = >>=-eq-ok (as_ecdh_public lib.agreement key) _ run in
      let (eph, drawn, h₂) = >>=-eq-ok (ecdh_generate generate recipient) _ h₁ in
      let (epk, made, h₃) = >>=-eq-ok (from_go_key (ecdh_public eph.public)) _ h₂ in
      let (epk_map, mapped, h₄) = >>=-eq-ok (jwk_to_map lib epk) _ h₃ in
      let v = obj (members_of epk_map) in
      let w = insert (codes "epk") v header in
      let (agreed, agrees, last) = >>=-eq-ok (agreed_key lib km enc eph recipient w) _ h₄ in
      let (head, sent) =
        under-carried (km.wrap_bits == 0) w written agreed cek c e plain_cek last in
      let there = ap (lookup (codes "epk")) (sym head) ∙ lookup_last (codes "epk") v header in
      let drawn_key = (ephemerals recipient.curve eph (or_invalid-ok _ eph drawn)).0 in
      let agrees' = ap (agreed_key lib km enc eph recipient) (sym head) ∙ agrees in
      record {
        kept = λ name (_, _, _, _, other).
            ap (lookup name) (sym head) ∙ lookup_other (codes "epk") name v header other;
        carried = sent;
        reads = λ received same.
            let (apu, apv) = agreed-reread eph recipient written received agreed same agrees' in
            (
              apu,
              apv,
              epk-reread eph.public epk epk_map written received drawn_key made mapped there same,
            );
      }
