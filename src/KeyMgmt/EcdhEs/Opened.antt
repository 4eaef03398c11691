-- ===== src/KeyMgmt/EcdhEs/Opened.antt =====
-- The recipient of ECDH-ES agrees on the key that the sender agreed on.
use jose.Common.{
  ap₂, ◌≡◌, sym, ap, ◌∙◌, Bool, true, false, ◌==◌, Option, [], Bytes, codes, lookup, insert, All,
  IsByte, arith,
}
use jose.Common.Outcome.{ok, ok-inj, >>=-ok, >>=-eq-ok}
use jose.ContentEnc.{ContentEnc}
use jose.ContentEnc.RoundTrip.{IsPrimitives}
use jose.KeyWrap.{aes_key_wrap}
use jose.Json.{obj}
use jose.Header.{Header}
use jose.Keys.{Key, EcdhCurve, EcdhPublic, EcdhPrivate, ecdh_public}
use jose.Ecdh.{as_ecdh_public, as_ecdh_private, ecdh_generate}
use jose.Ecdh.Agreement.{IsKeyPair, ecdh_derive_comm, or_invalid-ok}
use jose.Jwk.Export.{from_go_key}
use jose.KeyMgmt.{ecdh, KeyMgmt, KeyMgmtLibrary, header_bytes_optional}
use jose.KeyMgmt.EcdhEs.{
  ecdh_alg_id, members_of, jwk_to_map, agreed_key, wrap_under, encrypt_key_ecdh, epk_json,
  ephemeral_key, unwrap_under, decrypt_key_ecdh,
}
use jose.KeyMgmt.EcdhEs.Epk.{epk_json-printed, epk_back}
use jose.KeyMgmt.Opens.{ReadsSame, Opens, IsAgreement, DrawsKeys}
use jose.KeyMgmt.Reading.{wrap_opens, lookup_last}

module _ (lib : KeyMgmtLibrary) (laws : IsPrimitives lib.primitives) (agree : IsAgreement lib)
    (km : KeyMgmt) (enc : ContentEnc) where
  agreed_key_comm :
      (a b : EcdhPrivate) (written received : Header) (agreed : Bytes)
      → IsKeyPair lib.agreement a
      → IsKeyPair lib.agreement b
      → header_bytes_optional received (codes "apu") ≡ header_bytes_optional written (codes "apu")
      → header_bytes_optional received (codes "apv") ≡ header_bytes_optional written (codes "apv")
      → agreed_key lib km enc a b.public written ≡ ok agreed
      → agreed_key lib km enc b a.public received ≡ ok agreed
  unfolding agreed_key
  agreed_key_comm a b written received agreed own_a own_b apu_same apv_same h =
      let (apu, from_u, h₁) = >>=-eq-ok (header_bytes_optional written (codes "apu")) _ h in
      let (apv, from_v, last) = >>=-eq-ok (header_bytes_optional written (codes "apv")) _ h₁ in
      let (alg_id, key_len) = ecdh_alg_id km enc in
      >>=-ok (header_bytes_optional received (codes "apu")) _ (apu_same ∙ from_u)
      ∙ (>>=-ok (header_bytes_optional received (codes "apv")) _ (apv_same ∙ from_v)
          ∙ (sym (
                ecdh_derive_comm lib.agreement agree.exchanges lib.primitives.hashing a b own_a
                  own_b alg_id apu apv key_len)
              ∙ last))

  under_opens :
      (derives : Bool) (w written : Header) (agreed cek c e : Bytes)
      → All IsByte cek
      → wrap_under lib derives w agreed cek ≡ ok (written, c, e)
      → unwrap_under lib derives agreed e ≡ ok c
  unfolding wrap_under unwrap_under
  under_opens true w written agreed cek c e octets h =
      let key_same : agreed ≡ c = ground (arith, h) in
      let sent : [] ≡ e = ground (arith, h) in rw (← sent) (ap ok key_same)
  under_opens false w written agreed cek c e octets h =
      let (wrapped, made, last) = >>=-eq-ok (aes_key_wrap lib.primitives.aes agreed cek) _ h in
      let key_same : cek ≡ c = ground (arith, last) in
      let sent : wrapped ≡ e = ground (arith, last) in
      rw (← sent)
        (wrap_opens lib.primitives.aes laws.aes agreed cek wrapped octets made ∙ ap ok key_same)

  under-head :
      (derives : Bool) (w written : Header) (agreed cek c e : Bytes)
      → wrap_under lib derives w agreed cek ≡ ok (written, c, e)
      → w ≡ written
  unfolding wrap_under
  under-head true w written agreed cek c e h = ground (arith, h)
  under-head false w written agreed cek c e h =
      let (wrapped, _, last) = >>=-eq-ok (aes_key_wrap lib.primitives.aes agreed cek) _ h in
      ground (arith, last)

  pub ecdh-Opens :
      (generate : EcdhCurve → Option EcdhPrivate)
      → DrawsKeys lib generate
      → (key own : Key) (header written received : Header) (cek c e : Bytes)
      → Opens lib ecdh key own
      → All IsByte cek
      → encrypt_key_ecdh lib km enc generate key header cek ≡ ok (written, c, e)
      → ReadsSame lib ecdh written received
      → decrypt_key_ecdh lib km enc own received e ≡ ok c
  unfolding encrypt_key_ecdh decrypt_key_ecdh Opens ReadsSame ecdh_generate
  ecdh-Opens generate keys key own header written received cek c e
        (priv, own_pair, public_of, private_of) octets h (apu_same, apv_same, epk_same) =
      let (recipient, given, h₁) = >>=-eq-ok (as_ecdh_public lib.agreement key) _ h in
      let (eph, drawn, h₂) = >>=-eq-ok (ecdh_generate generate recipient) _ h₁ in
      let (epk, made, h₃) = >>=-eq-ok (from_go_key (ecdh_public eph.public)) _ h₂ in
      let (epk_map, mapped, h₄) = >>=-eq-ok (jwk_to_map lib epk) _ h₃ in
      let v = obj (members_of epk_map) in
      let w = insert (codes "epk") v header in
      let (agreed, agrees, last) = >>=-eq-ok (agreed_key lib km enc eph recipient w) _ h₄ in
      let head : w ≡ written = under-head (km.wrap_bits == 0) w written agreed cek c e last in
      let for_them : recipient ≡ priv.public =
        ok-inj recipient priv.public (sym given ∙ public_of) in
      let (is_drawn, eph_pair) = keys recipient.curve eph (or_invalid-ok _ eph drawn) in
      let (_, (text, printed, back)) =
        epk_back lib agree.exchanges eph.public epk agree.jwks is_drawn made epk_map mapped in
      let there : epk_json lib (lookup (codes "epk") written) ≡ ok text =
        epk_json-printed lib (lookup (codes "epk") written) v text
          (ap (lookup (codes "epk")) (sym head) ∙ lookup_last (codes "epk") v header) printed in
      let sender = epk_same ∙ back written there in
      let common =
        agreed_key_comm eph priv written received agreed eph_pair own_pair apu_same apv_same (
          ap₂ (λ (r : EcdhPublic) (m : Header). agreed_key lib km enc eph r m) (sym for_them)
            (sym head)
          ∙ agrees) in
      >>=-ok (as_ecdh_private lib.agreement own) _ private_of
      ∙ (>>=-ok (ephemeral_key lib received) _ sender
          ∙ (>>=-ok (agreed_key lib km enc priv eph.public received) _ common
              ∙ under_opens (km.wrap_bits == 0) w written agreed cek c e octets last))
