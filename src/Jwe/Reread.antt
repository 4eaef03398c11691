-- ===== src/Jwe/Reread.antt =====
-- The steps of `Decrypt` on what `Encrypt` made.
use jose.Common.{
  ◌≡◌, ◌≤◌, refl, sym, ap, ◌∙◌, inl, inr, ==_iff, Bool, true, false, not, if◌then◌else◌, Option,
  none, some, [], is_empty, is_empty→nil, Bytes, codes, eqb, lookup, length, All, IsByte,
  Bool-cases, Option-cases, arith,
}
use mathlib.Core.Path.{subst}
use jose.Common.Outcome.{ok, ok-inj}
use jose.Base64.{encode_segment, decode_segment, decode_string, screen, without_newlines, quanta}
use jose.Base64.RoundTrip.{decode-encode}
use jose.Codec.{is_ascii, IsReread, reread-str, IsHeaderCodec}
use jose.ContentEnc.{Random}
use jose.ContentEnc.RoundTrip.{IsPrimitives, IsRandom}
use jose.ContentEnc.Octets.{GivesOctets}
use jose.Json.{Value, str}
use jose.Header.{Header, header_string, string_of}
use jose.KeyMgmt.{Draws}
use jose.KeyMgmt.Opens.{IsRsaEncryption, EncryptsOctets, IsUnwritten, IsAgreement, DrawsKeys}
use jose.Jwe.{JweLibrary, def, max_decompressed_size, content_of, deflate}
use jose.ContentEnc.{ContentEnc, Sealed, lookup_enc}
use jose.ContentEnc.Octets.{IsSealed}
use jose.Header.{algorithm, encryption, check_critical}
use jose.Header.Critical.{check_critical_iff}
use jose.Keys.{Key}
use jose.Jwk.{go_key, resolve_key, check_jwk_usage, select_jwk}
use jose.Jws.{is_accepted}
use jose.KeyMgmt.{KeyMgmt, lookup_key_mgmt}
use jose.KeyMgmt.Dispatch.{decrypt_key}
use jose.Jwe.Decrypt.{
  decode_parts, decrypt_one, inflate_limit, inflate_named, maybe_inflate, decode_optional_segment,
  zero_options,
}
use jose.Jwe.Inflate.{IsInflater, inflate_iff}
use jose.Jwe.Produced.{IsHeaderFor}

-- What is documented of the libraries that both ends use. `whole` is what a compressed text inflates
-- to.
pub record IsJweLibrary (lib : JweLibrary) (whole : Bytes → Option Bytes) : Type 0 where
  pub primitives : IsPrimitives lib.mgmt.primitives
  pub octets : GivesOctets lib.mgmt.primitives
  pub rsa : IsRsaEncryption lib.mgmt
  pub rsa_octets : EncryptsOctets lib.mgmt
  pub agreement : IsAgreement lib.mgmt
  pub codec : IsHeaderCodec lib.mgmt.marshal_value lib.marshal lib.mgmt.unmarshal
  pub inflater : IsInflater lib whole
  pub deflated-IsByte :
      (text c : Bytes) → All IsByte text → lib.deflated text ≡ some c → All IsByte c
  pub inflates : (text c : Bytes) → lib.deflated text ≡ some c → whole c ≡ some text

pub record IsDraws (lib : JweLibrary) (draws : Draws) : Type 0 where
  pub ceks : IsRandom draws.cek
  pub nonces : IsRandom draws.nonce
  pub salts : IsRandom draws.salt
  pub ephemerals : DrawsKeys lib.mgmt draws.ephemeral

decode_nothing : decode_segment [] ≡ ok []
unfolding decode_segment decode_string screen without_newlines quanta
decode_nothing = refl

decode_optional-encode :
    (b : Bytes) → All IsByte b → decode_optional_segment (encode_segment b) ≡ ok b
unfolding decode_optional_segment
decode_optional-encode b octets = elim (Bool-cases (is_empty (encode_segment b))) [
  | inl empty ↦
      let nil = is_empty→nil (encode_segment b) empty in
      rw empty (
        ap ok (
          ok-inj [] b
            (sym decode_nothing ∙ (ap decode_segment (sym nil) ∙ decode-encode b octets))))
  | inr some_text ↦ rw (some_text, decode-encode b octets) refl
]

zip_reread :
    (marshal_value : Value → Option Bytes) (written received : Header) (compress : Bool)
    → IsReread marshal_value written received
    → lookup (codes "zip") written ≡ (if compress then some (str def) else none)
    → lookup (codes "zip") received ≡ (if compress then some (str def) else none)
unfolding is_ascii
zip_reread marshal_value written received true same e =
    reread-str marshal_value written received same (codes "zip") def refl refl e
zip_reread marshal_value written received false same e = same.absent (codes "zip") refl e

-- What no algorithm writes of, stays.
unwritten :
    IsUnwritten (codes "alg")
    × IsUnwritten (codes "enc")
    × IsUnwritten (codes "crit")
    × IsUnwritten (codes "zip")
unfolding eqb
unwritten = (
  (refl, refl, refl, refl, refl),
  (refl, refl, refl, refl, refl),
  (refl, refl, refl, refl, refl),
  (refl, refl, refl, refl, refl),
)

pub IsHeaderFor-kept :
    (alg enc_name : Bytes) (compress : Bool) (header written : Header)
    → ((name : Bytes) → IsUnwritten name → lookup name written ≡ lookup name header)
    → IsHeaderFor alg enc_name compress header
    → IsHeaderFor alg enc_name compress written
IsHeaderFor-kept alg enc_name compress header written kept h = record {
  alg_is = kept (codes "alg") unwritten.0 ∙ h.alg_is;
  enc_is = kept (codes "enc") unwritten.1 ∙ h.enc_is;
  no_crit = kept (codes "crit") unwritten.2 ∙ h.no_crit;
  zip_is = kept (codes "zip") unwritten.3 ∙ h.zip_is;
}

-- The header that is received is one for the same algorithms.
pub IsHeaderFor-reread :
    (marshal_value : Value → Option Bytes) (alg enc_name : Bytes) (compress : Bool)
    (written received : Header)
    → is_ascii alg ≡ true
    → is_ascii enc_name ≡ true
    → IsReread marshal_value written received
    → IsHeaderFor alg enc_name compress written
    → IsHeaderFor alg enc_name compress received
unfolding is_ascii
IsHeaderFor-reread marshal_value alg enc_name compress written received alg_ascii enc_ascii same h =
    record {
      alg_is =
          reread-str marshal_value written received same (codes "alg") alg refl alg_ascii h.alg_is;
      enc_is =
          reread-str marshal_value written received same (codes "enc") enc_name refl enc_ascii
            h.enc_is;
      no_crit = same.absent (codes "crit") refl h.no_crit;
      zip_is = zip_reread marshal_value written received compress same h.zip_is;
    }

module _ (lib : JweLibrary) (whole : Bytes → Option Bytes) (laws : IsJweLibrary lib whole)
    (written received : Header) (plaintext body : Bytes) (octets : All IsByte plaintext) where
  -- The content is octets, and it is what `maybeInflate` makes the plaintext of again.
  pub content-opened :
      (compress : Bool)
      → lookup (codes "zip") written ≡ (if compress then some (str def) else none)
      → lookup (codes "zip") received ≡ (if compress then some (str def) else none)
      → (compress ≡ true → length plaintext ≤ max_decompressed_size)
      → content_of lib (header_string written (codes "zip")) plaintext ≡ ok body
      → All IsByte body × (maybe_inflate lib received body zero_options ≡ ok plaintext)
  unfolding content_of maybe_inflate inflate_named header_string string_of deflate inflate_limit eqb
  content-opened false sent got small h =
      let plain : ok plaintext ≡ ok body =
        ap (λ o. content_of lib (string_of o) plaintext) (sym sent) ∙ h in
      let same = ok-inj plaintext body plain in
      (subst (All IsByte) same octets, rw (got) (ap ok (sym same)))
  content-opened true sent got small h =
      let made : deflate lib plaintext ≡ ok body =
        ap (λ o. content_of lib (string_of o) plaintext) (sym sent) ∙ h in
      elim (Option-cases (lib.deflated plaintext)) [
        | inl bad ↦ absurd (ground (arith, bad, made))
        | inr (c, e) ↦
            let same : c ≡ body = ground (arith, made, e) in
            let packed = e ∙ ap some same in
            (
              laws.deflated-IsByte plaintext body octets packed,
              rw got (
                  (inflate_iff lib whole laws.inflater body max_decompressed_size plaintext
                      (omega arith)).1
                    (laws.inflates plaintext body packed, small refl)),
            )
      ]

pub decode_parts-encode :
    (lib : JweLibrary) (e : Bytes) (s : Sealed)
    → All IsByte e
    → IsSealed s
    → decode_parts lib
        (encode_segment e)
        (encode_segment s.iv)
        (encode_segment s.ciphertext)
        (encode_segment s.tag)
      ≡ ok (e, s)
unfolding decode_parts
decode_parts-encode lib e s octets (iv, ciphertext, tag) =
    rw
      (
        decode_optional-encode e octets,
        decode_optional-encode s.iv iv,
        decode_optional-encode s.ciphertext ciphertext,
        decode_optional-encode s.tag tag,
      )
      refl

pub check_critical-absent :
    (protected : Header)
    → lookup (codes "crit") protected ≡ none
    → check_critical protected [] ≡ ok tt
check_critical-absent protected absent = (check_critical_iff protected []).1 (inl absent)

-- The chain of `decryptOne` for a Go key, when each of its steps succeeds.
pub open_one :
    (lib : JweLibrary) (received : Header) (alg enc_name : Bytes) (compress : Bool) (km : KeyMgmt)
    (enc : ContentEnc) (own : Key) (cek e body plaintext aad : Bytes) (s : Sealed)
    → IsHeaderFor alg enc_name compress received
    → not (is_empty alg) ≡ true
    → not (is_empty enc_name) ≡ true
    → lookup_key_mgmt alg ≡ ok km
    → lookup_enc enc_name ≡ ok enc
    → decrypt_key lib.mgmt km enc own received e ≡ ok cek
    → length cek ≡ enc.key_size
    → jose.ContentEnc.decrypt lib.mgmt.primitives enc cek s aad ≡ ok body
    → maybe_inflate lib received body zero_options ≡ ok plaintext
    → decrypt_one lib received e s aad (go_key own) zero_options ≡ ok plaintext
unfolding decrypt_one algorithm encryption header_string string_of is_accepted resolve_key
    check_jwk_usage select_jwk
open_one lib received alg enc_name compress km enc own cek e body plaintext aad s head alg_given
      enc_given km_found enc_found key_opens sized opens inflates =
    rw
      (
        head.alg_is,
        head.enc_is,
        alg_given,
        enc_given,
        km_found,
        enc_found,
        key_opens,
        (==_iff _ _).1 sized,
        opens,
      )
      inflates
