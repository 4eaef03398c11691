-- ===== src/Jwe/RoundTrip/Tests.antt =====
-- A run of `Encrypt` and `Decrypt` of jwe.go with AES-GCM key wrap and compression.
use jose.Common.{
  ◌≡◌, ◌-◌, ◌≤◌, refl, sym, ap, ◌∙◌, true, false, ◌&&◌, Bool, Bool-cases, inl, inr, Option, none,
  some, List, [], ◌∷◌, ◌++◌, if◌then◌else◌, Bytes, codes, eqb, eqb_iff, lookup, lookup-All,
  replicate, take, All, IsByte, arith,
}
use mathlib.Core.Path.{subst}
use jose.Common.Outcome.{ok, ok-inj}
use jose.Base64.{encode_segment}
use jose.Codec.{Rereads, IsReread, IsHeaderCodec}
use jose.Json.{Value, str}
use jose.Header.{Header, copy_header}
use jose.Keys.{Key, secret}
use jose.Jwk.{go_key}
use jose.KeyMgmt.{KeyMgmt, gcmkw, lookup_key_mgmt}
use jose.KeyMgmt.Opens.{Opens}
use jose.Jwe.{JweLibrary, EncryptOptions, choose_key_mgmt_alg, encrypt}
use jose.Jwe.Decrypt.{decrypt}
use jose.Jwe.Produced.{given_header}
use jose.Jwe.Reread.{IsJweLibrary, IsDraws}
use jose.Jwe.RoundTrip.{decrypt-encrypted}
use jose.Samples.Flat.{same_value, same_header, marshal_only, marshal_only-IsHeaderCodec}
use jose.Header.Merge.{IsMap}
use jose.Samples.{
  draws, random, mgmt, some-injective, primitives-IsPrimitives, primitives-GivesOctets,
  random-IsRandom, mgmt-IsRsaEncryption, mgmt-IsAgreement, draws-DrawsKeys, mgmt-EncryptsOctets,
}
use jose.Jwe.Tests.{whole, library, library-IsInflater}

abbrev segment : Bytes → Value
segment b = str (encode_segment b)

-- The header of the token, as it is sent and received.
abbrev header : Header
header =
    (codes "alg", str (codes "A128GCMKW"))
    ∷ (codes "enc", str (codes "A128GCM"))
    ∷ (codes "zip", str (codes "DEF"))
    ∷ (codes "iv", segment (replicate 12 9))
    ∷ (codes "tag", segment (replicate 16 7))
    ∷ []

abbrev lib : JweLibrary
lib = record {
  mgmt = mgmt header;
  marshal = marshal_only header;
  deflated = library.deflated;
  read_inflated = library.read_inflated;
}

header-IsMap : IsMap header
unfolding lookup eqb
header-IsMap = (refl, (refl, (refl, (refl, (refl, tt)))))

header-IsReread : IsReread lib.mgmt.marshal_value header header
unfolding Rereads
header-IsReread = record {
  stays = λ name v ascii e. (v, e);
  unique = header-IsMap;
  absent = λ name ascii e. e;
  present = λ name v ascii e. subst (Rereads lib.mgmt.marshal_value v) (sym e) (
      lookup-All (λ w. Rereads lib.mgmt.marshal_value w (some w)) header name
        ((λ a. refl), ((λ a. refl), ((λ a. refl), ((λ a. refl), ((λ a. refl), tt))))) e);
}

lib-IsHeaderCodec : IsHeaderCodec lib.mgmt.marshal_value lib.marshal lib.mgmt.unmarshal
unfolding eqb
lib-IsHeaderCodec =
    marshal_only-IsHeaderCodec lib.mgmt.marshal_value lib.mgmt.unmarshal header header-IsReread refl

lib-IsJweLibrary : IsJweLibrary lib whole
lib-IsJweLibrary = record {
  primitives = primitives-IsPrimitives;
  octets = primitives-GivesOctets;
  rsa = mgmt-IsRsaEncryption header;
  rsa_octets = mgmt-EncryptsOctets header;
  agreement = mgmt-IsAgreement header;
  codec = lib-IsHeaderCodec;
  inflater = record {
    length-read = library-IsInflater.length-read;
    read-whole = library-IsInflater.read-whole;
    read-end = library-IsInflater.read-end;
  };
  deflated-IsByte = λ text c octets e. rw (← some-injective text c e) octets;
  inflates = λ text c e. sym e;
}

draws-IsDraws : IsDraws lib draws
draws-IsDraws = record {
  ephemerals = draws-DrawsKeys header;
  ceks = random-IsRandom;
  nonces = random-IsRandom;
  salts = random-IsRandom;
}

abbrev key : Key
key = secret (replicate 16 1)

abbrev options : EncryptOptions
options = record {
  algorithm = codes "A128GCMKW";
  encryption = codes "A128GCM";
  key_id = [];
  header = [];
  additional_headers = [];
  unprotected = [];
  additional_data = [];
  compress = true;
}

abbrev token : Bytes
token = codes "e30.CQkJCQkJCQkJCQkJCQkJCQ.CQkJCQkJCQkJCQkJ.aGk.BwcHBwcHBwcHBwcHBwcHBw"

encrypts : encrypt lib draws random (codes "hi") (go_key key) options ≡ ok token
unfolding jose.Jwe.encrypt jose.Jwe.choose_key_mgmt_alg jose.Jwe.choose_enc jose.Jwe.produced_header
    jose.Jwe.with_recipient_kid jose.Jwe.with_zip jose.Jwe.content_of jose.Jwe.join5
    jose.ContentEnc.lookup_enc jose.ContentEnc.content_encs jose.Header.check_critical_produced
    jose.Header.critical jose.Header.merge_headers jose.Header.merge_all jose.Header.merge_one
    jose.Jws.General.or_empty jose.Jws.General.copy_header_or_nil jose.Header.header_string
    jose.Header.string_of jose.Token.encode_header jose.ContentEnc.encrypt
    jose.ContentEnc.encrypt_mode jose.ContentEnc.encrypt_gcm jose.Jwe.Decrypt.jwe_aad
    jose.Jws.jwk_kid jose.Jws.jwk_alg jose.KeyMgmt.Dispatch.encrypt_key
    jose.KeyMgmt.Dispatch.encrypt_kind jose.KeyMgmt.Dispatch.transported_cek
    jose.KeyMgmt.derives_cek jose.KeyMgmt.kind_derives_cek jose.KeyMgmt.new_cek
    jose.KeyMgmt.symmetric_key jose.KeyMgmt.wrap_key_size jose.KeyMgmt.key_mgmts
    jose.Jwk.resolve_key jose.Jwk.check_jwk_usage jose.Jwk.select_jwk jose.Common.insert
    jose.Common.lookup jose.Common.eqb jose.Base64.encode_segment jose.Base64.symbol
    jose.Header.copy_header jose.Header.copy_all jose.Header.copy_one jose.Jwe.deflate same_header
    same_value lookup_key_mgmt jose.ContentEnc.read_random jose.KeyMgmt.aes_gcm_wrap
encrypts = refl

abbrev km : KeyMgmt
km = record { name = codes "A128GCMKW"; kind = gcmkw; wrap_bits = 128 }

chosen : choose_key_mgmt_alg options.algorithm (go_key key) key ≡ ok (codes "A128GCMKW")
unfolding choose_key_mgmt_alg
chosen = refl

found : lookup_key_mgmt (codes "A128GCMKW") ≡ ok km
unfolding lookup_key_mgmt lookup jose.KeyMgmt.key_mgmts eqb
found = refl

key-Opens :
    (alg : Bytes) (k : KeyMgmt)
    → choose_key_mgmt_alg options.algorithm (go_key key) key ≡ ok alg
    → lookup_key_mgmt alg ≡ ok k
    → Opens lib.mgmt k.kind key key
unfolding Opens
key-Opens alg k by there =
    let named : codes "A128GCMKW" ≡ alg = ok-inj _ alg (sym chosen ∙ by) in
    let same : km ≡ k = ok-inj km k (sym found ∙ (ap lookup_key_mgmt named ∙ there)) in
    subst (λ (m : KeyMgmt). Opens lib.mgmt m.kind key key) same refl

plain :
    (lookup (codes "crit") (given_header options) ≡ none)
    × (lookup (codes "zip") (given_header options) ≡ none)
unfolding copy_header lookup jose.Header.copy_all jose.Header.copy_one
plain = (refl, refl)

decrypt-encrypted_example :
    (received : Header) × (decrypt lib token (go_key key) ≡ ok (codes "hi", received))
decrypt-encrypted_example =
    decrypt-encrypted lib whole lib-IsJweLibrary draws draws-IsDraws random random-IsRandom
      (codes "hi") token key key options (omega arith) plain.0 plain.1 (λ c. omega arith) key-Opens
      encrypts
