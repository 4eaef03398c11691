-- ===== src/Jwe/Tests.antt =====
-- Runs of jwe.go and jwe_json.go with concrete libraries.
use jose.Common.{
  false, ℕ, zero, suc, ◌+◌, ◌-◌, ◌^◌, ◌<◌, ◌≤◌, ◌≡◌, ◌↔◌, ◌⊎◌, inl, inr, refl, sym, ap, ◌∙◌, true,
  false, Option, some, none, List, [], ◌∷◌, ◌++◌, Bytes, codes, replicate, length, take,
  length-take, take-length_le, All, lookup, insert, eqb, arith,
}
use jose.Common.Outcome.{ok}
use jose.Json.{str}
use jose.Header.{Header}
use jose.Keys.{secret}
use jose.Jwk.{AnyKey, go_key}
use jose.ContentEnc.{ContentEnc, Sealed, gcm, lookup_enc}
use jose.Jwe.{JweLibrary}
use jose.Jwe.Decrypt.{inflate, decrypt_with_options, zero_options}
use jose.Jwe.Inflate.{IsInflater, inflate_iff, inflate-overflow}
use jose.Jwe.Decrypted.{IsDecrypted, decrypt-IsDecrypted}
use jose.Samples.{mgmt, some-injective}

abbrev pub header : Header
header = (codes "alg", str (codes "dir")) ∷ (codes "enc", str (codes "A128GCM")) ∷ []

abbrev pub library : JweLibrary
library = record {
  mgmt = mgmt header;
  marshal = λ h. some (codes "{}");
  deflated = λ b. some b;
  read_inflated = λ b n. some (take n b);
}

abbrev pub whole : Bytes → Option Bytes
whole b = some b

pub library-IsInflater : IsInflater library whole
library-IsInflater = record {
  length-read =
      λ b n out e. rw (← some-injective (take n b) out e) (omega (arith, length-take n b));
  read-whole = λ b n all e. ap (λ (o : Bytes). some (take n o)) (some-injective b all e);
  read-end = λ b n out e short.
      let same = some-injective (take n b) out e in
      let below : length (take n b) < n = rw same short in
      ap some (sym (take-length_le n b (omega (arith, below, length-take n b))) ∙ same);
}

inflate_iff_example :
    (inflate library (codes "payload") 7 ≡ ok (codes "payload"))
    ↔ ((whole (codes "payload") ≡ some (codes "payload")) × (length (codes "payload") ≤ 7))
inflate_iff_example =
    inflate_iff library whole library-IsInflater (codes "payload") 7 (codes "payload") (omega arith)

inflate-overflow_example : inflate library (codes "payload") (2 ^ 63 - 1) ≡ ok []
inflate-overflow_example =
    inflate-overflow library whole library-IsInflater (codes "payload") (codes "payload") refl

abbrev pub key : AnyKey
key = go_key (secret (replicate 16 1))

abbrev token : Bytes
token = codes "e30..CQkJCQkJCQkJCQkJ.aGk.BwcHBwcHBwcHBwcHBwcHBw"

decrypts : decrypt_with_options library token key zero_options ≡ ok (codes "hi", header)
unfolding jose.Jwe.Decrypt.decrypt_with_options jose.Jwe.Decrypt.decrypt_parts
    jose.Jwe.Decrypt.decode_parts jose.Jwe.Decrypt.decode_optional_segment
    jose.Jwe.Decrypt.decrypt_one jose.Jwe.Decrypt.maybe_inflate jose.Jwe.Decrypt.inflate_named
    jose.Token.split jose.Token.on_first jose.Token.decode_header jose.Token.decoded_header
    jose.Base64.decode_segment jose.Base64.decode_string jose.Base64.four jose.Base64.is_symbol
    jose.Base64.last_three jose.Base64.last_two jose.Base64.quanta jose.Base64.screen
    jose.Base64.sextet jose.Base64.value jose.Base64.without_newlines jose.Header.check_critical
    jose.Header.critical jose.Header.algorithm jose.Header.encryption jose.Header.header_string
    jose.Header.string_of jose.Header.key_id jose.Common.lookup jose.Common.eqb jose.Common.contains
    jose.Jws.is_accepted jose.KeyMgmt.lookup_key_mgmt jose.KeyMgmt.key_mgmts
    jose.KeyMgmt.symmetric_key jose.ContentEnc.lookup_enc jose.ContentEnc.content_encs
    jose.ContentEnc.decrypt_mode jose.ContentEnc.decrypt_gcm jose.Jwk.check_jwk_usage
    jose.Jwk.resolve_key jose.Jwk.select_jwk jose.KeyMgmt.Dispatch.decrypt_key
    jose.KeyMgmt.Dispatch.decrypt_kind jose.ContentEnc.decrypt
decrypts = refl

decrypt-IsDecrypted_example : IsDecrypted library key zero_options token (codes "hi") header
decrypt-IsDecrypted_example =
    decrypt-IsDecrypted library key zero_options token (codes "hi") header decrypts
