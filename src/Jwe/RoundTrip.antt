-- ===== src/Jwe/RoundTrip.antt =====
-- What `Encrypt` makes for a key, `Decrypt` opens with the key that fits.
pub mod Tests
use jose.Common.{
  ◌≡◌, ◌≤◌, refl, inl, inr, Option-cases, sym, ap, ◌∙◌, true, Bool, Option, none, some, not, ◌&&◌,
  is_empty, Bytes, codes, lookup, length, All, IsByte, arith,
}
use jose.Common.Outcome.{ok, ok-inj, >>=-ok}
use jose.Base64.{encode_segment}
use jose.Codec.{IsReread, is_ascii, is_name, names, lookup-name, decode_header-encode_header}
use jose.ContentEnc.{ContentEnc, Random, lookup_enc, content_encs}
use jose.ContentEnc.RoundTrip.{IsRandom, decrypt-encrypt}
use jose.ContentEnc.Octets.{encrypt-IsSealed}
use jose.Header.{Header, check_critical}
use jose.Keys.{Key}
use jose.Jwk.{go_key, resolve_key}
use jose.KeyMgmt.{KeyMgmt, Draws, lookup_key_mgmt, key_mgmts}
use jose.KeyMgmt.Dispatch.{encrypt_key, decrypt_key}
use jose.KeyMgmt.Opens.{Opens}
use jose.KeyMgmt.RoundTrip.{decrypt_key-encrypt_key}
use jose.KeyMgmt.Written.{encrypt_key-IsWritten}
use jose.Jwe.{
  JweLibrary, EncryptOptions, max_decompressed_size, choose_key_mgmt_alg, choose_enc,
  produced_header, encrypt,
}
use jose.Jwe.Decrypt.{
  decode_parts, decrypt_one, decrypt_parts, decrypt_with_options, zero_options, decrypt,
}
use jose.Jwe.Tokens.{split-encrypt}
use jose.Jwe.Produced.{given_header, IsHeaderFor, produced_header-IsHeaderFor}
use jose.Jwe.Reread.{
  IsJweLibrary, IsDraws, IsHeaderFor-reread, IsHeaderFor-kept, content-opened, decode_parts-encode,
  check_critical-absent, open_one,
}

names-checked : (names key_mgmts ≡ true) × (names content_encs ≡ true)
unfolding names is_name is_ascii key_mgmts content_encs
names-checked = (refl, refl)

alg-name : (alg : Bytes) (km : KeyMgmt) → lookup_key_mgmt alg ≡ ok km → is_name alg ≡ true
unfolding lookup_key_mgmt
alg-name alg km found = elim (Option-cases (lookup alg key_mgmts)) [
  | inl missing ↦ absurd (ground (arith, missing))
  | inr (k, e) ↦ lookup-name key_mgmts alg names-checked.0 e
]

enc-name : (name : Bytes) (enc : ContentEnc) → lookup_enc name ≡ ok enc → is_name name ≡ true
unfolding lookup_enc
enc-name name enc found = elim (Option-cases (lookup name content_encs)) [
  | inl missing ↦ absurd (ground (arith, missing))
  | inr (ce, e) ↦ lookup-name content_encs name names-checked.1 e
]

name-parts : (s : Bytes) → is_name s ≡ true → (is_ascii s ≡ true) × (not (is_empty s) ≡ true)
unfolding is_name
name-parts s h = (ground (arith, h), ground (arith, h))

module _ (lib : JweLibrary) (whole : Bytes → Option Bytes) (laws : IsJweLibrary lib whole)
    (draws : Draws) (fresh : IsDraws lib draws) (random : Random) (source : IsRandom random) where
  -- The header and the key as they come to the recipient.
  record IsReceived (alg name : Bytes) (compress : Bool) (km : KeyMgmt) (enc : ContentEnc)
      (own : Key) (written received : Header) (cek e : Bytes) : Type 0 where
    sent : IsHeaderFor alg name compress written
    got : IsHeaderFor alg name compress received
    carried : All IsByte e
    key_opens : decrypt_key lib.mgmt km enc own received e ≡ ok cek

  delivered-IsReceived :
      (alg name : Bytes) (compress : Bool) (km : KeyMgmt) (enc : ContentEnc) (key own : Key)
      (header written received : Header) (cek e : Bytes)
      → is_ascii alg ≡ true
      → is_ascii name ≡ true
      → IsHeaderFor alg name compress header
      → Opens lib.mgmt km.kind key own
      → encrypt_key lib.mgmt km enc draws key header none ≡ ok (written, cek, e)
      → IsReread lib.mgmt.marshal_value written received
      → IsReceived alg name compress km enc own written received cek e
  delivered-IsReceived alg name compress km enc key own header written received cek e alg_ascii
        name_ascii head opens delivered alike =
      let fits : (c : Bytes) → none ≡ some c → All IsByte c × (length c ≡ enc.key_size) =
        λ c bad. absurd (cc) in
      let w =
        encrypt_key-IsWritten lib.mgmt km laws.primitives laws.rsa_octets laws.agreement laws.octets
          enc draws fresh.ceks fresh.ephemerals key header written none cek e fits delivered in
      let sent = IsHeaderFor-kept alg name compress header written w.kept head in
      record {
        sent = sent;
        got =
            IsHeaderFor-reread lib.mgmt.marshal_value alg name compress written received alg_ascii
              name_ascii alike sent;
        carried = w.carried;
        key_opens =
            decrypt_key-encrypt_key lib.mgmt laws.primitives laws.rsa laws.agreement
              laws.octets.seal-IsByte km enc draws fresh.ceks fresh.nonces fresh.salts
              fresh.ephemerals key own header written received none cek e fits opens delivered
              (w.reads received alike);
      }

  -- A token that `Encrypt` makes of octets for a key, `Decrypt` turns back into those octets with the key
  -- that opens it, for every key management algorithm, and compressed or not. The caller's headers hold no
  -- "crit" and no "zip", a plaintext that is compressed is at most 16 MiB, an RSA or ECDH private key is a
  -- valid pair, and the libraries and random sources are as documented.
  pub decrypt-encrypted :
      (plaintext token : Bytes) (key own : Key) (opts : EncryptOptions)
      → All IsByte plaintext
      → lookup (codes "crit") (given_header opts) ≡ none
      → lookup (codes "zip") (given_header opts) ≡ none
      → (opts.compress ≡ true → length plaintext ≤ max_decompressed_size)
      → ((alg : Bytes) (km : KeyMgmt)
          → choose_key_mgmt_alg opts.algorithm (go_key key) key ≡ ok alg
          → lookup_key_mgmt alg ≡ ok km
          → Opens lib.mgmt km.kind key own)
      → encrypt lib draws random plaintext (go_key key) opts ≡ ok token
      → (received : Header) × (decrypt lib token (go_key own) ≡ ok (plaintext, received))
  unfolding decrypt decrypt_with_options decrypt_parts resolve_key
  decrypt-encrypted plaintext token key own opts octets no_crit no_zip small opens h =
      let m = split-encrypt lib draws random plaintext (go_key key) opts token h in
      let same : m.resolved ≡ key = ok-inj m.resolved key (sym m.resolves) in
      let chosen = ap (choose_key_mgmt_alg opts.algorithm (go_key key)) (sym same) ∙ m.chosen in
      let name = choose_enc opts.encryption in
      let header = produced_header (go_key key) opts m.alg name in
      let (alg_ascii, alg_given) = name-parts m.alg (alg-name m.alg m.km m.km_found) in
      let (name_ascii, name_given) = name-parts name (enc-name name m.enc m.enc_found) in
      let (received, decoded, alike) =
        decode_header-encode_header lib.mgmt.marshal_value lib.marshal lib.mgmt.unmarshal laws.codec
          m.written m.protected m.encoded in
      let r =
        delivered-IsReceived m.alg name opts.compress m.km m.enc key own header m.written received
          m.cek m.encrypted_key alg_ascii name_ascii
          (produced_header-IsHeaderFor (go_key key) opts m.alg name no_crit no_zip)
          (opens m.alg m.km chosen m.km_found)
          (ap (λ k. encrypt_key lib.mgmt m.km m.enc draws k header none) (sym same) ∙ m.delivered)
          alike in
      let (body_octets, inflates) =
        content-opened lib whole laws m.written received plaintext m.body octets opts.compress
          r.sent.zip_is r.got.zip_is small m.content in
      let (sealed_octets, sized) =
        encrypt-IsSealed lib.mgmt.primitives laws.primitives laws.octets random source m.cek m.body
          m.protected body_octets m.enc m.sealed m.seals in
      let opened =
        decrypt-encrypt lib.mgmt.primitives laws.primitives random source m.cek m.body m.protected
          m.enc m.sealed body_octets m.seals in
      let one =
        open_one lib received m.alg name opts.compress m.km m.enc own m.cek m.encrypted_key m.body
          plaintext m.protected m.sealed r.got alg_given name_given m.km_found m.enc_found
          r.key_opens sized opened inflates in
      (
        received,
        rw
            (
              m.parts,
              decoded,
              check_critical-absent received r.got.no_crit,
              decode_parts-encode lib m.encrypted_key m.sealed r.carried sealed_octets,
              one,
            )
            refl,
      )
