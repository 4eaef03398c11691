-- ===== src/KeyMgmt/EcdhEs/Epk.antt =====
-- The ephemeral public key in "epk": a JWK that gives back the key that the sender drew.
use jose.Common.{
  ◌≡◌, ◌⊎◌, inl, inr, refl, sym, ap, ◌∙◌, true, false, ◌&&◌, Option, none, some, [], Bytes, codes,
  eqb, lookup, arith,
}
use mathlib.Core.Path.{subst}
use jose.Common.Outcome.{ok, ◌>>=◌, ok-inj, >>=-ok, >>=-eq-ok}
use jose.Base64.{encode_segment}
use jose.Codec.{is_ascii, are_texts, encode_segment-ascii}
use jose.Json.{Value, obj}
use jose.Header.{Header}
use jose.Keys.{
  Curve, p256, p384, p521, other_curve, curve_name, EcdsaPublic, EcdhCurve, nist, EcdhPublic, Key,
  ecdh_public, ecdsa_public,
}
use jose.Ecdh.{ecdh_to_ecdsa_public, ecdsa_to_ecdh_public, pad_big, size_of}
use jose.Ecdh.Agreement.{IsEcdh, ecdh_to_ecdsa-ecdsa_to_ecdh}
use jose.Jwk.{Jwk, jwk_key, ec_curve, is_private}
use jose.Jwk.Export.{
  empty_jwk, named_curve, jwk_from_ec_public, jwk_from_ecdh_on, jwk_from_ecdh_public, okp_jwk,
  from_go_key, checked_jwk, parse_jwk,
}
use jose.Jwk.Export.Members.{IsOn, IsResolvable}
use jose.Jwk.Export.Points.{ecdsa_public_back}
use jose.Jwk.Export.RoundTrip.{on_x25519, jwk_key-from_go_key}
use jose.KeyMgmt.{KeyMgmtLibrary}
use jose.KeyMgmt.EcdhEs.{
  members_of, map_of, raw_jwk, jwk_to_map, epk_json, epk_public, ephemeral_key,
}

-- A JWK that holds a point.
abbrev pub point_jwk : Bytes → Bytes → Bytes → Bytes → Jwk
point_jwk kty crv x y = record empty_jwk { kty = kty; crv = crv; x = x; y = y }

-- What is documented of `encoding/json` and the tags of `JWK`: a JWK of ASCII texts becomes a map of
-- texts, and the JSON of this map gives the JWK back.
pub record IsJwkCodec (lib : KeyMgmtLibrary) : Type 0 where
  pub rereads :
      (kty crv x y raw : Bytes)
      → (is_ascii kty && (is_ascii crv && (is_ascii x && is_ascii y))) ≡ true
      → lib.marshal_jwk (point_jwk kty crv x y) ≡ some raw
      → (h : Header) × (lib.unmarshal raw ≡ some (some h))
        × (are_texts (members_of h) ≡ true)
        × ((text : Bytes) × (lib.marshal_value (obj (members_of h)) ≡ some text)
            × (lib.codec.unmarshal_jwk text ≡ some (point_jwk kty crv x y)))

-- A public key that crypto/ecdh gives: for X25519 one that its octets give back, for a NIST curve a
-- point of the curve.
abbrev pub IsDrawn : KeyMgmtLibrary → EcdhPublic → Type 0
IsDrawn lib k =
    IsResolvable lib.keys (ecdh_public k)
    ⊎ ((p : EcdsaPublic) × (ecdsa_to_ecdh_public lib.agreement p ≡ ok k)
        × IsOn lib.keys p.curve p
        × ((c : Curve) × (k.curve ≡ nist c)))

-- The JWK of such a key, and what it resolves to.
record IsEpk (lib : KeyMgmtLibrary) (k : EcdhPublic) (j : Jwk) : Type 0 where
  kty : Bytes
  crv : Bytes
  x : Bytes
  y : Bytes
  ascii : (is_ascii kty && (is_ascii crv && (is_ascii x && is_ascii y))) ≡ true
  form : point_jwk kty crv x y ≡ j
  public : is_private j ≡ false
  key : Key
  resolves : jwk_key lib.keys j ≡ ok key
  back : epk_public lib key ≡ ok k

raw_jwk-ok :
    (lib : KeyMgmtLibrary) (o : Option Bytes) (raw : Bytes) → raw_jwk lib o ≡ ok raw → o ≡ some raw
unfolding raw_jwk
raw_jwk-ok lib none raw h = absurd (ground arith)
raw_jwk-ok lib (some b) raw h = ap some (ok-inj b raw h)

pub epk_json-printed :
    (lib : KeyMgmtLibrary) (o : Option Value) (v : Value) (text : Bytes)
    → o ≡ some v
    → lib.marshal_value v ≡ some text
    → epk_json lib o ≡ ok text
unfolding epk_json
epk_json-printed lib o v text there printed = rw (there) (rw (epk_json, printed) refl)

module _ (lib : KeyMgmtLibrary) (laws : IsEcdh lib.agreement) (k : EcdhPublic) (j : Jwk) where
  x25519-IsEpk :
      IsResolvable lib.keys (ecdh_public k) → from_go_key (ecdh_public k) ≡ ok j → IsEpk lib k j
  unfolding from_go_key jwk_from_ecdh_public is_ascii is_private eqb epk_public
  x25519-IsEpk fits made =
      let same : okp_jwk (codes "X25519") k.bytes ≡ j =
        ok-inj _ j (sym (on_x25519 lib.keys k.curve k fits.0) ∙ made) in
      record {
        kty = codes "OKP";
        crv = codes "X25519";
        x = encode_segment k.bytes;
        y = [];
        ascii = rw (encode_segment-ascii k.bytes) refl;
        form = same;
        public = rw (← same) refl;
        key = ecdh_public k;
        resolves = jwk_key-from_go_key lib.keys (ecdh_public k) j fits made;
        back = refl;
      }

  curve_name-ascii :
      (o : Option Curve) (p : EcdsaPublic) (name : Bytes)
      → IsOn lib.keys o p
      → named_curve o ≡ ok name
      → is_ascii name ≡ true
  unfolding named_curve curve_name is_ascii
  curve_name-ascii none p name on named = elim on [ ]
  curve_name-ascii (some p256) p name on named = rw (← ok-inj _ name named) refl
  curve_name-ascii (some p384) p name on named = rw (← ok-inj _ name named) refl
  curve_name-ascii (some p521) p name on named = rw (← ok-inj _ name named) refl
  curve_name-ascii (some (other_curve n bits)) p name on named = elim on [ ]

  on_nist :
      (d : EcdhCurve) (c : Curve)
      → d ≡ nist c
      → jwk_from_ecdh_on d k ≡ (ecdh_to_ecdsa_public k >>= jwk_from_ec_public)
  unfolding jwk_from_ecdh_on
  on_nist d c e = rw e refl

  nist-IsEpk :
      (p : EcdsaPublic) (c : Curve)
      → ecdsa_to_ecdh_public lib.agreement p ≡ ok k
      → IsOn lib.keys p.curve p
      → k.curve ≡ nist c
      → from_go_key (ecdh_public k) ≡ ok j
      → IsEpk lib k j
  unfolding from_go_key jwk_from_ecdh_public jwk_from_ecdh_on jwk_from_ec_public is_ascii is_private
      eqb epk_public
  nist-IsEpk p c converts on curve made =
      let from_point : jwk_from_ec_public p ≡ ok j =
        sym (
          >>=-ok (ecdh_to_ecdsa_public k) jwk_from_ec_public
            (ecdh_to_ecdsa-ecdsa_to_ecdh lib.agreement laws p k converts))
        ∙ (sym (on_nist k.curve c curve) ∙ made) in
      let (name, named, h₁) = >>=-eq-ok (named_curve p.curve) _ from_point in
      let (_, _, h₂) = >>=-eq-ok (ec_curve name) _ h₁ in
      let (x, _, h₃) = >>=-eq-ok (pad_big p.x (size_of p.curve)) _ h₂ in
      let (y, _, last) = >>=-eq-ok (pad_big p.y (size_of p.curve)) _ h₃ in
      let same : point_jwk (codes "EC") name (encode_segment x) (encode_segment y) ≡ j =
        ok-inj _ j last in
      record {
        kty = codes "EC";
        crv = name;
        x = encode_segment x;
        y = encode_segment y;
        ascii =
            rw
              (
                curve_name-ascii p.curve p name on named,
                encode_segment-ascii x,
                encode_segment-ascii y,
              )
              refl;
        form = same;
        public = rw (← same) refl;
        key = ecdsa_public p;
        resolves = ecdsa_public_back lib.keys p j on from_point;
        back = converts;
      }

  IsEpk-drawn : IsDrawn lib k → from_go_key (ecdh_public k) ≡ ok j → IsEpk lib k j
  IsEpk-drawn (inl fits) made = x25519-IsEpk fits made
  IsEpk-drawn (inr (p, converts, on, (c, curve))) made = nist-IsEpk p c converts on curve made

  -- What "epk" holds after the key was written to it, and the key that it gives back.
  pub epk_back :
      IsJwkCodec lib
      → IsDrawn lib k
      → from_go_key (ecdh_public k) ≡ ok j
      → (h : Header) → jwk_to_map lib j ≡ ok h
      → (are_texts (members_of h) ≡ true)
        × ((text : Bytes) × (lib.marshal_value (obj (members_of h)) ≡ some text)
            × ((header : Header)
                → epk_json lib (lookup (codes "epk") header) ≡ ok text
                → ephemeral_key lib header ≡ ok k))
  unfolding jwk_to_map map_of ephemeral_key parse_jwk checked_jwk
  epk_back codec drawn made h mapped =
      let is = IsEpk-drawn drawn made in
      let (raw, marshalled, h₁) = >>=-eq-ok (raw_jwk lib (lib.marshal_jwk j)) _ mapped in
      let given = raw_jwk-ok lib (lib.marshal_jwk j) raw marshalled in
      let (g, read, texts, (text, printed, parsed)) =
        codec.rereads is.kty is.crv is.x is.y raw is.ascii (ap lib.marshal_jwk is.form ∙ given) in
      let same : g ≡ h = ok-inj g h (sym (ap (map_of lib) read) ∙ h₁) in
      (
        subst (λ m. are_texts (members_of m) ≡ true) same texts,
        (
          text,
          subst (λ m. lib.marshal_value (obj (members_of m)) ≡ some text) same printed,
          λ header there.
              rw (there, parsed, is.form, is.resolves, is.public, is.resolves, is.back) refl,
        ),
      )
