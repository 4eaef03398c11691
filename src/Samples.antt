-- ===== src/Samples.antt =====
-- Concrete parameters that satisfy what is documented of the libraries, to run the code with.
pub mod Flat
use jose.Common.{
  ◌<◌, none, true, Bool, if◌then◌else◌, codes, [], ◌∷◌, inl, inr, Bool-cases, eqb_iff, ap,
  All-append, sym, ℕ, zero, suc, ◌-◌, ◌%◌, ◌≡◌, refl, ◌&&◌, Option, some, ◌++◌, ◌==◌, Bytes, eqb,
  eqb_refl, All, IsByte, length, take, replicate, length-replicate, length-append, take-append,
  arith,
}
use jose.Common.Octets.{xor_octets, xor_octets_cancel, length-xor_octets, xor_octets-IsByte}
use jose.Cipher.{BlockCipher, IsBlockCipher, Gcm, IsGcm}
use jose.Hashing.{hash_size, Hashing, IsHashing}
use jose.ContentEnc.{Primitives, Random}
use jose.ContentEnc.RoundTrip.{IsPrimitives, IsRandom}
use jose.ContentEnc.Octets.{GivesOctets}
use jose.Keys.{KeyLibrary, Curve, EcdhCurve, nist, x25519, EcdhPublic, EcdhPrivate}
use jose.Jwk.{Jwk}
use jose.Json.{str}
use jose.Base64.{encode_segment}
use jose.Codec.{is_ascii, are_texts, encode_segment-ascii}
use jose.KeyMgmt.EcdhEs.{members_of}
use jose.Ecdh.{EcdhLibrary}
use jose.Ecdh.Agreement.{IsEcdh}
use jose.Header.{Header}
use jose.KeyMgmt.{KeyMgmtLibrary, Draws}
use jose.KeyMgmt.Opens.{IsRsaEncryption, EncryptsOctets, IsAgreement, DrawsKeys}
use jose.KeyMgmt.EcdhEs.Epk.{IsDrawn, point_jwk}
use jose.KeyMgmt.Reading.{SealsOctets}
use jose.Signature.{Signing}
use jose.Signature.RoundTrip.{IsSigning}

abbrev pub pad_block : Bytes
pad_block = replicate 16 90

abbrev pub aes : BlockCipher
aes = record {
  encrypt = λ key block. xor_octets block pad_block;
  decrypt = λ key block. xor_octets block pad_block;
}

pub aes-IsBlockCipher : IsBlockCipher aes
aes-IsBlockCipher = record {
  length-encrypt = λ key block h. omega (arith, h, length-xor_octets block pad_block);
  encrypt-IsByte = λ key block h. xor_octets-IsByte block pad_block h (omega arith);
  decrypt-encrypt = λ key block h octets. xor_octets_cancel block pad_block;
  length-decrypt = λ key block h. omega (arith, h, length-xor_octets block pad_block);
  decrypt-IsByte = λ key block h. xor_octets-IsByte block pad_block h (omega arith);
  encrypt-decrypt = λ key block h octets. xor_octets_cancel block pad_block;
}

abbrev pub tag : Bytes
tag = replicate 16 7

abbrev pub gcm : Gcm
gcm = record {
  seal = λ key nonce text aad. text ++ tag;
  open_sealed = λ key nonce text aad. some (take (length text - 16) text);
}

opened : (text : Bytes) → take (length (text ++ tag) - 16) (text ++ tag) ≡ text
opened text = take-append text tag _ (omega (arith, length-append text tag))

pub gcm-IsGcm : IsGcm gcm
gcm-IsGcm = record {
  length-seal = λ key nonce text aad. length-append text tag;
  open-seal = λ key nonce text aad h. rw (opened text) refl;
}

abbrev pub hashing : Hashing
hashing = record {
  sum = λ h input. replicate (hash_size h) (length input % 256);
  hmac = λ h key input. replicate (hash_size h) (length input % 256);
}

pub hashing-IsHashing : IsHashing hashing
hashing-IsHashing = record {
  length-sum = λ h input. length-replicate (hash_size h) _;
  length-hmac = λ h key input. length-replicate (hash_size h) _;
}

abbrev pub primitives : Primitives
primitives = record { aes = aes; aead = gcm; hashing = hashing }

pub primitives-IsPrimitives : IsPrimitives primitives
primitives-IsPrimitives = record {
  aes = aes-IsBlockCipher;
  aead = gcm-IsGcm;
  hashing = hashing-IsHashing;
}

abbrev pub keys : KeyLibrary
keys = record {
  validates = λ k. true;
  precompute = λ k. none;
  is_on_curve = λ c x y. true;
  order = λ c. 7;
  key_from_seed = λ seed. seed;
  new_x25519_public = λ b. some (record { curve = x25519; bytes = b });
  new_x25519_private = λ b. none;
}

abbrev pub agreement : EcdhLibrary
agreement = record {
  new_public = λ c b. some (record { curve = c; bytes = b });
  new_private = λ c b. some (record { public = record { curve = c; bytes = b }; bytes = b });
  exchange = λ k p. some (replicate 32 5);
}

public_of :
    (c d : EcdhCurve) (b e : Bytes)
    → Path
        (Option EcdhPublic)
        (some (record { curve = d; bytes = e }))
        (some (record { curve = c; bytes = b }))
    → (c ≡ d) × (b ≡ e)
public_of c d b e h = (cc, cc)

pub agreement-IsEcdh : IsEcdh agreement
agreement-IsEcdh = record {
  new_public_lem = λ c b k e. public_of k.curve c k.bytes b e;
  exchange_comm = λ a b own_a own_b e. refl;
}

-- The one ephemeral key pair, and the codec of a package whose JWKs are all its public key.
abbrev pub ephemeral : EcdhPrivate
ephemeral = record {
  public = record { curve = x25519; bytes = replicate 32 4 };
  bytes = replicate 32 4;
}

abbrev x_member : Bytes
x_member = encode_segment (replicate 32 4)

abbrev is_epk : Jwk → Bool
is_epk j =
    eqb j.kty (codes "OKP") && (eqb j.crv (codes "X25519") && (eqb j.x x_member && eqb j.y []))

abbrev epk_text : Bytes
epk_text = codes "{epk}"

abbrev epk_map : Header
epk_map =
    (codes "crv", str (codes "X25519"))
    ∷ (codes "kty", str (codes "OKP"))
    ∷ (codes "x", str x_member)
    ∷ []

-- The key management of a package whose headers all read as the one given.
abbrev pub mgmt : Header → KeyMgmtLibrary
mgmt header = record {
  keys = keys;
  primitives = primitives;
  agreement = agreement;
  codec = record {
    unmarshal_jwk = λ text. some (point_jwk (codes "OKP") (codes "X25519") x_member []);
    unmarshal_set = λ text. none;
  };
  encrypt_pkcs1 = λ k cek. some cek;
  encrypt_oaep = λ h k cek. some cek;
  decrypt_pkcs1_session = λ k c n. some c;
  decrypt_oaep = λ h k c. some c;
  marshal_jwk = λ j. if is_epk j then some epk_text else none;
  marshal_value = λ v. some epk_text;
  unmarshal = λ text. some (some (if eqb text epk_text then epk_map else header));
}

pub mgmt-IsRsaEncryption : (header : Header) → IsRsaEncryption (mgmt header)
mgmt-IsRsaEncryption header = record {
  pkcs1_opens = λ priv cek c pair e. sym e;
  oaep_opens = λ h priv cek c pair e. sym e;
}

pub gcm-SealsOctets : SealsOctets gcm
gcm-SealsOctets = λ key nonce text aad octets. All-append IsByte text tag octets (omega arith)

abbrev pub random : Random
random = λ n. some (replicate n 9)

pub some-injective {ℓ} : {A : Type ℓ} (a b : A) → some a ≡ some b → a ≡ b
some-injective a b e = cc

pub replicate-IsByte : (n b : ℕ) → b < 256 → All IsByte (replicate n b)
replicate-IsByte zero b small = tt
replicate-IsByte (suc n) b small = (small, replicate-IsByte n b small)

pub primitives-GivesOctets : GivesOctets primitives
primitives-GivesOctets = record {
  seal-IsByte = gcm-SealsOctets;
  hmac-IsByte = λ h key input. replicate-IsByte (hash_size h) _ (omega arith);
}

pub mgmt-EncryptsOctets : (header : Header) → EncryptsOctets (mgmt header)
mgmt-EncryptsOctets header = record {
  pkcs1-IsByte = λ key cek c octets e. rw (← some-injective cek c e) octets;
  oaep-IsByte = λ h key cek c octets e. rw (← some-injective cek c e) octets;
}

pub random-IsRandom : IsRandom random
random-IsRandom = record {
  length-read = λ n b e. rw (← some-injective (replicate n 9) b e) (length-replicate n 9);
  read-IsByte =
      λ n b e. rw (← some-injective (replicate n 9) b e) (replicate-IsByte n 9 (omega arith));
}

abbrev pub generated : EcdhCurve → Option EcdhPrivate
generated x25519 = some ephemeral
generated (nist c) = none

abbrev pub draws : Draws
draws = record { cek = random; salt = random; nonce = random; ephemeral = generated }

ephemeral-IsDrawn : (header : Header) → IsDrawn (mgmt header) ephemeral.public
ephemeral-IsDrawn header = inl (refl, (λ e. cc), replicate-IsByte 32 4 (omega arith), refl)

pub draws-DrawsKeys : (header : Header) → DrawsKeys (mgmt header) generated
draws-DrawsKeys header x25519 k e =
    rw (← some-injective ephemeral k e) (ephemeral-IsDrawn header, refl)
draws-DrawsKeys header (nist c) k e = absurd (cc)

are_epk :
    (kty crv x y raw : Bytes)
    → (if is_epk (point_jwk kty crv x y) then some epk_text else none) ≡ some raw
    → (raw ≡ epk_text)
      × (point_jwk (codes "OKP") (codes "X25519") x_member [] ≡ point_jwk kty crv x y)
are_epk kty crv x y raw e = elim (Bool-cases (is_epk (point_jwk kty crv x y))) [
  | inl is ↦
      let a : kty ≡ codes "OKP" = (eqb_iff kty _).0 (ground (arith, is)) in
      let b : crv ≡ codes "X25519" = (eqb_iff crv _).0 (ground (arith, is)) in
      let c : x ≡ x_member = (eqb_iff x _).0 (ground (arith, is)) in
      let d : y ≡ [] = (eqb_iff y _).0 (ground (arith, is)) in
      (sym (some-injective epk_text raw (ground (arith, e, is))), rw (a, b, c, d) refl)
  | inr other ↦ absurd (ground (arith, e, other))
]

epk_map-texts : are_texts (members_of epk_map) ≡ true
unfolding are_texts is_ascii members_of
epk_map-texts = rw (encode_segment-ascii (replicate 32 4)) refl

pub mgmt-IsAgreement : (header : Header) → IsAgreement (mgmt header)
mgmt-IsAgreement header = record {
  exchanges = agreement-IsEcdh;
  jwks = record {
    rereads = λ kty crv x y raw ascii e.
        let (text, same) = are_epk kty crv x y raw e in
        (epk_map, rw (text, eqb_refl epk_text) refl, epk_map-texts, (epk_text, refl, ap some same));
  };
}

-- The one point of the samples.
abbrev pub point : Curve → ℕ → Option (ℕ × ℕ)
point c d = some (1, 2)

abbrev pub signing : Signing
signing = record {
  hashing = hashing;
  sign_pkcs1 = λ h k digest. some digest;
  verify_pkcs1 = λ h k digest sig. eqb sig digest;
  sign_pss = λ h k digest. some digest;
  verify_pss = λ h k digest sig. eqb sig digest;
  sign_ecdsa = λ k digest. some (3, 5);
  verify_ecdsa = λ k digest r s. r == 3 && s == 5;
  sign_ed25519 = λ k input. replicate 64 6;
  verify_ed25519 = λ k input sig. eqb sig (replicate 64 6);
}

numbers : (r s : ℕ) → Path (Option (ℕ × ℕ)) (some (3, 5)) (some (r, s)) → (3 ≡ r) × (5 ≡ s)
numbers r s e = (cc, cc)

pub signing-IsSigning : (keys : KeyLibrary) → IsSigning keys point signing
signing-IsSigning keys = record {
  pkcs1_verifies = λ h k digest sig pair e. rw (some-injective digest sig e) (eqb_refl sig);
  pss_verifies = λ h k digest sig pair e. rw (some-injective digest sig e) (eqb_refl sig);
  ecdsa_verifies = λ k digest r s pair e. rw (← (numbers r s e).0, ← (numbers r s e).1) refl;
  ed25519_verifies = λ k input h pair. eqb_refl _;
}
