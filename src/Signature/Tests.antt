-- ===== src/Signature/Tests.antt =====
-- Runs of jwa_sign.go with concrete primitives.
use jose.Common.{◌≡◌, refl, some, ◌++◌, [], ◌∷◌, Bytes, codes, replicate, eqb}
use jose.Common.Outcome.{ok}
use jose.BigInt.{fill_bytes}
use jose.Hashing.{sha256, hash_size}
use jose.Keys.{Key, ecdsa_private, p256, curve_name, secret}
use jose.Signature.{
  SigAlg, ecdsa, hmac, sign_kind, verify_kind, has_curve, ecdsa_private_of, secret_of, ecdsa_octets,
}
use jose.Signature.RoundTrip.{verifier_of, verify_kind-sign_kind}
use jose.Signature.KeyTypes.{Verified, verify_kind-Verified}
use jose.Samples.{keys, point, signing, signing-IsSigning}

abbrev es256 : SigAlg
es256 = record { name = codes "ES256"; kind = ecdsa sha256 (codes "P-256") 32 }

abbrev private_key : Key
private_key = ecdsa_private (record { public = record { curve = some p256; x = 1; y = 2 }; d = 7 })

abbrev signature : Bytes
signature = replicate 31 0 ++ (3 ∷ replicate 31 0) ++ (5 ∷ [])

signed : sign_kind signing es256.kind (codes "input") private_key ≡ ok signature
unfolding sign_kind ecdsa_private_of has_curve curve_name eqb ecdsa_octets fill_bytes
signed = refl

verify_kind-sign_kind_example :
    (verify_kind signing es256.kind (codes "input") signature private_key ≡ ok tt)
    × (verify_kind signing es256.kind (codes "input") signature (verifier_of private_key) ≡ ok tt)
verify_kind-sign_kind_example =
    verify_kind-sign_kind keys point signing (signing-IsSigning keys) es256.kind (codes "input")
      signature private_key (p256, refl, refl) signed

accepted :
    verify_kind signing (hmac sha256) (codes "in") (replicate 32 2) (secret (codes "k")) ≡ ok tt
unfolding verify_kind secret_of hash_size eqb
accepted = refl

verify_kind-Verified_example :
    Verified signing (hmac sha256) (codes "in") (replicate 32 2) (secret (codes "k"))
verify_kind-Verified_example =
    verify_kind-Verified signing (codes "in") (replicate 32 2) (secret (codes "k")) (hmac sha256)
      accepted
