-- ===== src/Ecdh/Tests.antt =====
-- Runs of ecdh.go with a concrete exchange.
use jose.Common.{take, arith, ◌≡◌, refl, some, [], ◌∷◌, ◌++◌, Bytes, codes, replicate}
use jose.Common.Int.{pos}
use jose.Common.Outcome.{ok}
use jose.BigInt.{fill_bytes}
use jose.Keys.{EcdsaPublic, EcdhPublic, EcdhPrivate, p256, p521, nist}
use jose.Ecdh.{ecdsa_to_ecdh_public, ecdh_to_ecdsa_public, ecdh_derive}
use jose.Ecdh.Agreement.{ecdh_derive-agrees, ecdh_to_ecdsa-ecdsa_to_ecdh}
use jose.ConcatKdf.Rounds.{hashes, fixed_info}
use jose.Samples.{agreement, agreement-IsEcdh, hashing, hashing-IsHashing}

-- A party on P-521.
abbrev nist_party : Bytes → EcdhPrivate
nist_party b = record { public = record { curve = nist p521; bytes = b }; bytes = b }

abbrev shared_key : Bytes
shared_key = take 48 (hashes hashing (replicate 32 5) (fixed_info (codes "A128GCM") [] [] 48) 2)

ecdh_derive-agrees_example :
    (ecdh_derive agreement hashing
        (nist_party (codes "a"))
        (nist_party (codes "b")).public
        (codes "A128GCM")
        []
        []
        (pos 48)
      ≡ ok shared_key)
    × (ecdh_derive agreement hashing
          (nist_party (codes "b"))
          (nist_party (codes "a")).public
          (codes "A128GCM")
          []
          []
          (pos 48)
        ≡ ok shared_key)
ecdh_derive-agrees_example =
    ecdh_derive-agrees agreement agreement-IsEcdh hashing hashing-IsHashing (nist_party (codes "a"))
      (nist_party (codes "b")) (codes "A128GCM") [] [] (replicate 32 5) 48 refl refl refl tt refl
      (omega arith)

abbrev point : EcdsaPublic
point = record { curve = some p256; x = 3; y = 5 }

abbrev converted : EcdhPublic
converted = record {
  curve = nist p256;
  bytes = 4 ∷ ((replicate 31 0 ++ (3 ∷ [])) ++ (replicate 31 0 ++ (5 ∷ [])));
}

converts : ecdsa_to_ecdh_public agreement point ≡ ok converted
unfolding ecdsa_to_ecdh_public fill_bytes jose.Ecdh.ecdh_curve_for jose.Ecdh.pad_big
    jose.Ecdh.size_of jose.Keys.coord_size jose.Ecdh.or_invalid
converts = refl

ecdh_to_ecdsa-ecdsa_to_ecdh_example : ecdh_to_ecdsa_public converted ≡ ok point
ecdh_to_ecdsa-ecdsa_to_ecdh_example =
    ecdh_to_ecdsa-ecdsa_to_ecdh agreement agreement-IsEcdh point converted converts
