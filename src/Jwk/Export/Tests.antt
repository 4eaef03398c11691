-- ===== src/Jwk/Export/Tests.antt =====
-- Runs of `FromKey` on a key of each family.
use jose.Common.{none, true, ◌++◌, Bytes, codes, replicate}
use jose.Keys.{KeyLibrary}
use jose.Jwk.{Jwk}
use jose.Jwk.Export.{okp_jwk}
use jose.Base64.{encode_segment}

abbrev library : KeyLibrary
library = record {
  validates = λ k. true;
  precompute = λ k. none;
  is_on_curve = λ c x y. true;
  order = λ c. 7;
  key_from_seed = λ seed. seed ++ replicate 32 2;
  new_x25519_public = λ b. none;
  new_x25519_private = λ b. none;
}

abbrev pair : Bytes
pair = replicate 32 1 ++ replicate 32 2

abbrev exported : Jwk
exported = record (okp_jwk (codes "Ed25519") (replicate 32 2)) {
  d = encode_segment (replicate 32 1);
}
