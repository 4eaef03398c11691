-- ===== src/Pbkdf2/Tests.antt =====
-- Runs of pbkdf2.go with a concrete hash.
use jose.Common.{◌≡◌, codes, take, length, arith}
use jose.Common.Int.{pos}
use jose.Common.Outcome.{ok}
use jose.Hashing.{sha256, hash_size}
use jose.Pbkdf2.{pbkdf2}
use jose.Pbkdf2.Blocks.{derived, pbkdf2-derived}
use jose.Samples.{hashing, hashing-IsHashing}

pbkdf2-derived_example :
    (pbkdf2 hashing sha256 (codes "password") (codes "salt") (pos 3) (pos 40)
      ≡ ok (take 40 (derived (hashing.hmac sha256 (codes "password")) (codes "salt") 3 2)))
    × (length (take 40 (derived (hashing.hmac sha256 (codes "password")) (codes "salt") 3 2)) ≡ 40)
unfolding hash_size
pbkdf2-derived_example =
    pbkdf2-derived hashing hashing-IsHashing sha256 (codes "password") (codes "salt") 3 40
      (omega arith) (omega arith)
