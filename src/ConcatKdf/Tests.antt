-- ===== src/ConcatKdf/Tests.antt =====
-- A run of the key derivation of ecdh.go with a concrete hash.
use jose.Common.{◌≡◌, some, codes, take, length, arith}
use jose.Common.Int.{pos}
use jose.Common.Outcome.{ok}
use jose.ConcatKdf.{concat_kdf}
use jose.ConcatKdf.Rounds.{fixed_info, hashes, concat_kdf-hashes}
use jose.Samples.{hashing, hashing-IsHashing}

concat_kdf-hashes_example :
    (concat_kdf hashing (codes "Z") (codes "A128GCM") (codes "Alice") (codes "Bob") (pos 48)
      ≡ ok (
          some (
            take 48 (
              hashes hashing
                (codes "Z")
                (fixed_info (codes "A128GCM") (codes "Alice") (codes "Bob") 48)
                2))))
    × (length (
          take 48 (
            hashes hashing
              (codes "Z")
              (fixed_info (codes "A128GCM") (codes "Alice") (codes "Bob") 48)
              2))
        ≡ 48)
concat_kdf-hashes_example =
    concat_kdf-hashes hashing hashing-IsHashing (codes "Z") (codes "A128GCM") (codes "Alice")
      (codes "Bob") 48 (omega arith)
