-- ===== src/Pkcs7/Tests.antt =====
-- Runs of the padding of contentenc.go.
use jose.Common.{◌≡◌, ◌↔◌, some, ◌++◌, codes, replicate}
use jose.Pkcs7.{pkcs7_pad, pkcs7_unpad}
use jose.Pkcs7.RoundTrip.{pkcs7_unpad_iff}

pkcs7_unpad_iff_example :
    (pkcs7_unpad (codes "text" ++ replicate 12 12) 16 ≡ some (codes "text"))
    ↔ (pkcs7_pad (codes "text") 16 ≡ codes "text" ++ replicate 12 12)
pkcs7_unpad_iff_example = pkcs7_unpad_iff (codes "text" ++ replicate 12 12) (codes "text")
