-- ===== src/KeyWrap/Tests.antt =====
-- Runs of keywrap.go with a concrete block cipher.
use jose.Common.{◌++◌, eqb, ◌≡◌, ◌+◌, ◌⊎◌, refl, Bytes, replicate, length, arith}
use jose.Common.Outcome.{ok, err}
use jose.Errors.{invalid_key}
use jose.Common.Octets.{put_uint64, xor_octets}
use jose.KeyWrap.Reverse.{wrap-unwrap}
use jose.KeyWrap.{
  unwrap_outer, unwrap_inner, unwrap_step, counter, xor_uint64, slice8, copy8, aes_key_wrap,
  aes_key_unwrap,
}
use jose.KeyWrap.RoundTrip.{IsWrappable, unwrap-wrap, aes_key_wrap_total}
use jose.Samples.{aes, aes-IsBlockCipher}

abbrev kek : Bytes
kek = replicate 16 1

abbrev short_key : Bytes
short_key = replicate 16 200

unwrap-wrap_example :
    (c : Bytes) × (aes_key_wrap aes kek short_key ≡ ok c)
    × (length c ≡ length short_key + 8)
    × (aes_key_unwrap aes kek c ≡ ok short_key)
unwrap-wrap_example =
    unwrap-wrap aes aes-IsBlockCipher kek short_key (omega arith) (refl, refl, omega arith)

aes_key_wrap_total_example :
    (IsWrappable kek (replicate 8 7)
      × ((c : Bytes) × (aes_key_wrap aes kek (replicate 8 7) ≡ ok c)))
    ⊎ ((¬ IsWrappable kek (replicate 8 7))
        × (aes_key_wrap aes kek (replicate 8 7) ≡ err invalid_key))
aes_key_wrap_total_example = aes_key_wrap_total aes kek (replicate 8 7)

abbrev wrapped : Bytes
wrapped = replicate 7 166 ++ replicate 1 170 ++ replicate 16 200

unwraps : aes_key_unwrap aes kek wrapped ≡ ok short_key
unfolding aes_key_unwrap unwrap_outer unwrap_inner unwrap_step counter xor_uint64 slice8 copy8
    put_uint64 xor_octets eqb
unwraps = refl

wrap-unwrap_example : aes_key_wrap aes kek short_key ≡ ok wrapped
wrap-unwrap_example = wrap-unwrap aes aes-IsBlockCipher kek wrapped short_key (omega arith) unwraps
