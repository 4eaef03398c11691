-- ===== src/Base64/Tests.antt =====
-- Runs of base64.go.
use jose.Common.{◌≡◌, ◌↔◌, refl, codes, All, IsByte}
use jose.Common.Outcome.{ok}
use jose.Base64.{
  encode_segment, decode_segment, symbol, value, sextet, last_two, last_three, four, quanta,
  without_newlines, decode_string, is_symbol, screen,
}
use jose.Base64.Canonical.{decode_segment_iff}

encode_runs : encode_segment (codes "foobar") ≡ codes "Zm9vYmFy"
unfolding encode_segment symbol
encode_runs = refl

decode_runs : decode_segment (codes "Zm8") ≡ ok (codes "fo")
unfolding decode_segment screen is_symbol value decode_string without_newlines quanta four last_two
    last_three sextet
decode_runs = refl

decode_segment_iff_example :
    (decode_segment (codes "Zm8") ≡ ok (codes "fo"))
    ↔ ((encode_segment (codes "fo") ≡ codes "Zm8") × All IsByte (codes "fo"))
decode_segment_iff_example = decode_segment_iff (codes "Zm8") (codes "fo")
