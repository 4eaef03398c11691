-- ===== src/Jwe/Decrypt.antt =====
-- jwe.go and jwe_json.go: `decryptOne`, decompression, and decryption in the compact serialization.
use jose.Common.{
  is_empty, ℕ, zero, suc, ◌+◌, ◌%◌, ◌^◌, not, Option, none, some, List, [], ◌∷◌, ◌++◌, ◌==◌,
  if◌then◌else◌, Bytes, codes, ltb, eqb, lookup, length,
}
use jose.Common.Int.{ℤ, pos, negsuc}
use jose.Common.Outcome.{Result, ok, err, ◌>>=◌, ◌>>◌, guard, relabel}
use jose.Errors.{Error, invalid_header, malformed, decrypt_failed, compression_limit}
use jose.Base64.{decode_segment}
use jose.Json.{Value, str}
use jose.Header.{Header, algorithm, encryption, key_id, check_critical}
use jose.Token.{dot, split, decode_header}
use jose.Jwk.{AnyKey, resolve_key, check_jwk_usage}
use jose.Jws.{is_accepted}
use jose.ContentEnc.{Random, ContentEnc, Sealed, lookup_enc}
use jose.KeyMgmt.{lookup_key_mgmt}
use jose.KeyMgmt.Dispatch.{decrypt_key}
use jose.Jwe.{DecryptOptions, JweLibrary, max_decompressed_size, def, decrypt_ops}

-- `io.LimitReader` counts in an int64, which the increment of the limit may overflow; it reads nothing for
-- a count that is not positive.
unfoldable pub reader_count : ℕ → ℕ
reader_count limit = let n = (limit + 1) % 2 ^ 64 in if ltb n (2 ^ 63) then n else 0

-- `inflate`, of a limit that is positive.
unfoldable pub inflate : JweLibrary → Bytes → ℕ → Result Error Bytes
inflate lib b limit = elim (lib.read_inflated b (reader_count limit)) [
  | none ↦ err malformed
  | some out ↦ if ltb limit (length out) then err compression_limit else ok out
]

-- The limit that `maybeInflate` chooses.
unfoldable pub inflate_limit : ℤ → ℕ
inflate_limit (pos zero) = max_decompressed_size
inflate_limit (pos (suc n)) = suc n
inflate_limit (negsuc n) = max_decompressed_size

-- `maybeInflate`, by the value of "zip".
unfoldable pub inflate_named :
    JweLibrary → Option Value → Bytes → DecryptOptions → Result Error Bytes
inflate_named lib none body opts = ok body
inflate_named lib (some (str name)) body opts =
    if eqb name def
    then inflate lib body (inflate_limit opts.max_decompressed)
    else err invalid_header
inflate_named lib (some _) body opts = err invalid_header

unfoldable pub maybe_inflate : JweLibrary → Header → Bytes → DecryptOptions → Result Error Bytes
maybe_inflate lib header body opts = inflate_named lib (lookup (codes "zip") header) body opts

-- `jweAAD`
unfoldable pub jwe_aad : Bytes → Bytes → Bytes
jwe_aad protected additional =
    if is_empty additional then protected else protected ++ (dot ∷ additional)

-- `decodeOptionalSegment`
unfoldable pub decode_optional_segment : Bytes → Result Error Bytes
decode_optional_segment seg = if is_empty seg then ok [] else relabel malformed (decode_segment seg)

module _ (lib : JweLibrary) where
  -- `decryptOne`
  unfoldable pub decrypt_one :
      Header → Bytes → Sealed → Bytes → AnyKey → DecryptOptions → Result Error Bytes
  decrypt_one header encrypted_key s aad key opts = do
    let alg = algorithm header
    guard (not (is_empty alg)) invalid_header
    guard (is_accepted alg opts.algorithms) decrypt_failed
    let enc_name = encryption header
    guard (not (is_empty enc_name)) invalid_header
    guard (is_accepted enc_name opts.encryptions) decrypt_failed
    km ← lookup_key_mgmt alg
    enc ← lookup_enc enc_name
    check_jwk_usage key (key_id header) (codes "enc") (alg ∷ enc_name ∷ []) decrypt_ops
    resolved ← resolve_key lib.mgmt.keys key (key_id header)
    cek ← decrypt_key lib.mgmt km enc resolved header encrypted_key
    guard (length cek == enc.key_size) decrypt_failed
    body ← jose.ContentEnc.decrypt lib.mgmt.primitives enc cek s aad
    maybe_inflate lib header body opts

  -- The four parts of a token after the header.
  unfoldable pub decode_parts : Bytes → Bytes → Bytes → Bytes → Result Error (Bytes × Sealed)
  decode_parts k i c t = do
    encrypted_key ← decode_optional_segment k
    iv ← decode_optional_segment i
    ciphertext ← decode_optional_segment c
    tag ← decode_optional_segment t
    ok (encrypted_key, record { iv = iv; ciphertext = ciphertext; tag = tag })

  -- `DecryptWithOptions` after the split, and `DecryptWithOptions`.
  unfoldable pub decrypt_parts :
      List Bytes → AnyKey → DecryptOptions → Result Error (Bytes × Header)
  decrypt_parts (p ∷ k ∷ i ∷ c ∷ t ∷ []) key opts = do
    protected ← decode_header lib.mgmt.unmarshal p
    check_critical protected opts.known_critical
    (encrypted_key, s) ← decode_parts k i c t
    body ← decrypt_one protected encrypted_key s p key opts
    ok (body, protected)
  decrypt_parts _ key opts = err malformed

  unfoldable pub decrypt_with_options :
      Bytes → AnyKey → DecryptOptions → Result Error (Bytes × Header)
  decrypt_with_options token key opts = decrypt_parts (split token) key opts

-- `Decrypt` uses the zero options.
abbrev pub zero_options : DecryptOptions
zero_options = record {
  algorithms = [];
  encryptions = [];
  known_critical = [];
  max_decompressed = pos 0;
}

unfoldable pub decrypt : JweLibrary → Bytes → AnyKey → Result Error (Bytes × Header)
decrypt lib token key = decrypt_with_options lib token key zero_options
