-- ===== src/Lib.antt =====
-- JOSE in Go: JSON Web Keys, Signatures, Encryption and the algorithms below them. The package is one Go
-- package at the root of the repository; each part of it is a module here.
--
--   Base64      base64.go: EncodeSegment and DecodeSegment, over the alphabet of encoding/base64.
--   Errors      errors.go: the sentinel errors; the text wrapped around them is left out.
--   Json        the values that encoding/json decodes to, and those that a Go caller sets.
--   Header      header.go: header maps as association lists, merging, "crit".
--   Jwk, Keys   jwk.go, and resolveKey of header.go: a JWK as a record of its JSON members, the Go
--               key that it stands for, the key selected from a set, and its restrictions; in
--               Jwk/Export, FromKey, ParseJWK, ParseJWKSet and Thumbprint.
--   Token       encodeHeader and decodeHeader of header.go, and the parts of a token.
--   Codec       what encoding/json documents of headers that are marshalled and unmarshalled.
--   BigInt      SetBytes, Bytes and FillBytes of math/big.
--   Hashing, Cipher
--               the primitives of Go's crypto packages: records of functions, with the laws
--               that the proofs rely on as records IsHashing, IsBlockCipher and IsGcm.
--   Signature   jwa_sign.go: the table of algorithms, sigAlg.sign and sigAlg.verify.
--   Jws         jws.go: signOne and verifySignature (sign_one, verify_signature), the compact
--               serialization, and in Jws/General the JSON serialization.
--   KeyWrap     keywrap.go: AESKeyWrap and AESKeyUnwrap, with the registers A and R of the loops.
--   Pbkdf2      pbkdf2.go: PBKDF2 and pbes2SaltInput.
--   ConcatKdf   ecdh.go: ConcatKDF and lengthPrefixed.
--   Ecdh        ecdh.go: the conversions of keys and ecdhDerive.
--   KeyMgmt     jwa_keymgmt.go: the table, and what is read of keys and headers; in KeyMgmt/Pbes2,
--               EcdhEs and Dispatch, encryptKey and decryptKey (encrypt_key, decrypt_key).
--   Jwe         jwe.go: Encrypt; in Jwe/Decrypt, Decrypt, and decryptOne and inflate;
--               in Jwe/Json, EncryptJSONMulti, and in Jwe/Json/Opening, DecryptJSONWithOptions.
--   Listing     SignatureAlgorithms, KeyManagementAlgorithms and ContentEncryptionAlgorithms, with
--               sort.Strings as insertion sort and the keys of a map in the order of its table.
--   Cbc, Pkcs7, ContentEnc
--               contentenc.go: CBC, the padding, and the encryption and decryption of the content.
--
-- How they interact: verify_signature merges the headers (Header), resolves the key and its
-- restrictions (Jwk), decodes segments (Base64) and calls the algorithm (Signature). decrypt_one
-- does so for a JWE: it recovers the content encryption key (KeyMgmt, over KeyWrap, Pbkdf2 and
-- Ecdh) and opens the content (ContentEnc, over Cbc and Pkcs7); all take the primitives as
-- parameters. Samples holds concrete parameters that satisfy the laws; the Tests modules run the
-- code with them.
--
-- A pair (value, error) of Go is a Result, a string or slice of octets is a list of numbers, and a
-- map is an association list. The loops of known length are recursion on the rounds, forwards or
-- backwards as in the code. The loop of ConcatKDF, which runs until the output is long enough, takes
-- fuel, one more than the octets asked for; each round gives 32 octets, so this is enough, as the
-- theorem on it says. Words of 32 and 64 bits wrap as in Go. Where Go panics, the
-- result is an error of its own: nil_pointer, too_large for a number that FillBytes cannot hold, or
-- out_of_range for a slice expression.
--
-- encryptKey writes to the header that it is given: encrypt_key returns the header as it is then. What
-- the random source gives in one run is an argument, one for each of its uses (Draws). The loop of
-- EncryptJSONMulti is a step on its variables (Sealing), and the loop of DecryptJSONWithOptions goes
-- over the indices of recipientOrder. The limit of inflate is an int64, and its increment wraps.
--
-- Not modelled: the JSON codec, DEFLATE, the random source, the curves and the crypto primitives,
-- which are parameters; the accessors Type and ContentType of a header, which nothing calls; and a
-- json.Number as a header value, which the package does not decode to. Timing is not a matter of
-- the model: a comparison in constant time is a comparison.
pub mod Common
pub mod Base64
pub mod Errors
pub mod Cipher
pub mod Codec
pub mod KeyWrap
pub mod Hashing
pub mod Listing
pub mod Pbkdf2
pub mod ConcatKdf
pub mod Pkcs7
pub mod Cbc
pub mod ContentEnc
pub mod Json
pub mod Header
pub mod BigInt
pub mod Keys
pub mod Jwk
pub mod Signature
pub mod Jws
pub mod Token
pub mod Ecdh
pub mod KeyMgmt
pub mod Jwe
pub mod Samples
