-- ===== src/Errors.antt =====
-- errors.go: the sentinel errors, and which broader category a more specific one wraps.
-- The descriptive text that the code wraps around a sentinel is left out.
use jose.Common.{Option, none, some}

pub data Error : Type 0 where
  invalid_token : Error
  malformed : Error
  signature_invalid : Error
  decrypt_failed : Error
  invalid_key_type : Error
  invalid_key : Error
  key_not_found : Error
  unsupported_algorithm : Error
  unsupported_encryption : Error
  none_alg_disallowed : Error
  invalid_crit : Error
  invalid_header : Error
  compression_limit : Error
  iteration_count : Error
  detached_payload : Error
  unprotected_b64 : Error
  unprotected_critical : Error
  key_use_mismatch : Error
  key_alg_mismatch : Error
  key_ops_mismatch : Error
  -- An error of a library that the code returns as it is, such as a failing random source.
  external : Error
  -- No Go error: the run panics on a nil pointer.
  nil_pointer : Error
  -- No Go error: `FillBytes` panics on a number that does not fit.
  too_large : Error
  -- No Go error: a slice expression panics on bounds that the slice does not have.
  out_of_range : Error

-- `%w` in the definition of a sentinel.
pub wraps : Error → Option Error
wraps unprotected_b64 = some invalid_header
wraps unprotected_critical = some invalid_crit
wraps key_use_mismatch = some invalid_key
wraps key_alg_mismatch = some invalid_key
wraps key_ops_mismatch = some invalid_key
wraps _ = none
