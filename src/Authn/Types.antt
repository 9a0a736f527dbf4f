-- ===== src/Authn/Types.antt =====
-- The errors and the configuration of a token validator (authn/errors.go, authn/authn.go), and why
-- a key is refused (authn/validate.go).
use toolhive_core.Base.{ℕ, Bool, true, false, List, String, ◌^◌, Bytes, ◌*◌, ◌&&◌}

pub data Code : Type 0 where
  invalid_request invalid_token unavailable : Code

pub data Reason : Type 0 where
  missing_header malformed unsupported_alg critical_header unknown_kid signature expired : Reason
  expiration_missing not_yet_valid issued_in_future lifetime issuer audience missing_claim : Reason
  subject keys_unavailable key_unsupported keys_stale token_type invalid_claims : Reason

-- The wrapped error, which only feeds the message, is left out.
pub record Error : Type 0 where
  pub code : Code
  pub reason : Reason

abbrev pub error : Code → Reason → Error
error c r = record { code = c; reason = r }

abbrev is_malformed : Reason → Bool
is_malformed malformed = true
is_malformed _ = false

abbrev is_invalid_token : Code → Bool
is_invalid_token invalid_token = true
is_invalid_token _ = false

-- `PossiblyOpaque`: `errors.As` into `*Error` holds of every `Error`.
unfoldable pub possibly_opaque : Error → Bool
possibly_opaque e = is_invalid_token e.code && is_malformed e.reason

pub data KeyRejection : Type 0 where
  reject_none reject_key_use reject_key_ops reject_declared_alg reject_key_type : KeyRejection
  reject_curve reject_weak_rsa reject_export : KeyRejection

abbrev pub is_none : KeyRejection → Bool
is_none reject_none = true
is_none _ = false

-- `Config`, as `ValidateConfig` leaves it: its durations, in nanoseconds, are not negative.
pub record Config : Type 0 where
  pub issuer : String
  pub audiences : List String
  pub leeway : ℕ
  pub disable_leeway : Bool
  pub has_key_provider : Bool
  pub max_jwks_staleness : ℕ
  pub accepted_token_types : List Bytes
  pub max_token_lifetime : ℕ

abbrev pub max_token_length : ℕ
max_token_length = 16 * 2 ^ 10

abbrev pub max_key_candidates : ℕ
max_key_candidates = 8

abbrev pub second : ℕ
second = 1000000000

abbrev pub refresh_floor : ℕ
refresh_floor = second

abbrev pub negative_cache_ttl : ℕ
negative_cache_ttl = 30 * second

abbrev pub negative_cache_max_entries : ℕ
negative_cache_max_entries = 128

abbrev pub min_rsa_key_bits : ℕ
min_rsa_key_bits = 2048
