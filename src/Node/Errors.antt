-- ===== src/Node/Errors.antt =====
-- network-node/src/error.rs: the errors of the node, which of them are worth a retry, their codes and
-- their HTTP statuses. A text is a number; the codes are numbered in the order of the source.
use axionvera_network.Base.{ℕ, Bool, true, false, Option, none, some}

pub data DatabaseError : Type 0 where
  connection_failed query_failed transaction_failed migration_failed : ℕ → DatabaseError
  pool_exhausted invalid_connection_string : DatabaseError

pub data NetworkError : Type 0 where
  config : ℕ → NetworkError
  database : DatabaseError → NetworkError
  server connection validation io serialization : ℕ → NetworkError
  shutdown_timeout cancelled : NetworkError
  internal crypto kms kms_timeout kms_rate_limit signer not_implemented : ℕ → NetworkError
  horizon_client soroban_rpc : ℕ → NetworkError
  transaction_expired insufficient_fee : NetworkError

unfoldable pub database_is_retryable : DatabaseError → Bool
database_is_retryable (DatabaseError.connection_failed m) = true
database_is_retryable (DatabaseError.query_failed m) = false
database_is_retryable (DatabaseError.transaction_failed m) = false
database_is_retryable DatabaseError.pool_exhausted = true
database_is_retryable DatabaseError.invalid_connection_string = false
database_is_retryable (DatabaseError.migration_failed m) = false

unfoldable pub is_retryable : NetworkError → Bool
is_retryable (NetworkError.database e) = database_is_retryable e
is_retryable (NetworkError.connection m) = true
is_retryable (NetworkError.server m) = false
is_retryable (NetworkError.validation m) = false
is_retryable (NetworkError.config m) = false
is_retryable (NetworkError.io m) = false
is_retryable (NetworkError.serialization m) = false
is_retryable NetworkError.shutdown_timeout = false
is_retryable NetworkError.cancelled = false
is_retryable (NetworkError.internal m) = false
is_retryable (NetworkError.crypto m) = false
is_retryable (NetworkError.kms m) = true
is_retryable (NetworkError.kms_timeout m) = true
is_retryable (NetworkError.kms_rate_limit m) = true
is_retryable (NetworkError.signer m) = false
is_retryable (NetworkError.not_implemented m) = false
is_retryable (NetworkError.horizon_client m) = true
is_retryable (NetworkError.soroban_rpc m) = true
is_retryable NetworkError.transaction_expired = false
is_retryable NetworkError.insufficient_fee = true

unfoldable pub error_code : NetworkError → ℕ
error_code (NetworkError.config m) = 0
error_code (NetworkError.database e) = 1
error_code (NetworkError.server m) = 2
error_code (NetworkError.connection m) = 3
error_code (NetworkError.validation m) = 4
error_code (NetworkError.io m) = 5
error_code (NetworkError.serialization m) = 6
error_code NetworkError.shutdown_timeout = 7
error_code NetworkError.cancelled = 8
error_code (NetworkError.internal m) = 9
error_code (NetworkError.crypto m) = 10
error_code (NetworkError.kms m) = 11
error_code (NetworkError.kms_timeout m) = 12
error_code (NetworkError.kms_rate_limit m) = 13
error_code (NetworkError.signer m) = 14
error_code (NetworkError.not_implemented m) = 15
error_code (NetworkError.horizon_client m) = 16
error_code (NetworkError.soroban_rpc m) = 17
error_code NetworkError.transaction_expired = 18
error_code NetworkError.insufficient_fee = 19

unfoldable pub http_status_code : NetworkError → ℕ
http_status_code (NetworkError.validation m) = 400
http_status_code (NetworkError.config m) = 500
http_status_code (NetworkError.database e) = 500
http_status_code (NetworkError.server m) = 500
http_status_code (NetworkError.connection m) = 503
http_status_code (NetworkError.io m) = 500
http_status_code (NetworkError.serialization m) = 400
http_status_code NetworkError.shutdown_timeout = 503
http_status_code NetworkError.cancelled = 503
http_status_code (NetworkError.internal m) = 500
http_status_code (NetworkError.crypto m) = 400
http_status_code (NetworkError.kms m) = 502
http_status_code (NetworkError.kms_timeout m) = 504
http_status_code (NetworkError.kms_rate_limit m) = 429
http_status_code (NetworkError.signer m) = 500
http_status_code (NetworkError.not_implemented m) = 501
http_status_code (NetworkError.horizon_client m) = 502
http_status_code (NetworkError.soroban_rpc m) = 502
http_status_code NetworkError.transaction_expired = 400
http_status_code NetworkError.insufficient_fee = 400

pub record ErrorContext : Type 0 where
  pub operation : ℕ
  pub component : ℕ
  pub request_id : Option ℕ
  pub timestamp : ℕ

abbrev pub new_context : ℕ → ℕ → ℕ → ErrorContext
new_context now operation component = record {
  operation = operation;
  component = component;
  request_id = none;
  timestamp = now;
}

abbrev pub with_request_id : ℕ → ErrorContext → ErrorContext
with_request_id id c = record c { request_id = some id }

pub record ContextualError : Type 0 where
  pub error : NetworkError
  pub context : ErrorContext
