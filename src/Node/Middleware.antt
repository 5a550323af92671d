-- ===== src/Node/Middleware.antt =====
-- network-node/src/error_middleware.rs: the statistics of errors, and a circuit breaker for each
-- component. A text is a number, and so is a time in milliseconds. Logging is left out, and with it
-- the choice of a log level.
pub mod Stats
pub mod Breakers
use axionvera_network.Base.{
  ℕ, suc, ◌+◌, ◌-◌, ◌%◌, Bool, true, false, Option, none, some, List, [], ◌∷◌, ◌++◌, length, ltb,
  leb, if◌then◌else◌,
}
use axionvera_network.Base.I128.{u64_bound}
use axionvera_network.Base.Maps.{Map, lookup, insert, modify, upsert}
use axionvera_network.Node.Errors.{NetworkError, ErrorContext, ContextualError, error_code}

pub record ErrorMiddlewareConfig : Type 0 where
  pub enable_circuit_breaker : Bool
  pub enable_rate_limiting : Bool
  pub max_errors_per_minute : ℕ
  pub circuit_breaker_threshold : ℕ
  pub circuit_breaker_timeout : ℕ
  pub enable_error_aggregation : Bool
  pub log_internal_errors : Bool
  pub expose_error_details : Bool

-- The default configuration, with the timeout in milliseconds.
abbrev pub default_config : ErrorMiddlewareConfig
default_config = record {
  enable_circuit_breaker = true;
  enable_rate_limiting = true;
  max_errors_per_minute = 100;
  circuit_breaker_threshold = 10;
  circuit_breaker_timeout = 60_000;
  enable_error_aggregation = true;
  log_internal_errors = true;
  expose_error_details = false;
}

pub record ErrorRecord : Type 0 where
  pub id : ℕ
  pub error_type : ℕ
  pub component : ℕ
  pub operation : ℕ
  pub message : NetworkError
  pub timestamp : ℕ
  pub request_id : Option ℕ
  pub stack_trace : Option NetworkError

pub record ErrorStats : Type 0 where
  pub total_errors : ℕ
  pub errors_by_type : Map ℕ
  pub errors_by_component : Map ℕ
  pub recent_errors : List ErrorRecord
  pub last_updated : ℕ

pub data CircuitBreakerState : Type 0 where
  closed opened half_open : CircuitBreakerState

pub record CircuitBreaker : Type 0 where
  pub state : CircuitBreakerState
  pub failure_count : ℕ
  pub last_failure_time : Option ℕ
  pub success_count : ℕ

abbrev pub new_breaker : CircuitBreaker
new_breaker = record {
  state = CircuitBreakerState.closed;
  failure_count = 0;
  last_failure_time = none;
  success_count = 0;
}

pub record ErrorMiddleware : Type 0 where
  pub config : ErrorMiddlewareConfig
  pub error_stats : ErrorStats
  pub circuit_breakers : Map CircuitBreaker

-- `ErrorStats::default()`, with the time of the epoch.
abbrev pub default_stats : ErrorStats
default_stats = record {
  total_errors = 0;
  errors_by_type = [];
  errors_by_component = [];
  recent_errors = [];
  last_updated = 0;
}

abbrev pub new_middleware : ErrorMiddlewareConfig → ErrorMiddleware
new_middleware config = record {
  config = config;
  error_stats = default_stats;
  circuit_breakers = [];
}

-- The counters are `u64` and `usize`, which wrap in the release profile.
abbrev pub increment : ℕ → ℕ
increment n = (n + 1) % u64_bound

-- `push`, and `remove(0)` where there are more than 100.
unfoldable pub push_recent : ErrorRecord → List ErrorRecord → List ErrorRecord
push_recent r recent =
    let pushed = recent ++ r ∷ [] in
    if ltb 100 (length pushed) then elim pushed [ [] ↦ [] | x ∷ rest ↦ rest ] else pushed

unfoldable pub record_error_stats : ℕ → NetworkError → ErrorRecord → ErrorStats → ErrorStats
record_error_stats now error r stats = record stats {
  total_errors = increment stats.total_errors;
  last_updated = now;
  errors_by_type = upsert (error_code error) 0 increment stats.errors_by_type;
  errors_by_component = upsert r.component 0 increment stats.errors_by_component;
  recent_errors = push_recent r stats.recent_errors;
}

abbrev pub create_error_record :
    ErrorMiddlewareConfig → ℕ → ℕ → NetworkError → ErrorContext → ErrorRecord
create_error_record config uuid now error context = record {
  id = uuid;
  error_type = error_code error;
  component = context.component;
  operation = context.operation;
  message = error;
  timestamp = now;
  request_id = context.request_id;
  stack_trace = if config.log_internal_errors then some error else none;
}

-- What an error makes of the breaker of its component.
unfoldable pub count_failure : ErrorMiddlewareConfig → ℕ → CircuitBreaker → CircuitBreaker
count_failure config now b =
    let counted = record b { failure_count = increment b.failure_count } in
    elim b.state [
      | CircuitBreakerState.closed ↦
          if leb config.circuit_breaker_threshold counted.failure_count
          then record counted { state = CircuitBreakerState.opened; last_failure_time = some now }
          else counted
      | CircuitBreakerState.opened ↦ elim b.last_failure_time [
        | none ↦ counted
        | some last_failure ↦
            if ltb config.circuit_breaker_timeout (now - last_failure)
            then record counted { state = CircuitBreakerState.half_open }
            else counted
      ]
      | CircuitBreakerState.half_open ↦ record counted {
        state = CircuitBreakerState.opened;
        last_failure_time = some now;
      }
    ]

abbrev pub check_circuit_breaker :
    ErrorMiddlewareConfig → ℕ → ℕ → Map CircuitBreaker → Map CircuitBreaker
check_circuit_breaker config now component breakers =
    upsert component new_breaker (count_failure config now) breakers

unfoldable pub handle_error :
    ℕ → ℕ → NetworkError → ErrorContext → ErrorMiddleware → ContextualError × ErrorMiddleware
handle_error uuid now error context m =
    let r = create_error_record m.config uuid now error context in
    (
      record { error = error; context = context },
      record m {
        error_stats = record_error_stats now error r m.error_stats;
        circuit_breakers =
            if m.config.enable_circuit_breaker
            then check_circuit_breaker m.config now context.component m.circuit_breakers
            else m.circuit_breakers;
      },
    )

unfoldable pub count_success : CircuitBreaker → CircuitBreaker
count_success b =
    let counted = record b { success_count = increment b.success_count } in
    elim b.state [
      | CircuitBreakerState.half_open ↦
          if leb 3 counted.success_count
          then record counted {
            state = CircuitBreakerState.closed;
            failure_count = 0;
            success_count = 0;
          }
          else counted
      | CircuitBreakerState.closed ↦ counted
      | CircuitBreakerState.opened ↦ counted
    ]

unfoldable pub record_success : ℕ → ErrorMiddleware → ErrorMiddleware
record_success component m =
    if m.config.enable_circuit_breaker
    then record m { circuit_breakers = modify component count_success m.circuit_breakers }
    else m

abbrev pub is_opened : CircuitBreakerState → Bool
is_opened CircuitBreakerState.opened = true
is_opened CircuitBreakerState.closed = false
is_opened CircuitBreakerState.half_open = false

unfoldable pub is_circuit_breaker_open : ℕ → ErrorMiddleware → Bool
is_circuit_breaker_open component m =
    if m.config.enable_circuit_breaker
    then elim (lookup component m.circuit_breakers) [ none ↦ false | some b ↦ is_opened b.state ]
    else false

unfoldable pub reset_stats : ErrorMiddleware → ErrorMiddleware
reset_stats m = record m { error_stats = default_stats }

unfoldable pub reset_circuit_breaker : ℕ → ErrorMiddleware → ErrorMiddleware
reset_circuit_breaker component m = record m {
  circuit_breakers = insert component new_breaker m.circuit_breakers;
}
