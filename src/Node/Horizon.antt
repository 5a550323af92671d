-- ===== src/Node/Horizon.antt =====
-- network-node/src/horizon_client.rs: the providers of the Horizon API, their circuit breakers and the
-- requests with fallback. Texts and instants are numbers. A request itself, and the time of each
-- event, come from outside: the answers are listed by attempt. A health check does not come to its
-- end, since it awaits the write guard of the providers with their read guard held; what it would
-- write is modelled all the same. Logging is left out.
pub mod Breaker
pub mod Outage
pub mod Choice
pub mod Requests
pub mod Locks
use axionvera_network.Base.{
  ℕ, zero, suc, ◌+◌, ◌-◌, ◌%◌, Bool, true, false, not, ◌&&◌, Option, none, some, List, [], ◌∷◌, map,
  length, ltb, leb, ◌==◌, if◌then◌else◌,
}

pub record HorizonProvider : Type 0 where
  pub url : ℕ
  pub name : ℕ
  pub priority : ℕ

pub record HorizonConfig : Type 0 where
  pub providers : List HorizonProvider
  pub health_check_interval : ℕ
  pub circuit_breaker_failure_threshold : ℕ
  pub circuit_breaker_recovery_timeout : ℕ

pub data CircuitBreakerState : Type 0 where
  closed opened half_open : CircuitBreakerState

pub record ProviderStatus : Type 0 where
  pub provider : HorizonProvider
  pub failure_count : ℕ
  pub last_failure_time : Option ℕ
  pub circuit_state : CircuitBreakerState
  pub is_healthy : Bool
  pub last_health_check : Option ℕ

abbrev pub new_status : HorizonProvider → ProviderStatus
new_status provider = record {
  provider = provider;
  failure_count = 0;
  last_failure_time = none;
  circuit_state = CircuitBreakerState.closed;
  is_healthy = true;
  last_health_check = none;
}

-- The count is a `u8`, which wraps in the release profile.
unfoldable pub record_failure : ℕ → ℕ → ProviderStatus → ProviderStatus
record_failure now threshold s =
    let count = (s.failure_count + 1) % 256 in
    record s {
      failure_count = count;
      last_failure_time = some now;
      circuit_state = if leb threshold count then CircuitBreakerState.opened else s.circuit_state;
    }

abbrev pub close_half_open : CircuitBreakerState → CircuitBreakerState
close_half_open CircuitBreakerState.half_open = CircuitBreakerState.closed
close_half_open CircuitBreakerState.closed = CircuitBreakerState.closed
close_half_open CircuitBreakerState.opened = CircuitBreakerState.opened

unfoldable pub record_success : ℕ → ProviderStatus → ProviderStatus
record_success now s = record s {
  failure_count = 0;
  last_failure_time = none;
  is_healthy = true;
  last_health_check = some now;
  circuit_state = close_half_open s.circuit_state;
}

-- No code but the tests calls it.
unfoldable pub should_attempt_reset : ℕ → ℕ → ProviderStatus → Bool
should_attempt_reset now recovery_timeout s = elim s.circuit_state [
  | CircuitBreakerState.opened ↦ elim s.last_failure_time [
    | none ↦ true
    | some last_failure ↦ ltb recovery_timeout (now - last_failure)
  ]
  | CircuitBreakerState.closed ↦ false
  | CircuitBreakerState.half_open ↦ false
]

abbrev pub can_execute_request : ProviderStatus → Bool
can_execute_request s = elim s.circuit_state [
  | CircuitBreakerState.closed ↦ s.is_healthy
  | CircuitBreakerState.opened ↦ false
  | CircuitBreakerState.half_open ↦ true
]

pub record HorizonClient : Type 0 where
  pub config : HorizonConfig
  pub providers : List ProviderStatus
  pub current_provider_index : ℕ

-- `sort_by_key`, which keeps the order of equal keys.
unfoldable pub insert_by_priority : ProviderStatus → List ProviderStatus → List ProviderStatus
insert_by_priority s [] = s ∷ []
insert_by_priority s (t ∷ ts) =
    if leb s.provider.priority t.provider.priority then s ∷ t ∷ ts else t ∷ insert_by_priority s ts

unfoldable pub sort_by_priority : List ProviderStatus → List ProviderStatus
sort_by_priority [] = []
sort_by_priority (s ∷ ss) = insert_by_priority s (sort_by_priority ss)

unfoldable pub new_client : HorizonConfig → HorizonClient
new_client config = record {
  config = config;
  providers = sort_by_priority (map new_status config.providers);
  current_provider_index = 0;
}

abbrev pub get_elem? : List ProviderStatus → ℕ → Option ProviderStatus
get_elem? [] i = none
get_elem? (s ∷ ss) zero = some s
get_elem? (s ∷ ss) (suc i) = get_elem? ss i

-- The provider at an index, if it can take a request.
abbrev pub able_at : List ProviderStatus → ℕ → Option HorizonProvider
able_at providers i = elim (get_elem? providers i) [
  | none ↦ none
  | some s ↦ if can_execute_request s then some s.provider else none
]

-- The loop over the other providers, from index `i` on.
unfoldable pub find_other : ℕ → ℕ → List ProviderStatus → Option HorizonProvider
find_other current i [] = none
find_other current i (s ∷ ss) =
    if not (i == current) && can_execute_request s
    then some s.provider
    else find_other current (i + 1) ss

unfoldable pub get_current_provider : HorizonClient → Option HorizonProvider
get_current_provider c = elim (able_at c.providers c.current_provider_index) [
  | some p ↦ some p
  | none ↦ find_other c.current_provider_index 0 c.providers
]

-- The loop of `switch_provider`, with the rounds that are left: the index that it finds.
unfoldable pub find_next : List ProviderStatus → ℕ → ℕ → ℕ → Option ℕ
find_next providers current zero i = none
find_next providers current (suc rounds) i =
    let next_index = (current + i + 1) % length providers in
    let rest = find_next providers current rounds (i + 1) in
    elim (able_at providers next_index) [ some p ↦ some next_index | none ↦ rest ]

unfoldable pub switch_provider : HorizonClient → Option HorizonClient
switch_provider c = elim (find_next c.providers c.current_provider_index (length c.providers) 0) [
  | none ↦ none
  | some i ↦ some (record c { current_provider_index = i })
]

-- `iter_mut().find(|p| p.provider.url == url)` and a change of what is found.
unfoldable pub modify_url :
    ℕ → (ProviderStatus → ProviderStatus) → List ProviderStatus → List ProviderStatus
modify_url url f [] = []
modify_url url f (s ∷ ss) = if s.provider.url == url then f s ∷ ss else s ∷ modify_url url f ss

unfoldable pub find_url : ℕ → List ProviderStatus → Option ProviderStatus
find_url url [] = none
find_url url (s ∷ ss) = if s.provider.url == url then some s else find_url url ss

abbrev pub record_provider_success : ℕ → HorizonProvider → HorizonClient → HorizonClient
record_provider_success now p c = record c {
  providers = modify_url p.url (record_success now) c.providers;
}

abbrev pub record_provider_failure : ℕ → HorizonProvider → HorizonClient → HorizonClient
record_provider_failure now p c = record c {
  providers =
      modify_url p.url (record_failure now c.config.circuit_breaker_failure_threshold) c.providers;
}

abbrev pub is_opened : CircuitBreakerState → Bool
is_opened CircuitBreakerState.opened = true
is_opened CircuitBreakerState.closed = false
is_opened CircuitBreakerState.half_open = false

-- Whether the breaker is open after the failure.
abbrev pub should_switch : HorizonProvider → HorizonClient → Bool
should_switch p c = elim (find_url p.url c.providers) [
  | none ↦ false
  | some s ↦ is_opened s.circuit_state
]

pub data RequestError : Type 0 where
  no_healthy_provider no_fallback switch_failed all_failed : RequestError

pub data Answer : Type 0 where
  success : ℕ → Answer
  failure : RequestError → Answer

-- The loop of `execute_request` with fuel, where the lock of the providers is always given:
-- `execute_locked` of Horizon/Locks has it with the lock. `operation` is what a provider answers at
-- an attempt, or `none` for an error, and `now` its time. `none` is the fuel running out.
unfoldable pub execute_loop :
    (ℕ → HorizonProvider → Option ℕ)
    → (ℕ → ℕ)
    → ℕ
    → ℕ
    → HorizonClient
    → Option (Answer × HorizonClient)
execute_loop operation now zero attempts c = none
execute_loop operation now (suc fuel) attempts c =
    let n = attempts + 1 in
    let max_attempts = length c.config.providers in
    elim (get_current_provider c) [
      | none ↦
          if leb max_attempts n
          then some (Answer.failure RequestError.no_healthy_provider, c)
          else elim (switch_provider c) [
            | none ↦ some (Answer.failure RequestError.no_fallback, c)
            | some c' ↦ execute_loop operation now fuel n c'
          ]
      | some p ↦ elim (operation n p) [
        | some value ↦ some (Answer.success value, record_provider_success (now n) p c)
        | none ↦
            let failed = record_provider_failure (now n) p c in
            if should_switch p failed && ltb n max_attempts
            then elim (switch_provider failed) [
              | none ↦ some (Answer.failure RequestError.switch_failed, failed)
              | some c' ↦ execute_loop operation now fuel n c'
            ]
            else some (Answer.failure RequestError.all_failed, failed)
      ]
    ]

-- What a health check would write for a provider.
abbrev pub health_result : ℕ → Bool → HorizonProvider → HorizonClient → HorizonClient
health_result now is_healthy p c = record c {
  providers =
      modify_url p.url (λ s. record s { is_healthy = is_healthy; last_health_check = some now })
        c.providers;
}
