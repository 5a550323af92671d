-- ===== src/Node/Tests/HorizonExamples.antt =====
-- The theorems on network-node/src/horizon_client.rs, at clients with two providers.
use axionvera_network.Base.{
  ℕ, ◌≡◌, refl, true, false, ◌⊎◌, Option, none, some, [], ◌∷◌, ◌==◌, if◌then◌else◌, arith,
}
use axionvera_network.Node.Horizon
use axionvera_network.Node.Horizon.{
  HorizonProvider, HorizonConfig, HorizonClient, CircuitBreakerState, ProviderStatus, Answer,
  RequestError, new_client, able_at, get_current_provider, switch_provider, execute_loop,
}
use axionvera_network.Node.Horizon.Locks.{Guard, Progress, grants_beside_check, execute_locked}
use axionvera_network.Node.Horizon.Requests.{execute_request_ends}
use axionvera_network.Node.Horizon.Breaker.{Later}
use axionvera_network.Node.Horizon.Outage.{outage_lasts}

abbrev primary : HorizonProvider
primary = record { url = 1; name = 1; priority = 1 }

abbrev backup : HorizonProvider
backup = record { url = 2; name = 2; priority = 2 }

-- The breakers open at the first failure.
abbrev config : HorizonConfig
config = record {
  providers = backup ∷ primary ∷ [];
  health_check_interval = 30;
  circuit_breaker_failure_threshold = 1;
  circuit_breaker_recovery_timeout = 60;
}

abbrev status : CircuitBreakerState → HorizonProvider → ProviderStatus
status state p = record {
  provider = p;
  failure_count = 0;
  last_failure_time = none;
  circuit_state = state;
  is_healthy = true;
  last_health_check = none;
}

abbrev client : CircuitBreakerState → HorizonClient
client state = record {
  config = config;
  providers = status state primary ∷ status CircuitBreakerState.closed backup ∷ [];
  current_provider_index = 0;
}

-- Only the backup answers.
abbrev operation : ℕ → HorizonProvider → Option ℕ
operation n p = if p.url == 2 then some 42 else none

sorted : new_client config ≡ client CircuitBreakerState.closed
unfolding new_client Horizon.sort_by_priority Horizon.insert_by_priority
sorted = refl

falls_back :
    execute_loop operation (λ n. n) 2 0 (client CircuitBreakerState.closed)
    ≡ some (
      Answer.success 42,
      record {
        config = config;
        providers =
            record (status CircuitBreakerState.opened primary) {
              failure_count = 1;
              last_failure_time = some 1;
            }
            ∷ record (status CircuitBreakerState.closed backup) { last_health_check = some 2 }
            ∷ [];
        current_provider_index = 1;
      },
    )
unfolding execute_loop get_current_provider switch_provider Horizon.find_next Horizon.find_url
    Horizon.modify_url Horizon.record_failure Horizon.record_success
falls_back = refl

-- A health check takes its read guard before the request wants to write, and the request waits.
execute_request_ends_example :
    ((answer : Answer) × (c' : HorizonClient) × (execute_locked
          (grants_beside_check 1 4)
          operation
          (λ n. n)
          2
          0
          0
          (client CircuitBreakerState.closed)
        ≡ Progress.answered answer c')
      × (execute_loop operation (λ n. n) 2 0 (client CircuitBreakerState.closed)
          ≡ some (answer, c')))
    ⊎ ((guard : Guard) × (j : ℕ) × (grants_beside_check 1 4 guard j ≡ false)
        × (execute_locked
              (grants_beside_check 1 4)
              operation
              (λ n. n)
              2
              0
              0
              (client CircuitBreakerState.closed)
            ≡ Progress.waiting))
execute_request_ends_example =
    execute_request_ends (grants_beside_check 1 4) operation (λ n. n) 2
      (client CircuitBreakerState.closed) (omega arith) (omega arith)

chosen : get_current_provider (client CircuitBreakerState.opened) ≡ some backup
unfolding get_current_provider Horizon.find_other
chosen = refl

-- Both breakers are open.
abbrev dead_client : HorizonClient
dead_client = record {
  config = config;
  providers =
      status CircuitBreakerState.opened primary ∷ status CircuitBreakerState.opened backup ∷ [];
  current_provider_index = 0;
}

-- A health check finds the primary well again, and a request is made.
abbrev checked_client : HorizonClient
checked_client = Horizon.health_result 1000 true primary dead_client

outage_lasts_example :
    (e : RequestError) × (execute_loop operation (λ n. 2000) 2 0 checked_client
      ≡ some (Answer.failure e, checked_client))
outage_lasts_example =
    outage_lasts {c = dead_client} {c' = checked_client} operation (λ n. 2000) 1 (refl, (refl, tt))
      (Later.checked 1000 true primary Later.here)
