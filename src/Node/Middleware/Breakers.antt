-- ===== src/Node/Middleware/Breakers.antt =====
-- When the circuit breakers of network-node/src/error_middleware.rs open and how long they stay so.
use axionvera_network.Base.{
  ℕ, ◌+◌, ◌<◌, ◌≡◌, refl, ◌∙◌, Bool, true, false, Option, none, some, List, [], ◌∷◌, ◌==◌,
  if◌then◌else◌, arith, inl, inr, Bool-cases, Option-cases,
}
use axionvera_network.Base.I128.{u64_bound}
use axionvera_network.Base.Maps.{
  lookup, lookup-upsert, lookup-modify, lookup-insert, map_option, with_default,
}
use axionvera_network.Node.Middleware.{
  ErrorMiddlewareConfig, CircuitBreaker, closed, opened, new_breaker, ErrorMiddleware,
  new_middleware, count_failure, count_success, handle_error, record_success,
  is_circuit_breaker_open, increment, reset_circuit_breaker,
}
use axionvera_network.Node.Middleware.Stats.{Report}

pub data Event : Type 0 where
  failed : Report → Event
  succeeded : (component : ℕ) → Event
  reset : (component : ℕ) → Event

unfoldable pub apply : Event → ErrorMiddleware → ErrorMiddleware
apply (failed r) m = (handle_error r.uuid r.now r.error r.context m).1
apply (succeeded component) m = record_success component m
apply (reset component) m = reset_circuit_breaker component m

unfoldable pub run : List Event → ErrorMiddleware → ErrorMiddleware
run [] m = m
run (e ∷ es) m = run es (apply e m)

-- The errors of a component, and the resets of its breaker.
abbrev pub is_failure : ℕ → Event → Bool
is_failure k (failed r) = r.context.component == k
is_failure k (succeeded component) = false
is_failure k (reset component) = false

abbrev pub is_reset : ℕ → Event → Bool
is_reset k (failed r) = false
is_reset k (succeeded component) = false
is_reset k (reset component) = component == k

abbrev pub failures : ℕ → List Event → ℕ
failures k [] = 0
failures k (e ∷ es) = (if is_failure k e then 1 else 0) + failures k es

abbrev pub resets : ℕ → List Event → ℕ
resets k [] = 0
resets k (e ∷ es) = (if is_reset k e then 1 else 0) + resets k es

apply_config : (e : Event) (m : ErrorMiddleware) → (apply e m).config ≡ m.config
unfolding apply handle_error record_success reset_circuit_breaker
apply_config (failed r) m = refl
apply_config (succeeded component) m = ground arith
apply_config (reset component) m = refl

-- What an event makes of the breaker of `k`, where the breakers are enabled.
abbrev breaker_after :
    ErrorMiddlewareConfig → ℕ → Event → Option CircuitBreaker → Option CircuitBreaker
breaker_after config k (failed r) b =
    if r.context.component == k
    then some (with_default new_breaker (count_failure config r.now) b)
    else b
breaker_after config k (succeeded component) b =
    if component == k then map_option count_success b else b
breaker_after config k (reset component) b = if component == k then some new_breaker else b

lookup-apply :
    (k : ℕ) (e : Event) (m : ErrorMiddleware)
    → m.config.enable_circuit_breaker ≡ true
    → lookup k (apply e m).circuit_breakers
      ≡ breaker_after m.config k e (lookup k m.circuit_breakers)
unfolding apply handle_error record_success count_failure reset_circuit_breaker
lookup-apply k (failed r) m enabled = rw enabled (
    lookup-upsert k r.context.component new_breaker (count_failure m.config r.now)
      m.circuit_breakers)
lookup-apply k (succeeded component) m enabled =
    rw (enabled, record_success) (lookup-modify k component count_success m.circuit_breakers)
lookup-apply k (reset component) m enabled =
    lookup-insert k component new_breaker m.circuit_breakers

-- An open breaker.
abbrev IsOpen : Option CircuitBreaker → Type 0
IsOpen b = (c : CircuitBreaker) × (b ≡ some c) × (c.state ≡ opened)

quiet-IsOpen :
    (config : ErrorMiddlewareConfig) (k : ℕ) (e : Event) (b : Option CircuitBreaker)
    → is_failure k e ≡ false
    → is_reset k e ≡ false
    → IsOpen b
    → IsOpen (breaker_after config k e b)
unfolding count_success
quiet-IsOpen config k (failed r) b quiet kept o = rw quiet o
quiet-IsOpen config k (succeeded component) b quiet kept (c, there, state) =
    elim (Bool-cases (component == k)) [
      | inl same ↦
          rw (same, there)
            (record c { success_count = increment c.success_count }, ground arith, state)
      | inr apart ↦ rw apart (c, there, state)
    ]
quiet-IsOpen config k (reset component) b quiet kept o = rw kept o

run-IsOpen :
    (k : ℕ) (es : List Event) (m : ErrorMiddleware)
    → m.config.enable_circuit_breaker ≡ true
    → failures k es ≡ 0
    → resets k es ≡ 0
    → IsOpen (lookup k m.circuit_breakers)
    → IsOpen (lookup k (run es m).circuit_breakers)
unfolding run
run-IsOpen k [] m enabled none_fail none_reset o = o
run-IsOpen k (e ∷ es) m enabled none_fail none_reset o =
    run-IsOpen k es (apply e m) (rw (apply_config e m) enabled) (ground arith) (ground arith) (
      rw (lookup-apply k e m enabled)
        (quiet-IsOpen m.config k e (lookup k m.circuit_breakers) (ground arith) (ground arith) o))

run_config : (es : List Event) (m : ErrorMiddleware) → (run es m).config ≡ m.config
unfolding run
run_config [] m = refl
run_config (e ∷ es) m = run_config es (apply e m) ∙ apply_config e m

-- A breaker that is open stays open through any successes of its component, any errors of other
-- components, any resets of other breakers and any time: only a further error of the component or
-- a reset of its own breaker can move it.
pub open_waits :
    (k : ℕ) (es : List Event) (m : ErrorMiddleware)
    → is_circuit_breaker_open k m ≡ true
    → failures k es ≡ 0
    → resets k es ≡ 0
    → is_circuit_breaker_open k (run es m) ≡ true
unfolding is_circuit_breaker_open
open_waits k es m open_now quiet kept = elim (Option-cases (lookup k m.circuit_breakers)) [
  | inl gone ↦ absurd (ground arith)
  | inr (c, found) ↦
      let enabled : m.config.enable_circuit_breaker ≡ true = ground arith in
      let state : c.state ≡ opened = ground arith in
      let (d, there, after) = run-IsOpen k es m enabled quiet kept (c, found, state) in
      ground (arith, run_config es m)
]

-- A breaker that has counted `n` errors and is not open.
abbrev IsClosedAt : ℕ → Option CircuitBreaker → Type 0
IsClosedAt n none = n ≡ 0
IsClosedAt n (some c) = (c.failure_count ≡ n) × (c.state ≡ closed)

closed_after :
    (config : ErrorMiddlewareConfig) (k n : ℕ) (e : Event) (b : Option CircuitBreaker)
    → is_reset k e ≡ false
    → n + (if is_failure k e then 1 else 0) < config.circuit_breaker_threshold
    → config.circuit_breaker_threshold < u64_bound
    → IsClosedAt n b
    → IsClosedAt (n + (if is_failure k e then 1 else 0)) (breaker_after config k e b)
unfolding count_failure count_success
closed_after config k n (failed r) none kept few small c = ground arith
closed_after config k n (failed r) (some b) kept few small (counted, state) = ground arith
closed_after config k n (succeeded component) none kept few small c = ground arith
closed_after config k n (succeeded component) (some b) kept few small (counted, state) =
    ground arith
closed_after config k n (reset component) none kept few small c = ground arith
closed_after config k n (reset component) (some b) kept few small (counted, state) = ground arith

run_closed :
    (k n : ℕ) (es : List Event) (m : ErrorMiddleware)
    → m.config.enable_circuit_breaker ≡ true
    → resets k es ≡ 0
    → n + failures k es < m.config.circuit_breaker_threshold
    → m.config.circuit_breaker_threshold < u64_bound
    → IsClosedAt n (lookup k m.circuit_breakers)
    → IsClosedAt (n + failures k es) (lookup k (run es m).circuit_breakers)
unfolding run
run_closed k n [] m enabled kept few small c = let e : n + 0 ≡ n = omega arith in rw e c
run_closed k n (e ∷ es) m enabled kept few small c =
    let one = if is_failure k e then 1 else 0 in
    let split : n + (one + failures k es) ≡ (n + one) + failures k es = omega arith in
    rw split (
      run_closed k (n + one) es (apply e m) (rw (apply_config e m) enabled) (ground arith)
        (rw (apply_config e m) (omega arith)) (rw (apply_config e m) small)
        (rw (lookup-apply k e m enabled) (
          closed_after m.config k n e (lookup k m.circuit_breakers) (ground arith) (omega arith)
            small c)))

-- A new middleware with an enabled breaker and a positive threshold opens the breaker of a component
-- with the error that makes the number of its errors reach the threshold, and with none before it,
-- whatever successes, errors of other components and resets of other breakers come between. The threshold is below 2^64.
pub opens_at_threshold :
    (config : ErrorMiddlewareConfig) (k : ℕ) (es : List Event) (r : Report)
    → config.enable_circuit_breaker ≡ true
    → config.circuit_breaker_threshold < u64_bound
    → r.context.component ≡ k
    → resets k es ≡ 0
    → failures k es + 1 ≡ config.circuit_breaker_threshold
    → let m = run es (new_middleware config) in
      (is_circuit_breaker_open k m ≡ false)
      × (is_circuit_breaker_open k (apply (failed r) m) ≡ true)
unfolding lookup is_circuit_breaker_open count_failure
opens_at_threshold config k es r enabled small of_k kept last =
    let m = run es (new_middleware config) in
    let c = run_closed k 0 es (new_middleware config) enabled kept (omega arith) small refl in
    let same = run_config es (new_middleware config) in
    let now_enabled : m.config.enable_circuit_breaker ≡ true = rw same enabled in
    let after = lookup-apply k (failed r) m now_enabled in
    let kept = apply_config (failed r) m in
    elim (Option-cases (lookup k m.circuit_breakers)) [
      | inl gone ↦ (ground arith, ground arith)
      | inr (b, found) ↦ (ground arith, ground arith)
    ]
