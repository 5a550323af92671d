-- ===== src/Node/Middleware/Stats.antt =====
-- What the statistics of network-node/src/error_middleware.rs count.
use axionvera_network.Base.{
  ℕ, ◌+◌, ◌%◌, ◌≤◌, ◌<◌, ◌≡◌, List, [], ◌∷◌, length, length-append, get_or, leb, ◌==◌,
  if◌then◌else◌, arith, inl, inr, Option-cases,
}
use axionvera_network.Base.I128.{u64_bound}
use axionvera_network.Base.Maps.{Map, lookup, upsert, lookup-upsert}
use axionvera_network.Node.Errors.{NetworkError, ErrorContext, error_code}
use axionvera_network.Node.Middleware.{
  ErrorMiddlewareConfig, ErrorRecord, ErrorStats, ErrorMiddleware, new_middleware, increment,
  push_recent, record_error_stats, create_error_record, handle_error,
}

-- An error with its context, and the identifier and time of its record.
pub record Report : Type 0 where
  pub uuid : ℕ
  pub now : ℕ
  pub error : NetworkError
  pub context : ErrorContext

-- Errors handled one after the other.
unfoldable pub handle_all : List Report → ErrorMiddleware → ErrorMiddleware
handle_all [] m = m
handle_all (r ∷ rs) m = handle_all rs (handle_error r.uuid r.now r.error r.context m).1

abbrev pub count_code : ℕ → List Report → ℕ
count_code k [] = 0
count_code k (r ∷ rs) = (if error_code r.error == k then 1 else 0) + count_code k rs

abbrev pub count_component : ℕ → List Report → ℕ
count_component k [] = 0
count_component k (r ∷ rs) = (if r.context.component == k then 1 else 0) + count_component k rs

-- A counter, 0 where it is missing.
abbrev pub counter : ℕ → Map ℕ → ℕ
counter k m = get_or (lookup k m) 0

counter-upsert :
    (j k : ℕ) (m : Map ℕ)
    → counter j (upsert k 0 increment m) ≡ (if k == j then increment (counter j m) else counter j m)
counter-upsert j k m = elim (Option-cases (lookup j m)) [
  | inl gone ↦ ground (arith, lookup-upsert j k 0 increment m)
  | inr (v, found) ↦ ground (arith, lookup-upsert j k 0 increment m)
]

length-push_recent :
    (r : ErrorRecord) (l : List ErrorRecord)
    → length l ≤ 100
    → length (push_recent r l) ≡ (if leb 100 (length l) then 100 else length l + 1)
unfolding push_recent
length-push_recent r [] le = ground arith
length-push_recent r (x ∷ l) le = ground (arith, length-append l (r ∷ []))

record Counted (before after : ErrorStats) (rs : List Report) : Type 0 where
  total : after.total_errors ≡ (before.total_errors + length rs) % u64_bound
  types :
      (k : ℕ)
      → counter k after.errors_by_type
        ≡ (counter k before.errors_by_type + count_code k rs) % u64_bound
  components :
      (k : ℕ)
      → counter k after.errors_by_component
        ≡ (counter k before.errors_by_component + count_component k rs) % u64_bound
  recent : length after.recent_errors ≡ (
      if leb 100 (length before.recent_errors + length rs)
      then 100
      else length before.recent_errors + length rs)

record IsInRange (s : ErrorStats) : Type 0 where
  total : s.total_errors < u64_bound
  types : (k : ℕ) → counter k s.errors_by_type < u64_bound
  components : (k : ℕ) → counter k s.errors_by_component < u64_bound
  recent : length s.recent_errors ≤ 100

module _ (r : Report) (m : ErrorMiddleware) (range : IsInRange m.error_stats) where
  handle-IsInRange : IsInRange (handle_error r.uuid r.now r.error r.context m).1.error_stats
  unfolding handle_error record_error_stats
  handle-IsInRange = record {
    total = ground arith;
    types = λ k.
        ground (
          arith,
          range.types k,
          counter-upsert k (error_code r.error) m.error_stats.errors_by_type,
        );
    components = λ k. ground (
      arith,
      range.components k,
      counter-upsert k r.context.component m.error_stats.errors_by_component,
    );
    recent = ground (
      arith,
      range.recent,
      length-push_recent (create_error_record m.config r.uuid r.now r.error r.context)
          m.error_stats.recent_errors,
    );
  }

handle_one :
    (r : Report) (m : ErrorMiddleware)
    → IsInRange m.error_stats
    → Counted m.error_stats (handle_error r.uuid r.now r.error r.context m).1.error_stats (r ∷ [])
unfolding handle_error record_error_stats
handle_one r m range = record {
  total = ground arith;
  types = λ k.
      ground
        (arith, range.types k, counter-upsert k (error_code r.error) m.error_stats.errors_by_type);
  components = λ k. ground (
    arith,
    range.components k,
    counter-upsert k r.context.component m.error_stats.errors_by_component,
  );
  recent = ground (
    arith,
    range.recent,
    length-push_recent (create_error_record m.config r.uuid r.now r.error r.context)
        m.error_stats.recent_errors,
  );
}

handle_counts :
    (rs : List Report) (m : ErrorMiddleware)
    → IsInRange m.error_stats
    → Counted m.error_stats (handle_all rs m).error_stats rs
unfolding handle_all
handle_counts [] m range = record {
  total = ground (arith, range.total);
  types = λ k. ground (arith, range.types k);
  components = λ k. ground (arith, range.components k);
  recent = ground (arith, range.recent);
}
handle_counts (r ∷ rs) m range =
    let m' = (handle_error r.uuid r.now r.error r.context m).1 in
    let one = handle_one r m range in
    let rest = handle_counts rs m' (handle-IsInRange r m range) in
    record {
      total = omega (arith, one.total, rest.total);
      types = λ k. omega (arith, one.types k, rest.types k);
      components = λ k. omega (arith, one.components k, rest.components k);
      recent = ground (arith, one.recent, rest.recent, range.recent);
    }

-- After any sequence of errors, handled by a new middleware, the total, the count of each code
-- and the count of each component are the numbers of these errors in the sequence, modulo 2^64,
-- and the recent errors are as many as there were errors, and at most 100.
pub stats_count :
    (config : ErrorMiddlewareConfig) (rs : List Report) (k : ℕ)
    → let stats = (handle_all rs (new_middleware config)).error_stats in
      (stats.total_errors ≡ length rs % u64_bound)
      × (counter k stats.errors_by_type ≡ count_code k rs % u64_bound)
      × (counter k stats.errors_by_component ≡ count_component k rs % u64_bound)
      × (length stats.recent_errors ≡ (if leb 100 (length rs) then 100 else length rs))
unfolding lookup
stats_count config rs k =
    let m = new_middleware config in
    let range : IsInRange m.error_stats = record {
      total = omega arith;
      types = λ j. omega arith;
      components = λ j. omega arith;
      recent = omega arith;
    } in
    let counted = handle_counts rs m range in
    (
      omega (arith, counted.total),
      omega (arith, counted.types k),
      omega (arith, counted.components k),
      ground (arith, counted.recent),
    )
