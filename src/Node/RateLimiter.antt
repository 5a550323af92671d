-- ===== src/Node/RateLimiter.antt =====
-- network-node/src/rate_limiter.rs: a limit on the calls per minute of each key. A key is a number, and
-- a time the seconds since the epoch. Redis is a parameter: `incr` is the answer to the increment of
-- a key's counter for a minute, or `none` for an error.
use axionvera_network.Base.{
  ℕ, ◌+◌, ◌-◌, ◌/◌, ◌%◌, ◌≤◌, ◌<◌, ◌≡◌, refl, Bool, ◌&&◌, Option, none, some, List, [], ◌∷◌, length,
  leb, ◌==◌, if◌then◌else◌, arith, inl, inr, Bool-cases, Option-cases,
}
use axionvera_network.Base.I128.{u64_bound}
use axionvera_network.Base.Maps.{Map, lookup, insert, lookup-insert}

pub data RateLimiterBackend : Type 0 where
  redis : (incr : ℕ → ℕ → Option ℕ) → RateLimiterBackend
  in_memory : Map (ℕ × ℕ) → RateLimiterBackend

pub record RateLimiter : Type 0 where
  pub backend : RateLimiterBackend
  pub limit_per_minute : ℕ

-- The connection to Redis, if there is one, or the map in memory.
abbrev pub new_limiter : Option (ℕ → ℕ → Option ℕ) → ℕ → RateLimiter
new_limiter (some incr) limit = record {
  backend = RateLimiterBackend.redis incr;
  limit_per_minute = limit;
}
new_limiter none limit = record {
  backend = RateLimiterBackend.in_memory [];
  limit_per_minute = limit;
}

abbrev pub bucket_of : ℕ → ℕ
bucket_of now = now / 60

-- The count and the bucket of a key after a call. The count is a `u64`, which wraps.
unfoldable pub next_count : ℕ → Option (ℕ × ℕ) → ℕ × ℕ
next_count bucket none = (1, bucket)
next_count bucket (some (count, ts)) =
    if ts == bucket then ((count + 1) % u64_bound, ts) else (1, bucket)

-- The answer is `none` for an error of Redis.
unfoldable pub allow : ℕ → ℕ → RateLimiter → Option Bool × RateLimiter
allow now key limiter = elim limiter.backend [
  | RateLimiterBackend.redis incr ↦ elim (incr key (bucket_of now)) [
    | none ↦ (none, limiter)
    | some count ↦ (some (leb count limiter.limit_per_minute), limiter)
  ]
  | RateLimiterBackend.in_memory m ↦
      let entry = next_count (bucket_of now) (lookup key m) in
      (
        some (leb entry.0 limiter.limit_per_minute),
        record limiter { backend = RateLimiterBackend.in_memory (insert key entry m) },
      )
]

-- The calls `(now, key)` one after the other: how many of a key are allowed in a bucket.
unfoldable pub allowed : ℕ → ℕ → List (ℕ × ℕ) → RateLimiter → ℕ
allowed k b [] limiter = 0
allowed k b ((now, key) ∷ calls) limiter =
    let (answer, limiter') = allow now key limiter in
    let rest = allowed k b calls limiter' in
    (if key == k && bucket_of now == b
      then elim answer [ none ↦ 0 | some ok ↦ if ok then 1 else 0 ]
      else 0)
    + rest

abbrev pub calls_in : ℕ → ℕ → List (ℕ × ℕ) → ℕ
calls_in k b [] = 0
calls_in k b ((now, key) ∷ calls) =
    (if key == k && bucket_of now == b then 1 else 0) + calls_in k b calls

abbrev pub min : ℕ → ℕ → ℕ
min a b = if leb a b then a else b

-- The clock does not go back, from a bucket on.
abbrev pub IsOrdered : ℕ → List (ℕ × ℕ) → Type 0
IsOrdered t [] = Unit
IsOrdered t ((now, key) ∷ calls) = (t ≤ bucket_of now) × IsOrdered (bucket_of now) calls

-- What a key has used up in a bucket, and the bucket of its last call.
abbrev used : ℕ → Option (ℕ × ℕ) → ℕ
used b none = 0
used b (some (count, ts)) = if ts == b then count else 0

abbrev last_bucket : Option (ℕ × ℕ) → ℕ
last_bucket none = 0
last_bucket (some (count, ts)) = ts

abbrev limiter_of : ℕ → Map (ℕ × ℕ) → RateLimiter
limiter_of limit m = record { backend = RateLimiterBackend.in_memory m; limit_per_minute = limit }

no_calls : (k b t : ℕ) (calls : List (ℕ × ℕ)) → b < t → IsOrdered t calls → calls_in k b calls ≡ 0
no_calls k b t [] lt o = refl
no_calls k b t ((now, key) ∷ calls) lt (le, o) =
    ground (arith, no_calls k b (bucket_of now) calls (omega arith) o)

allowed_from :
    (limit k b t : ℕ) (calls : List (ℕ × ℕ)) (m : Map (ℕ × ℕ))
    → IsOrdered t calls
    → last_bucket (lookup k m) ≤ t
    → used b (lookup k m) + length calls < u64_bound
    → allowed k b calls (limiter_of limit m)
      ≡ min (limit - used b (lookup k m)) (calls_in k b calls)
unfolding allowed allow next_count
allowed_from limit k b t [] m o last small = ground arith
allowed_from limit k b t ((now, key) ∷ calls) m (le, o) last small =
    let entry = next_count (bucket_of now) (lookup key m) in
    let m' = insert key entry m in
    elim (Bool-cases (key == k)) [
      | inr other ↦
          let e : lookup k m' ≡ lookup k m = rw (lookup-insert k key entry m, other) refl in
          let ih = rw e at (
            allowed_from limit k b (bucket_of now) calls m' o (rw e (omega arith))
              (rw e (omega arith))) in
          ground arith
      | inl mine ↦
          let at_k : key ≡ k = ground arith in
          elim (Option-cases (lookup k m)) [
            | inl gone ↦
                let e : lookup k m' ≡ some (1, bucket_of now) =
                  ground (arith, lookup-insert k key entry m) in
                let ih = rw e at (
                  allowed_from limit k b (bucket_of now) calls m' o (rw e (omega arith))
                    (rw e (ground arith))) in
                ground arith
            | inr ((count, ts), found) ↦ elim (Bool-cases (ts == bucket_of now)) [
              | inl same ↦
                  let e : lookup k m' ≡ some ((count + 1) % u64_bound, ts) =
                    ground (arith, lookup-insert k key entry m) in
                  let ih = rw e at (
                    allowed_from limit k b (bucket_of now) calls m' o (rw e (ground arith))
                      (rw e (ground arith))) in
                  ground arith
              | inr apart ↦
                  let e : lookup k m' ≡ some (1, bucket_of now) =
                    ground (arith, lookup-insert k key entry m) in
                  let ih = rw e at (
                    allowed_from limit k b (bucket_of now) calls m' o (rw e (omega arith))
                      (rw e (ground arith))) in
                  ground (arith, no_calls k b (bucket_of now) calls)
            ]
          ]
    ]

-- Without Redis, while the clock does not go back and there are fewer than 2^64 calls, a key is
-- allowed as many calls in a minute as it makes in it, and at most the limit.
pub allow_bound :
    (limit k b : ℕ) (calls : List (ℕ × ℕ))
    → IsOrdered 0 calls
    → length calls < u64_bound
    → allowed k b calls (new_limiter none limit) ≡ min limit (calls_in k b calls)
unfolding lookup
allow_bound limit k b calls o small =
    ground (arith, allowed_from limit k b 0 calls [] o (omega arith) (omega arith))
