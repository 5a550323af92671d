-- ===== src/Node/Horizon/Requests.antt =====
-- The loop of `execute_request` in network-node/src/horizon_client.rs comes to an end or to a lock.
use axionvera_network.Base.{
  ℕ, zero, suc, ◌+◌, ◌≤◌, ◌<◌, ◌≡◌, refl, ◌∙◌, inl, inr, ◌⊎◌, Bool, true, false, ◌&&◌, Option, none,
  some, length, ltb, leb, arith, Option-cases, Bool-cases,
}
use axionvera_network.Node.Horizon.{
  HorizonProvider, HorizonClient, RequestError, Answer, switch_provider, get_current_provider,
  execute_loop, record_provider_failure, record_provider_success, should_switch,
}
use axionvera_network.Node.Horizon.Locks.{Guard, Progress, grants_beside_check, execute_locked}

pub switch_keeps_config :
    (c c' : HorizonClient)
    → switch_provider c ≡ some c'
    → (c'.config ≡ c.config) × (c'.providers ≡ c.providers)
unfolding switch_provider
switch_keeps_config c c' e = ground arith

module _ (grants : Guard → ℕ → Bool) (operation : ℕ → HorizonProvider → Option ℕ)
    (now : ℕ → ℕ) where
  -- The loop has answered as it does without the lock, or it waits for a guard that does not come.
  abbrev IsSettled : ℕ → ℕ → ℕ → HorizonClient → Type 0
  IsSettled fuel attempts k c =
      ((answer : Answer) × (c' : HorizonClient) × (execute_locked grants operation now fuel attempts
            k c
          ≡ Progress.answered answer c')
        × (execute_loop operation now fuel attempts c ≡ some (answer, c')))
      ⊎ ((guard : Guard) × (j : ℕ) × (k ≤ j)
          × (grants guard j ≡ false)
          × (execute_locked grants operation now fuel attempts k c ≡ Progress.waiting))

  -- A round after which the loop goes on.
  IsSettled-next :
      (fuel fuel' attempts attempts' k k' : ℕ) (c c' : HorizonClient)
      → execute_locked grants operation now fuel attempts k c
        ≡ execute_locked grants operation now fuel' attempts' k' c'
      → execute_loop operation now fuel attempts c ≡ execute_loop operation now fuel' attempts' c'
      → k ≤ k'
      → IsSettled fuel' attempts' k' c'
      → IsSettled fuel attempts k c
  IsSettled-next fuel fuel' attempts attempts' k k' c c' e f le (inl (answer, d, p, q)) =
      inl (answer, d, e ∙ p, f ∙ q)
  IsSettled-next fuel fuel' attempts attempts' k k' c c' e f le (inr (guard, j, below, g, p)) =
      inr (guard, j, omega arith, g, e ∙ p)

  -- A round in which the provider fails, once its failure may be written.
  failed_settles :
      (fuel attempts k : ℕ) (c : HorizonClient) (p : HorizonProvider)
      → length c.config.providers ≤ attempts + suc fuel
      → grants Guard.read k ≡ true
      → get_current_provider c ≡ some p
      → operation (attempts + 1) p ≡ none
      → grants Guard.write (k + 1) ≡ true
      → ((c' : HorizonClient)
          → 0 < fuel
          → length c'.config.providers ≤ attempts + 1 + fuel
          → IsSettled fuel (attempts + 1) (k + 3) c')
      → IsSettled (suc fuel) attempts k c
  unfolding execute_locked execute_loop
  failed_settles fuel attempts k c p enough given chosen refused second again =
      let failed = record_provider_failure (now (attempts + 1)) p c in
      elim (Bool-cases (should_switch p failed && ltb (attempts + 1) (length c.config.providers))) [
        | inr last ↦
            inl (Answer.failure RequestError.all_failed, failed, ground arith, ground arith)
        | inl more ↦ elim (Bool-cases (grants Guard.read (k + 2))) [
          | inr stuck ↦ inr (Guard.read, k + 2, omega arith, stuck, ground arith)
          | inl third ↦ elim (Option-cases (switch_provider failed)) [
            | inl none_left ↦
                inl (Answer.failure RequestError.switch_failed, failed, ground arith, ground arith)
            | inr (c', moved) ↦
                let (same, _) = switch_keeps_config failed c' moved in
                IsSettled-next (suc fuel) fuel attempts (attempts + 1) k (k + 3) c c' (ground arith)
                  (ground arith) (omega arith) (again c' (ground arith) (rw same (omega arith)))
          ]
        ]
      ]

  settles :
      (fuel attempts k : ℕ) (c : HorizonClient)
      → 0 < fuel
      → length c.config.providers ≤ attempts + fuel
      → IsSettled fuel attempts k c
  unfolding execute_locked execute_loop
  settles zero attempts k c some_fuel enough = absurd (omega arith)
  settles (suc fuel) attempts k c some_fuel enough = elim (Bool-cases (grants Guard.read k)) [
    | inr stuck ↦ inr (Guard.read, k, omega arith, stuck, ground arith)
    | inl given ↦ elim (Option-cases (get_current_provider c)) [
      | inl nobody ↦ elim (Bool-cases (leb (length c.config.providers) (attempts + 1))) [
        | inl last ↦
            inl (Answer.failure RequestError.no_healthy_provider, c, ground arith, ground arith)
        | inr more ↦ elim (Bool-cases (grants Guard.read (k + 1))) [
          | inr stuck ↦ inr (Guard.read, k + 1, omega arith, stuck, ground arith)
          | inl second ↦ elim (Option-cases (switch_provider c)) [
            | inl none_left ↦
                inl (Answer.failure RequestError.no_fallback, c, ground arith, ground arith)
            | inr (c', moved) ↦
                let same = switch_keeps_config c c' moved in
                IsSettled-next (suc fuel) fuel attempts (attempts + 1) k (k + 2) c c' (ground arith)
                  (ground arith) (omega arith)
                  (settles fuel (attempts + 1) (k + 2) c' (ground arith)
                    (rw (same.0) (omega arith)))
          ]
        ]
      ]
      | inr (p, chosen) ↦ elim (Option-cases (operation (attempts + 1) p)) [
        | inr (value, done) ↦ elim (Bool-cases (grants Guard.write (k + 1))) [
          | inr stuck ↦ inr (Guard.write, k + 1, omega arith, stuck, ground arith)
          | inl second ↦ inl (
            Answer.success value,
            record_provider_success (now (attempts + 1)) p c,
            ground arith,
            ground arith,
          )
        ]
        | inl refused ↦ elim (Bool-cases (grants Guard.write (k + 1))) [
          | inr stuck ↦ inr (Guard.write, k + 1, omega arith, stuck, ground arith)
          | inl second ↦
              failed_settles fuel attempts k c p enough given chosen refused second
                (λ c' some' enough'. settles fuel (attempts + 1) (k + 3) c' some' enough')
        ]
      ]
    ]
  ]

  -- A request with fallback comes, within as many rounds as there are configured providers and
  -- within one where there is none, to one of two ends: it has the answer that it has without
  -- the lock of the providers, or it waits for a guard of that lock that is not given. This
  -- holds whatever the providers answer and whenever, and whichever guards are given.
  pub execute_request_ends :
      (fuel : ℕ) (c : HorizonClient)
      → 0 < fuel
      → length c.config.providers ≤ fuel
      → ((answer : Answer) × (c' : HorizonClient) × (execute_locked grants operation now fuel 0 0 c
            ≡ Progress.answered answer c')
          × (execute_loop operation now fuel 0 c ≡ some (answer, c')))
        ⊎ ((guard : Guard) × (j : ℕ) × (grants guard j ≡ false)
            × (execute_locked grants operation now fuel 0 0 c ≡ Progress.waiting))
  execute_request_ends fuel c some_fuel enough = elim (settles fuel 0 0 c some_fuel (omega arith)) [
    | inl done ↦ inl done
    | inr (guard, j, below, refused, waits) ↦ inr (guard, j, refused, waits)
  ]

-- Once a health check asks for the write guard, a request waits at its first turn.
pub check_blocks :
    (operation : ℕ → HorizonProvider → Option ℕ) (now : ℕ → ℕ) (fuel begins : ℕ) (c : HorizonClient)
    → execute_locked (grants_beside_check begins 0) operation now (suc fuel) 0 0 c
      ≡ Progress.waiting
unfolding execute_locked
check_blocks operation now fuel begins c = refl
