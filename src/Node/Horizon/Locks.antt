-- ===== src/Node/Horizon/Locks.antt =====
-- The loop of `execute_request` in network-node/src/horizon_client.rs with the lock of the providers,
-- which a health check never gives back: it keeps its read guard and waits for the write guard. The
-- lock of the index is never held over a wait, so it is left out.
use axionvera_network.Base.{
  ℕ, zero, suc, ◌+◌, Bool, true, false, ◌&&◌, Option, none, some, length, ltb, leb, if◌then◌else◌,
}
use axionvera_network.Node.Horizon.{
  HorizonProvider, HorizonClient, RequestError, Answer, switch_provider, get_current_provider,
  record_provider_failure, record_provider_success, should_switch,
}

-- The guards of `RwLock`.
pub data Guard : Type 0 where
  read write : Guard

-- What a request comes to: `running` is the fuel running out, `waiting` a guard that never comes.
pub data Progress : Type 0 where
  running waiting : Progress
  answered : Answer → HorizonClient → Progress

-- Whether the lock gives the guard that a request asks for at its `k`-th turn, where a health check
-- takes its read guard before turn `begins` and asks for the write guard before turn `asks`: from then
-- on readers queue behind it, as `RwLock` is fair.
abbrev pub grants_beside_check : ℕ → ℕ → Guard → ℕ → Bool
grants_beside_check begins asks Guard.read k = ltb k asks
grants_beside_check begins asks Guard.write k = ltb k begins

module _ (grants : Guard → ℕ → Bool) (operation : ℕ → HorizonProvider → Option ℕ)
    (now : ℕ → ℕ) where
  -- The loop with fuel, after `attempts` rounds and `k` guards.
  unfoldable pub execute_locked : ℕ → ℕ → ℕ → HorizonClient → Progress
  execute_locked zero attempts k c = Progress.running
  execute_locked (suc fuel) attempts k c =
      let n = attempts + 1 in
      let max_attempts = length c.config.providers in
      elim (grants Guard.read k) [
        | false ↦ Progress.waiting
        | true ↦ elim (get_current_provider c) [
          | none ↦
              if leb max_attempts n
              then Progress.answered (Answer.failure RequestError.no_healthy_provider) c
              else elim (grants Guard.read (k + 1)) [
                | false ↦ Progress.waiting
                | true ↦ elim (switch_provider c) [
                  | none ↦ Progress.answered (Answer.failure RequestError.no_fallback) c
                  | some c' ↦ execute_locked fuel n (k + 2) c'
                ]
              ]
          | some p ↦ elim (operation n p) [
            | some value ↦ elim (grants Guard.write (k + 1)) [
              | false ↦ Progress.waiting
              | true ↦
                  Progress.answered (Answer.success value) (record_provider_success (now n) p c)
            ]
            | none ↦ elim (grants Guard.write (k + 1)) [
              | false ↦ Progress.waiting
              | true ↦
                  let failed = record_provider_failure (now n) p c in
                  if should_switch p failed && ltb n max_attempts
                  then elim (grants Guard.read (k + 2)) [
                    | false ↦ Progress.waiting
                    | true ↦ elim (switch_provider failed) [
                      | none ↦ Progress.answered (Answer.failure RequestError.switch_failed) failed
                      | some c' ↦ execute_locked fuel n (k + 3) c'
                    ]
                  ]
                  else Progress.answered (Answer.failure RequestError.all_failed) failed
            ]
          ]
        ]
      ]
