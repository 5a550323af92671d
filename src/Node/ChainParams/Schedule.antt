-- ===== src/Node/ChainParams/Schedule.antt =====
-- The schedule of network-node/src/chain_params.rs: what an accepted upgrade changes, and from which
-- height on.
use axionvera_network.Base.{
  ℕ, ◌+◌, ◌≤◌, ◌<◌, ◌≡◌, refl, ◌⊎◌, inl, inr, Bool, Bool-cases, List, [], ◌∷◌, All, ltb, ◌==◌,
  arith,
}
use axionvera_network.Base.I128.{u64_bound}
use axionvera_network.Node.ChainParams.{
  NetworkParameters, NetworkParametersPatch, apply_patch, merge_patches, Activations, schedule,
  apply_until, ok, ChainParameterRegistry, effective_parameters_at, submit_parameter_upgrade,
  saturating_add,
}

-- Merging two patches is applying them one after the other.
apply_patch-merge_patches :
    (p : NetworkParameters) (a b : NetworkParametersPatch)
    → apply_patch p (merge_patches a b) ≡ apply_patch (apply_patch p a) b
apply_patch-merge_patches p a b = ground arith

-- Below its height an upgrade has no effect, wherever it enters the schedule.
pub apply_until-schedule_below :
    (height h : ℕ) (patch : NetworkParametersPatch) (p : NetworkParameters) (list : Activations)
    → height < h
    → apply_until height p (schedule h patch list) ≡ apply_until height p list
unfolding apply_until schedule
apply_until-schedule_below height h patch p [] lt = ground arith
apply_until-schedule_below height h patch p ((k, old) ∷ rest) lt = ground (
  arith,
  apply_until-schedule_below height h patch p rest lt,
  apply_until-schedule_below height h patch (apply_patch p old) rest lt,
)

abbrev pub IsAscending : Activations → Type 0
IsAscending [] = Unit
IsAscending ((k, patch) ∷ rest) = All (λ e. k < e.0) rest × IsAscending rest

All-schedule :
    (k h : ℕ) (patch : NetworkParametersPatch) (list : Activations)
    → k < h
    → All (λ e. k < e.0) list
    → All (λ e. k < e.0) (schedule h patch list)
unfolding schedule
All-schedule k h patch [] lt a = (lt, tt)
All-schedule k h patch ((j, old) ∷ rest) lt (first, a) =
    ground (arith, All-schedule k h patch rest lt a)

All-weaken :
    (k h : ℕ) (list : Activations) → h < k → All (λ e. k < e.0) list → All (λ e. h < e.0) list
All-weaken k h [] lt a = tt
All-weaken k h ((j, old) ∷ rest) lt (first, a) = (omega arith, All-weaken k h rest lt a)

-- Scheduling keeps the schedule in the order of the heights, without repetition.
pub schedule-IsAscending :
    (h : ℕ) (patch : NetworkParametersPatch) (list : Activations)
    → IsAscending list
    → IsAscending (schedule h patch list)
unfolding schedule
schedule-IsAscending h patch [] a = (tt, tt)
schedule-IsAscending h patch ((k, old) ∷ rest) (first, a) =
    ground
      (arith, All-weaken k h rest, All-schedule k h patch rest, schedule-IsAscending h patch rest a)

apply_until-above :
    (height : ℕ) (p : NetworkParameters) (list : Activations)
    → All (λ e. height < e.0) list
    → apply_until height p list ≡ p
unfolding apply_until
apply_until-above height p [] a = refl
apply_until-above height p ((k, old) ∷ rest) (first, a) =
    ground (arith, apply_until-above height p rest a)

-- No upgrade is scheduled after `h` and up to `height`.
abbrev pub IsClear : ℕ → ℕ → Activations → Type 0
IsClear h height = All (λ e. (e.0 ≤ h) ⊎ (height < e.0))

clear_above :
    (h k height : ℕ) (list : Activations)
    → h ≤ k
    → All (λ e. k < e.0) list
    → IsClear h height list
    → All (λ e. height < e.0) list
clear_above h k height [] le a c = tt
clear_above h k height ((j, old) ∷ rest) le (first, a) (here, c) =
    (omega arith, clear_above h k height rest le a c)

-- From its height on, until the next upgrade, the schedule gives what it gave, with the patch
-- applied on top.
pub apply_until-schedule_from :
    (height h : ℕ) (patch : NetworkParametersPatch) (p : NetworkParameters) (list : Activations)
    → IsAscending list
    → h ≤ height
    → IsClear h height list
    → apply_until height p (schedule h patch list) ≡ apply_patch (apply_until height p list) patch
unfolding apply_until schedule
apply_until-schedule_from height h patch p [] a le c = ground arith
apply_until-schedule_from height h patch p ((k, old) ∷ rest) (first, a) le (here, c) =
    elim (Bool-cases (h == k)) [
      | inl same ↦
          let above = clear_above h k height rest (ground arith) first c in
          ground (
            arith,
            apply_until-above height (apply_patch p (merge_patches old patch)) rest above,
            apply_until-above height (apply_patch p old) rest above,
            apply_patch-merge_patches p old patch,
          )
      | inr apart ↦ elim (Bool-cases (ltb h k)) [
        | inl before ↦
            let above = clear_above h k height rest (ground arith) first c in
            ground (
              arith,
              apply_until-above height (apply_patch p patch) rest above,
              apply_until-above height p rest above,
            )
        | inr after ↦ ground (
          arith,
          apply_until-schedule_from height h patch p rest a le c,
          apply_until-schedule_from height h patch (apply_patch p old) rest a le c,
        )
      ]
    ]

module _ (Text : Type 0) (is_empty : Text → Bool) (normalize_id : Text → ℕ) (tx_id : ℕ)
    (patch : NetworkParametersPatch) (h : ℕ) (proposer : Text) (voters : List Text)
    (r r' : ChainParameterRegistry Text is_empty normalize_id)
    (accepted : submit_parameter_upgrade Text is_empty normalize_id tx_id patch h proposer voters r
      ≡ ok r') where
  -- What an accepted upgrade has checked, and what it has scheduled.
  submit_runs :
      (saturating_add Text is_empty normalize_id r.current_height r.min_activation_delay_blocks ≤ h)
      × (r'.activations ≡ schedule h patch r.activations)
      × (r'.genesis_parameters ≡ r.genesis_parameters)
  unfolding submit_parameter_upgrade
  submit_runs = ground arith

  abbrev params : ChainParameterRegistry Text is_empty normalize_id → ℕ → NetworkParameters
  params = effective_parameters_at Text is_empty normalize_id

  -- An accepted upgrade changes the parameters at no height up to the current tip, where the
  -- delay is positive and the tip with the delay is a u64.
  pub submit_keeps_past :
      (height : ℕ)
      → 0 < r.min_activation_delay_blocks
      → r.current_height + r.min_activation_delay_blocks < u64_bound
      → height ≤ r.current_height
      → params r' height ≡ params r height
  unfolding effective_parameters_at
  submit_keeps_past height delayed fits past =
      let (late, scheduled, same) = submit_runs in
      rw (scheduled, same)
        (apply_until-schedule_below height h patch r.genesis_parameters r.activations
          (ground arith))

  -- From the activation height of an accepted upgrade on, up to a height before which no later
  -- upgrade is scheduled, the parameters are those that were in force with the patch applied on
  -- top, and the schedule stays in the order of its heights. The schedule was in that order
  -- before.
  pub submit_applies :
      (height : ℕ)
      → IsAscending r.activations
      → h ≤ height
      → IsClear h height r.activations
      → (params r' height ≡ apply_patch (params r height) patch) × IsAscending r'.activations
  unfolding effective_parameters_at
  submit_applies height ascending le clear =
      let (late, scheduled, same) = submit_runs in
      (
        rw (scheduled, same)
            (apply_until-schedule_from height h patch r.genesis_parameters r.activations ascending
              le clear),
        rw scheduled (schedule-IsAscending h patch r.activations ascending),
      )
