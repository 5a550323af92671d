-- ===== src/Node/Governance/Approval.antt =====
-- What an executed proposal of network-node/src/governance.rs has behind it.
use axionvera_network.Base.{
  ℕ, ◌∙◌, ◌≡◌, refl, Bool, true, false, some, List, [], ◌∷◌, All, IsFresh, IsDistinct, arith, inl,
  inr, Bool-cases, Option-cases,
}
use axionvera_network.Base.Maps.{
  Map, lookup, modify, keys, AllEntries, lookup-modify, keys-modify, AllEntries-modify,
}
use axionvera_network.Node.ChainParams.{GovernanceConfig, submit_parameter_upgrade}
use axionvera_network.Node.ChainParams.Authority.{Result-cases}
use axionvera_network.Node.Governance.{
  ProposalStatus, Registry, Vote, Proposal, GovernanceService, set_status, is_due, passes, decide,
  voters, execute, execute_all,
}

abbrev pub is_adopted : ProposalStatus → Bool
is_adopted ProposalStatus.passed = true
is_adopted ProposalStatus.executed = true
is_adopted ProposalStatus.voting = false
is_adopted ProposalStatus.rejected = false
is_adopted ProposalStatus.expired = false

module _ (Text : Type 0) (is_empty : Text → Bool) (normalize_id : Text → ℕ) where
  abbrev pub Config : Type 0
  Config = GovernanceConfig Text is_empty normalize_id

  abbrev pub Service : Type 0
  Service = GovernanceService Text is_empty normalize_id

  abbrev pub Votes : Type 0
  Votes = Map (Vote Text is_empty normalize_id)

  abbrev pub Proposals : Type 0
  Proposals = Map (Proposal Text is_empty normalize_id)

  -- Each vote stands under the identifier of its voter, and none twice.
  abbrev pub AreKeyed : Votes → Type 0
  AreKeyed votes = AllEntries (λ k v. k ≡ normalize_id v.voter) votes × IsDistinct (keys votes)

  -- What holds of a stored proposal.
  abbrev pub IsFair : Config → ℕ → Proposal Text is_empty normalize_id → Type 0
  IsFair config k p =
      (k ≡ p.id)
      × (is_adopted p.status ≡ true → passes Text is_empty normalize_id config p ≡ true)
      × AreKeyed p.votes

  pub record IsSound (config : Config) (m : Proposals) : Type 0 where
    pub fair : AllEntries (IsFair config) m
    pub distinct : IsDistinct (keys m)

  module _ (config : Config) where
    passes_status :
        (status : ProposalStatus) (p : Proposal Text is_empty normalize_id)
        → passes Text is_empty normalize_id config (set_status Text is_empty normalize_id status p)
          ≡ passes Text is_empty normalize_id config p
    unfolding passes
    passes_status status p =
        elim config
          as (λ c.
            passes Text is_empty normalize_id c (set_status Text is_empty normalize_id status p)
            ≡ passes Text is_empty normalize_id c p) [
              | GovernanceConfig.dao members min_approvals ↦ refl
              | GovernanceConfig.admin_keys ks ↦ refl
            ]

    -- The proposals of the list pass, if they are there.
    abbrev pub AreReady : List ℕ → Proposals → Type 0
    AreReady ids m =
        All
          (λ id.
            (p : Proposal Text is_empty normalize_id)
            → lookup id m ≡ some p
            → passes Text is_empty normalize_id config p ≡ true)
          ids

    AreReady-modify :
        (k : ℕ) (status : ProposalStatus) (ids : List ℕ) (m : Proposals)
        → AreReady ids m
        → AreReady ids (modify k (set_status Text is_empty normalize_id status) m)
    AreReady-modify k status [] m a = tt
    AreReady-modify k status (id ∷ ids) m (first, a) = (
      λ p found.
          let found' =
            rw (lookup-modify id k (set_status Text is_empty normalize_id status) m) at found in
          elim (Option-cases (lookup id m)) [
            | inl gone ↦ ground arith
            | inr (q, there) ↦ ground (arith, first q there, passes_status status q)
          ],
      AreReady-modify k status ids m a,
    )

    module _ (height : ℕ) where
      abbrev pub decided : Proposals → Proposals
      decided m = (decide Text is_empty normalize_id config height m).0

      abbrev pub to_execute : Proposals → List ℕ
      to_execute m = (decide Text is_empty normalize_id config height m).1

      pub keys-decide : (m : Proposals) → keys (decided m) ≡ keys m
      unfolding decide
      keys-decide [] = refl
      keys-decide ((k, p) ∷ m) = ground (arith, keys-decide m)

      pub decide-IsFresh :
          (j : ℕ) (m : Proposals)
          → AllEntries (IsFair config) m
          → IsFresh j (keys m)
          → IsFresh j (to_execute m)
      unfolding decide
      decide-IsFresh j [] a fresh = tt
      decide-IsFresh j ((k, p) ∷ m) ((same, adopted, keyed), a) (apart, fresh) =
          ground (arith, decide-IsFresh j m a fresh)

      module _ (k : ℕ) (p : Proposal Text is_empty normalize_id) (m : Proposals) where
        pub decide_idle :
            is_due Text is_empty normalize_id height p ≡ false
            → decide Text is_empty normalize_id config height ((k, p) ∷ m)
              ≡ ((k, p) ∷ decided m, to_execute m)
        unfolding decide
        decide_idle idle = rw idle refl

        pub decide_won :
            is_due Text is_empty normalize_id height p ≡ true
            → passes Text is_empty normalize_id config p ≡ true
            → decide Text is_empty normalize_id config height ((k, p) ∷ m) ≡ (
              (k, set_status Text is_empty normalize_id ProposalStatus.passed p) ∷ decided m,
              p.id ∷ to_execute m,
            )
        unfolding decide
        decide_won due won = rw (due, won) refl

        pub decide_lost :
            is_due Text is_empty normalize_id height p ≡ true
            → passes Text is_empty normalize_id config p ≡ false
            → decide Text is_empty normalize_id config height ((k, p) ∷ m) ≡ (
              (k, set_status Text is_empty normalize_id ProposalStatus.rejected p) ∷ decided m,
              to_execute m,
            )
        unfolding decide
        decide_lost due lost = rw (due, lost) refl

      decide_nil : AllEntries (IsFair config) (decided []) × AreReady (to_execute []) (decided [])
      unfolding decide
      decide_nil = (tt, tt)

      pub decide-IsFair :
          (m : Proposals) → AllEntries (IsFair config) m → AllEntries (IsFair config) (decided m)
      decide-IsFair [] a = decide_nil.0
      decide-IsFair ((k, p) ∷ m) ((same, adopted, keyed), a) =
          let rest = decide-IsFair m a in
          elim (Bool-cases (is_due Text is_empty normalize_id height p)) [
            | inr idle ↦ rw (decide_idle k p m idle, decided) ((same, adopted, keyed), rest)
            | inl due ↦ elim (Bool-cases (passes Text is_empty normalize_id config p)) [
              | inl won ↦
                  rw (decide_won k p m due won, decided)
                    ((same, (λ h. passes_status ProposalStatus.passed p ∙ won), keyed), rest)
              | inr lost ↦ rw (decide_lost k p m due lost, decided) ((same, (λ h. cc), keyed), rest)
            ]
          ]

      -- An entry of another key is not looked up.
      AreReady-past :
          (k : ℕ) (p : Proposal Text is_empty normalize_id) (ids : List ℕ) (m : Proposals)
          → IsFresh k ids
          → AreReady ids m
          → AreReady ids ((k, p) ∷ m)
      unfolding lookup
      AreReady-past k p [] m fresh a = tt
      AreReady-past k p (id ∷ ids) m (apart, fresh) (first, a) =
          (λ q found. first q (ground arith), AreReady-past k p ids m fresh a)

      pub decide-AreReady :
          (m : Proposals)
          → AllEntries (IsFair config) m
          → IsDistinct (keys m)
          → AreReady (to_execute m) (decided m)
      unfolding lookup
      decide-AreReady [] a d = decide_nil.1
      decide-AreReady ((k, p) ∷ m) ((same, adopted, keyed), a) (fresh, d) =
          let rest = decide-AreReady m a d in
          let later = decide-IsFresh k m a fresh in
          elim (Bool-cases (is_due Text is_empty normalize_id height p)) [
            | inr idle ↦
                rw (decide_idle k p m idle, decided, to_execute)
                  (AreReady-past k p (to_execute m) (decided m) later rest)
            | inl due ↦ elim (Bool-cases (passes Text is_empty normalize_id config p)) [
              | inl won ↦
                  let p' = set_status Text is_empty normalize_id ProposalStatus.passed p in
                  rw (decide_won k p m due won, decided, to_execute)
                    (
                      λ q found. ground (arith, passes_status ProposalStatus.passed p),
                      AreReady-past k p' (to_execute m) (decided m) later rest,
                    )
              | inr lost ↦
                  let p' = set_status Text is_empty normalize_id ProposalStatus.rejected p in
                  rw (decide_lost k p m due lost, decided, to_execute)
                    (AreReady-past k p' (to_execute m) (decided m) later rest)
            ]
          ]

    executed-IsFair :
        (k j : ℕ) (p : Proposal Text is_empty normalize_id)
        → passes Text is_empty normalize_id config p ≡ true
        → IsFair config j p
        → IsFair config j (set_status Text is_empty normalize_id ProposalStatus.executed p)
    executed-IsFair k j p won (same, adopted, keyed) =
        (same, (λ h. passes_status ProposalStatus.executed p ∙ won), keyed)

    module _ (tx_id : ℕ → ℕ) where
      execute_marks :
          (id : ℕ) (ids : List ℕ) (m : Proposals)
          → IsSound config m
          → AreReady (id ∷ ids) m
          → let m' = modify id (set_status Text is_empty normalize_id ProposalStatus.executed) m in
            IsSound config m' × AreReady ids m'
      execute_marks id ids m sound (first, ready) =
          let mark = set_status Text is_empty normalize_id ProposalStatus.executed in
          (
            record {
              fair =
                  AllEntries-modify (IsFair config) id mark m
                    (λ j p same found fair. executed-IsFair id j p (first p found) fair) sound.fair;
              distinct = rw (keys-modify id mark m) sound.distinct;
            },
            AreReady-modify id ProposalStatus.executed ids m ready,
          )

      execute-IsSound :
          (id : ℕ) (ids : List ℕ) (m : Proposals) (r : Registry Text is_empty normalize_id)
          → IsSound config m
          → AreReady (id ∷ ids) m
          → let m' = (execute Text is_empty normalize_id tx_id id (m, r)).0 in
            IsSound config m' × AreReady ids m'
      unfolding execute
      execute-IsSound id ids m r sound (first, ready) = elim (Option-cases (lookup id m)) [
        | inl gone ↦ rw (gone, execute) (sound, ready)
        | inr (p, found) ↦
            rw (found, execute)
              (elim (Result-cases (
                submit_parameter_upgrade Text is_empty normalize_id (tx_id id) p.patch
                  p.activation_height p.proposer (voters Text is_empty normalize_id p.votes) r)) [
                    | inl (r', accepted) ↦ rw accepted (execute_marks id ids m sound (first, ready))
                    | inr (e, denied) ↦ rw denied (sound, ready)
                  ])
      ]

      pub execute_all-IsSound :
          (ids : List ℕ) (m : Proposals) (r : Registry Text is_empty normalize_id)
          → IsSound config m
          → AreReady ids m
          → IsSound config (execute_all Text is_empty normalize_id tx_id ids (m, r)).0
      unfolding execute_all
      execute_all-IsSound [] m r sound ready = sound
      execute_all-IsSound (id ∷ ids) m r sound ready =
          let state = execute Text is_empty normalize_id tx_id id (m, r) in
          let (sound', ready') = execute-IsSound id ids m r sound ready in
          execute_all-IsSound ids state.0 state.1 sound' ready'
