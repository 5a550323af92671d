-- ===== src/Node/Governance/Blocking.antt =====
-- What a tick of network-node/src/governance.rs never executes: a proposal one of whose voters the
-- registry does not take as an approval.
use axionvera_network.Base.{
  ℕ, ◌+◌, ◌%◌, ◌≡◌, ◌≢◌, refl, ap, ◌∙◌, Bool, true, false, not, ◌&&◌, ◌||◌, some, List, [], ◌∷◌,
  IsFresh, ◌==◌, if◌then◌else◌, arith, inl, inr, Bool-cases, ==_iff, Option-cases,
}
use axionvera_network.Base.I128.{u32_bound}
use axionvera_network.Base.Maps.{Map, lookup, lookup-modify}
use axionvera_network.Node.ChainParams.{
  NetworkParametersPatch, GovernanceConfig, UpgradeError, ok, err, has_id, any_text, count_votes,
  authorize_upgrade, submit_parameter_upgrade,
}
use axionvera_network.Node.ChainParams.Authority.{Result-cases}
use axionvera_network.Node.Governance.{
  ProposalStatus, Registry, Proposal, GovernanceService, passes, is_due, set_status, decide, voters,
  execute, execute_all, tick,
}

module _ (Text : Type 0) (is_empty : Text → Bool) (normalize_id : Text → ℕ) where
  -- A voter who is named and is no member.
  unfoldable pub has_outsider : List Text → List Text → Bool
  has_outsider members [] = false
  has_outsider members (v ∷ vs) =
      (not (normalize_id v == 0)
        && not (has_id Text is_empty normalize_id (normalize_id v) members))
      || has_outsider members vs

  count_votes_refused :
      (members : List Text) (seen : List ℕ) (valid : ℕ) (vs : List Text)
      → has_outsider members vs ≡ true
      → count_votes Text is_empty normalize_id members seen valid vs
        ≡ err UpgradeError.unknown_voter
  unfolding has_outsider count_votes
  count_votes_refused members seen valid [] h = ground arith
  count_votes_refused members seen valid (v ∷ vs) h = ground (
    arith,
    count_votes_refused members seen valid vs,
    count_votes_refused members (normalize_id v ∷ seen) ((valid + 1) % u32_bound) vs,
  )

  -- The voters that the registry refuses: any named one under admin keys, and under a DAO one that
  -- is no member, whether it has voted for or against.
  abbrev pub is_blocked : GovernanceConfig Text is_empty normalize_id → List Text → Bool
  is_blocked (GovernanceConfig.admin_keys ks) vs = any_text Text is_empty normalize_id vs
  is_blocked (GovernanceConfig.dao members min_approvals) vs = has_outsider members vs

  authorize_refused :
      (config : GovernanceConfig Text is_empty normalize_id) (proposer : Text) (vs : List Text)
      → is_blocked config vs ≡ true
      → authorize_upgrade Text is_empty normalize_id config proposer vs ≢ ok tt
  unfolding authorize_upgrade
  authorize_refused (GovernanceConfig.admin_keys ks) proposer vs h e = ground arith
  authorize_refused (GovernanceConfig.dao members min_approvals) proposer vs h e =
      ground (arith, count_votes_refused members [] 0 vs h)

  module _ (tx_id height : ℕ) (patch : NetworkParametersPatch) (proposer : Text) (vs : List Text)
      (r r' : Registry Text is_empty normalize_id)
      (accepted : submit_parameter_upgrade Text is_empty normalize_id tx_id patch height proposer vs
          r
        ≡ ok r') where
    submit_authorized :
        (authorize_upgrade Text is_empty normalize_id r.governance proposer vs ≡ ok tt)
        × (r'.governance ≡ r.governance)
    unfolding submit_parameter_upgrade
    submit_authorized = ground arith

  module _ (tx_id : ℕ → ℕ) (id : ℕ) where
    execute_other :
        (j : ℕ) (m : Map (Proposal Text is_empty normalize_id))
        (r : Registry Text is_empty normalize_id)
        → id ≢ j
        → (lookup id (execute Text is_empty normalize_id tx_id j (m, r)).0 ≡ lookup id m)
          × ((execute Text is_empty normalize_id tx_id j (m, r)).1.governance ≡ r.governance)
    unfolding execute
    execute_other j m r apart = elim (Option-cases (lookup j m)) [
      | inl gone ↦ rw (gone, execute) (refl, refl)
      | inr (p, found) ↦
          rw (found, execute)
            (elim (Result-cases (
              submit_parameter_upgrade Text is_empty normalize_id (tx_id j) p.patch
                p.activation_height p.proposer (voters Text is_empty normalize_id p.votes) r)) [
                  | inl (r', accepted) ↦
                      let miss : (j == id) ≡ false = ground arith in
                      rw accepted (
                        rw
                            (
                              lookup-modify id j
                                  (set_status Text is_empty normalize_id ProposalStatus.executed) m,
                              miss,
                            )
                            refl,
                        (submit_authorized (tx_id j) p.activation_height p.patch p.proposer
                            (voters Text is_empty normalize_id p.votes) r r' accepted).1,
                      )
                  | inr (e, denied) ↦ rw denied (refl, refl)
                ])
    ]

    pub execute_all_other :
        (ids : List ℕ) (m : Map (Proposal Text is_empty normalize_id))
        (r : Registry Text is_empty normalize_id)
        → IsFresh id ids
        → lookup id (execute_all Text is_empty normalize_id tx_id ids (m, r)).0 ≡ lookup id m
    unfolding execute_all
    execute_all_other [] m r fresh = refl
    execute_all_other (j ∷ ids) m r (apart, fresh) =
        let state = execute Text is_empty normalize_id tx_id j (m, r) in
        execute_all_other ids state.0 state.1 fresh ∙ (execute_other j m r apart).0

    -- A blocked proposal is left as it is.
    execute_blocked :
        (p : Proposal Text is_empty normalize_id) (m : Map (Proposal Text is_empty normalize_id))
        (r : Registry Text is_empty normalize_id)
        → lookup id m ≡ some p
        → is_blocked r.governance (voters Text is_empty normalize_id p.votes) ≡ true
        → execute Text is_empty normalize_id tx_id id (m, r) ≡ (m, r)
    unfolding execute
    execute_blocked p m r found blocked =
        rw (found, execute)
          (elim (Result-cases (
            submit_parameter_upgrade Text is_empty normalize_id (tx_id id) p.patch
              p.activation_height p.proposer (voters Text is_empty normalize_id p.votes) r)) [
                | inl (r', accepted) ↦ absurd (
                    authorize_refused r.governance p.proposer
                      (voters Text is_empty normalize_id p.votes) blocked
                      (submit_authorized (tx_id id) p.activation_height p.patch p.proposer
                        (voters Text is_empty normalize_id p.votes) r r' accepted).0)
                | inr (e, denied) ↦ rw denied refl
              ])

    execute_all_blocked :
        (ids : List ℕ) (p : Proposal Text is_empty normalize_id)
        (m : Map (Proposal Text is_empty normalize_id)) (r : Registry Text is_empty normalize_id)
        → lookup id m ≡ some p
        → is_blocked r.governance (voters Text is_empty normalize_id p.votes) ≡ true
        → lookup id (execute_all Text is_empty normalize_id tx_id ids (m, r)).0 ≡ some p
    unfolding execute_all
    execute_all_blocked [] p m r found blocked = found
    execute_all_blocked (j ∷ ids) p m r found blocked =
        let state = execute Text is_empty normalize_id tx_id j (m, r) in
        elim (Bool-cases (id == j)) [
          | inl same ↦
              let stays : state ≡ (m, r) =
                rw (← (==_iff id j).0 same) (execute_blocked p m r found blocked) in
              execute_all_blocked ids p state.0 state.1 (ap (λ x. lookup id x.0) stays ∙ found) (
                ap (λ x. is_blocked x.1.governance (voters Text is_empty normalize_id p.votes))
                  stays
                ∙ blocked)
          | inr apart ↦
              let (kept, governed) = execute_other j m r (ground arith) in
              execute_all_blocked ids p state.0 state.1 (kept ∙ found) (rw governed blocked)
        ]

  module _ (config : GovernanceConfig Text is_empty normalize_id) (height : ℕ) where
    -- What the first loop of `tick` makes of a proposal.
    abbrev pub verdict : Proposal Text is_empty normalize_id → Proposal Text is_empty normalize_id
    verdict p =
        if is_due Text is_empty normalize_id height p
        then if passes Text is_empty normalize_id config p
          then set_status Text is_empty normalize_id ProposalStatus.passed p
          else set_status Text is_empty normalize_id ProposalStatus.rejected p
        else p

    pub lookup-decide :
        (id : ℕ) (p : Proposal Text is_empty normalize_id)
        (m : Map (Proposal Text is_empty normalize_id))
        → lookup id m ≡ some p
        → lookup id (decide Text is_empty normalize_id config height m).0 ≡ some (verdict p)
    unfolding lookup decide
    lookup-decide id p [] found = ground arith
    lookup-decide id p ((k, q) ∷ m) found = elim (Bool-cases (k == id)) [
      | inl same ↦ ground arith
      | inr apart ↦ ground (arith, lookup-decide id p m)
    ]

  module _ (config : GovernanceConfig Text is_empty normalize_id) (id : ℕ)
      (p : Proposal Text is_empty normalize_id) where
    -- A proposal whose voters the registry refuses is decided by a tick as its votes say, and
    -- left so: it is not executed. The refused voters are any named one under admin keys, and
    -- under a DAO a named one who is no member, whichever way it has voted.
    pub tick_blocked :
        (g : GovernanceService Text is_empty normalize_id) (tx_id : ℕ → ℕ) (height : ℕ)
        (registry : Registry Text is_empty normalize_id)
        → registry.governance ≡ config
        → lookup id g.proposals ≡ some p
        → is_blocked config (voters Text is_empty normalize_id p.votes) ≡ true
        → lookup id (tick Text is_empty normalize_id tx_id height g registry).0.proposals
          ≡ some (verdict config height p)
    unfolding tick
    tick_blocked g tx_id height registry same found blocked =
        let out = decide Text is_empty normalize_id registry.governance height g.proposals in
        let p' = verdict registry.governance height p in
        let votes : p'.votes ≡ p.votes = ground arith in
        execute_all_blocked tx_id id out.1 p' out.0 registry
          (lookup-decide registry.governance height id p g.proposals found)
          (rw (votes, same) blocked)
        ∙ ap (λ c. some (verdict c height p)) same
