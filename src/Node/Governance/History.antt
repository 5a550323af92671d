-- ===== src/Node/Governance/History.antt =====
-- The life of a service of network-node/src/governance.rs: proposals, votes and ticks in any order,
-- beside a registry that other calls may change.
use mathlib.Core.Path.{subst}
use axionvera_network.Base.{
  ℕ, ◌+◌, ◌%◌, ◌≡◌, refl, sym, Bool, true, false, none, some, [], ◌==◌, arith, inl, inr,
  Option-cases,
}
use axionvera_network.Base.I128.{u64_bound}
use axionvera_network.Base.Maps.{
  Map, lookup, insert, modify, lookup-insert, insert-IsDistinct, keys-modify, AllEntries-insert,
  AllEntries-modify,
}
use axionvera_network.Node.ChainParams.{NetworkParametersPatch, GovernanceConfig}
use axionvera_network.Node.Governance.{
  ProposalStatus, is_voting, done, Registry, Vote, Proposal, GovernanceService, new_service,
  propose, cast_vote, add_vote, tick, decide, execute_all,
}
use axionvera_network.Node.Governance.Approval.{
  IsFair, IsSound, decide-IsFair, decide-AreReady, keys-decide, execute_all-IsSound,
}

module _ (Text : Type 0) (is_empty : Text → Bool) (normalize_id : Text → ℕ)
    (config : GovernanceConfig Text is_empty normalize_id) where
  -- One call. The registry of each is arbitrary but for its governance, which no call changes, and
  -- a proposal gets a new identifier.
  pub data Step (g g' : GovernanceService Text is_empty normalize_id) : Type 0 where
    proposed :
        (uuid : ℕ) (proposer : Text) (patch : NetworkParametersPatch) (activation current : ℕ)
        (registry : Registry Text is_empty normalize_id)
        → lookup uuid g.proposals ≡ none
        → propose Text is_empty normalize_id uuid proposer patch activation current registry g
          ≡ done g'
        → Step g g'
    voted :
        (id : ℕ) (voter : Text) (approve : Bool) (registry : Registry Text is_empty normalize_id)
        → cast_vote Text is_empty normalize_id id voter approve registry g ≡ done g'
        → Step g g'
    ticked :
        (tx_id : ℕ → ℕ) (height : ℕ) (registry : Registry Text is_empty normalize_id)
        → registry.governance ≡ config
        → g' ≡ (tick Text is_empty normalize_id tx_id height g registry).0
        → Step g g'

  pub data Later (g : GovernanceService Text is_empty normalize_id)
      : GovernanceService Text is_empty normalize_id → Type 0 where
    here : Later g g
    next :
        {g' g'' : GovernanceService Text is_empty normalize_id}
        → Later g g'
        → Step g' g''
        → Later g g''

  -- The services that come about.
  abbrev pub History : GovernanceService Text is_empty normalize_id → Type 0
  History g =
      (voting_duration : ℕ) × Later (new_service Text is_empty normalize_id voting_duration) g

  abbrev IsSoundService : GovernanceService Text is_empty normalize_id → Type 0
  IsSoundService g = IsSound Text is_empty normalize_id config g.proposals

  module _ (g g' : GovernanceService Text is_empty normalize_id) (uuid : ℕ) (proposer : Text)
      (patch : NetworkParametersPatch) (activation current : ℕ)
      (registry : Registry Text is_empty normalize_id)
      (accepted : propose Text is_empty normalize_id uuid proposer patch activation current registry
          g
        ≡ done g') where
    abbrev new_proposal : Proposal Text is_empty normalize_id
    new_proposal = record {
      id = uuid;
      proposer = proposer;
      patch = patch;
      activation_height = activation;
      status = ProposalStatus.voting;
      votes = [];
      end_height = (current + g.voting_duration) % u64_bound;
    }

    propose_stores : g'.proposals ≡ insert uuid new_proposal g.proposals
    unfolding propose
    propose_stores = ground arith

    -- A proposal under a new identifier leaves the others as they are.
    pub propose_others :
        (id : ℕ) (p : Proposal Text is_empty normalize_id)
        → lookup uuid g.proposals ≡ none
        → lookup id g.proposals ≡ some p
        → lookup id g'.proposals ≡ some p
    propose_others id p new found =
        let miss : (uuid == id) ≡ false = ground arith in
        rw (propose_stores, lookup-insert id uuid new_proposal g.proposals, miss) found

    propose-IsSound : IsSoundService g → IsSoundService g'
    propose-IsSound sound = rw propose_stores (record {
      fair =
          AllEntries-insert (IsFair Text is_empty normalize_id config) uuid new_proposal g.proposals
            (refl, (λ h. cc), (tt, tt)) sound.fair;
      distinct = insert-IsDistinct uuid new_proposal g.proposals sound.distinct;
    })

  add_vote-IsFair :
      (voter : Text) (approve : Bool) (k : ℕ) (p : Proposal Text is_empty normalize_id)
      → is_voting p.status ≡ true
      → IsFair Text is_empty normalize_id config k p
      → IsFair Text is_empty normalize_id config k
          (add_vote Text is_empty normalize_id voter approve p)
  add_vote-IsFair voter approve k p open_now (same, adopted, (keyed, distinct)) =
      let v : Vote Text is_empty normalize_id = record {
        voter = voter;
        approve = approve;
        weight = 1;
      } in
      (
        same,
        λ h. ground arith,
        (
          AllEntries-insert (λ j w. j ≡ normalize_id w.voter) (normalize_id voter) v p.votes refl
              keyed,
          insert-IsDistinct (normalize_id voter) v p.votes distinct,
        ),
      )

  -- A vote that is accepted is on a stored proposal that is open.
  pub cast_vote_runs :
      (g g' : GovernanceService Text is_empty normalize_id) (id : ℕ) (voter : Text) (approve : Bool)
      (registry : Registry Text is_empty normalize_id)
      → cast_vote Text is_empty normalize_id id voter approve registry g ≡ done g'
      → (p : Proposal Text is_empty normalize_id) × (lookup id g.proposals ≡ some p)
        × (is_voting p.status ≡ true)
        × (g'.proposals ≡ modify id (add_vote Text is_empty normalize_id voter approve) g.proposals)
  unfolding cast_vote
  cast_vote_runs g g' id voter approve registry accepted =
      elim (Option-cases (lookup id g.proposals)) [
        | inl gone ↦ absurd (ground arith)
        | inr (p, found) ↦ (p, found, ground arith, ground arith)
      ]

  is_voting_same :
      (id : ℕ) (m : Map (Proposal Text is_empty normalize_id))
      (p q : Proposal Text is_empty normalize_id)
      → lookup id m ≡ some p
      → lookup id m ≡ some q
      → is_voting p.status ≡ true
      → is_voting q.status ≡ true
  is_voting_same id m p q found there open_now = ground arith

  cast_vote-IsSound :
      (g g' : GovernanceService Text is_empty normalize_id) (id : ℕ) (voter : Text) (approve : Bool)
      (registry : Registry Text is_empty normalize_id)
      → IsSoundService g
      → cast_vote Text is_empty normalize_id id voter approve registry g ≡ done g'
      → IsSoundService g'
  cast_vote-IsSound g g' id voter approve registry sound accepted =
      let add = add_vote Text is_empty normalize_id voter approve in
      let (p, found, open_now, same) = cast_vote_runs g g' id voter approve registry accepted in
      rw same (record {
        fair =
            AllEntries-modify (IsFair Text is_empty normalize_id config) id add g.proposals
              (λ j q _ there fair.
                add_vote-IsFair voter approve j q
                  (is_voting_same id g.proposals p q found there open_now) fair)
              sound.fair;
        distinct = rw (keys-modify id add g.proposals) sound.distinct;
      })

  tick-IsSound :
      (g : GovernanceService Text is_empty normalize_id) (tx_id : ℕ → ℕ) (height : ℕ)
      (registry : Registry Text is_empty normalize_id)
      → registry.governance ≡ config
      → IsSoundService g
      → IsSoundService (tick Text is_empty normalize_id tx_id height g registry).0
  unfolding tick
  tick-IsSound g tx_id height registry same sound =
      let decided = λ (c : GovernanceConfig Text is_empty normalize_id).
        decide Text is_empty normalize_id c height g.proposals in
      subst
        (λ c.
          IsSound Text is_empty normalize_id config
            (execute_all Text is_empty normalize_id tx_id (decided c).1
              ((decided c).0, registry)).0)
        (sym same)
        (execute_all-IsSound Text is_empty normalize_id config tx_id (decided config).1
          (decided config).0 registry
          (record {
            fair = decide-IsFair Text is_empty normalize_id config height g.proposals sound.fair;
            distinct =
                rw (keys-decide Text is_empty normalize_id config height g.proposals)
                  sound.distinct;
          })
          (decide-AreReady Text is_empty normalize_id config height g.proposals sound.fair
            sound.distinct))

  Step-IsSound :
      (g g' : GovernanceService Text is_empty normalize_id)
      → Step g g'
      → IsSoundService g
      → IsSoundService g'
  Step-IsSound g g' (proposed uuid proposer patch activation current registry new accepted) sound =
      propose-IsSound g g' uuid proposer patch activation current registry accepted sound
  Step-IsSound g g' (voted id voter approve registry accepted) sound =
      cast_vote-IsSound g g' id voter approve registry sound accepted
  Step-IsSound g g' (ticked tx_id height registry same at) sound =
      rw at (tick-IsSound g tx_id height registry same sound)

  pub Later-IsSound :
      {g g' : GovernanceService Text is_empty normalize_id}
      → Later g g'
      → IsSoundService g
      → IsSoundService g'
  Later-IsSound here sound = sound
  Later-IsSound (next {g'} {g''} later st) sound =
      Step-IsSound g' g'' st (Later-IsSound later sound)

  pub History-IsSound :
      {g : GovernanceService Text is_empty normalize_id} → History g → IsSoundService g
  History-IsSound (voting_duration, later) =
      Later-IsSound later (record { fair = tt; distinct = tt })
