-- ===== src/Node/Governance.antt =====
-- network-node/src/governance.rs: proposals to change the parameters, the votes on them, and the tick
-- that decides and executes them. Texts are as in the chain parameters. The maps are listed in the
-- order in which they are iterated. An identifier of a proposal, and that of the transaction which
-- executes it, are drawn at random by the caller. Logging is left out.
pub mod Genesis
pub mod Approval
pub mod History
pub mod Blocking
pub mod Finality
pub mod Executed
use axionvera_network.Base.{
  ℕ, ◌+◌, ◌%◌, Bool, true, false, not, ◌&&◌, none, some, List, [], ◌∷◌, leb, if◌then◌else◌,
}
use axionvera_network.Base.I128.{u32_bound, u64_bound}
use axionvera_network.Base.Maps.{Map, lookup, insert, modify}
use axionvera_network.Node.ChainParams.{
  NetworkParametersPatch, Role, UpgradeError, Result, GovernanceConfig, ChainParameterRegistry,
  check_role, has_id, submit_parameter_upgrade,
}

pub data ProposalStatus : Type 0 where
  voting passed rejected executed expired : ProposalStatus

abbrev pub is_voting : ProposalStatus → Bool
is_voting ProposalStatus.voting = true
is_voting ProposalStatus.passed = false
is_voting ProposalStatus.rejected = false
is_voting ProposalStatus.executed = false
is_voting ProposalStatus.expired = false

-- The messages of the `String` errors.
pub data GovernanceError : Type 0 where
  proposer_unauthorized voter_unauthorized : UpgradeError → GovernanceError
  proposal_not_found : GovernanceError
  not_voting : ProposalStatus → GovernanceError

pub data Outcome (A : Type 0) : Type 0 where
  done : A → Outcome A
  refused : GovernanceError → Outcome A

abbrev pub map_err :
    {A : Type 0} → (UpgradeError → GovernanceError) → Result (Unit {0}) → Outcome A → Outcome A
map_err f (Result.ok u) next = next
map_err f (Result.err e) next = refused (f e)

module _ (Text : Type 0) (is_empty : Text → Bool) (normalize_id : Text → ℕ) where
  abbrev pub Registry : Type 0
  Registry = ChainParameterRegistry Text is_empty normalize_id

  pub record Vote : Type 0 where
    pub voter : Text
    pub approve : Bool
    pub weight : ℕ

  pub record Proposal : Type 0 where
    pub id : ℕ
    pub proposer : Text
    pub patch : NetworkParametersPatch
    pub activation_height : ℕ
    pub status : ProposalStatus
    pub votes : Map Vote
    pub end_height : ℕ

  pub record GovernanceService : Type 0 where
    pub proposals : Map Proposal
    pub voting_duration : ℕ

  abbrev pub new_service : ℕ → GovernanceService
  new_service voting_duration = record { proposals = []; voting_duration = voting_duration }

  -- The sum of the heights wraps in the release profile.
  unfoldable pub propose :
      ℕ
      → Text
      → NetworkParametersPatch
      → ℕ
      → ℕ
      → Registry
      → GovernanceService
      → Outcome GovernanceService
  propose uuid proposer patch activation_height current_height registry g =
      map_err GovernanceError.proposer_unauthorized
        (check_role Text is_empty normalize_id registry proposer Role.operator)
        (done (record g {
          proposals =
              insert uuid
                (record {
                  id = uuid;
                  proposer = proposer;
                  patch = patch;
                  activation_height = activation_height;
                  status = ProposalStatus.voting;
                  votes = [];
                  end_height = (current_height + g.voting_duration) % u64_bound;
                })
                g.proposals;
        }))

  abbrev pub add_vote : Text → Bool → Proposal → Proposal
  add_vote voter approve p = record p {
    votes =
        insert (normalize_id voter) (record { voter = voter; approve = approve; weight = 1 })
          p.votes;
  }

  unfoldable pub cast_vote :
      ℕ → Text → Bool → Registry → GovernanceService → Outcome GovernanceService
  cast_vote proposal_id voter approve registry g =
      map_err GovernanceError.voter_unauthorized
        (check_role Text is_empty normalize_id registry voter Role.operator)
        (elim (lookup proposal_id g.proposals) [
          | none ↦ refused GovernanceError.proposal_not_found
          | some p ↦
              if is_voting p.status
              then done
                  (record g { proposals = modify proposal_id (add_vote voter approve) g.proposals })
              else refused (GovernanceError.not_voting p.status)
        ])

  -- The votes in favour whose voter is a member.
  unfoldable pub yes_votes : List Text → Map Vote → ℕ
  yes_votes members [] = 0
  yes_votes members ((k, v) ∷ votes) =
      (if v.approve && has_id Text is_empty normalize_id (normalize_id v.voter) members
        then 1
        else 0)
      + yes_votes members votes

  abbrev pub set_status : ProposalStatus → Proposal → Proposal
  set_status status p = record p { status = status }

  abbrev pub is_due : ℕ → Proposal → Bool
  is_due height p = is_voting p.status && leb p.end_height height

  -- Whether a proposal that is due passes.
  unfoldable pub passes : GovernanceConfig Text is_empty normalize_id → Proposal → Bool
  passes (GovernanceConfig.dao members min_approvals) p =
      leb min_approvals (yes_votes members p.votes % u32_bound)
  passes (GovernanceConfig.admin_keys keys) p = true

  -- The first loop of `tick`: the proposals with their new status, and those to execute.
  unfoldable pub decide :
      GovernanceConfig Text is_empty normalize_id → ℕ → Map Proposal → Map Proposal × List ℕ
  decide config height [] = ([], [])
  decide config height ((k, p) ∷ rest) =
      let (decided, to_execute) = decide config height rest in
      if is_due height p
      then if passes config p
        then ((k, set_status ProposalStatus.passed p) ∷ decided, p.id ∷ to_execute)
        else ((k, set_status ProposalStatus.rejected p) ∷ decided, to_execute)
      else ((k, p) ∷ decided, to_execute)

  unfoldable pub voters : Map Vote → List Text
  voters [] = []
  voters ((k, v) ∷ votes) = v.voter ∷ voters votes

  -- The body of the second loop.
  unfoldable pub execute : (ℕ → ℕ) → ℕ → Map Proposal × Registry → Map Proposal × Registry
  execute tx_id id (proposals, registry) = elim (lookup id proposals) [
    | none ↦ (proposals, registry)
    | some p ↦
        elim (submit_parameter_upgrade Text is_empty normalize_id (tx_id id) p.patch
          p.activation_height p.proposer (voters p.votes) registry) [
            | Result.ok registry' ↦
                (modify id (set_status ProposalStatus.executed) proposals, registry')
            | Result.err e ↦ (proposals, registry)
          ]
  ]

  unfoldable pub execute_all : (ℕ → ℕ) → List ℕ → Map Proposal × Registry → Map Proposal × Registry
  execute_all tx_id [] state = state
  execute_all tx_id (id ∷ ids) state = execute_all tx_id ids (execute tx_id id state)

  unfoldable pub tick : (ℕ → ℕ) → ℕ → GovernanceService → Registry → GovernanceService × Registry
  tick tx_id height g registry =
      let (decided, to_execute) = decide registry.governance height g.proposals in
      let (proposals, registry') = execute_all tx_id to_execute (decided, registry) in
      (record g { proposals = proposals }, registry')
