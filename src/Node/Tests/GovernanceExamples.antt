-- ===== src/Node/Tests/GovernanceExamples.antt =====
-- The theorems on the governance service, network-node/src/governance.rs, at concrete proposals.
use axionvera_network.Base.{
  ℕ, ◌≡◌, ◌≤◌, refl, sym, true, false, none, some, List, [], ◌∷◌, length, IsDistinct,
}
use axionvera_network.Base.Maps
use axionvera_network.Base.Maps.{Map, lookup}
use axionvera_network.Node.ChainParams
use axionvera_network.Node.ChainParams.{Role, UpgradeError, GovernanceConfig, dao}
use axionvera_network.Node.ChainParams.Dao
use axionvera_network.Node.Governance
use axionvera_network.Node.Governance.{
  ProposalStatus, GovernanceError, refused, done, Vote, Proposal, GovernanceService, new_service,
  propose, cast_vote, tick, voters,
}
use axionvera_network.Node.Governance.History
use axionvera_network.Node.Governance.Executed.{AreInFavour, executed_approved}
use axionvera_network.Node.Governance.Blocking
use axionvera_network.Node.Governance.Blocking.{is_blocked, verdict, tick_blocked}
use axionvera_network.Node.Governance.Genesis.{dao_cannot_govern}
use axionvera_network.Node.Tests.{empty, same, Registry, genesis, cheaper, advanced_dao}

-- Everybody has the role of an operator; two of the members 1, 2 and 3 must approve.
abbrev council : GovernanceConfig ℕ empty same
council = dao (1 ∷ 2 ∷ 3 ∷ []) 2

abbrev registry : Registry
registry = record {
  governance = council;
  min_activation_delay_blocks = 1;
  current_height = 10;
  genesis_parameters = genesis;
  activations = [];
  upgrade_history = [];
  roles = λ n. some Role.operator;
}

abbrev vote_of : ℕ → Vote ℕ empty same
vote_of voter = record { voter = voter; approve = true; weight = 1 }

-- Proposal 7 of member 1, on which the vote ends at height 15.
abbrev proposal : Map (Vote ℕ empty same) → ProposalStatus → Proposal ℕ empty same
proposal votes status = record {
  id = 7;
  proposer = 1;
  patch = cheaper;
  activation_height = 50;
  status = status;
  votes = votes;
  end_height = 15;
}

abbrev service : Map (Vote ℕ empty same) → ProposalStatus → GovernanceService ℕ empty same
service votes status = record { proposals = (7, proposal votes status) ∷ []; voting_duration = 5 }

abbrev both : Map (Vote ℕ empty same)
both = (1, vote_of 1) ∷ (3, vote_of 3) ∷ []

proposing :
    propose ℕ empty same 7 1 cheaper 50 10 registry (new_service ℕ empty same 5)
    ≡ done (service [] ProposalStatus.voting)
unfolding propose ChainParams.check_role Maps.insert
proposing = refl

voting_first :
    cast_vote ℕ empty same 7 1 true registry (service [] ProposalStatus.voting)
    ≡ done (service ((1, vote_of 1) ∷ []) ProposalStatus.voting)
unfolding cast_vote ChainParams.check_role Maps.insert Maps.modify lookup
voting_first = refl

voting_second :
    cast_vote ℕ empty same 7 3 true registry (service ((1, vote_of 1) ∷ []) ProposalStatus.voting)
    ≡ done (service both ProposalStatus.voting)
unfolding cast_vote ChainParams.check_role Maps.insert Maps.modify lookup
voting_second = refl

unused : lookup 7 (new_service ℕ empty same 5).proposals ≡ none
unfolding lookup
unused = refl

ticking :
    (tick ℕ empty same (λ id. 1) 15 (service both ProposalStatus.voting) registry).0
    ≡ service both ProposalStatus.executed
unfolding tick Governance.decide Governance.passes Governance.yes_votes Governance.execute_all
    Governance.execute voters lookup Maps.modify ChainParams.has_id ChainParams.check_role
    ChainParams.is_seen ChainParams.count_votes ChainParams.authorize_upgrade ChainParams.schedule
    ChainParams.submit_parameter_upgrade
ticking = refl

executed-History : History.History ℕ empty same council (service both ProposalStatus.executed)
executed-History = (
  5,
  History.next
      (History.next
        (History.next
          (History.next History.here (History.proposed 7 1 cheaper 50 10 registry unused proposing))
          (History.voted 7 1 true registry voting_first))
        (History.voted 7 3 true registry voting_second))
      (History.ticked (λ id. 1) 15 registry refl (sym ticking)),
)

executed_found :
    lookup 7 (service both ProposalStatus.executed).proposals
    ≡ some (proposal both ProposalStatus.executed)
unfolding lookup
executed_found = refl

executed_approved_example :
    (ids : List ℕ) × IsDistinct ids
    × AreInFavour ℕ empty same (1 ∷ 2 ∷ 3 ∷ []) both ids
    × (2 ≤ length ids)
executed_approved_example =
    executed_approved ℕ empty same (1 ∷ 2 ∷ 3 ∷ []) 2 7 (service both ProposalStatus.executed)
      (proposal both ProposalStatus.executed) executed-History executed_found refl

-- An operator who is no member has voted too, and against.
abbrev with_outsider : Map (Vote ℕ empty same)
with_outsider = (1, vote_of 1) ∷ (3, vote_of 3) ∷ (9, record (vote_of 9) { approve = false }) ∷ []

outsider_found :
    lookup 7 (service with_outsider ProposalStatus.voting).proposals
    ≡ some (proposal with_outsider ProposalStatus.voting)
unfolding lookup
outsider_found = refl

outsider_blocks : is_blocked ℕ empty same council (voters ℕ empty same with_outsider) ≡ true
unfolding voters Blocking.has_outsider ChainParams.has_id
outsider_blocks = refl

abbrev ticked : GovernanceService ℕ empty same
ticked = (tick ℕ empty same (λ id. 1) 15 (service with_outsider ProposalStatus.voting) registry).0

tick_blocked_example :
    lookup 7 ticked.proposals
    ≡ some (verdict ℕ empty same council 15 (proposal with_outsider ProposalStatus.voting))
tick_blocked_example =
    tick_blocked ℕ empty same council 7 (proposal with_outsider ProposalStatus.voting)
      (service with_outsider ProposalStatus.voting) (λ id. 1) 15 registry refl outsider_found
      outsider_blocks

-- The verdict is that it has passed.
verdict_passed :
    verdict ℕ empty same council 15 (proposal with_outsider ProposalStatus.voting)
    ≡ proposal with_outsider ProposalStatus.passed
unfolding Governance.passes Governance.yes_votes ChainParams.has_id
verdict_passed = refl

dao_cannot_govern_example :
    (propose ℕ empty same 7 1 cheaper 50 10 advanced_dao (service [] ProposalStatus.voting)
      ≡ refused (GovernanceError.proposer_unauthorized UpgradeError.no_role))
    × (cast_vote ℕ empty same 7 1 true advanced_dao (service [] ProposalStatus.voting)
        ≡ refused (GovernanceError.voter_unauthorized UpgradeError.no_role))
dao_cannot_govern_example =
    dao_cannot_govern ℕ empty same (1 ∷ 2 ∷ []) 2 1 genesis advanced_dao
      (Dao.next Dao.here (Dao.advanced 10 refl)) (service [] ProposalStatus.voting) 7 7 1 cheaper 50
      10 true
