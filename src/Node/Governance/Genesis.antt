-- ===== src/Node/Governance/Genesis.antt =====
-- The service of network-node/src/governance.rs beside a registry whose governance is a DAO from the
-- genesis document on.
use axionvera_network.Base.{ℕ, Bool, ◌≡◌, none, List, arith}
use axionvera_network.Node.ChainParams.{
  NetworkParameters, NetworkParametersPatch, Role, UpgradeError, Result, dao,
  ChainParameterRegistry, check_role, from_genesis_document,
}
use axionvera_network.Node.ChainParams.Dao.{Changes, dao_stays_idle}
use axionvera_network.Node.Governance.{
  GovernanceError, refused, GovernanceService, propose, cast_vote,
}

module _ (Text : Type 0) (is_empty : Text → Bool) (normalize_id : Text → ℕ) where
  no_role :
      (r : ChainParameterRegistry Text is_empty normalize_id) (address : Text)
      → r.roles (normalize_id address) ≡ none
      → check_role Text is_empty normalize_id r address Role.operator
        ≡ Result.err UpgradeError.no_role
  unfolding check_role
  no_role r address idle = ground arith

  -- From a genesis document whose governance is a DAO, and after any upgrades, grants,
  -- revocations and advances of the tip, every proposal and every vote is refused for want of a
  -- role.
  pub dao_cannot_govern :
      (members : List Text) (min_approvals delay : ℕ) (parameters : NetworkParameters)
      (r : ChainParameterRegistry Text is_empty normalize_id)
      → Changes Text is_empty normalize_id
          (from_genesis_document Text is_empty normalize_id
            (dao members min_approvals)
            delay
            parameters)
          r
      → (g : GovernanceService Text is_empty normalize_id) (uuid id : ℕ) (who : Text)
        (patch : NetworkParametersPatch) (activation current : ℕ) (approve : Bool)
      → (propose Text is_empty normalize_id uuid who patch activation current r g
          ≡ refused (GovernanceError.proposer_unauthorized UpgradeError.no_role))
        × (cast_vote Text is_empty normalize_id id who approve r g
            ≡ refused (GovernanceError.voter_unauthorized UpgradeError.no_role))
  unfolding propose cast_vote
  dao_cannot_govern members min_approvals delay parameters r cs g uuid id who patch activation
        current approve =
      let (same, idle) =
        dao_stays_idle Text is_empty normalize_id members min_approvals delay parameters r 0 cs in
      let e = no_role r who (idle (normalize_id who)) in (rw e, rw e)
