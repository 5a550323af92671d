-- ===== src/Node/Tests.antt =====
-- The theorems on the chain parameters, at registries whose texts are numbers.
mod ConsensusExamples
mod GovernanceExamples
mod HorizonExamples
mod ServiceExamples
mod ServerExamples
use axionvera_network.Base.{
  ℕ, Bool, ◌≡◌, ◌≢◌, ◌<◌, ◌≤◌, refl, true, false, none, some, List, [], ◌∷◌, length, IsDistinct,
  ◌==◌, arith, if◌then◌else◌,
}
use axionvera_network.Node.ChainParams
use axionvera_network.Node.ChainParams.{
  NetworkParameters, NetworkParametersPatch, apply_patch, Role, ok, GovernanceConfig,
  ChainParameterRegistry, Activations, admin_keys, dao, has_id, any_text, check_role,
  authorize_upgrade, from_genesis_document, effective_parameters_at, submit_parameter_upgrade,
}
use axionvera_network.Node.ChainParams.Schedule.{IsAscending, submit_keeps_past, submit_applies}
use axionvera_network.Node.ChainParams.Authority.{
  AreBacked, authorize_upgrade_quorum, submit_needs_key,
}
use axionvera_network.Node.ChainParams.Dao.{advanced, here, next, dao_stays_idle}

abbrev pub empty : ℕ → Bool
empty t = t == 0

abbrev pub same : ℕ → ℕ
same t = t

abbrev pub Registry : Type 0
Registry = ChainParameterRegistry ℕ empty same

abbrev pub genesis : NetworkParameters
genesis = record {
  max_block_body_bytes = 1_000_000;
  min_base_fee = 50;
  max_transactions_per_block = 500;
}

abbrev pub cheaper : NetworkParametersPatch
cheaper = record {
  max_block_body_bytes = none;
  min_base_fee = some 10;
  max_transactions_per_block = none;
}

-- The key 7 is an admin, and the tip is 100.
abbrev before : Registry
before = record {
  governance = admin_keys (7 ∷ []);
  min_activation_delay_blocks = 5;
  current_height = 100;
  genesis_parameters = genesis;
  activations = [];
  upgrade_history = [];
  roles = λ n. if n == 7 then some Role.admin else none;
}

abbrev after : Registry
after = record before {
  activations = (110, cheaper) ∷ [];
  upgrade_history =
      record {
        transaction_id = 1;
        announced_at_height = 100;
        activation_epoch_height = 110;
        patch = cheaper;
      }
      ∷ [];
}

accepted : submit_parameter_upgrade ℕ empty same 1 cheaper 110 7 [] before ≡ ok after
unfolding submit_parameter_upgrade check_role authorize_upgrade has_id any_text ChainParams.schedule
accepted = refl

submit_applies_example :
    (effective_parameters_at ℕ empty same after 120
      ≡ apply_patch (effective_parameters_at ℕ empty same before 120) cheaper)
    × IsAscending ((110, cheaper) ∷ [])
submit_applies_example =
    submit_applies ℕ empty same 1 cheaper 110 7 [] before after accepted 120 tt (omega arith) tt

two_of_three : authorize_upgrade ℕ empty same (dao (1 ∷ 2 ∷ 3 ∷ []) 2) 9 (1 ∷ 1 ∷ 3 ∷ []) ≡ ok tt
unfolding authorize_upgrade ChainParams.count_votes has_id ChainParams.is_seen
two_of_three = refl

authorize_upgrade_quorum_example :
    (ids : List ℕ) × IsDistinct ids
    × AreBacked ℕ empty same (1 ∷ 2 ∷ 3 ∷ []) (1 ∷ 1 ∷ 3 ∷ []) ids
    × (0 < 2)
    × (2 ≤ length ids)
authorize_upgrade_quorum_example =
    authorize_upgrade_quorum ℕ empty same (1 ∷ 2 ∷ 3 ∷ []) 2 9 (1 ∷ 1 ∷ 3 ∷ []) two_of_three

abbrev pub advanced_dao : Registry
advanced_dao =
    ChainParams.set_chain_tip_height ℕ empty same 10
      (from_genesis_document ℕ empty same (dao (1 ∷ 2 ∷ []) 2) 1 genesis)
