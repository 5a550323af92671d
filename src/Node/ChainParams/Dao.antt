-- ===== src/Node/ChainParams/Dao.antt =====
-- The registry of network-node/src/chain_params.rs over its whole life, from a genesis document
-- whose governance is a DAO.
use axionvera_network.Base.{ℕ, Bool, ◌≡◌, refl, none, List, [], arith}
use axionvera_network.Node.ChainParams.{
  NetworkParameters, NetworkParametersPatch, Role, ok, dao, ChainParameterRegistry, check_role,
  submit_parameter_upgrade, grant_role, revoke_role, set_chain_tip_height, genesis_roles,
  from_genesis_document, effective_parameters_at, apply_until,
}

module _ (Text : Type 0) (is_empty : Text → Bool) (normalize_id : Text → ℕ) where
  abbrev Registry : Type 0
  Registry = ChainParameterRegistry Text is_empty normalize_id

  -- The calls that change the registry, where they succeed.
  pub data Change (r r' : Registry) : Type 0 where
    submitted :
        (tx_id : ℕ) (patch : NetworkParametersPatch) (height : ℕ) (proposer : Text)
        (voters : List Text)
        → submit_parameter_upgrade Text is_empty normalize_id tx_id patch height proposer voters r
          ≡ ok r'
        → Change r r'
    granted :
        (caller target : Text) (role : Role)
        → grant_role Text is_empty normalize_id caller target role r ≡ ok r'
        → Change r r'
    revoked :
        (caller target : Text)
        → revoke_role Text is_empty normalize_id caller target r ≡ ok r'
        → Change r r'
    advanced :
        (height : ℕ) → r' ≡ set_chain_tip_height Text is_empty normalize_id height r → Change r r'

  pub data Changes (r : Registry) : Registry → Type 0 where
    here : Changes r r
    next : {r' r'' : Registry} → Changes r r' → Change r' r'' → Changes r r''

  -- Nobody has a role, and nothing is scheduled.
  abbrev IsIdle : NetworkParameters → Registry → Type 0
  IsIdle parameters r =
      ((n : ℕ) → r.roles n ≡ none) × (r.activations ≡ []) × (r.genesis_parameters ≡ parameters)

  no_submit :
      (r r' : Registry) (tx_id : ℕ) (patch : NetworkParametersPatch) (height : ℕ) (proposer : Text)
      (voters : List Text)
      → r.roles (normalize_id proposer) ≡ none
      → submit_parameter_upgrade Text is_empty normalize_id tx_id patch height proposer voters r
        ≡ ok r'
      → ⊥
  unfolding submit_parameter_upgrade check_role
  no_submit r r' tx_id patch height proposer voters idle e = ground arith

  no_grant :
      (r r' : Registry) (caller target : Text) (role : Role)
      → r.roles (normalize_id caller) ≡ none
      → grant_role Text is_empty normalize_id caller target role r ≡ ok r'
      → ⊥
  unfolding grant_role check_role
  no_grant r r' caller target role idle e = ground arith

  no_revoke :
      (r r' : Registry) (caller target : Text)
      → r.roles (normalize_id caller) ≡ none
      → revoke_role Text is_empty normalize_id caller target r ≡ ok r'
      → ⊥
  unfolding revoke_role check_role
  no_revoke r r' caller target idle e = ground arith

  Change-IsIdle :
      (parameters : NetworkParameters) (r r' : Registry)
      → Change r r'
      → IsIdle parameters r
      → IsIdle parameters r'
  unfolding set_chain_tip_height
  Change-IsIdle parameters r r' (submitted tx_id patch height proposer voters e) (idle, _, _) =
      absurd (no_submit r r' tx_id patch height proposer voters (idle (normalize_id proposer)) e)
  Change-IsIdle parameters r r' (granted caller target role e) (idle, _, _) =
      absurd (no_grant r r' caller target role (idle (normalize_id caller)) e)
  Change-IsIdle parameters r r' (revoked caller target e) (idle, _, _) =
      absurd (no_revoke r r' caller target (idle (normalize_id caller)) e)
  Change-IsIdle parameters r r' (advanced height e) idle = rw e idle

  Changes-IsIdle :
      (parameters : NetworkParameters) (r r' : Registry)
      → Changes r r'
      → IsIdle parameters r
      → IsIdle parameters r'
  Changes-IsIdle parameters r r' here idle = idle
  Changes-IsIdle parameters r r' (next {r' = m} cs c) idle =
      Change-IsIdle parameters m r' c (Changes-IsIdle parameters r m cs idle)

  -- From a genesis document whose governance is a DAO, after any sequence of accepted upgrades,
  -- granted and revoked roles and advances of the tip, the parameters at every height are those
  -- of the genesis, and nobody has a role.
  pub dao_stays_idle :
      (members : List Text) (min_approvals delay : ℕ) (parameters : NetworkParameters)
      (r : Registry) (height : ℕ)
      → Changes
          (from_genesis_document Text is_empty normalize_id
            (dao members min_approvals)
            delay
            parameters)
          r
      → (effective_parameters_at Text is_empty normalize_id r height ≡ parameters)
        × ((n : ℕ) → r.roles n ≡ none)
  unfolding from_genesis_document effective_parameters_at apply_until genesis_roles
  dao_stays_idle members min_approvals delay parameters r height cs =
      let (idle, empty, same) = Changes-IsIdle parameters _ r cs ((λ n. refl), refl, refl) in
      (rw (empty, same) refl, idle)
