-- ===== src/Node/ChainParams.antt =====
-- network-node/src/chain_params.rs: the parameters of the network, the upgrades that are scheduled
-- by block height, and who may schedule them. A text is anything that `normalize_id` maps to an
-- identifier, the trimmed text in lower case; the identifier 0 stands for the empty one.
-- The chain's name is only read back, and is left out.
pub mod Schedule
pub mod Authority
pub mod Dao
use axionvera_network.Base.{
  ℕ, ◌+◌, ◌%◌, Bool, true, false, not, ◌||◌, Option, none, some, List, [], ◌∷◌, ◌++◌, ltb, leb,
  ◌==◌, if◌then◌else◌, get_or, update,
}
use axionvera_network.Base.I128.{u32_bound, u64_bound}

pub record NetworkParameters : Type 0 where
  pub max_block_body_bytes : ℕ
  pub min_base_fee : ℕ
  pub max_transactions_per_block : ℕ

pub record NetworkParametersPatch : Type 0 where
  pub max_block_body_bytes : Option ℕ
  pub min_base_fee : Option ℕ
  pub max_transactions_per_block : Option ℕ

abbrev pub apply_patch : NetworkParameters → NetworkParametersPatch → NetworkParameters
apply_patch p patch = record {
  max_block_body_bytes = get_or patch.max_block_body_bytes p.max_block_body_bytes;
  min_base_fee = get_or patch.min_base_fee p.min_base_fee;
  max_transactions_per_block = get_or patch.max_transactions_per_block p.max_transactions_per_block;
}

-- `if add.field.is_some() { into.field = add.field }`
abbrev pub merge_field : Option ℕ → Option ℕ → Option ℕ
merge_field into none = into
merge_field into (some a) = some a

abbrev pub merge_patches : NetworkParametersPatch → NetworkParametersPatch → NetworkParametersPatch
merge_patches into add = record {
  max_block_body_bytes = merge_field into.max_block_body_bytes add.max_block_body_bytes;
  min_base_fee = merge_field into.min_base_fee add.min_base_fee;
  max_transactions_per_block =
      merge_field into.max_transactions_per_block add.max_transactions_per_block;
}

abbrev pub is_some : Option ℕ → Bool
is_some none = false
is_some (some a) = true

abbrev pub patch_has_changes : NetworkParametersPatch → Bool
patch_has_changes p =
    is_some p.max_block_body_bytes || is_some p.min_base_fee || is_some p.max_transactions_per_block

pub data Role : Type 0 where
  admin operator : Role

-- The messages of the `String` errors.
pub data UpgradeError : Type 0 where
  no_change no_role insufficient_role voters_not_empty no_proposer not_admin_key : UpgradeError
  zero_approvals unknown_voter too_few_approvals too_early role_not_found : UpgradeError

pub data Result (A : Type 0) : Type 0 where
  ok : A → Result A
  err : UpgradeError → Result A

infixl 5 ◌>>=◌ ◌>>◌
abbrev pub ◌>>=◌ : {A B : Type 0} → Result A → (A → Result B) → Result B
ok a >>= f = f a
err e >>= f = err e

abbrev pub ◌>>◌ : {B : Type 0} → Result (Unit {0}) → Result B → Result B
m >> k = m >>= λ _. k

abbrev pub reject_if : Bool → UpgradeError → Result (Unit {0})
reject_if true e = err e
reject_if false e = ok tt

pub record ScheduledUpgradeRecord : Type 0 where
  pub transaction_id : ℕ
  pub announced_at_height : ℕ
  pub activation_epoch_height : ℕ
  pub patch : NetworkParametersPatch

-- The B-tree map by height, in the order of its keys.
abbrev pub Activations : Type 0
Activations = List (ℕ × NetworkParametersPatch)

-- `entry(height).and_modify(merge).or_insert(patch)`
unfoldable pub schedule : ℕ → NetworkParametersPatch → Activations → Activations
schedule h patch [] = (h, patch) ∷ []
schedule h patch ((k, old) ∷ rest) =
    let later = schedule h patch rest in
    if h == k
    then (k, merge_patches old patch) ∷ rest
    else if ltb h k
    then (h, patch) ∷ (k, old) ∷ rest
    else (k, old) ∷ later

-- The loop of `effective_parameters_at`.
unfoldable pub apply_until : ℕ → NetworkParameters → Activations → NetworkParameters
apply_until height p [] = p
apply_until height p ((h, patch) ∷ rest) =
    apply_until height (if leb h height then apply_patch p patch else p) rest

module _ (Text : Type 0) (is_empty : Text → Bool) (normalize_id : Text → ℕ) where
  pub data GovernanceConfig : Type 0 where
    admin_keys : List Text → GovernanceConfig
    dao : (members : List Text) (min_approvals : ℕ) → GovernanceConfig

  pub record ChainParameterRegistry : Type 0 where
    pub governance : GovernanceConfig
    pub min_activation_delay_blocks : ℕ
    pub current_height : ℕ
    pub genesis_parameters : NetworkParameters
    pub activations : Activations
    pub upgrade_history : List ScheduledUpgradeRecord
    pub roles : ℕ → Option Role

  unfoldable pub effective_parameters_at : ChainParameterRegistry → ℕ → NetworkParameters
  effective_parameters_at r height = apply_until height r.genesis_parameters r.activations

  unfoldable pub check_role : ChainParameterRegistry → Text → Role → Result (Unit {0})
  check_role r address required_role = elim (r.roles (normalize_id address)) [
    | none ↦ err UpgradeError.no_role
    | some Role.admin ↦ ok tt
    | some Role.operator ↦ elim required_role [
      | Role.operator ↦ ok tt
      | Role.admin ↦ err UpgradeError.insufficient_role
    ]
  ]

  -- Some text of the list has this identifier.
  unfoldable pub has_id : ℕ → List Text → Bool
  has_id n [] = false
  has_id n (t ∷ ts) = normalize_id t == n || has_id n ts

  unfoldable pub is_seen : ℕ → List ℕ → Bool
  is_seen n [] = false
  is_seen n (m ∷ ms) = m == n || is_seen n ms

  unfoldable pub any_text : List Text → Bool
  any_text [] = false
  any_text (t ∷ ts) = not (is_empty t) || any_text ts

  -- The loop over the voters, with the identifiers that were seen and their number.
  unfoldable pub count_votes : List Text → List ℕ → ℕ → List Text → Result ℕ
  count_votes members seen valid [] = ok valid
  count_votes members seen valid (v ∷ vs) =
      let n = normalize_id v in
      let same = count_votes members seen valid vs in
      let more = count_votes members (n ∷ seen) ((valid + 1) % u32_bound) vs in
      if n == 0
      then same
      else if not (has_id n members)
      then err UpgradeError.unknown_voter
      else if is_seen n seen
      then same
      else more

  unfoldable pub authorize_upgrade : GovernanceConfig → Text → List Text → Result (Unit {0})
  authorize_upgrade (admin_keys keys) proposer voters = do
    reject_if (any_text voters) UpgradeError.voters_not_empty
    reject_if (normalize_id proposer == 0) UpgradeError.no_proposer
    reject_if (not (has_id (normalize_id proposer) keys)) UpgradeError.not_admin_key
  authorize_upgrade (dao members min_approvals) proposer voters = do
    reject_if (min_approvals == 0) UpgradeError.zero_approvals
    valid ← count_votes members [] 0 voters
    reject_if (ltb valid min_approvals) UpgradeError.too_few_approvals

  -- `tip.saturating_add(delay)`
  abbrev pub saturating_add : ℕ → ℕ → ℕ
  saturating_add a b = if ltb (a + b) u64_bound then a + b else 18446744073709551615

  -- The identifier of the transaction is drawn at random by the caller.
  unfoldable pub submit_parameter_upgrade :
      ℕ
      → NetworkParametersPatch
      → ℕ
      → Text
      → List Text
      → ChainParameterRegistry
      → Result ChainParameterRegistry
  submit_parameter_upgrade tx_id patch height proposer voters r = do
    reject_if (not (patch_has_changes patch)) UpgradeError.no_change
    check_role r proposer Role.operator
    authorize_upgrade r.governance proposer voters
    reject_if (ltb height (saturating_add r.current_height r.min_activation_delay_blocks))
        UpgradeError.too_early
    ok (record r {
      activations = schedule height patch r.activations;
      upgrade_history =
          r.upgrade_history
          ++ record {
            transaction_id = tx_id;
            announced_at_height = r.current_height;
            activation_epoch_height = height;
            patch = patch;
          }
            ∷ [];
    })

  unfoldable pub grant_role :
      Text → Text → Role → ChainParameterRegistry → Result ChainParameterRegistry
  grant_role caller target role r =
      check_role r caller Role.admin
      >> ok (record r { roles = update r.roles (normalize_id target) (some role) })

  unfoldable pub revoke_role : Text → Text → ChainParameterRegistry → Result ChainParameterRegistry
  revoke_role caller target r =
      check_role r caller Role.admin >> elim (r.roles (normalize_id target)) [
        | none ↦ err UpgradeError.role_not_found
        | some role ↦ ok (record r { roles = update r.roles (normalize_id target) none })
      ]

  unfoldable pub set_chain_tip_height : ℕ → ChainParameterRegistry → ChainParameterRegistry
  set_chain_tip_height height r = record r { current_height = height }

  unfoldable pub active_parameters : ChainParameterRegistry → NetworkParameters
  active_parameters r = effective_parameters_at r r.current_height

  -- The admin keys of the genesis document are the first admins.
  unfoldable pub seed_roles : List Text → (ℕ → Option Role) → ℕ → Option Role
  seed_roles [] roles = roles
  seed_roles (key ∷ keys) roles =
      seed_roles keys (update roles (normalize_id key) (some Role.admin))

  unfoldable pub genesis_roles : GovernanceConfig → ℕ → Option Role
  genesis_roles (admin_keys keys) = seed_roles keys (λ n. none)
  genesis_roles (dao members min_approvals) = λ n. none

  unfoldable pub from_genesis_document :
      GovernanceConfig → ℕ → NetworkParameters → ChainParameterRegistry
  from_genesis_document governance min_activation_delay_blocks parameters = record {
    governance = governance;
    min_activation_delay_blocks = min_activation_delay_blocks;
    current_height = 0;
    genesis_parameters = parameters;
    activations = [];
    upgrade_history = [];
    roles = genesis_roles governance;
  }

  -- `pending_upgrades`, in the order of the history.
  unfoldable pub later_than : ℕ → List ScheduledUpgradeRecord → List ScheduledUpgradeRecord
  later_than height [] = []
  later_than height (u ∷ us) =
      let rest = later_than height us in
      if ltb height u.activation_epoch_height then u ∷ rest else rest

  unfoldable pub pending_upgrades : ChainParameterRegistry → List ScheduledUpgradeRecord
  pending_upgrades r = later_than r.current_height r.upgrade_history
