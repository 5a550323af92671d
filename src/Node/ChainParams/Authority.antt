-- ===== src/Node/ChainParams/Authority.antt =====
-- Who may schedule an upgrade, in network-node/src/chain_params.rs.
use axionvera_network.Base.{
  ℕ, ◌+◌, ◌%◌, ◌⊎◌, ◌≤◌, ◌<◌, ◌≡◌, ◌≢◌, refl, true, false, Bool, Bool-cases, inl, inr, List, [],
  ◌∷◌, All, IsDistinct, IsFresh, length, ◌==◌, arith,
}
use axionvera_network.Base.I128.{u32_bound}
use axionvera_network.Node.ChainParams.{
  NetworkParametersPatch, Role, ChainParameterRegistry, check_role, submit_parameter_upgrade,
  Result, UpgradeError, ok, err, admin_keys, dao, has_id, is_seen, any_text, count_votes,
  authorize_upgrade,
}

pub Result-cases :
    {A : Type 0} (o : Result A) → ((a : A) × (o ≡ ok a)) ⊎ ((x : UpgradeError) × (o ≡ err x))
Result-cases (ok a) = inl (a, refl)
Result-cases (err x) = inr (x, refl)

module _ (Text : Type 0) (is_empty : Text → Bool) (normalize_id : Text → ℕ) where
  -- Each identifier is that of a member and of a voter.
  abbrev pub AreBacked : List Text → List Text → List ℕ → Type 0
  AreBacked members voters = All (λ i.
      (has_id Text is_empty normalize_id i members ≡ true)
      × (has_id Text is_empty normalize_id i voters ≡ true))

  abbrev AreUnseen : List ℕ → List ℕ → Type 0
  AreUnseen seen = All (λ i. is_seen Text is_empty normalize_id i seen ≡ false)

  AreBacked-more :
      (members vs : List Text) (v : Text) (ids : List ℕ)
      → AreBacked members vs ids
      → AreBacked members (v ∷ vs) ids
  unfolding has_id
  AreBacked-more members vs v [] a = tt
  AreBacked-more members vs v (i ∷ ids) (first, a) =
      ground (arith, AreBacked-more members vs v ids a)

  unseen-IsFresh :
      (n : ℕ) (seen ids : List ℕ) → AreUnseen (n ∷ seen) ids → IsFresh n ids × AreUnseen seen ids
  unfolding is_seen
  unseen-IsFresh n seen [] a = (tt, tt)
  unseen-IsFresh n seen (i ∷ ids) (first, a) = ground (arith, unseen-IsFresh n seen ids a)

  -- What a count stands for: distinct identifiers, each of a member and of a voter.
  abbrev Counted : List Text → List ℕ → ℕ → List Text → ℕ → Type 0
  Counted members seen valid vs n =
      (ids : List ℕ) × IsDistinct ids
      × AreUnseen seen ids
      × AreBacked members vs ids
      × (n ≤ valid + length ids)

  Counted-more :
      (members : List Text) (seen : List ℕ) (valid n : ℕ) (v : Text) (vs : List Text)
      → Counted members seen valid vs n
      → Counted members seen valid (v ∷ vs) n
  Counted-more members seen valid n v vs (ids, distinct, unseen, backed, le) =
      (ids, distinct, unseen, AreBacked-more members vs v ids backed, le)

  Counted-new :
      (members : List Text) (seen : List ℕ) (valid n : ℕ) (v : Text) (vs : List Text)
      → has_id Text is_empty normalize_id (normalize_id v) members ≡ true
      → is_seen Text is_empty normalize_id (normalize_id v) seen ≡ false
      → Counted members (normalize_id v ∷ seen) ((valid + 1) % u32_bound) vs n
      → Counted members seen valid (v ∷ vs) n
  unfolding has_id
  Counted-new members seen valid n v vs member new (ids, distinct, unseen, backed, le) =
      let (fresh, others) = unseen-IsFresh (normalize_id v) seen ids unseen in
      (
        normalize_id v ∷ ids,
        (fresh, distinct),
        (new, others),
        ((member, ground arith), AreBacked-more members vs v ids backed),
        omega (arith, le),
      )

  count_votes-Counted :
      (members : List Text) (seen : List ℕ) (valid : ℕ) (voters : List Text) (n : ℕ)
      → count_votes Text is_empty normalize_id members seen valid voters ≡ ok n
      → Counted members seen valid voters n
  unfolding count_votes
  count_votes-Counted members seen valid [] n e = ([], tt, tt, tt, ground arith)
  count_votes-Counted members seen valid (v ∷ vs) n e = elim (Bool-cases (normalize_id v == 0)) [
    | inl empty ↦
        Counted-more members seen valid n v vs
          (count_votes-Counted members seen valid vs n (ground arith))
    | inr named ↦ elim (Bool-cases (has_id Text is_empty normalize_id (normalize_id v) members)) [
      | inl member ↦ elim (Bool-cases (is_seen Text is_empty normalize_id (normalize_id v) seen)) [
        | inl again ↦
            Counted-more members seen valid n v vs
              (count_votes-Counted members seen valid vs n (ground arith))
        | inr new ↦ Counted-new members seen valid n v vs member new (
            count_votes-Counted members (normalize_id v ∷ seen) ((valid + 1) % u32_bound) vs n
              (ground arith))
      ]
      | inr unknown ↦ absurd (unknown_fails unknown named)
    ]
  ]
    where
      unknown_fails :
          has_id Text is_empty normalize_id (normalize_id v) members ≡ false
          → normalize_id v == 0 ≡ false
          → ⊥
      unknown_fails unknown named = ground arith

  authorized :
      (members : List Text) (min_approvals : ℕ) (proposer : Text) (voters : List Text)
      → authorize_upgrade Text is_empty normalize_id (dao members min_approvals) proposer voters
        ≡ ok tt
      → (n : ℕ) × (count_votes Text is_empty normalize_id members [] 0 voters ≡ ok n)
        × (min_approvals ≤ n)
        × (0 < min_approvals)
  unfolding authorize_upgrade
  authorized members min_approvals proposer voters e =
      elim (Result-cases (count_votes Text is_empty normalize_id members [] 0 voters)) [
        | inl (n, counted) ↦ (n, counted, ground arith, ground arith)
        | inr (x, failed) ↦ absurd (stuck x failed)
      ]
    where
      stuck :
          (x : UpgradeError)
          → count_votes Text is_empty normalize_id members [] 0 voters ≡ err x
          → ⊥
      stuck x failed = ground arith

  -- Under DAO governance an upgrade is authorized only where the required number of approvals
  -- is positive and at most the number of some distinct identifiers, each of a member and of a
  -- voter.
  pub authorize_upgrade_quorum :
      (members : List Text) (min_approvals : ℕ) (proposer : Text) (voters : List Text)
      → authorize_upgrade Text is_empty normalize_id (dao members min_approvals) proposer voters
        ≡ ok tt
      → (ids : List ℕ) × IsDistinct ids
        × AreBacked members voters ids
        × (0 < min_approvals)
        × (min_approvals ≤ length ids)
  authorize_upgrade_quorum members min_approvals proposer voters e =
      let (n, counted, enough, positive) = authorized members min_approvals proposer voters e in
      let (ids, distinct, _, backed, le) = count_votes-Counted members [] 0 voters n counted in
      (ids, distinct, backed, positive, omega (arith, le, enough))

  -- Under the governance of admin keys an upgrade is accepted only from a proposer that is one
  -- of the keys, with no named voter, and with a role of operator at least.
  pub submit_needs_key :
      (tx_id : ℕ) (patch : NetworkParametersPatch) (height : ℕ) (proposer : Text)
      (voters keys : List Text) (r r' : ChainParameterRegistry Text is_empty normalize_id)
      → r.governance ≡ admin_keys keys
      → submit_parameter_upgrade Text is_empty normalize_id tx_id patch height proposer voters r
        ≡ ok r'
      → (has_id Text is_empty normalize_id (normalize_id proposer) keys ≡ true)
        × (normalize_id proposer ≢ 0)
        × (any_text Text is_empty normalize_id voters ≡ false)
        × (check_role Text is_empty normalize_id r proposer Role.operator ≡ ok tt)
  unfolding submit_parameter_upgrade authorize_upgrade
  submit_needs_key tx_id patch height proposer voters keys r r' g e = ground arith
