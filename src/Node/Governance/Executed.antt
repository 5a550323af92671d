-- ===== src/Node/Governance/Executed.antt =====
-- What has become of the proposals that network-node/src/governance.rs has executed.
use axionvera_network.Base.{
  ℕ, ◌≤◌, ◌≡◌, refl, sym, Bool, true, ◌&&◌, some, List, [], ◌∷◌, All, IsFresh, IsDistinct, length,
  arith, inl, inr, Bool-cases, if◌then◌else◌,
}
use axionvera_network.Base.Maps.{Map, lookup, keys, AllEntries-lookup}
use axionvera_network.Node.ChainParams.{GovernanceConfig, has_id}
use axionvera_network.Node.Governance.{
  ProposalStatus, Vote, Proposal, GovernanceService, yes_votes, passes,
}
use axionvera_network.Node.Governance.Approval.{AreKeyed, IsFair}
use axionvera_network.Node.Governance.History.{History, History-IsSound}

module _ (Text : Type 0) (is_empty : Text → Bool) (normalize_id : Text → ℕ)
    (members : List Text) where
  abbrev in_favour : Vote Text is_empty normalize_id → Bool
  in_favour v = v.approve && has_id Text is_empty normalize_id (normalize_id v.voter) members

  -- The identifiers of the members in favour.
  approving : Map (Vote Text is_empty normalize_id) → List ℕ
  approving [] = []
  approving ((k, v) ∷ votes) = let rest = approving votes in if in_favour v then k ∷ rest else rest

  length-approving :
      (votes : Map (Vote Text is_empty normalize_id))
      → length (approving votes) ≡ yes_votes Text is_empty normalize_id members votes
  unfolding approving yes_votes
  length-approving [] = refl
  length-approving ((k, v) ∷ votes) = ground (arith, length-approving votes)

  approving-IsFresh :
      (j : ℕ) (votes : Map (Vote Text is_empty normalize_id))
      → IsFresh j (keys votes)
      → IsFresh j (approving votes)
  unfolding approving
  approving-IsFresh j [] fresh = tt
  approving-IsFresh j ((k, v) ∷ votes) (apart, fresh) =
      ground (arith, approving-IsFresh j votes fresh)

  approving-IsDistinct :
      (votes : Map (Vote Text is_empty normalize_id))
      → IsDistinct (keys votes)
      → IsDistinct (approving votes)
  unfolding approving
  approving-IsDistinct [] d = tt
  approving-IsDistinct ((k, v) ∷ votes) (fresh, d) =
      ground (arith, approving-IsDistinct votes d, approving-IsFresh k votes fresh)

  -- Each identifier is that of a member, and stands over a vote in favour by this member.
  abbrev pub AreInFavour : Map (Vote Text is_empty normalize_id) → List ℕ → Type 0
  AreInFavour votes = All (λ i.
      (has_id Text is_empty normalize_id i members ≡ true)
      × ((v : Vote Text is_empty normalize_id) × (lookup i votes ≡ some v)
          × (v.approve ≡ true)
          × (normalize_id v.voter ≡ i)))

  AreInFavour-past :
      (k : ℕ) (v : Vote Text is_empty normalize_id) (votes : Map (Vote Text is_empty normalize_id))
      (ids : List ℕ)
      → IsFresh k ids
      → AreInFavour votes ids
      → AreInFavour ((k, v) ∷ votes) ids
  unfolding lookup
  AreInFavour-past k v votes [] fresh a = tt
  AreInFavour-past k v votes (i ∷ ids) (apart, fresh) ((member, (w, found, yes_vote, same)), a) =
      ((member, (w, ground arith, yes_vote, same)), AreInFavour-past k v votes ids fresh a)

  approving-AreInFavour :
      (votes : Map (Vote Text is_empty normalize_id))
      → AreKeyed Text is_empty normalize_id votes
      → AreInFavour votes (approving votes)
  unfolding approving lookup
  approving-AreInFavour [] keyed = tt
  approving-AreInFavour ((k, v) ∷ votes) ((same, keyed), (fresh, d)) =
      let rest =
        AreInFavour-past k v votes (approving votes) (approving-IsFresh k votes fresh)
          (approving-AreInFavour votes (keyed, d)) in
      elim (Bool-cases (in_favour v)) [
        | inl yes_vote ↦
            rw (yes_vote, approving)
              ((ground arith, (v, ground arith, ground arith, sym same)), rest)
        | inr other ↦ rw (other, approving) rest
      ]

  -- In every history under DAO governance, in which new proposals have new identifiers, a
  -- proposal that is executed has votes in favour by distinct members, at least as many as
  -- approvals are required.
  pub executed_approved :
      (min_approvals id : ℕ) (g : GovernanceService Text is_empty normalize_id)
      (p : Proposal Text is_empty normalize_id)
      → History Text is_empty normalize_id (GovernanceConfig.dao members min_approvals) g
      → lookup id g.proposals ≡ some p
      → p.status ≡ ProposalStatus.executed
      → (ids : List ℕ) × IsDistinct ids × AreInFavour p.votes ids × (min_approvals ≤ length ids)
  unfolding passes
  executed_approved min_approvals id g p h found executed =
      let config = GovernanceConfig.dao members min_approvals in
      let sound = History-IsSound Text is_empty normalize_id config h in
      let (same, adopted, (keyed, d)) =
        AllEntries-lookup (IsFair Text is_empty normalize_id config) id p g.proposals sound.fair
          found in
      let enough = adopted (rw executed refl) in
      (
        approving p.votes,
        approving-IsDistinct p.votes d,
        approving-AreInFavour p.votes (keyed, d),
        ground (arith, length-approving p.votes),
      )
