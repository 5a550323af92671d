-- ===== src/Node/Consensus/Cleanup.antt =====
-- The counts of network-node/src/consensus.rs: the outcome of a vote, expired proposals, and the
-- statistics.
use axionvera_network.Base.{
  ℕ, suc, ◌+◌, ◌≡◌, refl, ◌∙◌, Bool, true, false, List, [], ◌∷◌, ◌++◌, ltb, length, if◌then◌else◌,
  arith, Bool-cases, inl, inr, IsFresh, IsDistinct, ap,
}
use axionvera_network.Base.Maps.{modify}
use axionvera_network.Node.Consensus.{
  VoteType, ProposalStatus, Proposal, Vote, Config, Proposals, Votes, tally, final_status,
  has_lapsed, find_expired, mark_expired, set_status, get_stats, count_proposals, can_vote,
  is_approved, is_rejected, is_expired_status,
}

-- The votes of a kind.
abbrev count_type : (VoteType → Bool) → List Vote → ℕ
count_type test [] = 0
count_type test (v ∷ vs) = (if test v.vote_type then 1 else 0) + count_type test vs

abbrev is_approve : VoteType → Bool
is_approve VoteType.approve = true
is_approve VoteType.reject = false
is_approve VoteType.abstain = false

abbrev is_reject : VoteType → Bool
is_reject VoteType.reject = true
is_reject VoteType.approve = false
is_reject VoteType.abstain = false

tally_lem :
    (a r : ℕ) (vs : List Vote)
    → tally a r vs ≡ (a + count_type is_approve vs, r + count_type is_reject vs)
unfolding tally
tally_lem a r [] = ground arith
tally_lem a r (v ∷ vs) =
    ground (arith, tally_lem (a + 1) r vs, tally_lem a (r + 1) vs, tally_lem a r vs)

count_type-append :
    (test : VoteType → Bool) (vs ws : List Vote)
    → count_type test (vs ++ ws) ≡ count_type test vs + count_type test ws
count_type-append test [] ws = omega arith
count_type-append test (v ∷ vs) ws = omega (arith, count_type-append test vs ws)

-- The outcome does not depend on the order of two blocks of votes, and a proposal is approved
-- exactly when the votes for it outnumber those against, else rejected.
pub final_status_lem :
    (vs ws : List Vote)
    → (final_status (vs ++ ws) ≡ final_status (ws ++ vs))
      × (final_status vs ≡ (
          if ltb (count_type is_reject vs) (count_type is_approve vs)
          then ProposalStatus.approved
          else ProposalStatus.rejected))
unfolding final_status
final_status_lem vs ws = (
  ground (
    arith,
    tally_lem 0 0 (vs ++ ws),
    tally_lem 0 0 (ws ++ vs),
    count_type-append is_approve vs ws,
    count_type-append is_approve ws vs,
    count_type-append is_reject vs ws,
    count_type-append is_reject ws vs,
  ),
  ground (arith, tally_lem 0 0 vs),
)

-- A proposal after the marks.
abbrev pub settled : ℕ → Proposal → Proposal
settled now p = if has_lapsed now p then set_status ProposalStatus.expired p else p

abbrev pub settle_all : ℕ → Proposals → Proposals
settle_all now [] = []
settle_all now ((id, p) ∷ rest) = (id, settled now p) ∷ settle_all now rest

-- No key is listed twice, as in a hash map.
abbrev pub keys : Proposals → List ℕ
keys [] = []
keys ((id, p) ∷ rest) = id ∷ keys rest

mark_expired_past :
    (k : ℕ) (p : Proposal) (ids : List ℕ) (rest : Proposals)
    → IsFresh k ids
    → mark_expired ids ((k, p) ∷ rest) ≡ (k, p) ∷ mark_expired ids rest
unfolding mark_expired modify
mark_expired_past k p [] rest fresh = refl
mark_expired_past k p (id ∷ ids) rest (apart, fresh) =
    ground
      (arith, mark_expired_past k p ids (modify id (set_status ProposalStatus.expired) rest) fresh)

find_expired-IsFresh :
    (now k : ℕ) (m : Proposals) → IsFresh k (keys m) → IsFresh k (find_expired now m)
unfolding find_expired
find_expired-IsFresh now k [] fresh = tt
find_expired-IsFresh now k ((j, p) ∷ m) (apart, fresh) =
    ground (arith, find_expired-IsFresh now k m fresh)

mark_expired_nil : (m : Proposals) → mark_expired [] m ≡ m
unfolding mark_expired
mark_expired_nil m = refl

mark_expired_head :
    (k : ℕ) (p : Proposal) (ids : List ℕ) (m : Proposals)
    → mark_expired (k ∷ ids) ((k, p) ∷ m)
      ≡ mark_expired ids ((k, set_status ProposalStatus.expired p) ∷ m)
unfolding mark_expired modify
mark_expired_head k p ids m = ground arith

mark_find :
    (now : ℕ) (m : Proposals)
    → IsDistinct (keys m)
    → mark_expired (find_expired now m) m ≡ settle_all now m
unfolding find_expired
mark_find now [] distinct = mark_expired_nil []
mark_find now ((k, p) ∷ m) (fresh, distinct) =
    let later = find_expired-IsFresh now k m fresh in
    elim (Bool-cases (has_lapsed now p)) [
      | inl lapsed ↦
          rw (lapsed, mark_expired_head k p (find_expired now m) m)
            (mark_expired_past k (set_status ProposalStatus.expired p) (find_expired now m) m later
              ∙ ap (λ l. (k, set_status ProposalStatus.expired p) ∷ l) (mark_find now m distinct))
      | inr kept ↦ rw kept (
          mark_expired_past k p (find_expired now m) m later
          ∙ ap (λ l. (k, p) ∷ l) (mark_find now m distinct))
    ]

find_settled : (now : ℕ) (m : Proposals) → find_expired now (settle_all now m) ≡ []
unfolding find_expired
find_settled now [] = refl
find_settled now ((k, p) ∷ m) = ground (arith, find_settled now m)

length_settled : (now : ℕ) (m : Proposals) → length (settle_all now m) ≡ length m
length_settled now [] = refl
length_settled now ((k, p) ∷ m) = ap suc (length_settled now m)

settled_counts :
    (now : ℕ) (m : Proposals)
    → count_proposals (can_vote now) (settle_all now m)
        + count_proposals (λ p. is_approved p.status) (settle_all now m)
        + count_proposals (λ p. is_rejected p.status) (settle_all now m)
        + count_proposals (λ p. is_expired_status p.status) (settle_all now m)
      ≡ length m
unfolding count_proposals
settled_counts now [] = refl
settled_counts now ((k, p) ∷ m) = ground (arith, settled_counts now m)

-- `cleanup_expired_proposals` marks exactly the proposals that are active and past their time, and
-- no other: a second run at the same time finds none, and then the four counts of `get_stats` for
-- the kinds of proposals add up to the total. The keys are distinct, as in a hash map.
pub cleanup_lem :
    (c : Config) (now : ℕ) (m : Proposals) (votes : Votes)
    → IsDistinct (keys m)
    → let cleaned = mark_expired (find_expired now m) m in
      let stats = get_stats c now cleaned votes in
      (cleaned ≡ settle_all now m)
      × (find_expired now cleaned ≡ [])
      × (stats.active_proposals + stats.approved_proposals + stats.rejected_proposals
            + stats.expired_proposals
          ≡ stats.total_proposals)
      × (stats.total_proposals ≡ length m)
unfolding get_stats
cleanup_lem c now m votes distinct =
    let e = mark_find now m distinct in
    (
      e,
      rw e (find_settled now m),
      rw e (omega (arith, settled_counts now m, length_settled now m)),
      rw e (length_settled now m),
    )
