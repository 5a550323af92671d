-- ===== src/Node/Consensus.antt =====
-- network-node/src/consensus.rs: proposals, votes, and the engine that counts them. Texts (the
-- identifiers of nodes and proposals) are numbers, and so are the bytes of a content or signature.
-- A time is a number of milliseconds; the dates are in the range of the date type. Logging and
-- tracing spans are left out.
pub mod Tasks
pub mod System
pub mod Frozen
pub mod Alone
pub mod Requests
pub mod Counting
pub mod Races
pub mod Cleanup
use axionvera_network.Base.{
  ℕ, ◌+◌, ◌*◌, ◌%◌, Bool, true, false, not, ◌&&◌, ◌||◌, Option, none, some, List, [], ◌∷◌, ◌++◌,
  length, get_or, ltb, leb, ◌==◌, if◌then◌else◌,
}
use axionvera_network.Base.I128.{u64_bound}
use axionvera_network.Base.Maps.{Map, lookup, insert, modify, upsert}

pub data VoteType : Type 0 where
  approve reject abstain : VoteType

pub data ProposalStatus : Type 0 where
  active approved rejected expired : ProposalStatus

pub record Proposal : Type 0 where
  pub id : ℕ
  pub proposer : ℕ
  pub content : List ℕ
  pub created_at : ℕ
  pub expires_at : ℕ
  pub required_votes : ℕ
  pub current_votes : ℕ
  pub status : ProposalStatus

-- `Proposal::new`, with the identifier that was drawn and the time of the call.
unfoldable pub new_proposal : ℕ → ℕ → ℕ → List ℕ → ℕ → ℕ → Proposal
new_proposal uuid now proposer content required_votes ttl_minutes = record {
  id = uuid;
  proposer = proposer;
  content = content;
  created_at = now;
  expires_at = now + ttl_minutes * 60_000;
  required_votes = required_votes;
  current_votes = 0;
  status = ProposalStatus.active;
}

abbrev pub is_active : ProposalStatus → Bool
is_active ProposalStatus.active = true
is_active ProposalStatus.approved = false
is_active ProposalStatus.rejected = false
is_active ProposalStatus.expired = false

abbrev pub is_approved : ProposalStatus → Bool
is_approved ProposalStatus.approved = true
is_approved ProposalStatus.active = false
is_approved ProposalStatus.rejected = false
is_approved ProposalStatus.expired = false

abbrev pub is_rejected : ProposalStatus → Bool
is_rejected ProposalStatus.rejected = true
is_rejected ProposalStatus.active = false
is_rejected ProposalStatus.approved = false
is_rejected ProposalStatus.expired = false

abbrev pub is_expired_status : ProposalStatus → Bool
is_expired_status ProposalStatus.expired = true
is_expired_status ProposalStatus.active = false
is_expired_status ProposalStatus.approved = false
is_expired_status ProposalStatus.rejected = false

abbrev pub is_expired : ℕ → Proposal → Bool
is_expired now p = ltb p.expires_at now

abbrev pub can_vote : ℕ → Proposal → Bool
can_vote now p = is_active p.status && not (is_expired now p)

abbrev pub has_quorum : Proposal → Bool
has_quorum p = leb p.required_votes p.current_votes

pub record Vote : Type 0 where
  pub proposal_id : ℕ
  pub voter : ℕ
  pub vote_type : VoteType
  pub timestamp : ℕ
  pub signature : List ℕ
  pub trace_context : Option ℕ

abbrev pub new_vote : ℕ → ℕ → ℕ → VoteType → List ℕ → Vote
new_vote now proposal_id voter vote_type signature = record {
  proposal_id = proposal_id;
  voter = voter;
  vote_type = vote_type;
  timestamp = now;
  signature = signature;
  trace_context = none;
}

-- What an engine is configured with.
pub record Config : Type 0 where
  pub node_id : ℕ
  pub required_votes : ℕ
  pub proposal_ttl_minutes : ℕ

abbrev pub Proposals : Type 0
Proposals = Map Proposal

abbrev pub Votes : Type 0
Votes = Map (List Vote)

-- `proposal_votes.iter().any(|v| v.voter == voter)`
unfoldable pub has_voter : ℕ → List Vote → Bool
has_voter voter [] = false
has_voter voter (v ∷ vs) = v.voter == voter || has_voter voter vs

-- `votes.get(id)`, and no vote where the key is missing: `get_votes`.
abbrev pub get_votes : ℕ → Votes → List Vote
get_votes id votes = get_or (lookup id votes) []

abbrev pub push_vote : Vote → List Vote → List Vote
push_vote v vs = vs ++ v ∷ []

-- `entry(id).or_insert_with(Vec::new).push(vote)`
abbrev pub store_vote : Vote → Votes → Votes
store_vote v votes = upsert v.proposal_id [] (push_vote v) votes

-- `current_votes += 1`, which wraps in the release profile.
abbrev pub count_vote : Proposal → Proposal
count_vote p = record p { current_votes = (p.current_votes + 1) % u64_bound }

-- The loop of `finalize_proposal` that counts the votes for and against.
unfoldable pub tally : ℕ → ℕ → List Vote → ℕ × ℕ
tally approve_count reject_count [] = (approve_count, reject_count)
tally approve_count reject_count (v ∷ vs) = elim v.vote_type [
  | VoteType.approve ↦ tally (approve_count + 1) reject_count vs
  | VoteType.reject ↦ tally approve_count (reject_count + 1) vs
  | VoteType.abstain ↦ tally approve_count reject_count vs
]

unfoldable pub final_status : List Vote → ProposalStatus
final_status votes =
    let (approve_count, reject_count) = tally 0 0 votes in
    if ltb reject_count approve_count then ProposalStatus.approved else ProposalStatus.rejected

abbrev pub set_status : ProposalStatus → Proposal → Proposal
set_status status p = record p { status = status }

abbrev pub has_lapsed : ℕ → Proposal → Bool
has_lapsed now p = is_expired now p && is_active p.status

-- The first loop of `cleanup_expired_proposals`.
unfoldable pub find_expired : ℕ → Proposals → List ℕ
find_expired now [] = []
find_expired now ((id, p) ∷ rest) =
    let found = find_expired now rest in if has_lapsed now p then id ∷ found else found

-- The second loop.
unfoldable pub mark_expired : List ℕ → Proposals → Proposals
mark_expired [] proposals = proposals
mark_expired (id ∷ ids) proposals =
    mark_expired ids (modify id (set_status ProposalStatus.expired) proposals)

-- `get_active_proposals`
unfoldable pub get_active_proposals : ℕ → Proposals → List Proposal
get_active_proposals now [] = []
get_active_proposals now ((id, p) ∷ rest) =
    let found = get_active_proposals now rest in if can_vote now p then p ∷ found else found

-- `proposals.values().filter(test).count()`
unfoldable pub count_proposals : (Proposal → Bool) → Proposals → ℕ
count_proposals test [] = 0
count_proposals test ((id, p) ∷ rest) = (if test p then 1 else 0) + count_proposals test rest

unfoldable pub sum_votes : Votes → ℕ
sum_votes [] = 0
sum_votes ((id, vs) ∷ rest) = length vs + sum_votes rest

pub record ConsensusStats : Type 0 where
  pub node_id : ℕ
  pub total_proposals : ℕ
  pub active_proposals : ℕ
  pub approved_proposals : ℕ
  pub rejected_proposals : ℕ
  pub expired_proposals : ℕ
  pub total_votes : ℕ
  pub required_votes : ℕ

unfoldable pub get_stats : Config → ℕ → Proposals → Votes → ConsensusStats
get_stats c now proposals votes = record {
  node_id = c.node_id;
  total_proposals = length proposals;
  active_proposals = count_proposals (can_vote now) proposals;
  approved_proposals = count_proposals (λ p. is_approved p.status) proposals;
  rejected_proposals = count_proposals (λ p. is_rejected p.status) proposals;
  expired_proposals = count_proposals (λ p. is_expired_status p.status) proposals;
  total_votes = sum_votes votes;
  required_votes = c.required_votes;
}
