-- ===== src/Node/Consensus/Tasks.antt =====
-- network-node/src/consensus.rs, the asynchronous methods of `ConsensusEngine`: a call is a task
-- that runs up to its next wait. A guard that lives within one such run is not seen by the others;
-- one guard lives across a wait: `vote` and `process_vote` hold the write guard of the proposals
-- while they await `finalize_proposal`. A task whose lock is taken does not step.
-- `start_maintenance` is left out: it takes the write guard from what is a read guard there.
use axionvera_network.Base.{
  ℕ, Bool, true, false, Option, none, some, List, [], ◌∷◌, ◌++◌, length, if◌then◌else◌,
}
use axionvera_network.Base.Maps.{lookup, insert, modify}
use axionvera_network.Node.Consensus.{
  VoteType, ProposalStatus, Proposal, Vote, Config, Proposals, Votes, new_proposal, new_vote,
  can_vote, has_quorum, has_voter, get_votes, store_vote, count_vote, final_status, set_status,
  find_expired, mark_expired,
}

pub data CallError : Type 0 where
  not_found not_active already_voted broadcast_failed : CallError

pub data Outcome : Type 0 where
  done : Outcome
  created : Proposal → Outcome
  cleaned : ℕ → Outcome
  failed : CallError → Outcome

-- Where a call waits.
pub data Task : Type 0 where
  idle : Task
  create : (content : List ℕ) → Task
  announce : Proposal → Task
  vote : (proposal_id : ℕ) → VoteType → (signature : List ℕ) → Task
  vote_check : (proposal_id : ℕ) → VoteType → (signature : List ℕ) → Task
  vote_store : (proposal_id : ℕ) → VoteType → (signature : List ℕ) → Task
  process_vote : Vote → Task
  process_check : Vote → Task
  process_store : Vote → Task
  count : (own : Bool) → Vote → Task
  finalize : (own : Bool) → Vote → Task
  settle : (own : Bool) → Vote → ProposalStatus → Task
  broadcast : Vote → Task
  process_proposal : Proposal → Task
  proposal_store : Proposal → Task
  cleanup : Task
  cleanup_mark : List ℕ → Task
  finished : Outcome → Task

-- `writer` is the task that keeps the write guard of the proposals across a wait. A queue is `none`
-- when its receiver is gone.
pub record Shared : Type 0 where
  pub proposals : Proposals
  pub votes : Votes
  pub writer : Option ℕ
  pub vote_queue : Option (List Vote)
  pub proposal_queue : Option (List Proposal)

abbrev pub is_free : Shared → Bool
is_free s = elim s.writer [ none ↦ true | some i ↦ false ]

-- `proposals.read().await` and `proposals.write().await`: no guard is kept across a wait.
abbrev pub locking : Shared → Shared × Task → Option (Shared × Task)
locking s next = if is_free s then some next else none

abbrev pub fail : CallError → Task
fail e = finished (Outcome.failed e)

-- The first block of `vote` and `process_vote`: the proposal exists and is open.
unfoldable pub check_proposal : ℕ → ℕ → Shared → Task → Task
check_proposal now id s next = elim (lookup id s.proposals) [
  | none ↦ fail CallError.not_found
  | some p ↦ if can_vote now p then next else fail CallError.not_active
]

-- The second: the voter has no vote yet.
unfoldable pub check_voter : ℕ → ℕ → Shared → Task → Task
check_voter id voter s next =
    if has_voter voter (get_votes id s.votes) then fail CallError.already_voted else next

abbrev pub after_count : Bool → Vote → Task
after_count true v = Task.broadcast v
after_count false v = finished Outcome.done

abbrev pub write_proposals : Proposals → Shared → Shared
write_proposals proposals s = record s { proposals = proposals }

-- The block that counts the vote. The guard is kept where the quorum is reached.
unfoldable pub count_step : ℕ → Bool → Vote → Shared → Shared × Task
count_step i own v s =
    let s' = write_proposals (modify v.proposal_id count_vote s.proposals) s in
    elim (lookup v.proposal_id s.proposals) [
      | none ↦ (s, after_count own v)
      | some p ↦
          if has_quorum (count_vote p)
          then (record s' { writer = some i }, Task.finalize own v)
          else (s', after_count own v)
    ]

-- `finalize_proposal` up to its second wait, and an error with the guard of the caller dropped.
unfoldable pub finalize_step : Bool → Vote → Shared → Shared × Task
finalize_step own v s = elim (lookup v.proposal_id s.proposals) [
  | none ↦ (record s { writer = none }, fail CallError.not_found)
  | some p ↦ (s, Task.settle own v (final_status (get_votes v.proposal_id s.votes)))
]

-- The rest of it; then the caller's guard is dropped.
unfoldable pub settle_step : Bool → Vote → ProposalStatus → Shared → Shared × Task
settle_step own v status s = (
  record (write_proposals (modify v.proposal_id (set_status status) s.proposals) s) {
    writer = none;
  },
  after_count own v,
)

unfoldable pub send_vote : Vote → Shared → Shared × Task
send_vote v s = elim s.vote_queue [
  | none ↦ (s, fail CallError.broadcast_failed)
  | some sent ↦ (record s { vote_queue = some (sent ++ v ∷ []) }, finished Outcome.done)
]

unfoldable pub send_proposal : Proposal → Shared → Shared × Task
send_proposal p s = elim s.proposal_queue [
  | none ↦ (s, fail CallError.broadcast_failed)
  | some sent ↦ (record s { proposal_queue = some (sent ++ p ∷ []) }, finished (Outcome.created p))
]

unfoldable pub cleanup_step : ℕ → Shared → Task
cleanup_step now s = elim (find_expired now s.proposals) [
  | [] ↦ finished (Outcome.cleaned 0)
  | id ∷ ids ↦ Task.cleanup_mark (id ∷ ids)
]

-- Task `i` runs to its next wait, or is blocked. The time, and the identifier of a new proposal,
-- come from outside.
unfoldable pub advance : Config → ℕ → ℕ → ℕ → Shared → Task → Option (Shared × Task)
advance c i now uuid s Task.idle = none
advance c i now uuid s (Task.create content) =
    let p = new_proposal uuid now c.node_id content c.required_votes c.proposal_ttl_minutes in
    locking s (write_proposals (insert p.id p s.proposals) s, Task.announce p)
advance c i now uuid s (Task.announce p) = some (send_proposal p s)
advance c i now uuid s (Task.vote id type signature) =
    locking s (s, check_proposal now id s (Task.vote_check id type signature))
advance c i now uuid s (Task.vote_check id type signature) =
    some (s, check_voter id c.node_id s (Task.vote_store id type signature))
advance c i now uuid s (Task.vote_store id type signature) =
    let v = new_vote now id c.node_id type signature in
    some (record s { votes = store_vote v s.votes }, Task.count true v)
advance c i now uuid s (Task.process_vote v) =
    locking s (s, check_proposal now v.proposal_id s (Task.process_check v))
advance c i now uuid s (Task.process_check v) =
    some (s, check_voter v.proposal_id v.voter s (Task.process_store v))
advance c i now uuid s (Task.process_store v) =
    some (record s { votes = store_vote v s.votes }, Task.count false v)
advance c i now uuid s (Task.count own v) = locking s (count_step i own v s)
advance c i now uuid s (Task.finalize own v) = locking s (finalize_step own v s)
advance c i now uuid s (Task.settle own v status) = locking s (settle_step own v status s)
advance c i now uuid s (Task.broadcast v) = some (send_vote v s)
advance c i now uuid s (Task.process_proposal p) = locking s (
  s,
  elim (lookup p.id s.proposals) [
    | none ↦ Task.proposal_store p
    | some old ↦ finished Outcome.done
  ],
)
advance c i now uuid s (Task.proposal_store p) =
    locking s (write_proposals (insert p.id p s.proposals) s, finished Outcome.done)
advance c i now uuid s Task.cleanup = locking s (s, cleanup_step now s)
advance c i now uuid s (Task.cleanup_mark ids) =
    locking s
      (write_proposals (mark_expired ids s.proposals) s, finished (Outcome.cleaned (length ids)))
advance c i now uuid s (finished o) = none
