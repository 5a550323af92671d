-- ===== src/Node/Tests/ConsensusExamples.antt =====
-- The theorems on the consensus engine, network-node/src/consensus.rs, at concrete proposals.
use axionvera_network.Base.{
  ℕ, ◌≡◌, refl, inl, ◌%◌, false, none, some, [], ◌∷◌, length, update, if◌then◌else◌, ◌==◌,
}
use axionvera_network.Base.I128.{u64_bound}
use axionvera_network.Base.Maps
use axionvera_network.Base.Maps.{lookup}
use axionvera_network.Node.Consensus
use axionvera_network.Node.Consensus.{
  VoteType, ProposalStatus, Proposal, Vote, Config, new_proposal, get_votes, is_approved,
  is_rejected,
}
use axionvera_network.Node.Consensus.Tasks
use axionvera_network.Node.Consensus.Tasks.{Task, Shared, Outcome, finished}
use axionvera_network.Node.Consensus.System.{
  Engine, IsCall, call, run, Later, here, next, Reach, start, step, new_engine,
}
use axionvera_network.Node.Consensus.Frozen.{IsStuck, quorum_freezes, IsUndecided, no_outcome}
use axionvera_network.Node.Consensus.Alone.{run_alone, vote_result, with_vote, process_vote_lem}
use axionvera_network.Node.Consensus.Counting.{AreDistinct, Serial, sequential_votes_agree}
use axionvera_network.Node.Consensus.Races.{race_counts_twice}

-- Node 1 wants three votes within ten minutes.
abbrev config : Config
config = record { node_id = 1; required_votes = 3; proposal_ttl_minutes = 10 }

-- Proposal 7, made at time 100.
abbrev made : Proposal
made = record {
  id = 7;
  proposer = 1;
  content = [];
  created_at = 100;
  expires_at = 600_100;
  required_votes = 3;
  current_votes = 0;
  status = ProposalStatus.active;
}

abbrev vote_of : ℕ → Vote
vote_of voter = record {
  proposal_id = 7;
  voter = voter;
  vote_type = VoteType.approve;
  timestamp = 150;
  signature = [];
  trace_context = none;
}

abbrev stored : Shared
stored = record {
  proposals = (7, made) ∷ [];
  votes = [];
  writer = none;
  vote_queue = some [];
  proposal_queue = some (made ∷ []);
}

abbrev stuck : Engine
stuck = record {
  shared = record stored { writer = some 0 };
  tasks = λ i. if i == 0 then Task.finalize false (vote_of 4) else Task.idle;
}

quorum_freezes_example :
    IsStuck config IsUndecided 0 false
      (vote_of 4)
      (record stuck { tasks = update stuck.tasks 1 Task.cleanup })
    × (stuck.shared.proposals ≡ stuck.shared.proposals)
quorum_freezes_example =
    quorum_freezes config IsUndecided 0 false (vote_of 4) {e = stuck}
      (next here (call 1 (inl refl) IsCall.cleanup)) (refl, refl)

abbrev created : Engine
created = record {
  shared = record stored { proposal_queue = some [] };
  tasks = update (update (λ i. Task.idle) 0 (Task.create [])) 0 (Task.announce made);
}

created_reach : Reach config IsUndecided created
unfolding Tasks.advance new_proposal Maps.insert
created_reach = step (step start (call 0 (inl refl) (IsCall.create []))) (run 0 100 7 refl)

created_found : lookup 7 created.shared.proposals ≡ some made
unfolding lookup
created_found = refl

no_outcome_example : (is_approved made.status ≡ false) × (is_rejected made.status ≡ false)
no_outcome_example = no_outcome config IsUndecided (λ p u. u) 7 made created_reach created_found

process_vote_lem_example :
    run_alone config 0 150 0 4 (stored, Task.process_vote (vote_of 4))
    ≡ vote_result 0 150 false
        (vote_of 4)
        (with_vote (vote_of 4) stored, finished Outcome.done)
        stored
process_vote_lem_example = process_vote_lem config 0 150 0 0 stored refl (vote_of 4)

-- The vote is stored and counted.
vote_runs : run_alone config 0 150 0 4 (stored, Task.process_vote (vote_of 4)) ≡ (
  record stored {
    votes = (7, vote_of 4 ∷ []) ∷ [];
    proposals = (7, record made { current_votes = 1 }) ∷ [];
  },
  finished Outcome.done,
)
unfolding run_alone Tasks.advance Tasks.check_proposal Tasks.check_voter Tasks.count_step lookup
    Maps.modify Maps.upsert Consensus.has_voter
vote_runs = refl

abbrev after_create : Shared
after_create = (run_alone config 0 100 7 5 (new_engine.shared, Task.create [])).0

abbrev after_vote : Shared
after_vote = (run_alone config 0 150 8 5 (after_create, Task.process_vote (vote_of 4))).0

after_create_unused : lookup 8 after_create.proposals ≡ none
unfolding run_alone Tasks.advance new_proposal Tasks.send_proposal Maps.insert lookup
after_create_unused = refl

after_vote_found : lookup 7 after_vote.proposals ≡ some (record made { current_votes = 1 })
unfolding run_alone Tasks.advance new_proposal Tasks.send_proposal Tasks.check_proposal
    Tasks.check_voter Tasks.count_step lookup Maps.insert Maps.modify Maps.upsert
    Consensus.has_voter
after_vote_found = refl

unused : lookup 7 new_engine.shared.proposals ≡ none
unfolding lookup
unused = refl

sequential_votes_agree_example :
    (◌≡◌ {A = ℕ} 1 (length (get_votes 7 after_vote.votes) % u64_bound))
    × AreDistinct (get_votes 7 after_vote.votes)
sequential_votes_agree_example =
    sequential_votes_agree config 7 (record made { current_votes = 1 })
      (Serial.next 0 150 8 (Serial.next 0 100 7 Serial.start (IsCall.create []) unused)
        (IsCall.process_vote (vote_of 4)) after_create_unused)
      after_vote_found

abbrev both_called : Engine
both_called = record {
  shared = stored;
  tasks = λ i.
      if i == 0
      then Task.process_vote (vote_of 4)
      else Task.process_vote (record (vote_of 4) { vote_type = VoteType.reject });
}

stored_found : lookup 7 stored.proposals ≡ some made
unfolding lookup
stored_found = refl

stored_unseen : Consensus.has_voter 4 (get_votes 7 stored.votes) ≡ false
unfolding lookup Consensus.has_voter
stored_unseen = refl

race_counts_twice_example :
    (f : Engine) × Later config IsUndecided both_called f
    × ¬ AreDistinct (get_votes 7 f.shared.votes)
race_counts_twice_example =
    race_counts_twice config IsUndecided both_called (vote_of 4)
      (record (vote_of 4) { vote_type = VoteType.reject }) 150 made refl refl refl refl refl
      stored_found refl stored_unseen
