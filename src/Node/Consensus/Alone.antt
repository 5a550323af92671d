-- ===== src/Node/Consensus/Alone.antt =====
-- A call of network-node/src/consensus.rs that no other call interrupts.
use axionvera_network.Base.{
  ℕ, zero, suc, ◌≡◌, refl, Bool, true, false, none, some, List, if◌then◌else◌, arith, ◌∙◌, inl, inr,
  Bool-cases, Option-cases, ◌++◌, ◌∷◌, [],
}
use axionvera_network.Base.Maps.{lookup, modify}
use axionvera_network.Node.Consensus.{
  VoteType, Proposal, Vote, Config, new_vote, can_vote, has_quorum, has_voter, get_votes,
  store_vote, count_vote,
}
use axionvera_network.Node.Consensus.Tasks.{
  Task, Shared, Outcome, CallError, finished, fail, after_count, advance, check_proposal,
  check_voter, count_step, send_vote,
}

-- At most so many runs of the task, up to its end or to a lock that is taken.
unfoldable pub run_alone : Config → ℕ → ℕ → ℕ → ℕ → Shared × Task → Shared × Task
run_alone c i now uuid zero x = x
run_alone c i now uuid (suc n) (s, t) = elim (advance c i now uuid s t) [
  | none ↦ (s, t)
  | some (s', t') ↦ run_alone c i now uuid n (s', t')
]

abbrev pub with_vote : Vote → Shared → Shared
with_vote v s = record s {
  votes = store_vote v s.votes;
  proposals = modify v.proposal_id count_vote s.proposals;
}

-- What becomes of a vote, where `accepted` tells how a call ends that has counted it.
abbrev pub vote_result : ℕ → ℕ → Bool → Vote → Shared × Task → Shared → Shared × Task
vote_result i now own v accepted s = elim (lookup v.proposal_id s.proposals) [
  | none ↦ (s, fail CallError.not_found)
  | some p ↦
      if can_vote now p
      then if has_voter v.voter (get_votes v.proposal_id s.votes)
        then (s, fail CallError.already_voted)
        else if has_quorum (count_vote p)
        then (record (with_vote v s) { writer = some i }, Task.finalize own v)
        else accepted
      else (s, fail CallError.not_active)
]

module _ (c : Config) (i now uuid : ℕ) where
  pub run_step :
      (n : ℕ) (s s' : Shared) (t t' : Task)
      → advance c i now uuid s t ≡ some (s', t')
      → run_alone c i now uuid (suc n) (s, t) ≡ run_alone c i now uuid n (s', t')
  unfolding run_alone
  run_step n s s' t t' e = ground arith

  pub run_finished :
      (n : ℕ) (s : Shared) (o : Outcome)
      → run_alone c i now uuid n (s, finished o) ≡ (s, finished o)
  unfolding run_alone advance
  run_finished zero s o = refl
  run_finished (suc n) s o = refl

  run_blocked :
      (n : ℕ) (s : Shared) (own : Bool) (v : Vote)
      → s.writer ≡ some i
      → run_alone c i now uuid n (s, Task.finalize own v) ≡ (s, Task.finalize own v)
  unfolding run_alone advance
  run_blocked zero s own v w = refl
  run_blocked (suc n) s own v w = ground arith

module _ (c : Config) (i now uuid n : ℕ) (s : Shared) (free : s.writer ≡ none) where
  run_count :
      (own : Bool) (v : Vote) (p : Proposal)
      → lookup v.proposal_id s.proposals ≡ some p
      → run_alone c i now uuid (suc n) (record s { votes = store_vote v s.votes }, Task.count own v)
        ≡ (if has_quorum (count_vote p)
            then (record (with_vote v s) { writer = some i }, Task.finalize own v)
            else run_alone c i now uuid n (with_vote v s, after_count own v))
  unfolding advance count_step
  run_count own v p found =
      let s1 = record s { votes = store_vote v s.votes } in
      elim (Bool-cases (has_quorum (count_vote p))) [
        | inl full ↦
            let held = record (with_vote v s) { writer = some i } in
            rw full (
              run_step c i now uuid n s1 held (Task.count own v) (Task.finalize own v)
                (ground arith)
              ∙ run_blocked c i now uuid n held own v refl)
        | inr few ↦ rw few (
            run_step c i now uuid n s1 (with_vote v s) (Task.count own v) (after_count own v)
              (ground arith))
      ]

  -- The two methods differ in their tasks before the vote is counted.
  run_vote :
      (own : Bool) (v : Vote) (read check store : Task)
      → advance c i now uuid s read ≡ some (s, check_proposal now v.proposal_id s check)
      → advance c i now uuid s check ≡ some (s, check_voter v.proposal_id v.voter s store)
      → advance c i now uuid s store
        ≡ some (record s { votes = store_vote v s.votes }, Task.count own v)
      → run_alone c i now uuid (suc (suc (suc (suc n)))) (s, read)
        ≡ vote_result i now own v (run_alone c i now uuid n (with_vote v s, after_count own v)) s
  unfolding check_proposal check_voter
  run_vote own v read check store a1 a2 a3 =
      let s1 = record s { votes = store_vote v s.votes } in
      let first =
        run_step c i now uuid (suc (suc (suc n))) s s read
          (check_proposal now v.proposal_id s check) a1 in
      elim (Option-cases (lookup v.proposal_id s.proposals)) [
        | inl gone ↦ ground (
          arith,
          first,
          run_finished c i now uuid (suc (suc (suc n))) s (Outcome.failed CallError.not_found),
        )
        | inr (p, found) ↦ ground (
          arith,
          first,
          run_finished c i now uuid (suc (suc (suc n))) s (Outcome.failed CallError.not_active),
          run_step c i now uuid (suc (suc n)) s s check (check_voter v.proposal_id v.voter s store)
              a2,
          run_finished c i now uuid (suc (suc n)) s (Outcome.failed CallError.already_voted),
          run_step c i now uuid (suc n) s s1 store (Task.count own v) a3,
          run_count own v p found,
        )
      ]

  -- A call of `process_vote` that no other call interrupts, on proposals whose lock is free, is
  -- decided on every branch: an unknown proposal, one that is not open and a second vote of a
  -- voter are refused and change nothing; otherwise the vote is stored and counted, and the
  -- call ends, or where the quorum is reached waits in `finalize_proposal` with the lock of the
  -- proposals held.
  pub process_vote_lem :
      (v : Vote)
      → run_alone c i now uuid (suc (suc (suc (suc n)))) (s, Task.process_vote v)
        ≡ vote_result i now false v (with_vote v s, finished Outcome.done) s
  unfolding advance
  process_vote_lem v = ground (
    arith,
    run_vote false v (Task.process_vote v) (Task.process_check v) (Task.process_store v)
        (ground arith) refl refl,
    run_finished c i now uuid n (with_vote v s) Outcome.done,
  )

run_broadcast :
    (c : Config) (i now uuid n : ℕ) (s : Shared) (v : Vote)
    → run_alone c i now uuid (suc n) (s, Task.broadcast v) ≡ send_vote v s
unfolding advance send_vote
run_broadcast c i now uuid n s v = elim (Option-cases s.vote_queue) [
  | inl closed ↦ ground (
    arith,
    run_step c i now uuid n s s (Task.broadcast v) (fail CallError.broadcast_failed) (ground arith),
    run_finished c i now uuid n s (Outcome.failed CallError.broadcast_failed),
  )
  | inr (sent, opened) ↦
      let s' = record s { vote_queue = some (sent ++ v ∷ []) } in
      ground (
        arith,
        run_step c i now uuid n s s' (Task.broadcast v) (finished Outcome.done) (ground arith),
        run_finished c i now uuid n s' Outcome.done,
      )
]

-- Where no guard is kept and no other call interrupts it, a call of `vote` comes to its end or to
-- a standstill.
pub vote_lem :
    (c : Config) (i now uuid n : ℕ) (s : Shared)
    → s.writer ≡ none
    → (id : ℕ) (type : VoteType) (signature : List ℕ)
    → let v = new_vote now id c.node_id type signature in
      run_alone c i now uuid (suc (suc (suc (suc (suc n))))) (s, Task.vote id type signature)
      ≡ vote_result i now true v (send_vote v (with_vote v s)) s
unfolding advance
vote_lem c i now uuid n s free id type signature =
    let v = new_vote now id c.node_id type signature in
    ground (
      arith,
      run_vote c i now uuid (suc n) s free true v (Task.vote id type signature)
          (Task.vote_check id type signature) (Task.vote_store id type signature) (ground arith)
          refl refl,
      run_broadcast c i now uuid n (with_vote v s) v,
    )
