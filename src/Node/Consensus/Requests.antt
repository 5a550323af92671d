-- ===== src/Node/Consensus/Requests.antt =====
-- The calls of network-node/src/consensus.rs that do not vote, where no other call interrupts them.
use axionvera_network.Base.{
  ℕ, ◌⊎◌, suc, ◌≡◌, refl, inl, inr, none, some, List, [], ◌∷◌, ◌++◌, length, arith, Option-cases,
}
use axionvera_network.Base.Maps.{lookup, insert}
use axionvera_network.Node.Consensus.{Proposal, Config, new_proposal, mark_expired, find_expired}
use axionvera_network.Node.Consensus.Tasks.{
  Task, Shared, Outcome, CallError, finished, fail, advance, write_proposals, send_proposal,
  cleanup_step,
}
use axionvera_network.Node.Consensus.System.{IsCall}
use axionvera_network.Node.Consensus.Alone.{run_alone, run_step, run_finished}

pub List-cases : {A : Type 0} (l : List A) → (l ≡ []) ⊎ ((x : A) × (xs : List A) × (l ≡ x ∷ xs))
List-cases [] = inl refl
List-cases (x ∷ xs) = inr (x, xs, refl)

module _ (c : Config) (i now uuid : ℕ) (s : Shared) where
  pub run_alone_blocked :
      (Arrives : Proposal → Type 0) (j n : ℕ) {t : Task}
      → s.writer ≡ some j
      → IsCall Arrives t
      → run_alone c i now uuid (suc n) (s, t) ≡ (s, t)
  unfolding run_alone advance
  run_alone_blocked Arrives j n w (IsCall.create content) = ground arith
  run_alone_blocked Arrives j n w (IsCall.vote id type signature) = ground arith
  run_alone_blocked Arrives j n w (IsCall.process_vote v) = ground arith
  run_alone_blocked Arrives j n w (IsCall.process_proposal p new) = ground arith
  run_alone_blocked Arrives j n w IsCall.cleanup = ground arith

  module _ (n : ℕ) (free : s.writer ≡ none) where
    pub process_proposal_runs :
        (p : Proposal)
        → (run_alone c i now uuid (suc (suc n)) (s, Task.process_proposal p)).0
          ≡ elim (lookup p.id s.proposals) [
            | none ↦ write_proposals (insert p.id p s.proposals) s
            | some old ↦ s
          ]
    unfolding advance
    process_proposal_runs p = elim (Option-cases (lookup p.id s.proposals)) [
      | inl gone ↦
          let s' = write_proposals (insert p.id p s.proposals) s in
          ground (
            arith,
            run_step c i now uuid (suc n) s s (Task.process_proposal p) (Task.proposal_store p)
                (ground arith),
            run_step c i now uuid n s s' (Task.proposal_store p) (finished Outcome.done)
                (ground arith),
            run_finished c i now uuid n s' Outcome.done,
          )
      | inr (old, found) ↦ ground (
        arith,
        run_step c i now uuid (suc n) s s (Task.process_proposal p) (finished Outcome.done)
            (ground arith),
        run_finished c i now uuid (suc n) s Outcome.done,
      )
    ]

    pub create_runs :
        (content : List ℕ)
        → let p = new_proposal uuid now c.node_id content c.required_votes c.proposal_ttl_minutes in
          (run_alone c i now uuid (suc (suc n)) (s, Task.create content)).0
          ≡ (send_proposal p (write_proposals (insert p.id p s.proposals) s)).0
    unfolding advance send_proposal
    create_runs content =
        let p = new_proposal uuid now c.node_id content c.required_votes c.proposal_ttl_minutes in
        let s' = write_proposals (insert p.id p s.proposals) s in
        let first =
          run_step c i now uuid (suc n) s s' (Task.create content) (Task.announce p)
            (ground arith) in
        elim (Option-cases s.proposal_queue) [
          | inl closed ↦ ground (
            arith,
            first,
            run_step c i now uuid n s' s' (Task.announce p) (fail CallError.broadcast_failed)
                (ground arith),
            run_finished c i now uuid n s' (Outcome.failed CallError.broadcast_failed),
          )
          | inr (sent, opened) ↦
              let s2 = record s' { proposal_queue = some (sent ++ p ∷ []) } in
              ground (
                arith,
                first,
                run_step c i now uuid n s' s2 (Task.announce p) (finished (Outcome.created p))
                    (ground arith),
                run_finished c i now uuid n s2 (Outcome.created p),
              )
        ]

    pub cleanup_runs : run_alone c i now uuid (suc (suc n)) (s, Task.cleanup) ≡ (
      write_proposals (mark_expired (find_expired now s.proposals) s.proposals) s,
      finished (Outcome.cleaned (length (find_expired now s.proposals))),
    )
    unfolding advance cleanup_step mark_expired
    cleanup_runs = elim (List-cases (find_expired now s.proposals)) [
      | inl empty ↦ ground (
        arith,
        run_step c i now uuid (suc n) s s Task.cleanup (finished (Outcome.cleaned 0))
            (ground arith),
        run_finished c i now uuid (suc n) s (Outcome.cleaned 0),
      )
      | inr (id, ids, found) ↦
          let s' = write_proposals (mark_expired (id ∷ ids) s.proposals) s in
          let o = Outcome.cleaned (length (id ∷ ids)) in
          ground (
            arith,
            run_step c i now uuid (suc n) s s Task.cleanup (Task.cleanup_mark (id ∷ ids))
                (ground arith),
            run_step c i now uuid n s s' (Task.cleanup_mark (id ∷ ids)) (finished o) (ground arith),
            run_finished c i now uuid n s' o,
          )
    ]
