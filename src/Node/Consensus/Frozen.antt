-- ===== src/Node/Consensus/Frozen.antt =====
-- What the guard of network-node/src/consensus.rs that is kept across `finalize_proposal` leads to.
use mathlib.Core.Path.{subst}
use axionvera_network.Base.{
  ℕ, ◌≡◌, ◌≢◌, refl, ◌∙◌, inl, inr, Bool-cases, ==_iff, Bool, false, some, List, [], ◌∷◌, update,
  ◌==◌, arith,
}
use axionvera_network.Base.Maps.{
  lookup, modify, AllValues, AllValues-insert, AllValues-modify, AllValues-lookup,
}
use axionvera_network.Node.Consensus.{
  ProposalStatus, Proposal, Vote, Config, Proposals, new_proposal, count_vote, set_status,
  mark_expired, is_approved, is_rejected, count_vote,
}
use axionvera_network.Node.Consensus.Tasks.{
  Task, Shared, finalize, advance, check_proposal, check_voter, count_step, finalize_step,
  settle_step, send_vote, send_proposal, cleanup_step,
}
use axionvera_network.Node.Consensus.System.{
  Engine, IsCall, Step, call, run, Later, here, next, Reach, start, step, drop, release,
}

-- While a guard is kept, a task that runs leaves the proposals and the guard as they are, and the
-- task that keeps it does not run.
advance_blocked :
    (c : Config) (i j now uuid : ℕ) (s s' : Shared) (t t' : Task)
    → s.writer ≡ some j
    → advance c i now uuid s t ≡ some (s', t')
    → (s'.writer ≡ some j) × (s'.proposals ≡ s.proposals)
unfolding advance send_vote send_proposal
advance_blocked c i j now uuid s s' Task.idle t' w e = ground arith
advance_blocked c i j now uuid s s' t t' w e = ground arith

finalize_blocked :
    (c : Config) (i j now uuid : ℕ) (own : Bool) (v : Vote) (s s' : Shared) (t' : Task)
    → s.writer ≡ some j
    → advance c i now uuid s (finalize own v) ≢ some (s', t')
unfolding advance
finalize_blocked c i j now uuid own v s s' t' w e = ground arith

module _ (c : Config) (Arrives : Proposal → Type 0) (i : ℕ) (own : Bool) (v : Vote) where
  -- The call waits in `finalize_proposal` for a lock whose write guard it keeps itself.
  abbrev pub IsStuck : Engine → Type 0
  IsStuck e = (e.shared.writer ≡ some i) × (e.tasks i ≡ finalize own v)

  Step-IsStuck :
      {e f : Engine}
      → Step c Arrives e f
      → IsStuck e
      → IsStuck f × (f.shared.proposals ≡ e.shared.proposals)
  Step-IsStuck {e} (call j over entry) (w, t) = elim (Bool-cases (j == i)) [
    | inl same ↦ elim over [ inl idle ↦ ground arith | inr (o, over) ↦ ground arith ]
    | inr apart ↦ ground arith
  ]
  Step-IsStuck {e} (run j now uuid {s} {t = t'} e') (w, t) = elim (Bool-cases (j == i)) [
    | inl same ↦
        let at_i : e.tasks j ≡ finalize own v = ground arith in
        absurd (finalize_blocked c j i now uuid own v e.shared s t' w (rw at_i at e'))
    | inr apart ↦ ground (arith, advance_blocked c j i now uuid e.shared s (e.tasks j) t' w e')
  ]

  -- A call of `vote` or `process_vote` that has reached the quorum waits, while its future is
  -- not dropped, for a lock that it holds itself: whatever the other calls do, and whatever
  -- proposals arrive, it never moves on, and the stored proposals never change again.
  pub quorum_freezes :
      {e f : Engine}
      → Later c Arrives e f
      → IsStuck e
      → IsStuck f × (f.shared.proposals ≡ e.shared.proposals)
  quorum_freezes here stuck = (stuck, refl)
  quorum_freezes (next later st) stuck =
      let (between, same) = quorum_freezes later stuck in
      let (after, same') = Step-IsStuck st between in (after, same' ∙ same)

-- No outcome of a vote is recorded.
abbrev pub IsUndecided : Proposal → Type 0
IsUndecided p = (is_approved p.status ≡ false) × (is_rejected p.status ≡ false)

mark_expired-IsUndecided :
    (ids : List ℕ) (m : Proposals)
    → AllValues IsUndecided m
    → AllValues IsUndecided (mark_expired ids m)
unfolding mark_expired
mark_expired-IsUndecided [] m a = a
mark_expired-IsUndecided (id ∷ ids) m a =
    mark_expired-IsUndecided ids (modify id (set_status ProposalStatus.expired) m) (
      AllValues-modify IsUndecided id (set_status ProposalStatus.expired) m (λ p u. (refl, refl)) a)

-- What the invariant asks of task `i`.
abbrev IsSound : ℕ → Shared → Task → Type 0
IsSound i s (Task.finalize own v) = s.writer ≡ some i
IsSound i s (Task.settle own v status) = ⊥
IsSound i s (Task.announce p) = Unit
IsSound i s (Task.process_proposal p) = IsUndecided p
IsSound i s (Task.proposal_store p) = IsUndecided p
IsSound i s _ = Unit

module _ (c : Config) (i now uuid : ℕ) (s s' : Shared) (t' : Task)
    (undecided : AllValues IsUndecided s.proposals) where
  advance-IsSound :
      (t : Task)
      → IsSound i s t
      → advance c i now uuid s t ≡ some (s', t')
      → AllValues IsUndecided s'.proposals × IsSound i s' t'
  unfolding advance new_proposal check_proposal check_voter count_step finalize_step settle_step
      send_vote send_proposal cleanup_step
  advance-IsSound Task.idle sound e = ground arith
  advance-IsSound (Task.create content) sound e =
      let p = new_proposal uuid now c.node_id content c.required_votes c.proposal_ttl_minutes in
      ground (arith, AllValues-insert IsUndecided p.id p s.proposals (refl, refl) undecided)
  advance-IsSound (Task.count own v) sound e = ground (
    arith,
    AllValues-modify IsUndecided v.proposal_id count_vote s.proposals (λ p u. u) undecided,
  )
  advance-IsSound (Task.proposal_store p) sound e =
      ground (arith, AllValues-insert IsUndecided p.id p s.proposals sound undecided)
  advance-IsSound (Task.cleanup_mark ids) sound e =
      ground (arith, mark_expired-IsUndecided ids s.proposals undecided)
  advance-IsSound t sound e = ground arith

-- A step of one task keeps what is asked of the others.
others-IsSound :
    (c : Config) (i j now uuid : ℕ) (s s' : Shared) (t t' u : Task)
    → advance c i now uuid s t ≡ some (s', t')
    → IsSound j s u
    → IsSound j s' u
others-IsSound c i j now uuid s s' t t' (Task.finalize own v) e sound =
    (advance_blocked c i j now uuid s s' t t' sound e).0
others-IsSound c i j now uuid s s' t t' Task.idle e sound = tt
others-IsSound c i j now uuid s s' t t' u e sound = ground arith

record Inv (e : Engine) : Type 0 where
  undecided : AllValues IsUndecided e.shared.proposals
  sound : (i : ℕ) → IsSound i e.shared (e.tasks i)

update-IsSound :
    (s : Shared) (tasks : ℕ → Task) (i : ℕ) (t : Task)
    → IsSound i s t
    → ((j : ℕ) → IsSound j s (tasks j))
    → (j : ℕ) → IsSound j s (update tasks i t j)
update-IsSound s tasks i t mine rest j = elim (Bool-cases (i == j)) [
  | inl same ↦ rw same (subst (λ k. IsSound k s t) ((==_iff i j).0 same) mine)
  | inr apart ↦ rw apart (rest j)
]

release-IsSound :
    (s : Shared) (i j : ℕ) (t : Task) → i ≢ j → IsSound j s t → IsSound j (release i s) t
release-IsSound s i j (Task.finalize own v) apart sound = ground arith
release-IsSound s i j Task.idle apart sound = tt
release-IsSound s i j t apart sound = ground arith

entry-IsSound :
    (Arrives : Proposal → Type 0) (i : ℕ) (s : Shared) {t : Task}
    → ((p : Proposal) → Arrives p → IsUndecided p)
    → IsCall Arrives t
    → IsSound i s t
entry-IsSound Arrives i s ok (IsCall.create content) = tt
entry-IsSound Arrives i s ok (IsCall.vote id type signature) = tt
entry-IsSound Arrives i s ok (IsCall.process_vote v) = tt
entry-IsSound Arrives i s ok (IsCall.process_proposal p arrives) = ok p arrives
entry-IsSound Arrives i s ok IsCall.cleanup = tt

module _ (c : Config) (Arrives : Proposal → Type 0)
    (ok : (p : Proposal) → Arrives p → IsUndecided p) where
  Step-Inv : {e f : Engine} → Step c Arrives e f → Inv e → Inv f
  Step-Inv {e} (call i {t} over entry) inv = record {
    undecided = inv.undecided;
    sound =
        update-IsSound e.shared e.tasks i t (entry-IsSound Arrives i e.shared ok entry) inv.sound;
  }
  Step-Inv {e} (run i now uuid {s} {t} ran) inv =
      let (undecided, sound) =
        advance-IsSound c i now uuid e.shared s t inv.undecided (e.tasks i) (inv.sound i) ran in
      record {
        undecided = undecided;
        sound = update-IsSound s e.tasks i t sound (λ j.
            others-IsSound c i j now uuid e.shared s (e.tasks i) t (e.tasks j) ran (inv.sound j));
      }

  Reach-Inv : {e : Engine} → Reach c Arrives e → Inv e
  Reach-Inv start = record { undecided = tt; sound = λ i. tt }
  Reach-Inv (step r st) = Step-Inv st (Reach-Inv r)
  Reach-Inv (drop {e} i r) =
      let inv = Reach-Inv r in
      record {
        undecided = ground (arith, inv.undecided);
        sound = λ j. elim (Bool-cases (i == j)) [
          | inl same ↦ rw same tt
          | inr apart ↦
              rw apart (release-IsSound e.shared i j (e.tasks j) (ground arith) (inv.sound j))
        ];
      }

  -- However the calls of an engine interleave, and whichever of them are dropped, no stored
  -- proposal is ever approved or rejected. It is assumed that no proposal arrives from a peer
  -- in such a state.
  pub no_outcome :
      {e : Engine} (id : ℕ) (p : Proposal)
      → Reach c Arrives e
      → lookup id e.shared.proposals ≡ some p
      → (is_approved p.status ≡ false) × (is_rejected p.status ≡ false)
  no_outcome {e} id p r found =
      AllValues-lookup IsUndecided id p e.shared.proposals (Reach-Inv r).undecided found
