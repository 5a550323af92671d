-- ===== src/Node/Consensus/Races.antt =====
-- What interleaved calls of network-node/src/consensus.rs can do that calls in turn cannot.
use axionvera_network.Base.{
  ℕ, ◌≡◌, refl, true, false, none, some, List, [], ◌∷◌, ◌++◌, arith, update, ◌==◌,
}
use axionvera_network.Base.Maps.{lookup}
use axionvera_network.Node.Consensus.{
  Proposal, Vote, Config, can_vote, has_voter, get_votes, store_vote,
}
use axionvera_network.Node.Consensus.Tasks.{Task, advance, check_proposal, check_voter}
use axionvera_network.Node.Consensus.System.{Engine, run, Later, here, next}
use axionvera_network.Node.Consensus.Counting.{AreDistinct, get_votes-store_vote}

==_refl : (a : ℕ) → (a == a) ≡ true
==_refl a = ground arith

has_voter_last :
    (v w : Vote) (vs : List Vote) → v.voter ≡ w.voter → has_voter w.voter (vs ++ v ∷ []) ≡ true
unfolding has_voter
has_voter_last v w [] same = ground arith
has_voter_last v w (u ∷ vs) same = ground (arith, has_voter_last v w vs same)

has_voter_in_append :
    (a : ℕ) (v : Vote) (vs : List Vote) → has_voter a vs ≡ true → has_voter a (vs ++ v ∷ []) ≡ true
unfolding has_voter
has_voter_in_append a v [] old = ground arith
has_voter_in_append a v (u ∷ vs) old = ground (arith, has_voter_in_append a v vs)

twice_append :
    (v w : Vote) (vs : List Vote) → v.voter ≡ w.voter → ¬ AreDistinct ((vs ++ v ∷ []) ++ w ∷ [])
unfolding has_voter
twice_append v w [] same (unseen, d) = ground arith
twice_append v w (u ∷ vs) same (unseen, d) = twice_append v w vs same d

module _ (c : Config) (Arrives : Proposal → Type 0) (e : Engine) (v w : Vote) (now : ℕ)
    (p : Proposal) (first : e.tasks 0 ≡ Task.process_vote v)
    (second : e.tasks 1 ≡ Task.process_vote w) (free : e.shared.writer ≡ none)
    (same_proposal : w.proposal_id ≡ v.proposal_id) (same_voter : v.voter ≡ w.voter)
    (stored : lookup v.proposal_id e.shared.proposals ≡ some p) (open_now : can_vote now p ≡ true)
    (unseen : has_voter v.voter (get_votes v.proposal_id e.shared.votes) ≡ false) where
  abbrev both_stored : Engine
  both_stored = record {
    shared = record e.shared { votes = store_vote w (store_vote v e.shared.votes) };
    tasks =
        update
          (update
            (update
              (update (update (update e.tasks 0 (Task.process_check v)) 1 (Task.process_check w)) 0
                (Task.process_store v))
              1 (Task.process_store w))
            0 (Task.count false v))
          1 (Task.count false w);
  }

  both-Run : Later c Arrives e both_stored
  unfolding advance check_proposal check_voter
  both-Run =
      let voter_w : has_voter w.voter (get_votes w.proposal_id e.shared.votes) ≡ false =
        rw (same_proposal, ← same_voter) unseen in
      let stored_w : lookup w.proposal_id e.shared.proposals ≡ some p = rw same_proposal stored in
      next
        (next
          (next
            (next
              (next
                (next here (run 0 now 0 {s = e.shared} {t = Task.process_check v} (ground arith)))
                (run 1 now 0 {s = e.shared} {t = Task.process_check w} (ground arith)))
              (run 0 now 0 {s = e.shared} {t = Task.process_store v} (rw unseen refl)))
            (run 1 now 0 {s = e.shared} {t = Task.process_store w} (rw voter_w refl)))
          (run 0 now 0 refl))
        (run 1 now 0 refl)

  -- Two calls of `process_vote` for one voter and one open proposal on which the voter has no
  -- vote, both begun and with the lock of the proposals free, can interleave so that both votes
  -- are stored.
  pub race_counts_twice :
      (f : Engine) × Later c Arrives e f × ¬ AreDistinct (get_votes v.proposal_id f.shared.votes)
  race_counts_twice =
      let hit : (w.proposal_id == v.proposal_id) ≡ true = ground arith in
      (
        both_stored,
        both-Run,
        rw
            (
              get_votes-store_vote v.proposal_id w (store_vote v e.shared.votes),
              get_votes-store_vote v.proposal_id v e.shared.votes,
              hit,
              ==_refl v.proposal_id,
            )
            (twice_append v w (get_votes v.proposal_id e.shared.votes) same_voter),
      )
