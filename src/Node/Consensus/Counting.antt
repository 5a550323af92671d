-- ===== src/Node/Consensus/Counting.antt =====
-- What the counters of network-node/src/consensus.rs are worth: when calls run one after the other,
-- and when they interleave.
use axionvera_network.Base.{
  ℕ, ◌%◌, ◌≡◌, ◌≢◌, refl, inl, inr, Bool, true, false, Option, none, some, List, [], ◌∷◌, ◌++◌,
  length, length-append, if◌then◌else◌, ◌==◌, ==_iff, arith, Bool-cases, Option-cases,
}
use axionvera_network.Base.I128.{u64_bound}
use axionvera_network.Base.Maps.{
  lookup, insert, modify, lookup-insert, lookup-modify, lookup-upsert,
}
use axionvera_network.Node.Consensus.{
  Proposal, Vote, Config, Proposals, Votes, new_proposal, new_vote, can_vote, has_quorum, has_voter,
  get_votes, store_vote, push_vote, count_vote, mark_expired, set_status, ProposalStatus,
  find_expired,
}
use axionvera_network.Node.Consensus.Tasks.{
  Task, Shared, Outcome, finished, send_vote, send_proposal,
}
use axionvera_network.Node.Consensus.System.{IsCall, new_engine}
use axionvera_network.Node.Consensus.Alone.{
  run_alone, with_vote, vote_result, process_vote_lem, vote_lem,
}
use axionvera_network.Node.Consensus.Requests.{
  process_proposal_runs, create_runs, cleanup_runs, run_alone_blocked,
}

-- No voter has two votes.
abbrev pub AreDistinct : List Vote → Type 0
AreDistinct [] = Unit
AreDistinct (v ∷ vs) = (has_voter v.voter vs ≡ false) × AreDistinct vs

has_voter-append :
    (a : ℕ) (v : Vote) (vs : List Vote)
    → has_voter a vs ≡ false
    → v.voter ≢ a
    → has_voter a (vs ++ v ∷ []) ≡ false
unfolding has_voter
has_voter-append a v [] old apart = ground arith
has_voter-append a v (w ∷ vs) old apart = ground (arith, has_voter-append a v vs)

has_voter_head :
    (v w : Vote) (vs : List Vote) → has_voter v.voter (w ∷ vs) ≡ false → v.voter ≢ w.voter
unfolding has_voter
has_voter_head v w vs unseen = ground arith

has_voter_tail :
    (a : ℕ) (w : Vote) (vs : List Vote) → has_voter a (w ∷ vs) ≡ false → has_voter a vs ≡ false
unfolding has_voter
has_voter_tail a w vs unseen = ground arith

append-AreDistinct :
    (v : Vote) (vs : List Vote)
    → has_voter v.voter vs ≡ false
    → AreDistinct vs
    → AreDistinct (vs ++ v ∷ [])
unfolding has_voter
append-AreDistinct v [] unseen d = (refl, tt)
append-AreDistinct v (w ∷ vs) unseen (first, d) = (
  has_voter-append w.voter v vs first (has_voter_head v w vs unseen),
  append-AreDistinct v vs (has_voter_tail v.voter w vs unseen) d,
)

-- The counter of a proposal is the number of its votes, which are of distinct voters.
abbrev pub IsCounted : Option Proposal → List Vote → Type 0
IsCounted none vs = vs ≡ []
IsCounted (some p) vs = (p.current_votes ≡ length vs % u64_bound) × AreDistinct vs

abbrev pub AreCounted : Shared → Type 0
AreCounted s = (id : ℕ) → IsCounted (lookup id s.proposals) (get_votes id s.votes)

count-IsCounted :
    (p : Proposal) (v : Vote) (vs : List Vote)
    → IsCounted (some p) vs
    → has_voter v.voter vs ≡ false
    → IsCounted (some (count_vote p)) (push_vote v vs)
count-IsCounted p v vs (counted, distinct) unseen =
    (omega (arith, length-append vs (v ∷ [])), append-AreDistinct v vs unseen distinct)

pub get_votes-store_vote :
    (j : ℕ) (v : Vote) (votes : Votes)
    → get_votes j (store_vote v votes)
      ≡ (if v.proposal_id == j then push_vote v (get_votes j votes) else get_votes j votes)
get_votes-store_vote j v votes = elim (Option-cases (lookup j votes)) [
  | inl gone ↦ ground (arith, lookup-upsert j v.proposal_id [] (push_vote v) votes)
  | inr (vs, found) ↦ ground (arith, lookup-upsert j v.proposal_id [] (push_vote v) votes)
]

with_vote-AreCounted :
    (v : Vote) (s : Shared) (p : Proposal)
    → AreCounted s
    → lookup v.proposal_id s.proposals ≡ some p
    → has_voter v.voter (get_votes v.proposal_id s.votes) ≡ false
    → AreCounted (with_vote v s)
with_vote-AreCounted v s p counted found unseen id = elim (Bool-cases (v.proposal_id == id)) [
  | inl same ↦
      let e : v.proposal_id ≡ id = (==_iff v.proposal_id id).0 same in
      let found' : lookup id s.proposals ≡ some p = ground arith in
      rw
        (
          lookup-modify id v.proposal_id count_vote s.proposals,
          get_votes-store_vote id v s.votes,
          same,
          found',
        )
        (count-IsCounted p v (get_votes id s.votes) (rw found' at (counted id)) (rw (← e) unseen))
  | inr apart ↦
      rw
        (
          lookup-modify id v.proposal_id count_vote s.proposals,
          get_votes-store_vote id v s.votes,
          apart,
        )
        (counted id)
]

module _ (i now : ℕ) (own : Bool) (v : Vote) (accepted : Shared × Task) (s : Shared) where
  vote_result-AreCounted :
      AreCounted s
      → (accepted.0.proposals ≡ (with_vote v s).proposals)
      → (accepted.0.votes ≡ (with_vote v s).votes)
      → AreCounted (vote_result i now own v accepted s).0
  vote_result-AreCounted counted same_p same_v =
      elim (Option-cases (lookup v.proposal_id s.proposals)) [
        | inl gone ↦ rw (gone, vote_result) counted
        | inr (p, found) ↦
            rw (found, vote_result)
              (elim (Bool-cases (can_vote now p)) [
                | inr closed ↦ rw closed counted
                | inl open_now ↦
                    rw open_now
                      (elim (Bool-cases (has_voter v.voter (get_votes v.proposal_id s.votes))) [
                        | inl seen ↦ rw seen counted
                        | inr unseen ↦
                            let new = with_vote-AreCounted v s p counted found unseen in
                            rw unseen (elim (Bool-cases (has_quorum (count_vote p))) [
                              | inl full ↦ rw full new
                              | inr few ↦ rw (few, same_p, same_v) new
                            ])
                      ])
              ])
      ]

insert-AreCounted :
    (k : ℕ) (p : Proposal) (s : Shared)
    → AreCounted s
    → lookup k s.proposals ≡ none
    → p.current_votes ≡ 0
    → (id : ℕ) → IsCounted (lookup id (insert k p s.proposals)) (get_votes id s.votes)
insert-AreCounted k p s counted absent fresh id = elim (Bool-cases (k == id)) [
  | inl same ↦
      let gone : lookup id s.proposals ≡ none = ground arith in
      let no_votes : get_votes id s.votes ≡ [] = rw gone at (counted id) in
      rw (lookup-insert id k p s.proposals, same, no_votes) (fresh, tt)
  | inr apart ↦ rw (lookup-insert id k p s.proposals, apart) (counted id)
]

mark_expired-IsCounted :
    (ids : List ℕ) (m : Proposals) (id : ℕ) (vs : List Vote)
    → IsCounted (lookup id m) vs
    → IsCounted (lookup id (mark_expired ids m)) vs
unfolding mark_expired
mark_expired-IsCounted [] m id vs c = c
mark_expired-IsCounted (k ∷ ks) m id vs c =
    mark_expired-IsCounted ks (modify k (set_status ProposalStatus.expired) m) id vs (
      rw (lookup-modify id k (set_status ProposalStatus.expired) m) (elim (Bool-cases (k == id)) [
        | inl same ↦ rw same (elim (Option-cases (lookup id m)) [
          | inl gone ↦ rw gone (rw gone at c)
          | inr (p, found) ↦ rw found (rw found at c)
        ])
        | inr apart ↦ rw apart c
      ]))

-- The proposals that peers send have no votes yet.
abbrev pub IsNew : Proposal → Type 0
IsNew p = p.current_votes ≡ 0

module _ (c : Config) where
  -- Calls that run one after the other, each to its end or its standstill, where new proposals have
  -- new identifiers.
  pub data Serial : Shared → Type 0 where
    start : Serial new_engine.shared
    next :
        {s : Shared} {t : Task} (i now uuid : ℕ)
        → Serial s
        → IsCall IsNew t
        → lookup uuid s.proposals ≡ none
        → Serial (run_alone c i now uuid 5 (s, t)).0

  call-AreCounted :
      (i now uuid : ℕ) (s : Shared) {t : Task}
      → s.writer ≡ none
      → lookup uuid s.proposals ≡ none
      → AreCounted s
      → IsCall IsNew t
      → AreCounted (run_alone c i now uuid 5 (s, t)).0
  unfolding new_proposal send_proposal send_vote
  call-AreCounted i now uuid s free unused counted (IsCall.create content) =
      let p = new_proposal uuid now c.node_id content c.required_votes c.proposal_ttl_minutes in
      rw (create_runs c i now uuid s 3 free content) (elim (Option-cases s.proposal_queue) [
        | inl closed ↦ rw closed (insert-AreCounted uuid p s counted unused refl)
        | inr (sent, opened) ↦ rw opened (insert-AreCounted uuid p s counted unused refl)
      ])
  call-AreCounted i now uuid s free unused counted (IsCall.vote id type signature) =
      let v = new_vote now id c.node_id type signature in
      rw (vote_lem c i now uuid 0 s free id type signature) (
        vote_result-AreCounted i now true v (send_vote v (with_vote v s)) s counted (ground arith)
          (ground arith))
  call-AreCounted i now uuid s free unused counted (IsCall.process_vote v) =
      rw (process_vote_lem c i now uuid 1 s free v) (
        vote_result-AreCounted i now false v (with_vote v s, finished Outcome.done) s counted refl
          refl)
  call-AreCounted i now uuid s free unused counted (IsCall.process_proposal p new) =
      rw (process_proposal_runs c i now uuid s 3 free p)
        (elim (Option-cases (lookup p.id s.proposals)) [
          | inl gone ↦ rw gone (insert-AreCounted p.id p s counted gone new)
          | inr (old, found) ↦ rw found counted
        ])
  call-AreCounted i now uuid s free unused counted IsCall.cleanup =
      rw (cleanup_runs c i now uuid s 3 free) (λ id.
        mark_expired-IsCounted (find_expired now s.proposals) s.proposals id (get_votes id s.votes)
          (counted id))

  Serial-AreCounted : {s : Shared} → Serial s → AreCounted s
  unfolding lookup
  Serial-AreCounted start = λ id. refl
  Serial-AreCounted (next {s} i now uuid serial entry unused) = elim (Option-cases s.writer) [
    | inl free ↦ call-AreCounted i now uuid s free unused (Serial-AreCounted serial) entry
    | inr (j, held) ↦
        rw (run_alone_blocked c i now uuid s IsNew j 4 held entry) (Serial-AreCounted serial)
  ]

  -- When calls run one after the other, where new proposals have new identifiers and those of
  -- peers come with no votes counted, each stored proposal has counted exactly its stored
  -- votes, up to the wrap-around of the counter, and no voter has two of them.
  pub sequential_votes_agree :
      {s : Shared} (id : ℕ) (p : Proposal)
      → Serial s
      → lookup id s.proposals ≡ some p
      → (p.current_votes ≡ length (get_votes id s.votes) % u64_bound)
        × AreDistinct (get_votes id s.votes)
  sequential_votes_agree id p serial found = rw found at (Serial-AreCounted serial id)
