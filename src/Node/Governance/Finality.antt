-- ===== src/Node/Governance/Finality.antt =====
-- What network-node/src/governance.rs has decided about a proposal stays so.
use mathlib.Core.Path.{subst}
use axionvera_network.Base.{
  ℕ, ◌≡◌, refl, sym, ◌∙◌, Bool, false, some, [], ◌∷◌, IsFresh, IsDistinct, ◌==◌, arith, inl, inr,
  Bool-cases,
}
use axionvera_network.Base.Maps.{Map, lookup, keys, AllEntries, lookup-modify}
use axionvera_network.Node.ChainParams.{GovernanceConfig}
use axionvera_network.Node.Governance.{
  is_voting, Registry, Proposal, GovernanceService, passes, is_due, decide, execute_all, tick,
  add_vote,
}
use axionvera_network.Node.Governance.Approval.{
  IsFair, IsSound, decide-IsFresh, decide_idle, decide_won, decide_lost, to_execute,
}
use axionvera_network.Node.Governance.History.{
  Step, Later, here, next, proposed, voted, ticked, History, History-IsSound, Later-IsSound,
  cast_vote_runs, propose_others,
}
use axionvera_network.Node.Governance.Blocking.{execute_all_other, lookup-decide}

module _ (Text : Type 0) (is_empty : Text → Bool) (normalize_id : Text → ℕ) where
  module _ (config : GovernanceConfig Text is_empty normalize_id) (height : ℕ) where
    -- A proposal that is not due is not executed.
    decide_skips :
        (id : ℕ) (p : Proposal Text is_empty normalize_id)
        (m : Map (Proposal Text is_empty normalize_id))
        → AllEntries (IsFair Text is_empty normalize_id config) m
        → IsDistinct (keys m)
        → lookup id m ≡ some p
        → is_due Text is_empty normalize_id height p ≡ false
        → IsFresh id (to_execute Text is_empty normalize_id config height m)
    unfolding lookup
    decide_skips id p [] fair d found idle = absurd (ground arith)
    decide_skips id p ((k, q) ∷ m) ((same, adopted, keyed), a) (fresh, d) found idle =
        elim (Bool-cases (k == id)) [
          | inl hit ↦
              let at_id : k ≡ id = ground arith in
              let quiet : is_due Text is_empty normalize_id height q ≡ false = ground arith in
              rw (decide_idle Text is_empty normalize_id config height k q m quiet, to_execute)
                (decide-IsFresh Text is_empty normalize_id config height id m a
                  (rw (← at_id) fresh))
          | inr apart ↦
              let rest = decide_skips id p m a d (ground arith) idle in
              elim (Bool-cases (is_due Text is_empty normalize_id height q)) [
                | inr quiet ↦
                    rw
                      (decide_idle Text is_empty normalize_id config height k q m quiet, to_execute)
                      rest
                | inl due ↦ elim (Bool-cases (passes Text is_empty normalize_id config q)) [
                  | inl won ↦
                      rw
                        (
                          decide_won Text is_empty normalize_id config height k q m due won,
                          to_execute,
                        )
                        (ground arith, rest)
                  | inr lost ↦
                      rw
                        (
                          decide_lost Text is_empty normalize_id config height k q m due lost,
                          to_execute,
                        )
                        rest
                ]
              ]
        ]

  module _ (config : GovernanceConfig Text is_empty normalize_id) (id : ℕ)
      (p : Proposal Text is_empty normalize_id) where
    tick_decided :
        (g : GovernanceService Text is_empty normalize_id) (tx_id : ℕ → ℕ) (height : ℕ)
        (registry : Registry Text is_empty normalize_id)
        → IsSound Text is_empty normalize_id config g.proposals
        → registry.governance ≡ config
        → lookup id g.proposals ≡ some p
        → is_voting p.status ≡ false
        → lookup id (tick Text is_empty normalize_id tx_id height g registry).0.proposals ≡ some p
    unfolding tick
    tick_decided g tx_id height registry sound same found closed =
        let idle : is_due Text is_empty normalize_id height p ≡ false = ground arith in
        let out = λ (c : GovernanceConfig Text is_empty normalize_id).
          decide Text is_empty normalize_id c height g.proposals in
        subst
          (λ c.
            lookup id
              (execute_all Text is_empty normalize_id tx_id (out c).1 ((out c).0, registry)).0
            ≡ some p)
          (sym same)
          (execute_all_other Text is_empty normalize_id tx_id id (out config).1 (out config).0
              registry
              (decide_skips config height id p g.proposals sound.fair sound.distinct found idle)
            ∙ lookup-decide Text is_empty normalize_id config height id p g.proposals found
            ∙ rw idle refl)

    Step_decided :
        (g g' : GovernanceService Text is_empty normalize_id)
        → IsSound Text is_empty normalize_id config g.proposals
        → Step Text is_empty normalize_id config g g'
        → lookup id g.proposals ≡ some p
        → is_voting p.status ≡ false
        → lookup id g'.proposals ≡ some p
    Step_decided g g' sound (proposed uuid proposer patch activation current registry new e) found
          closed =
        propose_others Text is_empty normalize_id config g g' uuid proposer patch activation current
          registry e id p new found
    Step_decided g g' sound (voted j voter approve registry e) found closed =
        let (q, there, open_now, same) =
          cast_vote_runs Text is_empty normalize_id config g g' j voter approve registry e in
        let miss : (j == id) ≡ false = ground arith in
        rw
          (
            same,
            lookup-modify id j (add_vote Text is_empty normalize_id voter approve) g.proposals,
            miss,
          )
          found
    Step_decided g g' sound (ticked tx_id height registry same at) found closed =
        rw at (tick_decided g tx_id height registry sound same found closed)

    -- What has been decided stays: in every history a proposal that is no longer open keeps its
    -- status, its votes and all else for ever. One that has passed and was not executed is so never.
    pub decided_final :
        {g g' : GovernanceService Text is_empty normalize_id}
        → History Text is_empty normalize_id config g
        → Later Text is_empty normalize_id config g g'
        → lookup id g.proposals ≡ some p
        → is_voting p.status ≡ false
        → lookup id g'.proposals ≡ some p
    decided_final h here found closed = found
    decided_final h (next {g'} {g''} later st) found closed =
        let sound =
          Later-IsSound Text is_empty normalize_id config later
            (History-IsSound Text is_empty normalize_id config h) in
        Step_decided g' g'' sound st (decided_final h later found closed) closed
