-- ===== src/Node/Consensus/System.antt =====
-- The tasks of one engine of network-node/src/consensus.rs, interleaved in any order: a caller or a
-- peer starts a call, a task runs to its next wait, and a caller may drop the future of a call,
-- which drops its guard.
use axionvera_network.Base.{ℕ, ◌≡◌, ◌⊎◌, none, some, List, [], update, ◌==◌, if◌then◌else◌}
use axionvera_network.Node.Consensus.{VoteType, Proposal, Vote, Config}
use axionvera_network.Node.Consensus.Tasks.{Outcome, Task, idle, finished, Shared, advance}

pub record Engine : Type 0 where
  pub shared : Shared
  pub tasks : ℕ → Task

abbrev pub IsOver : Task → Type 0
IsOver t = (t ≡ idle) ⊎ ((o : Outcome) × (t ≡ finished o))

-- The first wait of a call, where `Arrives` tells which proposals peers send.
pub data IsCall (Arrives : Proposal → Type 0) : Task → Type 0 where
  create : (content : List ℕ) → IsCall Arrives (Task.create content)
  vote :
      (id : ℕ) (type : VoteType) (signature : List ℕ) → IsCall Arrives (Task.vote id type signature)
  process_vote : (v : Vote) → IsCall Arrives (Task.process_vote v)
  process_proposal : (p : Proposal) → Arrives p → IsCall Arrives (Task.process_proposal p)
  cleanup : IsCall Arrives Task.cleanup

pub data Step (c : Config) (Arrives : Proposal → Type 0) (e : Engine) : Engine → Type 0 where
  call :
      (i : ℕ) {t : Task}
      → IsOver (e.tasks i)
      → IsCall Arrives t
      → Step c Arrives e (record e { tasks = update e.tasks i t })
  run :
      (i now uuid : ℕ) {s : Shared} {t : Task}
      → advance c i now uuid e.shared (e.tasks i) ≡ some (s, t)
      → Step c Arrives e (record { shared = s; tasks = update e.tasks i t })

-- The guard that a dropped task held is free again.
abbrev pub release : ℕ → Shared → Shared
release i s = elim s.writer [ none ↦ s | some j ↦ if j == i then record s { writer = none } else s ]

-- Steps alone: no future is dropped.
pub data Later (c : Config) (Arrives : Proposal → Type 0) (e : Engine) : Engine → Type 0 where
  here : Later c Arrives e e
  next : {f g : Engine} → Later c Arrives e f → Step c Arrives f g → Later c Arrives e g

-- `ConsensusEngine::new`, with both receivers in place.
abbrev pub new_engine : Engine
new_engine = record {
  shared = record {
    proposals = [];
    votes = [];
    writer = none;
    vote_queue = some [];
    proposal_queue = some [];
  };
  tasks = λ i. idle;
}

pub data Reach (c : Config) (Arrives : Proposal → Type 0) : Engine → Type 0 where
  start : Reach c Arrives new_engine
  step : {e f : Engine} → Reach c Arrives e → Step c Arrives e f → Reach c Arrives f
  drop :
      {e : Engine} (i : ℕ)
      → Reach c Arrives e
      → Reach c Arrives (record { shared = release i e.shared; tasks = update e.tasks i idle })
