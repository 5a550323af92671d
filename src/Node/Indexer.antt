-- ===== src/Node/Indexer.antt =====
-- network-node/src/indexer.rs: the polling of the contract's events. Identifiers of contracts, of
-- events and of values are numbers, the texts that the code writes out are strings. What the RPC
-- client answers to `getEvents` is a parameter, by poll and parameters: Node/Soroban has the client.
-- The events are parsed and logged; here they are kept as `parsed`.
pub mod Unseen
use Prim.Native.String.{String}
use axionvera_network.Base.{
  ℕ, suc, ◌+◌, ◌%◌, Bool, true, false, Option, none, some, List, [], ◌∷◌, ◌++◌,
}
use axionvera_network.Base.I128.{u32_bound}

pub record SorobanEvent : Type 0 where
  pub event_type : String
  pub ledger : ℕ
  pub contract_id : ℕ
  pub id : ℕ
  pub topic : List String
  pub value : ℕ

pub record EventFilter : Type 0 where
  pub event_type : String
  pub contract_ids : List ℕ
  pub topics : List (List String)

pub record GetEventsParams : Type 0 where
  pub start_ledger : ℕ
  pub filters : List EventFilter

pub record EventsResult : Type 0 where
  pub events : List SorobanEvent
  pub latest_ledger : ℕ

pub record EventIndexer : Type 0 where
  pub contract_id : ℕ
  pub current_ledger : ℕ
  pub parsed : List SorobanEvent

abbrev pub new_indexer : ℕ → EventIndexer
new_indexer contract_id = record { contract_id = contract_id; current_ledger = 0; parsed = [] }

abbrev pub params : EventIndexer → GetEventsParams
params x = record {
  start_ledger = x.current_ledger;
  filters =
      record {
        event_type = "contract";
        contract_ids = x.contract_id ∷ [];
        topics = ("AxionveraVault" ∷ []) ∷ [];
      }
      ∷ [];
}

-- An error, `none`, is logged, and the next poll asks again. The ledger is a `u32`, which wraps in the
-- release profile.
unfoldable pub handle_answer : Option EventsResult → EventIndexer → EventIndexer
handle_answer none x = x
handle_answer (some r) x = record x {
  parsed = x.parsed ++ r.events;
  current_ledger = (r.latest_ledger + 1) % u32_bound;
}

pub data Turn : Type 0 where
  cancelled tick : Turn

-- The loop of `start`, from poll `n` on, along the turns that `select!` takes: the indexer and whether
-- it has stopped.
unfoldable pub start :
    (ℕ → GetEventsParams → Option EventsResult) → ℕ → List Turn → EventIndexer → EventIndexer × Bool
start get_events n [] x = (x, false)
start get_events n (Turn.cancelled ∷ turns) x = (x, true)
start get_events n (Turn.tick ∷ turns) x =
    start get_events (n + 1) turns (handle_answer (get_events n (params x)) x)
