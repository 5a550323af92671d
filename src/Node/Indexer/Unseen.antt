-- ===== src/Node/Indexer/Unseen.antt =====
-- What the filter of network-node/src/indexer.rs lets through of the events that the vault of
-- contracts/vault-contract publishes.
use Prim.Native.String.{String}
use text.Mathlib.Text
use axionvera_network.Base.{
  ℕ, ◌≡◌, ◌≢◌, Bool, true, false, ◌&&◌, ◌||◌, Option, some, List, [], ◌∷◌, All, ◌==◌,
}
use axionvera_network.Vault.Events
use axionvera_network.Node.Indexer.{
  SorobanEvent, EventFilter, GetEventsParams, EventsResult, EventIndexer,
}

-- What the service documents of the filters of `getEvents`: an event is answered only where it matches
-- one of them. A filter without contracts, or without topics, lets all of them through. A pattern of
-- topics has a segment for each topic of the event, and the segment "*" matches any topic.
abbrev pub contains_contract : ℕ → List ℕ → Bool
contains_contract c [] = false
contains_contract c (d ∷ ds) = c == d || contains_contract c ds

abbrev pub matches_segment : String → String → Bool
matches_segment segment topic = Text.◌==◌ segment "*" || Text.◌==◌ segment topic

abbrev pub matches_topics : List String → List String → Bool
matches_topics [] [] = true
matches_topics [] (t ∷ ts) = false
matches_topics (s ∷ ss) [] = false
matches_topics (s ∷ ss) (t ∷ ts) = matches_segment s t && matches_topics ss ts

abbrev pub matches_some : List (List String) → List String → Bool
matches_some [] topic = false
matches_some (p ∷ ps) topic = matches_topics p topic || matches_some ps topic

abbrev pub is_nil : {A : Type 0} → List A → Bool
is_nil [] = true
is_nil (x ∷ xs) = false

abbrev pub matches : EventFilter → SorobanEvent → Bool
matches f e =
    Text.◌==◌ f.event_type e.event_type
    && (is_nil f.contract_ids || contains_contract e.contract_id f.contract_ids)
    && (is_nil f.topics || matches_some f.topics e.topic)

abbrev pub matches_any : List EventFilter → SorobanEvent → Bool
matches_any [] e = false
matches_any (f ∷ fs) e = matches f e || matches_any fs e

abbrev pub IsFiltered : GetEventsParams → EventsResult → Type 0
IsFiltered p r = All (λ e. matches_any p.filters e ≡ true) r.events

-- Whatever the service answers, whenever and by whatever pages, its events match the filters.
abbrev pub IsRpc : (ℕ → GetEventsParams → Option EventsResult) → Type 0
IsRpc get_events =
    (n : ℕ) (p : GetEventsParams) (r : EventsResult) → get_events n p ≡ some r → IsFiltered p r

-- An event of the contract `c` that the indexer asks for.
abbrev pub IsAsked : ℕ → SorobanEvent → Type 0
IsAsked c e =
    (Text.◌==◌ "contract" e.event_type ≡ true)
    × (e.contract_id ≡ c)
    × (matches_topics ("AxionveraVault" ∷ []) e.topic ≡ true)

-- What the indexer asks for has not the topics of any event of the vault.
abbrev pub IsForeign : SorobanEvent → Type 0
IsForeign e = (v : Events.Event) → e.topic ≢ Events.topics v

abbrev IsUnseen : ℕ → SorobanEvent → Type 0
IsUnseen c e = IsAsked c e × IsForeign e

-- An indexer of the contract `c` that has parsed nothing else.
abbrev IsKept : ℕ → EventIndexer → Type 0
IsKept c x = (x.contract_id ≡ c) × All (IsUnseen c) x.parsed
