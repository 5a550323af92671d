-- ===== src/Node/Tests/ServerExamples.antt =====
-- The theorems on the guard of the admin routes and on the indexer of the node, at concrete requests
-- and answers.
use axionvera_network.Base.{
  ℕ, ◌≡◌, ◌≢◌, refl, true, Option, none, some, List, [], ◌∷◌, map, if◌then◌else◌, leb,
}
use axionvera_network.Node.Texts
use axionvera_network.Node.Texts.{Text, codes, trim, to_ascii_lowercase}
use axionvera_network.Node.AdminAuth
use axionvera_network.Node.AdminAuth.{
  Request, new_interceptor, extract_admin_token, intercept, Reply,
}
use axionvera_network.Node.AdminAuth.Access.{admin_needs_token}
use axionvera_network.Node.Indexer.{SorobanEvent, EventFilter, GetEventsParams, EventsResult}
use axionvera_network.Node.Indexer.Unseen.{matches_any}

-- A hash that puts a text into lower case and marks it.
abbrev hash : Text → Text
hash t = 104 ∷ map to_ascii_lowercase t

abbrev admin_request : Request
admin_request = record {
  path = "/axionvera.network.NetworkService/ParameterUpgrade";
  authorization = some (codes " BEARER  Secret ");
  x_api_key = none;
  api_key = some (codes "other");
}

abbrev setting : Option Text
setting = some (codes " hSECRET")

admin_accepted :
    intercept hash (new_interceptor setting) admin_request ≡ Reply.accepted admin_request
unfolding intercept new_interceptor extract_admin_token AdminAuth.bearer_token AdminAuth.is_listed
    Texts.trim_start Texts.trim_end Texts.is_whitespace to_ascii_lowercase Texts.eq_text
    Texts.split_once_space
admin_accepted = refl

is_admin_path : AdminAuth.is_admin_grpc_route admin_request.path ≡ true
unfolding AdminAuth.is_listed
is_admin_path = refl

admin_needs_token_example :
    (token hash_text : Text) × (extract_admin_token admin_request ≡ some token)
    × (token ≢ [])
    × (setting ≡ some hash_text)
    × (hash token ≡ map to_ascii_lowercase (trim hash_text))
    × (hash token ≢ [])
admin_needs_token_example =
    admin_needs_token hash setting admin_request admin_request is_admin_path admin_accepted

-- A deposit of the vault 9, and an event of it under the topic that the indexer asks for.
abbrev chain : List SorobanEvent
chain =
    record {
      event_type = "contract";
      ledger = 2;
      contract_id = 9;
      id = 1;
      topic = "AxionVault" ∷ "Deposit" ∷ [];
      value = 5;
    }
    ∷ record {
      event_type = "contract";
      ledger = 3;
      contract_id = 9;
      id = 2;
      topic = "AxionveraVault" ∷ [];
      value = 6;
    }
    ∷ []

-- The service answers the first two polls with the events that match the filters.
abbrev select : List EventFilter → List SorobanEvent → List SorobanEvent
select filters [] = []
select filters (e ∷ es) =
    let rest = select filters es in if matches_any filters e then e ∷ rest else rest

abbrev get_events : ℕ → GetEventsParams → Option EventsResult
get_events n p =
    if leb 2 n then none else some (record { events = select p.filters chain; latest_ledger = 3 })
