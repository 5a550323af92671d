-- ===== src/Node/Soroban.antt =====
-- The endpoints of network-node/src/config.rs and the calls with failover of
-- network-node/src/soroban_rpc_client.rs. A text is a number, of which `is_blank` tells whether its
-- trimmed text is empty, and `default_url` is the default endpoint. What comes back from the endpoint
-- at an index is a parameter; the retries of the HTTP client are part of it. Logs and metrics are
-- left out.
pub mod Failover
pub mod Submission
use axionvera_network.Base.{
  ℕ, suc, ◌+◌, Bool, true, false, not, ◌&&◌, Option, none, some, List, [], ◌∷◌, ◌++◌, ◌||◌, leb,
  ltb, ◌==◌, if◌then◌else◌,
}

pub record SorobanConfig : Type 0 where
  pub rpc_url : ℕ
  pub rpc_urls : List ℕ
  pub network_passphrase : ℕ
  pub health_check_interval_seconds : ℕ

-- `endpoints.iter().any(|url| url == rpc_url)`
unfoldable pub contains : ℕ → List ℕ → Bool
contains url [] = false
contains url (e ∷ es) = e == url || contains url es

module _ (is_blank : ℕ → Bool) (default_url : ℕ) where
  unfoldable pub push_urls : List ℕ → List ℕ → List ℕ
  push_urls endpoints [] = endpoints
  push_urls endpoints (url ∷ urls) =
      push_urls
        (if not (is_blank url) && not (contains url endpoints)
          then endpoints ++ url ∷ []
          else endpoints)
        urls

  abbrev pub or_default : List ℕ → List ℕ
  or_default [] = default_url ∷ []
  or_default (e ∷ es) = e ∷ es

  unfoldable pub rpc_endpoints : SorobanConfig → List ℕ
  rpc_endpoints config = or_default (
      push_urls (if not (is_blank config.rpc_url) then config.rpc_url ∷ [] else []) config.rpc_urls)

-- The body of a response: no JSON, or its `error` and `result`.
pub data Body : Type 0 where
  invalid : Body
  json : (error : Option ℕ) → (result : Option ℕ) → Body

pub data Response : Type 0 where
  send_failed : Response
  response : (status : ℕ) → Body → Response

pub data CallError : Type 0 where
  connection : (url : ℕ) → CallError
  unavailable : (url : ℕ) → CallError
  http_error : (status : ℕ) → CallError
  serialization empty_result no_endpoints : CallError
  rpc_error : ℕ → CallError

pub data Result : Type 0 where
  ok : ℕ → Result
  err : CallError → Result

abbrev pub is_success : ℕ → Bool
is_success status = leb 200 status && ltb status 300

-- What the call makes of a response that it does not fail over.
unfoldable pub decode : ℕ → Body → Result
decode status body =
    if is_success status
    then elim body [
      | Body.invalid ↦ err CallError.serialization
      | Body.json error result ↦ elim error [
        | some code ↦ err (CallError.rpc_error code)
        | none ↦ elim result [ some value ↦ ok value | none ↦ err CallError.empty_result ]
      ]
    ]
    else err (CallError.http_error status)

abbrev pub has_more : List ℕ → Bool
has_more [] = false
has_more (url ∷ urls) = true

abbrev pub or_no_endpoints : Option CallError → CallError
or_no_endpoints none = CallError.no_endpoints
or_no_endpoints (some e) = e

-- The loop of `call` over the endpoints from an index on.
unfoldable pub call_loop : (ℕ → ℕ → Response) → ℕ → Option CallError → List ℕ → Result
call_loop post index last_error [] = err (or_no_endpoints last_error)
call_loop post index last_error (url ∷ rest) =
    let after_connection = call_loop post (index + 1) (some (CallError.connection url)) rest in
    let after_unavailable = call_loop post (index + 1) (some (CallError.unavailable url)) rest in
    elim (post index url) [
      | Response.send_failed ↦
          if has_more rest then after_connection else err (CallError.connection url)
      | Response.response status body ↦
          if status == 503 && has_more rest then after_unavailable else decode status body
    ]

abbrev pub call : (ℕ → ℕ → Response) → List ℕ → Result
call post rpc_urls = call_loop post 0 none rpc_urls
