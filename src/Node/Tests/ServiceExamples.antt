-- ===== src/Node/Tests/ServiceExamples.antt =====
-- The theorems on the smaller services of the node, in error_middleware.rs, rate_limiter.rs,
-- soroban_rpc_client.rs, state_trie.rs, signing.rs, p2p.rs and crypto.rs of network-node/src, at concrete inputs.
use axionvera_network.Base.{
  ℕ, ◌+◌, ◌*◌, ◌≤◌, ◌≡◌, refl, ◌⊎◌, inl, Bool, true, Option, none, some, List, [], ◌∷◌, ◌++◌, All,
  length, ◌==◌, if◌then◌else◌, arith,
}
use axionvera_network.Base.Maps
use axionvera_network.Base.Maps.{Map}
use axionvera_network.Node.Errors.{NetworkError, new_context}
use axionvera_network.Node.Middleware
use axionvera_network.Node.Middleware.{
  ErrorMiddlewareConfig, ErrorMiddleware, default_config, new_middleware, is_circuit_breaker_open,
}
use axionvera_network.Node.Middleware.Stats.{Report, handle_all}
use axionvera_network.Node.Middleware.Breakers.{Event, run, open_waits}
use axionvera_network.Node.RateLimiter.{allowed, calls_in, min, new_limiter, allow_bound}
use axionvera_network.Node.Soroban.{Response, Body, call}
use axionvera_network.Node.Soroban.Failover.{answer, call_first_answer}
use axionvera_network.Node.StateTrie.{Leaf, Hash, StateTrie, zero_hash}
use axionvera_network.Node.StateTrie.Chunks.{entries, first_chunks, chunks-eq-entries}
use axionvera_network.Node.Signing
use axionvera_network.Node.Signing.{PublicKeyCache, new_entry, get_or_fetch}
use axionvera_network.Node.Signing.Freshness.{History, get_or_fetch_fresh}
use axionvera_network.Node.Peers.{PeerInfo, KademliaRoutingTable, find_closest, all_peers}
use axionvera_network.Node.Peers.Closest.{AreOrdered, IsCloser, count, find_closest_lem}
use axionvera_network.Node.Crypto
use axionvera_network.Node.Crypto.{
  SignatureVerificationRequest, CryptoWorkerPool, Timing, new_pool, submit, process_batch,
  batch_receive, worker_step,
}
use axionvera_network.Node.Crypto.Batches.{ids, failures, is_genuine}
use axionvera_network.Node.Crypto.Accounting.{answered, occurrences, Run, requests_accounted}

-- A breaker opens at the second error of its component.
abbrev config : ErrorMiddlewareConfig
config = record default_config { circuit_breaker_threshold = 2; circuit_breaker_timeout = 60 }

-- An error of component 5.
abbrev report : ℕ → Report
report now = record {
  uuid = now;
  now = now;
  error = NetworkError.connection 1;
  context = new_context now 8 5;
}

abbrev reports : List Report
reports = report 1 ∷ report 2 ∷ report 3 ∷ []

abbrev failed_twice : ErrorMiddleware
failed_twice = handle_all (report 1 ∷ report 2 ∷ []) (new_middleware config)

failed_twice_open : is_circuit_breaker_open 5 failed_twice ≡ true
unfolding is_circuit_breaker_open handle_all Middleware.handle_error Middleware.count_failure
    Maps.upsert Maps.lookup
failed_twice_open = refl

-- Successes of the component, an error of component 6, and a reset of its breaker.
abbrev quiet : List Event
quiet =
    Event.succeeded 5
    ∷ Event.failed (record (report 1000) { context = new_context 1000 8 6 })
    ∷ Event.reset 6
    ∷ Event.succeeded 5
    ∷ []

open_waits_example : is_circuit_breaker_open 5 (run quiet failed_twice) ≡ true
open_waits_example = open_waits 5 quiet failed_twice failed_twice_open refl refl

-- Three calls of key 7 in the first minute, one of key 8, and one of key 7 in the second.
abbrev calls : List (ℕ × ℕ)
calls = (3, 7) ∷ (10, 8) ∷ (20, 7) ∷ (59, 7) ∷ (61, 7) ∷ []

allow_bound_example : allowed 7 0 calls (new_limiter none 2) ≡ min 2 (calls_in 7 0 calls)
allow_bound_example =
    allow_bound 2 7 0 calls
      (omega arith, (omega arith, (omega arith, (omega arith, (omega arith, tt))))) (omega arith)

-- Endpoint 10 is not reached, 11 is not available, and 12 answers.
abbrev post : ℕ → ℕ → Response
post index url =
    if url == 10
    then Response.send_failed
    else if url == 11
    then Response.response 503 Body.invalid
    else Response.response 200 (Body.json none (some 42))

call_first_answer_example : call post ((10 ∷ 11 ∷ []) ++ 12 ∷ 13 ∷ []) ≡ answer 12 (post 2 12)
call_first_answer_example =
    call_first_answer post (10 ∷ 11 ∷ []) 12 (13 ∷ []) (refl, (refl, tt)) (inl refl)

-- A database is what its iterator yields.
abbrev items : List (Option (ℕ × ℕ)) → List (Option (ℕ × ℕ))
items db = db

abbrev hash_node : Leaf → Hash
hash_node leaf i = i == leaf.key

abbrev put : Hash → Leaf → List (Option (ℕ × ℕ)) → Option (List (Option (ℕ × ℕ)))
put node_hash leaf db = some (some (leaf.key, leaf.value) ∷ db)

abbrev trie : StateTrie (List (Option (ℕ × ℕ))) hash_node put items
trie = record { db = some (1, 10) ∷ none ∷ some (2, 20) ∷ []; root_hash = zero_hash }

chunks-eq-entries_example :
    first_chunks (List (Option (ℕ × ℕ))) hash_node put items 1 trie
    ≡ entries (List (Option (ℕ × ℕ))) hash_node put items (items trie.db)
chunks-eq-entries_example =
    chunks-eq-entries (List (Option (ℕ × ℕ))) hash_node put items 1 trie (omega arith)

-- The signer of identifier 3 has given the public key 99, which was stored at time 5.
abbrev Given : ℕ → ℕ → ℕ → Type 0
Given key_id public_key t = (key_id ≡ 3) × (public_key ≡ 99) × (t ≡ 5)

abbrev new_cache : PublicKeyCache
new_cache = record { cache = []; default_ttl_seconds = 1 }

abbrev cache : PublicKeyCache
cache = (get_or_fetch 4 5 3 (Signing.Result.ok 99) new_cache).1

abbrev gone : Signing.Result ℕ
gone = Signing.Result.err Signing.SigningError.no_default

cached : (get_or_fetch 1_000_000_000 6 3 gone cache).0 ≡ Signing.Result.ok 99
unfolding get_or_fetch Maps.insert Maps.lookup
cached = refl

get_or_fetch_fresh_example :
    (gone ≡ Signing.Result.ok 99)
    ⊎ ((t : ℕ) × Given 3 99 t × (1_000_000_000 ≤ t + cache.default_ttl_seconds * 1_000_000_000))
get_or_fetch_fresh_example =
    get_or_fetch_fresh Given cache 1_000_000_000 6 3 99 gone
      (History.called 4 5 3 (Signing.Result.ok 99) (History.start 1)
        (λ public_key e. (refl, ground arith, refl)))
      cached

abbrev peer : ℕ → PeerInfo
peer n = record { id = n ∷ []; address = n; is_connected = true; last_seen = 0; latency_ms = 50 }

abbrev table : KademliaRoutingTable
table = record { local_id = 0 ∷ []; buckets = (peer 6 ∷ peer 5 ∷ []) ∷ (peer 3 ∷ []) ∷ [] }

find_closest_lem_example :
    let found = find_closest (7 ∷ []) 2 table in
    (others : List PeerInfo) × AreOrdered (7 ∷ []) found
    × (length found ≤ 2)
    × All (λ p. All (IsCloser (7 ∷ []) p) others) found
    × ((test : PeerInfo → Bool)
        → count (7 ∷ []) test found + count (7 ∷ []) test others
          ≡ count (7 ∷ []) test (all_peers table.buckets))
find_closest_lem_example = find_closest_lem (7 ∷ []) 2 table

-- Keys and signatures are single numbers, and a signature is valid where it is the key's.
abbrev parse : List ℕ → Option ℕ
parse [] = none
parse (n ∷ ns) = some n

abbrev is_signed : ℕ → List ℕ → ℕ → Bool
is_signed key message signature = key == signature

abbrev request : ℕ → List ℕ → SignatureVerificationRequest
request id signature = record {
  id = id;
  public_key = 4 ∷ [];
  message = [];
  signature = signature;
  timestamp = 0;
}

abbrev timing : Timing
timing = record { took_ms = λ i. 1; ended = λ i. i; total_ms = 3; batch_ended = 3 }

abbrev requests : List SignatureVerificationRequest
requests = request 1 (4 ∷ []) ∷ request 2 [] ∷ request 3 (5 ∷ []) ∷ []

two_fail : failures (is_genuine ℕ ℕ parse parse is_signed) requests ≡ 2 ∷ 3 ∷ []
unfolding Crypto.verify_signature
two_fail = refl

-- Two requests, of which a worker takes the first and the batch processor the second.
abbrev given_two : CryptoWorkerPool
given_two = submit (request 2 []) (submit (request 1 (4 ∷ [])) (new_pool 0 1 50))

abbrev one_taken : CryptoWorkerPool
one_taken =
    worker_step ℕ ℕ parse parse is_signed (request 1 (4 ∷ []))
      (record given_two { queue = request 2 [] ∷ [] })

abbrev both_taken : CryptoWorkerPool
both_taken =
    batch_receive ℕ ℕ parse parse is_signed 8 timing 10 (request 2 [])
      (record one_taken { queue = [] })

both-Run : Run ℕ ℕ parse parse is_signed 1 50 (2 ∷ 1 ∷ []) (1 ∷ []) both_taken
both-Run =
    Run.batched 8 timing 10 (request 2 []) []
      (Run.worked (request 1 (4 ∷ [])) (request 2 [] ∷ [])
        (Run.submitted (request 2 []) (Run.submitted (request 1 (4 ∷ [])) (Run.started 0))) refl)
      refl

requests_accounted_example :
    occurrences 2 (2 ∷ 1 ∷ [])
    ≡ occurrences 2 (1 ∷ [])
      + occurrences 2 (answered both_taken.sent)
      + occurrences 2 (ids both_taken.batch)
      + occurrences 2 (ids both_taken.queue)
requests_accounted_example = requests_accounted ℕ ℕ parse parse is_signed 2 both-Run
