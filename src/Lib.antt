-- ===== src/Lib.antt =====
-- Verification of axionvera-network: the vault contract, contracts/vault-contract/src, its second
-- version, contracts/vault-contract-v2/src, and parts of the network node, network-node/src.
--
-- The program. Users deposit a token in the vault, lock part of their stake for a time, and earn
-- rewards in a second token. The admin distributes rewards: a distribution raises a global index,
-- by which each position is settled when its user next acts. Rewards vest over a period, and a
-- claim pays what has vested. The entry points (lib.rs) check their arguments, the pause flag and
-- the authorization, and call the operations on the storage (storage.rs) under a reentrancy guard.
-- The same is offered for further assets, each with its own total and index.
--
-- The node keeps the parameters of the chain by height, decides on their change by votes
-- (governance.rs, over the roles and the schedule of chain_params.rs), and agrees with its peers on
-- proposals (consensus.rs), whose calls run concurrently over shared locks. It reaches the Stellar
-- network through providers and endpoints of which some may fail (horizon_client.rs,
-- soroban_rpc_client.rs), counts errors and breaks circuits (error.rs, error_middleware.rs), limits
-- calls (rate_limiter.rs), keeps the state's root and snapshots (state_trie.rs), signs with keys of
-- several kinds (signing.rs, aws_kms_signer.rs), verifies signatures in batches (crypto.rs), knows
-- its peers (p2p.rs), follows the vault's events (indexer.rs, soroban_service.rs) and guards the
-- admin routes of its server (grpc/server.rs).
--
-- The files, with the code that each models:
--   Base, Base/*           shared names, tests and lists, integers (Base/Int), machine integers
--                          with their checked and wrapping operations and casts (Base/I128)
--   Vault/Errors           errors.rs: the error enums, codes, categories, conversions
--   Vault/Outcome, Action  Result and panic as values; a call on a state. What a call has written
--                          before it fails stays written here, and `invoke` of Vault/World is the
--                          host that undoes it
--   Vault/State            the records of storage.rs; one field of `Storage` for each DataKey
--   Vault/Storage          storage.rs: initialization, accessors, positions, the guard
--   Vault/Rewards          storage.rs: index increment, accrual, vesting, utilization multiplier
--   Vault/Locks            storage.rs: unlock_expired_locks, store_lock
--   Vault/Operations       storage.rs: store_deposit, store_withdraw, store_reward_distribution,
--                          store_claimable_rewards
--   Vault/Assets           storage.rs: the same by asset
--   Vault/Previews         storage.rs: the views of pending and vested rewards
--   Vault/Events           events.rs: what is published
--   Vault/World            what an entry point acts on: storage, tokens, events, code
--   Vault/Validation       lib.rs: the checks on arguments, with_non_reentrant
--   Vault/Contract         lib.rs: the entry points
--   Vault/AssetContract    lib.rs: the entry points by asset
--   Vault/Upgraded         vault-contract-v2/src/lib.rs of contracts: the contract that an upgrade
--                          installs; Carried is about what it finds
--   Node/ChainParams       chain_params.rs of the node: patches, the schedule by height, roles and who
--                          may submit an upgrade; Schedule, Authority and Dao are about its parts
--   Node/Governance        governance.rs: propose, cast_vote and tick over that registry. Approval and
--                          History follow a service through any calls, Executed and Finality say
--                          what has been decided, Blocking is about proposals that the registry
--                          refuses, Genesis about a DAO without roles
--   Node/Consensus         consensus.rs: the data and what is done under one lock. Consensus/Tasks has
--                          each method of ConsensusEngine as a task that runs from wait to wait, and
--                          Consensus/System the interleavings of the tasks. Frozen, Races and
--                          Requests are about these, Alone, Counting and Cleanup about calls that
--                          run one after the other
--   Node/Horizon           horizon_client.rs: providers, circuit breakers, requests with fallback;
--                          Locks has a request with the lock that a health check keeps; Choice,
--                          Requests, Breaker and Outage are about its parts
--   Node/Soroban           config.rs, the endpoints; soroban_rpc_client.rs, the call with failover
--                          (Failover); soroban_service.rs, a submission (Submission)
--   Node/Errors            error.rs: the errors, their codes and which may be retried
--   Node/Middleware        error_middleware.rs: statistics (Stats) and circuit breakers (Breakers)
--   Node/RateLimiter       rate_limiter.rs
--   Node/StateTrie         state_trie.rs: the root (Root) and the chunks of a snapshot (Chunks)
--   Node/Signing           signing.rs: the signers (Registry) and the cache of keys (Freshness);
--                          aws_kms_signer.rs: the signer behind the key service (Kms)
--   Node/AdminAuth         grpc/server.rs: the guard of the admin routes, and who passes it (Access);
--                          Node/Texts has the operations on texts
--   Node/Indexer           indexer.rs: the loop of polls, and what its filter lets through (Unseen)
--   Node/Peers             p2p.rs: the routing table (Routing, Closest), the connections (Connections)
--   Node/Crypto            crypto.rs: the results of batches (Batches) and what becomes of the requests
--                          that workers and the batch processor share (Accounting)
-- The specification is Vault/Ledger: accounts with a liquid and a locked stake, an index and a
-- reserve of rewards, four kinds of steps, and the solvency that they preserve. Vault/Refinement
-- says when a storage stands for a ledger and follows each operation on it, Vault/Entries each
-- entry point, and Vault/History any sequence of calls but the upgrade: under its `free_rules` with
-- any changes of the tokens, under its `fair_rules` without the claims by asset, the withdrawals by
-- asset of the vault's own two tokens, and changes that take tokens from the vault. Vault/Guards is
-- about the calls that are refused; Vault/Vesting, Vault/Multipliers, Vault/AssetEffects and
-- Vault/Codes are about the parts in their names. Vault/Tests and Node/Tests run both on concrete
-- inputs.
--
-- Parameters. The token contracts are not in the repository: `Host` of Vault/World is a state with
-- balances and a transfer that may trap, and `IsToken` of Vault/History/Custody is what the histories
-- rely on. Who has authorized a call and the time of the ledger are part of the `Call`. In the node,
-- times and fresh identifiers come from outside. What a provider or an endpoint answers, the Redis
-- client, the database with its hash and encoding, the hash of tokens, and the keys and services
-- behind a signer are parameters of the definitions that use them.
--
-- Bounds. `i128` is an integer with range checks at 2^127, `u128`, `u64` and `u32` are natural
-- numbers with theirs. The loops run over lists and need no fuel, but for that of `execute_request`
-- in Node/Horizon, where as many rounds as there are providers are enough, and the calls of
-- Node/Consensus that run alone, which come to their end or to a lock within five runs.
--
-- Not modelled: the extension of the time to live of storage keys, which no code reads; the views
-- of lib.rs, which only pass on a function of storage.rs; `Display`. Of the node: logs, metrics and
-- traces; consensus.rs's start_maintenance, which does not compile; the background tasks of the
-- clients; the set-up of the key service's client; and the gRPC and HTTP servers but for the guard
-- of the admin routes, the service over Stellar, shutdown, profiling, the database and Kubernetes.
-- `Lock` and `MultiplierPoint` are declared nowhere in the source and have the fields that the code
-- uses. An upgrade is modelled as the change of the code's hash; histories end before one. Texts of
-- the node are numbers, lists of code points where the code walks them, or of a type with the
-- operations that the code uses on them.
pub mod Base
pub mod Vault
pub mod Node
