-- ===== src/Node.antt =====
-- The network node, network-node/src.
pub mod ChainParams
pub mod Consensus
pub mod Governance
pub mod Horizon
pub mod Errors
pub mod Middleware
pub mod RateLimiter
pub mod Soroban
pub mod StateTrie
pub mod Signing
pub mod Texts
pub mod AdminAuth
pub mod Indexer
pub mod Peers
pub mod Crypto
pub mod Tests
