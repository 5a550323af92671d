-- ===== src/Vault/Guards.antt =====
-- What keeps a call out: the reentrancy guard, the pause flag, and the authorization of the caller.
pub mod Reentrancy
pub mod Pause
pub mod Access
