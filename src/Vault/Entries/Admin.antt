-- ===== src/Vault/Entries/Admin.antt =====
-- The entry points of the admin: the two-step transfer of the role, the pause flag and the upgrade.
use axionvera_network.Base.{ℕ, ◌≡◌, Bool, true, false, some, arith}
use axionvera_network.Vault.Outcome.{ok}
use axionvera_network.Vault.State.{Address}
use axionvera_network.Vault.World.{Host, Call, World}
use axionvera_network.Vault.Ledger.{Ledger}
use axionvera_network.Vault.Refinement.{Config, Represents}
use axionvera_network.Vault.Refinement.Accrual.{get_state_lem}
use axionvera_network.Vault.Storage.{
  get_admin, get_pending_admin, set_admin, set_pending_admin, clear_pending_admin, set_paused,
}
use axionvera_network.Vault.Contract.{
  propose_new_admin, accept_admin, pause_contract, unpause_contract, upgrade,
}

module _ (h : Host) (c : Call) (w w' : World h.Tokens) (k : Config) (l : Ledger)
    (r : Represents w.storage k l) where
  -- Only the admin can propose a successor, and the role does not move yet.
  pub propose_refines :
      (new_admin : Address)
      → propose_new_admin h c new_admin w ≡ (ok tt, w')
      → (c.authorized k.admin ≡ true)
        × (w'.storage ≡ set_pending_admin new_admin w.storage)
        × (w'.tokens ≡ w.tokens)
  unfolding propose_new_admin get_admin
  propose_refines new_admin d = ground (arith, get_state_lem w.storage k l r)

  -- On a storage that stands for a ledger, a call of `accept_admin` that succeeds is authorized
  -- by the new admin, who was the pending one, makes it the admin, leaves nobody pending, and
  -- moves no token.
  pub accept_refines :
      (new_admin : Address)
      → accept_admin h c new_admin w ≡ (ok tt, w')
      → (c.authorized new_admin ≡ true)
        × (w.storage.pending_admin ≡ some new_admin)
        × (w'.storage ≡ clear_pending_admin (set_admin new_admin w.storage))
        × (w'.tokens ≡ w.tokens)
  unfolding accept_admin get_admin get_pending_admin
  accept_refines new_admin d = ground (arith, get_state_lem w.storage k l r)

  -- Only the admin can pause the contract,
  pub pause_refines :
      pause_contract h c w ≡ (ok tt, w')
      → (c.authorized k.admin ≡ true)
        × (w'.storage ≡ set_paused true w.storage)
        × (w'.tokens ≡ w.tokens)
  unfolding pause_contract get_admin
  pause_refines d = ground (arith, get_state_lem w.storage k l r)

  -- and end the pause,
  pub unpause_refines :
      unpause_contract h c w ≡ (ok tt, w')
      → (c.authorized k.admin ≡ true)
        × (w'.storage ≡ set_paused false w.storage)
        × (w'.tokens ≡ w.tokens)
  unfolding unpause_contract get_admin
  unpause_refines d = ground (arith, get_state_lem w.storage k l r)

  -- and replace the code, which touches no storage.
  pub upgrade_refines :
      (hash : ℕ)
      → upgrade h c hash w ≡ (ok tt, w')
      → (c.authorized k.admin ≡ true)
        × (w'.storage ≡ w.storage)
        × (w'.tokens ≡ w.tokens)
        × (w'.wasm ≡ hash)
  unfolding upgrade get_admin
  upgrade_refines hash d = ground (arith, get_state_lem w.storage k l r)

  -- None of these changes the ledger.
  pub set_pending_admin-Represents : (a : Address) → Represents (set_pending_admin a w.storage) k l
  unfolding set_pending_admin
  set_pending_admin-Represents a = record {
    config = ground (arith, r.config);
    total = r.total;
    index = r.index;
    total_fits = r.total_fits;
    index_fits = r.index_fits;
    accounts = λ u. ground (arith, r.accounts u);
  }

  pub accept-Represents :
      (a : Address)
      → Represents (clear_pending_admin (set_admin a w.storage)) (record k { admin = a }) l
  unfolding set_admin clear_pending_admin
  accept-Represents a = record {
    config = ground (arith, r.config);
    total = r.total;
    index = r.index;
    total_fits = r.total_fits;
    index_fits = r.index_fits;
    accounts = λ u. ground (arith, r.accounts u);
  }

  pub set_paused-Represents : (b : Bool) → Represents (set_paused b w.storage) k l
  unfolding set_paused
  set_paused-Represents b = record {
    config = ground (arith, r.config);
    total = r.total;
    index = r.index;
    total_fits = r.total_fits;
    index_fits = r.index_fits;
    accounts = λ u. ground (arith, r.accounts u);
  }
