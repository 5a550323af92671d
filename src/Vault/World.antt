-- ===== src/Vault/World.antt =====
-- What an entry point of contracts/vault-contract/src/lib.rs acts on: the contract's storage, the
-- token contracts, the published events and the contract's code. Token contracts are not part of
-- the repository: they are a parameter, a state with a transfer that may trap.
use axionvera_network.Base.{ℕ, Bool, Option, none, some, List, ◌∷◌, if◌then◌else◌, ◌≡◌, refl, ap}
use axionvera_network.Base.Int.{ℤ}
use axionvera_network.Vault.Outcome.{Outcome, ok, err, panic}
use axionvera_network.Vault.Action.{Action}
use axionvera_network.Vault.State.{Address, Storage}
use axionvera_network.Vault.Events.{Event}

-- `soroban_sdk::token::Client`, for every token contract at once.
pub record Host : Type 1 where
  pub Tokens : Type 0
  pub balance : Address → Address → Tokens → ℤ
  pub transfer : Address → Address → Address → ℤ → Tokens → Option Tokens

-- One invocation: the ledger's time, the contract's own address, and who has authorized the call.
pub record Call : Type 0 where
  pub now : ℕ
  pub contract : Address
  pub authorized : Address → Bool

pub record World (Tokens : Type 0) : Type 0 where
  pub storage : Storage
  pub tokens : Tokens
  pub events : List Event
  pub wasm : ℕ

module _ {T A : Type 0} where
  -- A step on the storage.
  abbrev pub stored : Action Storage A → Action (World T) A
  stored m w = let (r, s) = m w.storage in (r, record w { storage = s })

  abbrev pub reads_storage : (Storage → Outcome A) → Action (World T) A
  reads_storage f w = (f w.storage, w)

  abbrev pub reads_tokens : (T → Outcome A) → Action (World T) A
  reads_tokens f w = (f w.tokens, w)

module _ {T : Type 0} where
  abbrev pub modify_storage : (Storage → Storage) → Action (World T) (Unit {0})
  modify_storage f w = (ok tt, record w { storage = f w.storage })

  -- `e.events().publish(…)`, newest first.
  abbrev pub emit : Event → Action (World T) (Unit {0})
  emit event w = (ok tt, record w { events = event ∷ w.events })

  -- `e.deployer().update_current_contract_wasm(…)`
  abbrev pub update_wasm : ℕ → Action (World T) (Unit {0})
  update_wasm hash w = (ok tt, record w { wasm = hash })

  -- `address.require_auth()`
  abbrev pub require_auth : Call → Address → Action (World T) (Unit {0})
  require_auth c address w = (if c.authorized address then ok tt else panic, w)

-- `token.transfer(&from, &to, &amount)`
abbrev pub transfer :
    (h : Host) → Address → Address → Address → ℤ → Action (World h.Tokens) (Unit {0})
transfer h token from to amount w = elim (h.transfer token from to amount w.tokens) [
  | none ↦ (panic, w)
  | some tokens ↦ (ok tt, record w { tokens = tokens })
]

-- The host undoes a call that returns an error or traps.
abbrev pub invoke : {T A : Type 0} → Action (World T) A → Action (World T) A
invoke m w = elim (m w).0 [ ok a ↦ m w | err e ↦ (err e, w) | panic ↦ (panic, w) ]

-- What holds before a call and after each success of it holds after the call.
pub invoke_rule :
    {T A : Type 0} (P : World T → Type 0) (m : Action (World T) A) (w : World T)
    → P w
    → ((a : A) (w' : World T) → m w ≡ (ok a, w') → P w')
    → P (invoke m w).1
invoke_rule {T} {A} P m w keep run = go (m w).0 refl
  where
    go : (o : Outcome A) → (m w).0 ≡ o → P (invoke m w).1
    go (ok a) e = rw (e, invoke) (run a (m w).1 (ap (λ x. (x, (m w).1)) e))
    go (err x) e = rw (e, invoke) keep
    go panic e = rw (e, invoke) keep
