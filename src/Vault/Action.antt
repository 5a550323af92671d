-- ===== src/Vault/Action.antt =====
-- A call that reads and writes a state. What was written before an `Err` or a panic stays written
-- here; the host's rollback is a step of its own.
use axionvera_network.Base.{Bool}
use axionvera_network.Vault.Errors.{VaultError}
use axionvera_network.Vault.Outcome.{Outcome, ok, err, panic, fail_if}

abbrev pub Action : Type 0 → Type 0 → Type 0
Action S A = S → Outcome A × S

infixl 5 ◌>>=◌ ◌>>◌
abbrev pub ◌>>=◌ : {S A B : Type 0} → Action S A → (A → Action S B) → Action S B
◌>>=◌ m f s =
    let (r, s') = m s in elim r [ ok a ↦ f a s' | err e ↦ (err e, s') | panic ↦ (panic, s') ]

abbrev pub ◌>>◌ : {S B : Type 0} → Action S (Unit {0}) → Action S B → Action S B
m >> k = m >>= λ _. k

module _ {S A : Type 0} where
  abbrev pub pure : A → Action S A
  pure a s = (ok a, s)

  -- An outcome that needs no state.
  abbrev pub lift : Outcome A → Action S A
  lift r s = (r, s)

  -- A read that may fail.
  abbrev pub reads : (S → Outcome A) → Action S A
  reads f s = (f s, s)

  abbrev pub gets : (S → A) → Action S A
  gets f s = (ok (f s), s)

module _ {S : Type 0} where
  abbrev pub modify : (S → S) → Action S (Unit {0})
  modify f s = (ok tt, f s)

  abbrev pub raise_if : Bool → VaultError → Action S (Unit {0})
  raise_if b e s = (fail_if b e, s)
