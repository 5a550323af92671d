-- ===== src/Vault/Outcome.antt =====
-- What a Rust function of the contract returns: a value, an `Err`, or a panic, by which the host
-- traps the call. `require_auth`, a failed token transfer and `unwrap` on `None` panic.
use axionvera_network.Base.{Option, none, some, Bool, true, false, ◌≡◌, refl, ◌⊎◌, inl, inr}
use axionvera_network.Vault.Errors.{VaultError}

pub data Outcome (A : Type 0) : Type 0 where
  ok : A → Outcome A
  err : VaultError → Outcome A
  panic : Outcome A

infixl 5 ◌>>=◌ ◌>>◌
abbrev pub ◌>>=◌ : {A B : Type 0} → Outcome A → (A → Outcome B) → Outcome B
ok a >>= f = f a
err e >>= f = err e
panic >>= f = panic

abbrev pub ◌>>◌ : {B : Type 0} → Outcome (Unit {0}) → Outcome B → Outcome B
m >> k = m >>= λ _. k

abbrev pub ok_or : {A : Type 0} → Option A → VaultError → Outcome A
ok_or none e = err e
ok_or (some a) e = ok a

-- `if b { return Err(e) }`
abbrev pub fail_if : Bool → VaultError → Outcome (Unit {0})
fail_if true e = err e
fail_if false e = ok tt

abbrev pub map_ok : {A B : Type 0} → (A → B) → Outcome A → Outcome B
map_ok f (ok a) = ok (f a)
map_ok f (err e) = err e
map_ok f panic = panic

abbrev pub IsOk : {A : Type 0} → Outcome A → Type 0
IsOk (ok a) = Unit
IsOk _ = ⊥

-- To split on an outcome and keep the equation.
pub Outcome-cases : {A : Type 0} (o : Outcome A) → ((a : A) × (o ≡ ok a)) ⊎ ¬ IsOk o
Outcome-cases (ok a) = inl (a, refl)
Outcome-cases (err e) = inr (λ x. x)
Outcome-cases panic = inr (λ x. x)
