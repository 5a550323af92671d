-- ===== src/Vault/History/Custody.antt =====
-- The vault's tokens cover its ledger, where the token contracts move what they are told to, the
-- two tokens differ and no multiplier exceeds one.
use axionvera_network.Base.{ℕ, ◌≤◌, ◌≡◌, ◌≢◌, some, List, [], ◌∷◌, All, arith}
use axionvera_network.Base.Int.{ℤ, pos, ◌+ℤ◌, ◌≤ℤ◌}
use axionvera_network.Vault.Outcome.{ok}
use axionvera_network.Vault.State.{Address, MultiplierPoint}
use axionvera_network.Vault.World.{Host}
use axionvera_network.Vault.Rewards.{
  calculate_utilization_multiplier, select_multiplier, last_multiplier,
}
use axionvera_network.Vault.Ledger.{Ledger}
use axionvera_network.Vault.Refinement.{Config}

-- What the code relies on in a token contract: no balance is negative, a transfer moves the amount
-- between two holders, and it touches no other token.
pub record IsToken (h : Host) : Type 0 where
  pub nonneg : (token holder : Address) (t : h.Tokens) → pos 0 ≤ℤ h.balance token holder t
  pub credits :
      (token from to : Address) (n : ℕ) (t t' : h.Tokens)
      → from ≢ to
      → h.transfer token from to (pos n) t ≡ some t'
      → h.balance token to t' ≡ h.balance token to t +ℤ pos n
  pub debits :
      (token from to : Address) (n : ℕ) (t t' : h.Tokens)
      → from ≢ to
      → h.transfer token from to (pos n) t ≡ some t'
      → h.balance token from t' +ℤ pos n ≡ h.balance token from t
  pub keeps :
      (token from to other holder : Address) (n : ℕ) (t t' : h.Tokens)
      → other ≢ token
      → h.transfer token from to (pos n) t ≡ some t'
      → h.balance other holder t' ≡ h.balance other holder t

-- The configuration promises no more rewards than it takes in.
pub record IsProper (k : Config) : Type 0 where
  pub tokens_differ : k.deposit_token ≢ k.reward_token
  pub modest : All (λ p. p.multiplier_bps ≤ 10000) k.utilization_multipliers

pub record IsCustodied (h : Host) (contract : Address) (t : h.Tokens) (k : Config) (l : Ledger)
    : Type 0 where
  pub deposits_held : pos l.total ≤ℤ h.balance k.deposit_token contract t
  pub rewards_held : pos l.reserve ≤ℤ h.balance k.reward_token contract t

last_multiplier-le :
    (p : MultiplierPoint) (ps : List MultiplierPoint)
    → p.multiplier_bps ≤ 10000
    → All (λ q. q.multiplier_bps ≤ 10000) ps
    → last_multiplier p ps ≤ 10000
unfolding last_multiplier
last_multiplier-le p [] h a = h
last_multiplier-le p (q ∷ ps) h a = last_multiplier-le q ps a.0 a.1

select_multiplier-le :
    (selected utilization : ℕ) (ps : List MultiplierPoint)
    → selected ≤ 10000
    → All (λ q. q.multiplier_bps ≤ 10000) ps
    → select_multiplier selected utilization ps ≤ 10000
unfolding select_multiplier
select_multiplier-le selected utilization [] h a = h
select_multiplier-le selected utilization (p ∷ ps) h a =
    ground (arith, select_multiplier-le selected utilization ps h a.1)

-- Whatever the utilization, the multiplier is one of the configured ones.
pub calculate_utilization_multiplier-le :
    (total target : ℤ) (ps : List MultiplierPoint) (m : ℕ)
    → All (λ q. q.multiplier_bps ≤ 10000) ps
    → calculate_utilization_multiplier total target ps ≡ ok m
    → m ≤ 10000
unfolding calculate_utilization_multiplier
calculate_utilization_multiplier-le total target [] m a e = ground arith
calculate_utilization_multiplier-le total target (p ∷ ps) m a e =
    let last : last_multiplier p ps ≤ 10000 = last_multiplier-le p ps a.0 a.1 in
    let any : (u : ℕ) → select_multiplier (last_multiplier p ps) u (p ∷ ps) ≤ 10000 =
      λ u. select_multiplier-le (last_multiplier p ps) u (p ∷ ps) last a in
    grind (arith, any)
