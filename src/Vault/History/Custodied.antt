-- ===== src/Vault/History/Custodied.antt =====
-- Each operation keeps the vault's tokens above its ledger.
use axionvera_network.Base.{ℕ, ◌*◌, ◌-◌, ◌/◌, ◌≤◌, ◌≡◌, ◌≢◌, sym, inl, inr, some}
use axionvera_network.Base.Int.{pos, ◌+ℤ◌, ◌≤ℤ◌, int_laws}
use axionvera_network.Vault.State.{Address}
use axionvera_network.Vault.World.{Host, Call}
use axionvera_network.Vault.Ledger.{Ledger}
use axionvera_network.Vault.Refinement.{Config}
use axionvera_network.Vault.Refinement.Deposit.{deposited}
use axionvera_network.Vault.Refinement.Withdraw.{withdrawn}
use axionvera_network.Vault.Refinement.Distribute.{funded}
use axionvera_network.Vault.Refinement.Claim.{part-le}
use axionvera_network.Vault.Entries.Claim.{Pays}
use axionvera_network.Vault.History.Custody.{IsToken, IsProper, IsCustodied}

module _ (h : Host) (tok : IsToken h) (contract : Address) (t t' : h.Tokens) (k : Config)
    (p : IsProper k) (l : Ledger) (held : IsCustodied h contract t k l) (u : Address)
    (other : u ≢ contract) where
  -- A deposit is taken in,
  pub deposited-IsCustodied :
      (now n : ℕ)
      → h.transfer k.deposit_token u contract (pos n) t ≡ some t'
      → IsCustodied h contract t' k (deposited now u n l)
  deposited-IsCustodied now n moved = record {
    deposits_held =
        rw (tok.credits k.deposit_token u contract n t t' other moved)
          (omega (int_laws, held.deposits_held));
    rewards_held =
        rw
          (tok.keeps k.deposit_token u contract k.reward_token contract n t t'
            (λ e. p.tokens_differ (sym e)) moved)
          held.rewards_held;
  }

  -- a withdrawal is paid out of what the ledger gives up,
  pub withdrawn-IsCustodied :
      (now n : ℕ)
      → n ≤ l.total
      → h.transfer k.deposit_token contract u (pos n) t ≡ some t'
      → IsCustodied h contract t' k (withdrawn now u n l)
  withdrawn-IsCustodied now n small moved =
      let before : pos l.total ≤ℤ h.balance k.deposit_token contract t' +ℤ pos n =
        rw (tok.debits k.deposit_token contract u n t t' (λ e. other (sym e)) moved)
          held.deposits_held in
      record {
        deposits_held = omega (int_laws, before);
        rewards_held =
            rw
              (tok.keeps k.deposit_token contract u k.reward_token contract n t t'
                (λ e. p.tokens_differ (sym e)) moved)
              held.rewards_held;
      }

  -- rewards are taken in before they are promised,
  pub funded-IsCustodied :
      (n multiplier increment : ℕ)
      → multiplier ≤ 10000
      → h.transfer k.reward_token u contract (pos n) t ≡ some t'
      → IsCustodied h contract t' k (funded (n * multiplier / 10000) increment l)
  funded-IsCustodied n multiplier increment small moved = record {
    deposits_held =
        rw
          (tok.keeps k.reward_token u contract k.deposit_token contract n t t' p.tokens_differ
            moved)
          held.deposits_held;
    rewards_held =
        rw (tok.credits k.reward_token u contract n t t' other moved)
          (omega (int_laws, held.rewards_held, part-le n multiplier 10000 small));
  }

  -- and a claim is paid out of the reserve.
  pub paid-IsCustodied :
      (c : Call) (v : ℕ) (l' : Ledger)
      → c.contract ≡ contract
      → l'.total ≡ l.total
      → l'.reserve ≡ l.reserve - v
      → Pays h c k.reward_token u (pos v) t t'
      → IsCustodied h contract t' k l'
  paid-IsCustodied c v l' own same less (inl (none, still)) = record {
    deposits_held = rw (still, same) held.deposits_held;
    rewards_held = rw (still, less) (omega (int_laws, held.rewards_held));
  }
  paid-IsCustodied c v l' own same less (inr (enough, moved)) =
      let sent : h.transfer k.reward_token contract u (pos v) t ≡ some t' = rw own at moved in
      let debit = tok.debits k.reward_token contract u v t t' (λ e. other (sym e)) sent in
      let before : pos l.reserve ≤ℤ h.balance k.reward_token contract t' +ℤ pos v =
        rw debit held.rewards_held in
      let covered : pos v ≤ℤ h.balance k.reward_token contract t' +ℤ pos v =
        rw (debit, ← own) enough in
      record {
        deposits_held =
            rw
              (
                tok.keeps k.reward_token contract u k.deposit_token contract v t t' p.tokens_differ
                    sent,
                same,
              )
              held.deposits_held;
        rewards_held = rw less (omega (int_laws, before, covered));
      }
