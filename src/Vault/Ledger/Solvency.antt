-- ===== src/Vault/Ledger/Solvency.antt =====
-- The ledger's invariant: the total is the sum of the stakes, no account is ahead of the index, and
-- the reserve covers every reward that is accrued or still to be settled.
use axionvera_network.Base.{
  ℕ, ◌+◌, ◌-◌, ◌*◌, ◌≤◌, ◌≡◌, ap, ◌∙◌, List, [], ◌∷◌, arith, update, IsDistinct, IsListed,
}
use axionvera_network.Vault.State.{Address}
use axionvera_network.Vault.Rewards.{precision_factor}
use axionvera_network.Vault.Ledger.{
  Account, TimeLock, Ledger, staked, locked, earned, restaked, released, paid, Step, restake,
  release, fund, pay, Reach, here, next,
}
use axionvera_network.Vault.Ledger.Sums.{sum_over, sum_over-update}

-- What an account is owed at an index, in the index's unit.
abbrev pub owed : ℕ → Account → ℕ
owed index a = a.accrued * precision_factor + staked a * (index - a.index)

pub record IsSolvent (users : List Address) (l : Ledger) : Type 0 where
  pub backed : l.total ≡ sum_over staked l.accounts users
  pub behind : (u : Address) → (l.accounts u).index ≤ l.index
  pub covered : sum_over (owed l.index) l.accounts users ≤ l.reserve * precision_factor

sub_self : (n : ℕ) → n - n ≡ 0
sub_self n = omega arith

mul-raise : (s g i k : ℕ) → i ≤ g → s * (g + k - i) ≡ s * (g - i) + k * s
mul-raise s g i k h =
    let e : g + k - i ≡ g - i + k = omega arith in ap (λ (t : ℕ). s * t) e ∙ omega arith

-- Settling an account only rounds down what it is owed.
owed-restaked :
    (now index liquid : ℕ) (locks : List TimeLock) (a : Account)
    → owed index (restaked now index liquid locks a) ≤ owed index a
owed-restaked now index liquid locks a = grind (arith, sub_self index)

owed-paid :
    (now index amount : ℕ) (a : Account)
    → amount ≤ a.accrued + earned index a
    → owed index (paid now index amount a) + amount * precision_factor ≤ owed index a
owed-paid now index amount a h = grind (arith, sub_self index)

-- A higher index is owed on the whole stake.
owed-fund :
    (index increment : ℕ) (accounts : Address → Account) (users : List Address)
    → ((u : Address) → (accounts u).index ≤ index)
    → sum_over (owed (index + increment)) accounts users
      ≡ sum_over (owed index) accounts users + increment * sum_over staked accounts users
owed-fund index increment accounts [] h = omega arith
owed-fund index increment accounts (u ∷ users) h = omega (
  arith,
  mul-raise (staked (accounts u)) index (accounts u).index increment (h u),
  owed-fund index increment accounts users h,
)

module _ (users : List Address) (distinct : IsDistinct users) where
  restake-IsSolvent :
      (l l' : Ledger) (u : Address) (now liquid total : ℕ) (locks : List TimeLock)
      → IsListed u users
      → total + staked (l.accounts u) ≡ l.total + (liquid + locked locks)
      → l' ≡ record l {
        total = total;
        accounts = update l.accounts u (restaked now l.index liquid locks (l.accounts u));
      }
      → IsSolvent users l
      → IsSolvent users l'
  restake-IsSolvent l l' u now liquid total locks m h e s =
      let a' : Account = restaked now l.index liquid locks (l.accounts u) in
      rw e (record {
        backed = omega (arith, s.backed, sum_over-update staked l.accounts u a' users distinct m);
        behind = λ v. ground (arith, s.behind v);
        covered = omega (
          arith,
          s.covered,
          sum_over-update (owed l.index) l.accounts u a' users distinct m,
          owed-restaked now l.index liquid locks (l.accounts u),
        );
      })

  release-IsSolvent :
      (l l' : Ledger) (u : Address) (liquid : ℕ) (locks : List TimeLock)
      → IsListed u users
      → liquid + locked locks ≡ staked (l.accounts u)
      → l' ≡ record l { accounts = update l.accounts u (released liquid locks (l.accounts u)) }
      → IsSolvent users l
      → IsSolvent users l'
  release-IsSolvent l l' u liquid locks m h e s =
      let a' : Account = released liquid locks (l.accounts u) in
      let k : staked a' * (l.index - a'.index) ≡ staked (l.accounts u) * (l.index - a'.index) =
        ap (λ (t : ℕ). t * (l.index - a'.index)) h in
      rw e (record {
        backed = omega (arith, s.backed, sum_over-update staked l.accounts u a' users distinct m);
        behind = λ v. ground (arith, s.behind v);
        covered =
            omega
              (arith, s.covered, sum_over-update (owed l.index) l.accounts u a' users distinct m);
      })

  fund-IsSolvent :
      (l l' : Ledger) (rewards increment : ℕ)
      → increment * l.total ≤ rewards * precision_factor
      → l' ≡ record l { index = l.index + increment; reserve = l.reserve + rewards }
      → IsSolvent users l
      → IsSolvent users l'
  fund-IsSolvent l l' rewards increment h e s = rw e (record {
    backed = s.backed;
    behind = λ v. omega (arith, s.behind v);
    covered =
        let k : increment * l.total ≡ increment * sum_over staked l.accounts users =
          ap (λ (t : ℕ). increment * t) s.backed in
        omega (arith, s.covered, owed-fund l.index increment l.accounts users s.behind);
  })

  pay-IsSolvent :
      (l l' : Ledger) (u : Address) (now amount : ℕ)
      → IsListed u users
      → amount ≤ (l.accounts u).accrued + earned l.index (l.accounts u)
      → l' ≡ record l {
        reserve = l.reserve - amount;
        accounts = update l.accounts u (paid now l.index amount (l.accounts u));
      }
      → IsSolvent users l
      → IsSolvent users l'
  pay-IsSolvent l l' u now amount m h e s =
      let a' : Account = paid now l.index amount (l.accounts u) in
      rw e (record {
        backed = omega (arith, s.backed, sum_over-update staked l.accounts u a' users distinct m);
        behind = λ v. ground (arith, s.behind v);
        covered = omega (
          arith,
          s.covered,
          sum_over-update (owed l.index) l.accounts u a' users distinct m,
          owed-paid now l.index amount (l.accounts u) h,
        );
      })

  -- Every step keeps the ledger solvent.
  pub Step-IsSolvent : (l l' : Ledger) → Step users l l' → IsSolvent users l → IsSolvent users l'
  Step-IsSolvent l l' (restake u now liquid total locks m h e) =
      restake-IsSolvent l l' u now liquid total locks m h e
  Step-IsSolvent l l' (release u liquid locks m h e) = release-IsSolvent l l' u liquid locks m h e
  Step-IsSolvent l l' (fund rewards increment h e) = fund-IsSolvent l l' rewards increment h e
  Step-IsSolvent l l' (pay u now amount m h e) = pay-IsSolvent l l' u now amount m h e

  pub Reach-IsSolvent : {l l' : Ledger} → IsSolvent users l → Reach users l l' → IsSolvent users l'
  Reach-IsSolvent s here = s
  Reach-IsSolvent s (next r st) = Step-IsSolvent _ _ st (Reach-IsSolvent s r)
