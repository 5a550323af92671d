-- ===== src/Vault/Tests.antt =====
-- A token contract that keeps its balances in a table, the calls of a day, and the world after each
-- of them: the inputs of the examples below.
pub mod Runs
pub mod Ledgers
pub mod EntryExamples
pub mod HistoryExamples
pub mod StorageExamples
pub mod GuardExamples
pub mod ArithmeticExamples
use axionvera_network.Base.{
  ℕ, ◌+◌, ◌-◌, ◌==◌, ◌≡◌, refl, Bool, true, false, not, none, some, List, [], ◌∷◌, ltb, leb, ◌&&◌,
  ◌≤◌, ◌≢◌, ap, get_or, update₂, arith, if◌then◌else◌,
}
use axionvera_network.Base.Int.{ℤ, ◌+ℤ◌, pos, leb_ℤ, pos_part, int_laws}
use axionvera_network.Vault.State.{Address, Storage, MultiplierPoint, empty_storage}
use axionvera_network.Vault.World.{Host, Call, World}
use axionvera_network.Vault.Contract
use axionvera_network.Vault.History.Custody.{IsToken}

-- By token and holder.
abbrev pub Table : Type 0
Table = Address → Address → ℕ

abbrev pub move : Address → Address → Address → ℕ → Table → Table
move token from to n t =
    let t' = update₂ t token from (t token from - n) in update₂ t' token to (t' token to + n)

abbrev pub host : Host
host = record {
  Tokens = Table;
  balance = λ token holder t. pos (t token holder);
  transfer = λ token from to amount t.
      if leb_ℤ (pos 0) amount && leb (pos_part amount) (t token from)
      then some (move token from to (pos_part amount) t)
      else none;
}

-- What a transfer that succeeds has found and done.
if-some :
    {A : Type 0} (b : Bool) (a a' : A)
    → (if b then some a else none) ≡ some a'
    → (b ≡ true) × (a ≡ a')
if-some true a a' e = (refl, ap (λ o. get_or o a) e)
if-some false a a' e = ground arith

module _ (token from to : Address) (n : ℕ) (t t' : Table)
    (e : host.transfer token from to (pos n) t ≡ some t') where
  transfer_moves : (n ≤ t token from) × (move token from to n t ≡ t')
  transfer_moves =
      let (b, m) =
        if-some (leb_ℤ (pos 0) (pos n) && leb n (t token from)) (move token from to n t) t' e in
      (ground arith, m)

  transfer_credits : from ≢ to → pos (t' token to) ≡ pos (t token to) +ℤ pos n
  transfer_credits d =
      let (b, m) = transfer_moves in
      let moved : move token from to n t token to ≡ t token to + n = ground arith in
      rw (← m) (omega (int_laws, moved))

  transfer_debits : from ≢ to → pos (t' token from) +ℤ pos n ≡ pos (t token from)
  transfer_debits d =
      let (b, m) = transfer_moves in
      let moved : move token from to n t token from + n ≡ t token from = ground arith in
      rw (← m) (omega (int_laws, moved))

  transfer_keeps :
      (other holder : Address) → other ≢ token → pos (t' other holder) ≡ pos (t other holder)
  transfer_keeps other holder d = let (b, m) = transfer_moves in rw (← m) (ground arith)

pub host-IsToken : IsToken host
host-IsToken = record {
  nonneg = λ token holder t. omega int_laws;
  credits = λ token from to n t t' d e. transfer_credits token from to n t t' e d;
  debits = λ token from to n t t' d e. transfer_debits token from to n t t' e d;
  keeps =
      λ token from to other holder n t t' d e. transfer_keeps token from to n t t' e other holder d;
}

-- The contract, its admin, two users, and the two tokens.
abbrev pub vault : Address
vault = 100

abbrev pub owner : Address
owner = 9

abbrev pub alice : Address
alice = 1

abbrev pub bob : Address
bob = 2

abbrev pub deposit_token : Address
deposit_token = 50

abbrev pub reward_token : Address
reward_token = 60

-- Everybody has authorized the call, but for the vault.
abbrev pub at : ℕ → Call
at now = record { now = now; contract = vault; authorized = λ a. not (a == vault) }

abbrev pub balances : Table
balances token holder =
    if token == deposit_token && holder == alice
    then 1_500_000
    else if token == reward_token && holder == owner
    then 10_000_000
    else 0

abbrev pub points : List MultiplierPoint
points =
    record { utilization_bps = 5000; multiplier_bps = 8000 }
    ∷ record { utilization_bps = 10000; multiplier_bps = 10000 }
    ∷ []

abbrev pub deployed : World Table
deployed = record { storage = empty_storage; tokens = balances; events = []; wasm = 7 }

-- One call after another.
abbrev pub opened : World Table
opened =
    (Contract.initialize host (at 1000) owner deposit_token reward_token 100 (pos 2_000_000) points
      deployed).1

abbrev pub deposited : World Table
deposited = (Contract.deposit host (at 1010) alice (pos 1_000_000) opened).1

abbrev pub locked : World Table
locked = (Contract.lock host (at 1020) alice (pos 400_000) 60 deposited).1

abbrev pub funded : World Table
funded = (Contract.distribute_rewards host (at 1030) (pos 200_000) locked).1

abbrev pub settled : World Table
settled = (Contract.claim_rewards host (at 1080) alice funded).1

abbrev pub claimed : World Table
claimed = (Contract.claim_rewards host (at 1130) alice settled).1

abbrev pub withdrawn : World Table
withdrawn = (Contract.withdraw host (at 1140) alice (pos 700_000) settled).1

abbrev pub unlocked : World Table
unlocked = (Contract.unlock_expired host (at 1090) alice 10 locked).1

abbrev pub proposed : World Table
proposed = (Contract.propose_new_admin host (at 1015) bob deposited).1

abbrev pub accepted : World Table
accepted = (Contract.accept_admin host (at 1016) bob proposed).1
