-- ===== src/Vault/AssetEffects.antt =====
-- What the operations by asset of contracts/vault-contract/src/storage.rs do to the position of the
-- user, to the totals of the asset, and to nothing else.
use axionvera_network.Base.{
  ℕ, ◌≡◌, refl, ap, ◌∙◌, inl, inr, get_or, arith, ◌==◌, ◌&&◌, if◌then◌else◌,
}
use axionvera_network.Base.Int.{ℤ, ◌+ℤ◌, ◌-ℤ◌, pos, ◌≤ℤ◌}
use axionvera_network.Base.I128.{checked_add, checked_sub}
use axionvera_network.Vault.Outcome.{ok, IsOk, Outcome-cases}
use axionvera_network.Vault.State.{Address, Storage, UserPosition}
use axionvera_network.Vault.Rewards.{accrue_asset_position_rewards, accrue_balance, credit_accrued}
use axionvera_network.Vault.Storage.{nonzero}
use axionvera_network.Vault.Assets.{
  require_asset_supported, get_asset_reward_index, get_asset_total_deposits,
  set_asset_total_deposits, get_user_asset_position_unchecked, set_user_asset_position,
  store_asset_deposit, store_asset_withdraw,
}

nonzero_lem : (z : ℤ) → get_or (nonzero z) (pos 0) ≡ z
nonzero_lem z = ground arith

-- A position that is written is read back, and the positions of other users and other assets stay:
-- removing the keys of zero fields loses nothing.
pub set_user_asset_position_lem :
    (user user' asset asset' : Address) (p : UserPosition) (s : Storage)
    → get_user_asset_position_unchecked (set_user_asset_position user asset p s) user' asset' ≡ (
        if user == user' && asset == asset'
        then p
        else get_user_asset_position_unchecked s user' asset')
unfolding get_user_asset_position_unchecked set_user_asset_position
set_user_asset_position_lem user user' asset asset' p s =
    ground (arith, nonzero_lem p.balance, nonzero_lem p.reward_index, nonzero_lem p.accrued_rewards)

-- Accrual keeps the balance and brings the position to the index.
accrue_asset_position_rewards-keeps :
    (now : ℕ) (index : ℤ) (p q : UserPosition)
    → accrue_asset_position_rewards now index p ≡ ok q
    → (q.balance ≡ p.balance) × (q.reward_index ≡ index)
unfolding accrue_asset_position_rewards accrue_balance credit_accrued
accrue_asset_position_rewards-keeps now index p q e = ground arith

-- The number under an asset's key, before it is known to be supported.
abbrev pub asset_total : Storage → Address → ℤ
asset_total s asset = get_or (s.asset_total_deposits asset) (pos 0)

abbrev pub asset_index : Storage → Address → ℤ
asset_index s asset = get_or (s.asset_reward_index asset) (pos 0)

-- Every position but the one at `user` and `asset`, which is `p`, is as before, and so is every
-- total and every index but the asset's.
pub record IsEffect (user asset : Address) (p : UserPosition) (z i : ℤ) (s s' : Storage)
    : Type 0 where
  pub position :
      (user' asset' : Address)
      → get_user_asset_position_unchecked s' user' asset' ≡ (
          if user == user' && asset == asset'
          then p
          else get_user_asset_position_unchecked s user' asset')
  pub total :
      (asset' : Address)
      → asset_total s' asset' ≡ (if asset == asset' then z else asset_total s asset')
  pub index :
      (asset' : Address)
      → asset_index s' asset' ≡ (if asset == asset' then i else asset_index s asset')

-- Writing a total leaves the positions.
set_asset_total_deposits_lem :
    (asset user' asset' : Address) (total : ℤ) (s : Storage)
    → get_user_asset_position_unchecked (set_asset_total_deposits asset total s) user' asset'
      ≡ get_user_asset_position_unchecked s user' asset'
unfolding set_asset_total_deposits get_user_asset_position_unchecked
set_asset_total_deposits_lem asset user' asset' total s = refl

write-position :
    (user asset : Address) (p : UserPosition) (total : ℤ) (s : Storage) (user' asset' : Address)
    → get_user_asset_position_unchecked
        (set_user_asset_position user asset p (set_asset_total_deposits asset total s))
        user'
        asset'
      ≡ (if user == user' && asset == asset'
          then p
          else get_user_asset_position_unchecked s user' asset')
write-position user asset p total s user' asset' =
    set_user_asset_position_lem user user' asset asset' p (set_asset_total_deposits asset total s)
    ∙ ap (λ x. if user == user' && asset == asset' then p else x)
        (set_asset_total_deposits_lem asset user' asset' total s)

write-IsEffect :
    (user asset : Address) (p : UserPosition) (total : ℤ) (s : Storage)
    → IsEffect user asset p total
        (asset_index s asset)
        s
        (set_user_asset_position user asset p (set_asset_total_deposits asset total s))
unfolding set_user_asset_position set_asset_total_deposits
write-IsEffect user asset p total s = record {
  position = write-position user asset p total s;
  total = λ asset'. ground arith;
  index = λ asset'. ground arith;
}

module _ (now : ℕ) (user asset : Address) (s : Storage) where
  abbrev old : UserPosition
  old = get_user_asset_position_unchecked s user asset

  index_read :
      require_asset_supported s asset ≡ ok tt
      → get_asset_reward_index s asset ≡ ok (asset_index s asset)
  unfolding get_asset_reward_index
  index_read e = ground (arith, e)

  deposit_supported :
      (amount : ℤ) (p : UserPosition)
      → (store_asset_deposit now user asset amount s).0 ≡ ok p
      → require_asset_supported s asset ≡ ok tt
  unfolding store_asset_deposit
  deposit_supported amount p e = ground arith

  deposit_ends :
      (amount : ℤ) (p q : UserPosition)
      → accrue_asset_position_rewards now (asset_index s asset) old ≡ ok q
      → (store_asset_deposit now user asset amount s).0 ≡ ok p
      → (p ≡ record q { balance = q.balance +ℤ amount })
        × ((store_asset_deposit now user asset amount s).1
            ≡ set_user_asset_position user asset p
                (set_asset_total_deposits asset (asset_total s asset +ℤ amount) s))
  unfolding store_asset_deposit checked_add get_asset_reward_index get_asset_total_deposits
  deposit_ends amount p q a e = ground arith

  deposit_accrues :
      (amount i : ℤ) (p : UserPosition)
      → get_asset_reward_index s asset ≡ ok i
      → (store_asset_deposit now user asset amount s).0 ≡ ok p
      → IsOk (accrue_asset_position_rewards now i old)
  unfolding store_asset_deposit
  deposit_accrues amount i p f e = ground arith

  -- A deposit of an asset that succeeds adds the amount to the user's balance and to the
  -- asset's total, brings the position to the asset's index, and touches no other position,
  -- total or index.
  pub store_asset_deposit_lem :
      (amount : ℤ) (p : UserPosition)
      → (store_asset_deposit now user asset amount s).0 ≡ ok p
      → (p.balance ≡ old.balance +ℤ amount)
        × (p.reward_index ≡ asset_index s asset)
        × IsEffect user asset p
            (asset_total s asset +ℤ amount)
            (asset_index s asset)
            s
            (store_asset_deposit now user asset amount s).1
  store_asset_deposit_lem amount p e =
      elim (Outcome-cases (accrue_asset_position_rewards now (asset_index s asset) old)) [
        | inl (q, a) ↦
            let (same, stored) = deposit_ends amount p q a e in
            let (kept, moved) =
              accrue_asset_position_rewards-keeps now (asset_index s asset) old q a in
            (
              cc (same, kept),
              cc (same, moved),
              rw stored (write-IsEffect user asset p (asset_total s asset +ℤ amount) s),
            )
        | inr stuck ↦ absurd (
            stuck (
              deposit_accrues amount (asset_index s asset) p
                (index_read (deposit_supported amount p e)) e))
      ]

  withdraw_supported :
      (amount : ℤ) (p : UserPosition)
      → (store_asset_withdraw now user asset amount s).0 ≡ ok p
      → require_asset_supported s asset ≡ ok tt
  unfolding store_asset_withdraw
  withdraw_supported amount p e = ground arith

  withdraw_ends :
      (amount : ℤ) (p q : UserPosition)
      → accrue_asset_position_rewards now (asset_index s asset) old ≡ ok q
      → (store_asset_withdraw now user asset amount s).0 ≡ ok p
      → (amount ≤ℤ q.balance)
        × (p ≡ record q { balance = q.balance -ℤ amount })
        × ((store_asset_withdraw now user asset amount s).1
            ≡ set_user_asset_position user asset p
                (set_asset_total_deposits asset (asset_total s asset -ℤ amount) s))
  unfolding store_asset_withdraw checked_sub get_asset_reward_index get_asset_total_deposits
  withdraw_ends amount p q a e = ground arith

  withdraw_accrues :
      (amount i : ℤ) (p : UserPosition)
      → get_asset_reward_index s asset ≡ ok i
      → (store_asset_withdraw now user asset amount s).0 ≡ ok p
      → IsOk (accrue_asset_position_rewards now i old)
  unfolding store_asset_withdraw
  withdraw_accrues amount i p f e = ground arith

  -- A withdrawal of an asset that succeeds is covered by the user's balance of it, takes the
  -- amount from that balance and from the asset's total, brings the position to the asset's
  -- index, and touches no other position, total or index.
  pub store_asset_withdraw_lem :
      (amount : ℤ) (p : UserPosition)
      → (store_asset_withdraw now user asset amount s).0 ≡ ok p
      → (amount ≤ℤ old.balance)
        × (p.balance ≡ old.balance -ℤ amount)
        × (p.reward_index ≡ asset_index s asset)
        × IsEffect user asset p
            (asset_total s asset -ℤ amount)
            (asset_index s asset)
            s
            (store_asset_withdraw now user asset amount s).1
  store_asset_withdraw_lem amount p e =
      elim (Outcome-cases (accrue_asset_position_rewards now (asset_index s asset) old)) [
        | inl (q, a) ↦
            let (covered, same, stored) = withdraw_ends amount p q a e in
            let (kept, moved) =
              accrue_asset_position_rewards-keeps now (asset_index s asset) old q a in
            (
              rw (← kept) covered,
              cc (same, kept),
              cc (same, moved),
              rw stored (write-IsEffect user asset p (asset_total s asset -ℤ amount) s),
            )
        | inr stuck ↦ absurd (
            stuck (
              withdraw_accrues amount (asset_index s asset) p
                (index_read (withdraw_supported amount p e)) e))
      ]
