-- ===== src/Vault/History/Sound.antt =====
-- The accounting over whole histories, and what it says of the contract's own views.
use axionvera_network.Base.{◌≡◌, true, false, List, IsDistinct}
use axionvera_network.Vault.Outcome.{ok}
use axionvera_network.Vault.State.{Address}
use axionvera_network.Vault.World.{Host, Call, World, invoke_rule}
use axionvera_network.Vault.Contract
use axionvera_network.Vault.AssetContract
use axionvera_network.Vault.Entries.Admin.{
  propose_refines, accept_refines, pause_refines, unpause_refines, set_pending_admin-Represents,
  accept-Represents, set_paused-Represents,
}
use axionvera_network.Vault.History.{
  Request, perform, IsAdmissible, Move, call, outside, Moves, here, next, free_rules,
}
use axionvera_network.Vault.History.ByAsset.{
  initialize_again, main_part, beside-Represents, add_asset-beside, deposit_asset-beside,
  withdraw_asset-beside, distribute_rewards_for_asset-beside, claim_rewards_for_asset-beside,
}
use axionvera_network.Vault.History.Accounting.{
  IsSound, IsSound-deposit, IsSound-withdraw, IsSound-lock, IsSound-unlock_expired,
  IsSound-claim_rewards, IsSound-distribute_rewards,
}

module _ (users : List Address) (distinct : IsDistinct users) (h : Host) (c : Call)
    (w : World h.Tokens) where
  IsSound-propose :
      (w' : World h.Tokens) (a : Address)
      → Contract.propose_new_admin h c a w ≡ (ok tt, w')
      → IsSound users w.storage
      → IsSound users w'.storage
  IsSound-propose w' a d (k, l, r, s) =
      let (_, e, _) = propose_refines h c w w' k l r a d in
      (k, l, rw e (set_pending_admin-Represents h c w w' k l r a), s)

  IsSound-accept :
      (w' : World h.Tokens) (a : Address)
      → Contract.accept_admin h c a w ≡ (ok tt, w')
      → IsSound users w.storage
      → IsSound users w'.storage
  IsSound-accept w' a d (k, l, r, s) =
      let (_, _, e, _) = accept_refines h c w w' k l r a d in
      (record k { admin = a }, l, rw e (accept-Represents h c w w' k l r a), s)

  IsSound-pause :
      (w' : World h.Tokens)
      → Contract.pause_contract h c w ≡ (ok tt, w')
      → IsSound users w.storage
      → IsSound users w'.storage
  IsSound-pause w' d (k, l, r, s) =
      let (_, e, _) = pause_refines h c w w' k l r d in
      (k, l, rw e (set_paused-Represents h c w w' k l r true), s)

  IsSound-unpause :
      (w' : World h.Tokens)
      → Contract.unpause_contract h c w ≡ (ok tt, w')
      → IsSound users w.storage
      → IsSound users w'.storage
  IsSound-unpause w' d (k, l, r, s) =
      let (_, e, _) = unpause_refines h c w w' k l r d in
      (k, l, rw e (set_paused-Represents h c w w' k l r false), s)

  IsSound-beside :
      (w' : World h.Tokens)
      → main_part w'.storage ≡ main_part w.storage
      → IsSound users w.storage
      → IsSound users w'.storage
  IsSound-beside w' e (k, l, r, s) = (k, l, beside-Represents w.storage w'.storage k l e r, s)

  abbrev Sound : World h.Tokens → Type 0
  Sound v = IsSound users v.storage

  pub perform-IsSound :
      (q : Request)
      → IsAdmissible users q
      → IsSound users w.storage
      → IsSound users (perform h c q w).storage
  perform-IsSound
        (Request.initialize admin deposit_token reward_token vesting_period target_deposits
          multipliers)
        m s =
      invoke_rule Sound
        (Contract.initialize h c admin deposit_token reward_token vesting_period target_deposits
          multipliers)
        w s
        (λ _ w' d.
          let (k, l, r, _) = s in
          absurd (
            initialize_again h c w w' admin deposit_token reward_token vesting_period
              target_deposits multipliers r.config.initialized d))
  perform-IsSound (Request.propose_new_admin a) m s =
      invoke_rule Sound (Contract.propose_new_admin h c a) w s (λ _ w' d. IsSound-propose w' a d s)
  perform-IsSound (Request.accept_admin a) m s =
      invoke_rule Sound (Contract.accept_admin h c a) w s (λ _ w' d. IsSound-accept w' a d s)
  perform-IsSound (Request.claim_rewards u) m s =
      invoke_rule Sound (Contract.claim_rewards h c u) w s
        (λ a w' d. IsSound-claim_rewards users distinct h c w w' u a m d s)
  perform-IsSound (Request.deposit u amount) m s =
      invoke_rule Sound (Contract.deposit h c u amount) w s
        (λ _ w' d. IsSound-deposit users distinct h c w w' u amount m d s)
  perform-IsSound (Request.withdraw u amount) m s =
      invoke_rule Sound (Contract.withdraw h c u amount) w s
        (λ _ w' d. IsSound-withdraw users distinct h c w w' u amount m d s)
  perform-IsSound (Request.distribute_rewards amount) m s =
      invoke_rule Sound (Contract.distribute_rewards h c amount) w s
        (λ a w' d. IsSound-distribute_rewards users distinct h c w w' amount a m d s)
  perform-IsSound (Request.lock u amount duration) m s =
      invoke_rule Sound (Contract.lock h c u amount duration) w s
        (λ _ w' d. IsSound-lock users distinct h c w w' u amount duration m d s)
  perform-IsSound (Request.unlock_expired u limit) m s =
      invoke_rule Sound (Contract.unlock_expired h c u limit) w s
        (λ a w' d. IsSound-unlock_expired users distinct h c w w' u limit a m d s)
  perform-IsSound Request.pause_contract m s =
      invoke_rule Sound (Contract.pause_contract h c) w s (λ _ w' d. IsSound-pause w' d s)
  perform-IsSound Request.unpause_contract m s =
      invoke_rule Sound (Contract.unpause_contract h c) w s (λ _ w' d. IsSound-unpause w' d s)
  perform-IsSound (Request.add_asset admin asset) m s =
      invoke_rule Sound (AssetContract.add_asset h c admin asset) w s
        (λ _ w' d. IsSound-beside w' (add_asset-beside h c w w' admin asset d).0 s)
  perform-IsSound (Request.claim_rewards_for_asset u asset) m s =
      invoke_rule Sound (AssetContract.claim_rewards_for_asset h c u asset) w s
        (λ a w' d. IsSound-beside w' (claim_rewards_for_asset-beside h c w w' u asset a d) s)
  perform-IsSound (Request.deposit_asset u asset amount) m s =
      invoke_rule Sound (AssetContract.deposit_asset h c u asset amount) w s (λ _ w' d.
        let (_, _, _, e) = deposit_asset-beside h c w w' u asset amount d in IsSound-beside w' e s)
  perform-IsSound (Request.withdraw_asset u asset amount) m s =
      invoke_rule Sound (AssetContract.withdraw_asset h c u asset amount) w s (λ _ w' d.
        let (_, _, _, e) = withdraw_asset-beside h c w w' u asset amount d in IsSound-beside w' e s)
  perform-IsSound (Request.distribute_rewards_for_asset admin asset amount) m s =
      invoke_rule Sound (AssetContract.distribute_rewards_for_asset h c admin asset amount) w s
        (λ a w' d.
          let (_, _, _, _, e) =
            distribute_rewards_for_asset-beside h c w w' admin asset amount a d in
          IsSound-beside w' e s)

module _ (users : List Address) (distinct : IsDistinct users) (h : Host) where
  Move-IsSound :
      (w w' : World h.Tokens)
      → Move h (free_rules h users) w w'
      → IsSound users w.storage
      → IsSound users w'.storage
  Move-IsSound w w' (call c q m e) s = rw e (perform-IsSound users distinct h c w q m s)
  Move-IsSound w w' (outside tokens any e) s = rw e s

  pub Moves-IsSound :
      {w w' : World h.Tokens}
      → Moves h (free_rules h users) w w'
      → IsSound users w.storage
      → IsSound users w'.storage
  Moves-IsSound here s = s
  Moves-IsSound (next ms m) s = Move-IsSound _ _ m (Moves-IsSound ms s)
