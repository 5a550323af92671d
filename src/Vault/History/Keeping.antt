-- ===== src/Vault/History/Keeping.antt =====
-- Whole histories keep the storage solvent and the tokens above it.
use axionvera_network.Base.{
  refl, ◌≡◌, ◌≢◌, true, false, some, ap, ◌∙◌, inl, inr, List, IsDistinct, arith, ◌==◌, Bool-cases,
}
use axionvera_network.Base.Int.{ℤ, pos, pos_part, pos-pos_part, ◌<ℤ◌, ◌≤ℤ◌, int_laws}
use axionvera_network.Vault.Outcome.{ok}
use axionvera_network.Vault.State.{Address}
use axionvera_network.Vault.World.{Host, Call, World, invoke_rule}
use axionvera_network.Vault.Contract
use axionvera_network.Vault.AssetContract
use axionvera_network.Vault.Entries.Admin.{
  propose_refines, accept_refines, pause_refines, unpause_refines, set_pending_admin-Represents,
  accept-Represents, set_paused-Represents,
}
use axionvera_network.Vault.History.{
  Request, perform, IsAdmissible, IsApart, Move, call, outside, Moves, here, next, fair_rules,
}
use axionvera_network.Vault.History.ByAsset.{
  initialize_again, main_part, beside-Represents, add_asset-beside, deposit_asset-beside,
  withdraw_asset-beside, distribute_rewards_for_asset-beside,
}
use axionvera_network.Vault.History.Custody.{IsToken}
use axionvera_network.Vault.Refinement.{Config}
use axionvera_network.Vault.History.Kept.{
  IsKept, IsKept-deposit, IsKept-withdraw, IsKept-lock, IsKept-unlock_expired,
  IsKept-distribute_rewards, IsKept-claim_rewards,
}

module _ (users : List Address) (distinct : IsDistinct users) (h : Host) (tok : IsToken h)
    (contract : Address) where
  abbrev Keeps : World h.Tokens → Type 0
  Keeps = IsKept users distinct h tok contract

  -- The vault's balances have not fallen.
  abbrev Grows : h.Tokens → h.Tokens → Type 0
  Grows t t' = (token : Address) → h.balance token contract t ≤ℤ h.balance token contract t'

  -- What is sent to the vault makes no balance of it fall.
  sent-Grows :
      (token from : Address) (amount : ℤ) (t t' : h.Tokens)
      → from ≢ contract
      → pos 0 <ℤ amount
      → h.transfer token from contract amount t ≡ some t'
      → Grows t t'
  sent-Grows token from amount t t' other positive moved asked =
      let number : amount ≡ pos (pos_part amount) = pos-pos_part amount (omega arith) in
      let sent : h.transfer token from contract (pos (pos_part amount)) t ≡ some t' =
        rw (← number) moved in
      elim (Bool-cases (asked == token)) [
        | inl equal ↦
            let same : asked ≡ token = ground arith in
            rw (same, tok.credits token from contract (pos_part amount) t t' other sent)
              (omega int_laws)
        | inr unequal ↦
            let apart : asked ≢ token = λ e. absurd (ground arith) in
            rw (tok.keeps token from contract asked contract (pos_part amount) t t' apart sent)
              (omega int_laws)
      ]

  -- A storage with the same main part, under tokens that cover as much.
  beside-IsKept :
      (w w' : World h.Tokens)
      → main_part w'.storage ≡ main_part w.storage
      → ((k : Config)
          → w.storage.deposit_token ≡ some k.deposit_token
          → w.storage.reward_token ≡ some k.reward_token
          → (h.balance k.deposit_token contract w.tokens
              ≤ℤ h.balance k.deposit_token contract w'.tokens)
            × (h.balance k.reward_token contract w.tokens
                ≤ℤ h.balance k.reward_token contract w'.tokens))
      → Keeps w
      → Keeps w'
  beside-IsKept w w' e grows (k, l, r, s, p, held) =
      let (deposits, rewards) = grows k r.config.deposit_token r.config.reward_token in
      (
        k,
        l,
        beside-Represents w.storage w'.storage k l e r,
        s,
        p,
        record {
          deposits_held = omega (int_laws, held.deposits_held, deposits);
          rewards_held = omega (int_laws, held.rewards_held, rewards);
        },
      )

  module _ (c : Call) (own : c.contract ≡ contract) (apart : c.authorized contract ≡ false)
      (w : World h.Tokens) where
    IsKept-propose :
        (w' : World h.Tokens) (a : Address)
        → Contract.propose_new_admin h c a w ≡ (ok tt, w')
        → Keeps w
        → Keeps w'
    IsKept-propose w' a d (k, l, r, s, p, held) =
        let (_, e, still) = propose_refines h c w w' k l r a d in
        (k, l, rw e (set_pending_admin-Represents h c w w' k l r a), s, p, rw still held)

    IsKept-accept :
        (w' : World h.Tokens) (a : Address)
        → Contract.accept_admin h c a w ≡ (ok tt, w')
        → Keeps w
        → Keeps w'
    IsKept-accept w' a d (k, l, r, s, p, held) =
        let (_, _, e, still) = accept_refines h c w w' k l r a d in
        (
          record k { admin = a },
          l,
          rw e (accept-Represents h c w w' k l r a),
          s,
          record { tokens_differ = p.tokens_differ; modest = p.modest },
          record {
            deposits_held = rw still held.deposits_held;
            rewards_held = rw still held.rewards_held;
          },
        )

    IsKept-pause :
        (w' : World h.Tokens) → Contract.pause_contract h c w ≡ (ok tt, w') → Keeps w → Keeps w'
    IsKept-pause w' d (k, l, r, s, p, held) =
        let (_, e, still) = pause_refines h c w w' k l r d in
        (k, l, rw e (set_paused-Represents h c w w' k l r true), s, p, rw still held)

    IsKept-unpause :
        (w' : World h.Tokens) → Contract.unpause_contract h c w ≡ (ok tt, w') → Keeps w → Keeps w'
    IsKept-unpause w' d (k, l, r, s, p, held) =
        let (_, e, still) = unpause_refines h c w w' k l r d in
        (k, l, rw e (set_paused-Represents h c w w' k l r false), s, p, rw still held)

    taken-IsKept :
        (w' : World h.Tokens) (token from : Address) (amount : ℤ)
        → main_part w'.storage ≡ main_part w.storage
        → pos 0 <ℤ amount
        → c.authorized from ≡ true
        → h.transfer token from c.contract amount w.tokens ≡ some w'.tokens
        → Keeps w
        → Keeps w'
    taken-IsKept w' token from amount e positive auth moved =
        let other : from ≢ contract = λ f. cc (ap c.authorized f) in
        let grows =
          sent-Grows token from amount w.tokens w'.tokens other positive (rw (← own) moved) in
        beside-IsKept w w' e (λ k d r. (grows k.deposit_token, grows k.reward_token))

    given-IsKept :
        (w' : World h.Tokens) (token to : Address) (amount : ℤ)
        → main_part w'.storage ≡ main_part w.storage
        → pos 0 <ℤ amount
        → c.authorized to ≡ true
        → h.transfer token c.contract to amount w.tokens ≡ some w'.tokens
        → w.storage.deposit_token ≢ some token
        → w.storage.reward_token ≢ some token
        → Keeps w
        → Keeps w'
    given-IsKept w' token to amount e positive auth moved no_deposit no_reward =
        let other : contract ≢ to = λ f. cc (ap c.authorized f) in
        let number : amount ≡ pos (pos_part amount) = pos-pos_part amount (omega arith) in
        let sent : h.transfer token contract to (pos (pos_part amount)) w.tokens ≡ some w'.tokens =
          rw (← number, ← own) moved in
        let same : (asked : Address)
            → asked ≢ token
            → h.balance asked contract w.tokens ≤ℤ h.balance asked contract w'.tokens =
          λ asked apart.
            rw
              (tok.keeps token contract to asked contract (pos_part amount) w.tokens w'.tokens apart
                sent)
              (omega int_laws) in
        beside-IsKept w w' e (λ k d r. (
          same k.deposit_token (λ f. no_deposit (d ∙ ap some f)),
          same k.reward_token (λ f. no_reward (r ∙ ap some f)),
        ))

    perform-IsKept :
        (q : Request)
        → IsAdmissible users q
        → IsApart w.storage q
        → Keeps w
        → Keeps (perform h c q w)
    perform-IsKept
          (Request.initialize admin deposit_token reward_token vesting_period target_deposits
            multipliers)
          m t s =
        invoke_rule Keeps
          (Contract.initialize h c admin deposit_token reward_token vesting_period target_deposits
            multipliers)
          w s
          (λ _ w' d.
            let (k, l, r, _, _, _) = s in
            absurd (
              initialize_again h c w w' admin deposit_token reward_token vesting_period
                target_deposits multipliers r.config.initialized d))
    perform-IsKept (Request.propose_new_admin a) m t s =
        invoke_rule Keeps (Contract.propose_new_admin h c a) w s (λ _ w' d. IsKept-propose w' a d s)
    perform-IsKept (Request.accept_admin a) m t s =
        invoke_rule Keeps (Contract.accept_admin h c a) w s (λ _ w' d. IsKept-accept w' a d s)
    perform-IsKept (Request.claim_rewards u) m t s =
        invoke_rule Keeps (Contract.claim_rewards h c u) w s
          (λ a w' d. IsKept-claim_rewards users distinct h tok contract c own apart w w' u a m d s)
    perform-IsKept (Request.deposit u amount) m t s =
        invoke_rule Keeps (Contract.deposit h c u amount) w s
          (λ _ w' d. IsKept-deposit users distinct h tok contract c own apart w w' u amount m d s)
    perform-IsKept (Request.withdraw u amount) m t s =
        invoke_rule Keeps (Contract.withdraw h c u amount) w s
          (λ _ w' d. IsKept-withdraw users distinct h tok contract c own apart w w' u amount m d s)
    perform-IsKept (Request.distribute_rewards amount) m t s =
        invoke_rule Keeps (Contract.distribute_rewards h c amount) w s (λ a w' d.
          IsKept-distribute_rewards users distinct h tok contract c own apart w w' amount a m d s)
    perform-IsKept (Request.lock u amount duration) m t s =
        invoke_rule Keeps (Contract.lock h c u amount duration) w s (λ _ w' d.
          IsKept-lock users distinct h tok contract c own apart w w' u amount duration m d s)
    perform-IsKept (Request.unlock_expired u limit) m t s =
        invoke_rule Keeps (Contract.unlock_expired h c u limit) w s (λ a w' d.
          IsKept-unlock_expired users distinct h tok contract c own apart w w' u limit a m d s)
    perform-IsKept Request.pause_contract m t s =
        invoke_rule Keeps (Contract.pause_contract h c) w s (λ _ w' d. IsKept-pause w' d s)
    perform-IsKept Request.unpause_contract m t s =
        invoke_rule Keeps (Contract.unpause_contract h c) w s (λ _ w' d. IsKept-unpause w' d s)
    perform-IsKept (Request.add_asset admin asset) m t s =
        invoke_rule Keeps (AssetContract.add_asset h c admin asset) w s (λ _ w' d.
          let (e, still) = add_asset-beside h c w w' admin asset d in
          beside-IsKept w w' e (λ k d r. rw still (omega int_laws, omega int_laws)) s)
    perform-IsKept (Request.claim_rewards_for_asset u asset) m t s = absurd t
    perform-IsKept (Request.deposit_asset u asset amount) m t s =
        invoke_rule Keeps (AssetContract.deposit_asset h c u asset amount) w s (λ _ w' d.
          let (positive, auth, moved, e) = deposit_asset-beside h c w w' u asset amount d in
          taken-IsKept w' asset u amount e positive auth moved s)
    perform-IsKept (Request.withdraw_asset u asset amount) m t s =
        invoke_rule Keeps (AssetContract.withdraw_asset h c u asset amount) w s (λ _ w' d.
          let (positive, auth, moved, e) = withdraw_asset-beside h c w w' u asset amount d in
          given-IsKept w' asset u amount e positive auth moved t.0 t.1 s)
    perform-IsKept (Request.distribute_rewards_for_asset admin asset amount) m t s =
        invoke_rule Keeps (AssetContract.distribute_rewards_for_asset h c admin asset amount) w s
          (λ a w' d.
            let (token, positive, auth, moved, e) =
              distribute_rewards_for_asset-beside h c w w' admin asset amount a d in
            taken-IsKept w' token admin amount e positive auth moved s)

  Move-IsKept :
      (w w' : World h.Tokens) → Move h (fair_rules h contract users) w w' → Keeps w → Keeps w'
  Move-IsKept w w' (call c q (own, auth, m, apart) e) s =
      rw e (perform-IsKept c own auth w q m apart s)
  Move-IsKept w w' (outside tokens grows e) s = rw e (
      beside-IsKept w (record w { tokens = tokens }) refl
        (λ k d r. (grows k.deposit_token, grows k.reward_token)) s)

  pub Moves-IsKept :
      {w w' : World h.Tokens} → Moves h (fair_rules h contract users) w w' → Keeps w → Keeps w'
  Moves-IsKept here s = s
  Moves-IsKept (next ms m) s = Move-IsKept _ _ m (Moves-IsKept ms s)
