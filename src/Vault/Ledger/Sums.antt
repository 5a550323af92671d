-- ===== src/Vault/Ledger/Sums.antt =====
-- Sums over a list of users, and how they move when one entry changes.
use axionvera_network.Base.{
  ℕ, ◌+◌, ◌≤◌, ◌≡◌, ◌≢◌, refl, ◌∙◌, inl, inr, List, [], ◌∷◌, arith, update, IsFresh, IsDistinct,
  IsListed,
}

fresh_ne : (v u : ℕ) (us : List ℕ) → IsFresh v us → IsListed u us → v ≢ u
fresh_ne v u [] h m = absurd m
fresh_ne v u (w ∷ us) h (inl e) = λ d. h.0 (d ∙ e)
fresh_ne v u (w ∷ us) h (inr m) = fresh_ne v u us h.1 m

module _ {A : Type 0} (f : A → ℕ) where
  abbrev pub sum_over : (ℕ → A) → List ℕ → ℕ
  sum_over g [] = 0
  sum_over g (u ∷ us) = f (g u) + sum_over g us

  -- An update at a user that is not listed changes nothing.
  pub sum_over-update_fresh :
      (g : ℕ → A) (u : ℕ) (a : A) (us : List ℕ)
      → IsFresh u us
      → sum_over (update g u a) us ≡ sum_over g us
  sum_over-update_fresh g u a [] h = refl
  sum_over-update_fresh g u a (v ∷ us) h = ground (arith, sum_over-update_fresh g u a us h.1)

  -- At a listed user it exchanges one term.
  pub sum_over-update :
      (g : ℕ → A) (u : ℕ) (a : A) (us : List ℕ)
      → IsDistinct us
      → IsListed u us
      → sum_over (update g u a) us + f (g u) ≡ sum_over g us + f a
  sum_over-update g u a [] d m = absurd m
  sum_over-update g u a (v ∷ us) d (inl e) = ground (arith, sum_over-update_fresh g v a us d.0)
  sum_over-update g u a (v ∷ us) d (inr m) =
      ground (arith, fresh_ne v u us d.0 m, sum_over-update g u a us d.1 m)

-- A listed user's stake is part of the total.
pub le-sum_over :
    {A : Type 0} (f : A → ℕ) (g : ℕ → A) (u : ℕ) (us : List ℕ)
    → IsListed u us
    → f (g u) ≤ sum_over f g us
le-sum_over f g u [] m = absurd m
le-sum_over f g u (v ∷ us) (inl e) = ground arith
le-sum_over f g u (v ∷ us) (inr m) = ground (arith, le-sum_over f g u us m)

-- A sum of values is the sum over the function that gives them.
pub sum_over-map :
    {A : Type 0} (f : A → ℕ) (g : ℕ → A) (us : List ℕ)
    → sum_over f g us ≡ sum_over (λ n. n) (λ u. f (g u)) us
sum_over-map f g [] = refl
sum_over-map f g (u ∷ us) = omega (arith, sum_over-map f g us)
