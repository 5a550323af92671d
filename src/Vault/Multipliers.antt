-- ===== src/Vault/Multipliers.antt =====
-- The utilization multiplier of contracts/vault-contract/src/storage.rs and the check of its points
-- in contracts/vault-contract/src/lib.rs.
use native.Mathlib.Nat.{add-mul-div_right}
use axionvera_network.Base.{
  ℕ, ◌+◌, ◌*◌, ◌/◌, ◌%◌, ◌≤◌, ◌<◌, ◌≡◌, refl, ap, ◌⊎◌, inl, inr, ◌↔◌, false, Bool-cases, leb, ltb,
  List, [], ◌∷◌, arith,
}
use axionvera_network.Base.Int.{pos}
use axionvera_network.Base.I128.{i128_bound, u32_bound, checked_mul_pos, checked_div_pos}
use axionvera_network.Vault.Outcome.{ok, IsOk}
use axionvera_network.Vault.State.{MultiplierPoint}
use axionvera_network.Vault.Rewards.{
  select_multiplier, last_multiplier, calculate_utilization_multiplier,
}
use axionvera_network.Vault.Validation.{check_sorted, validate_utilization_multipliers}

-- The utilizations never fall, from `least` on.
abbrev pub IsSorted : ℕ → List MultiplierPoint → Type 0
IsSorted least [] = Unit
IsSorted least (p ∷ ps) = (least ≤ p.utilization_bps) × IsSorted p.utilization_bps ps

abbrev pub IsAmong : MultiplierPoint → List MultiplierPoint → Type 0
IsAmong p [] = ⊥
IsAmong p (q ∷ ps) = (p ≡ q) ⊎ IsAmong p ps

check_sorted→IsSorted :
    (least : ℕ) (ps : List MultiplierPoint) → IsOk (check_sorted least ps) → IsSorted least ps
unfolding check_sorted
check_sorted→IsSorted least [] h = tt
check_sorted→IsSorted least (p ∷ ps) h = elim (Bool-cases (ltb p.utilization_bps least)) [
  | inl e ↦ absurd (rw e at h)
  | inr e ↦ (ground arith, check_sorted→IsSorted p.utilization_bps ps (rw e at h))
]

IsSorted→check_sorted :
    (least : ℕ) (ps : List MultiplierPoint) → IsSorted least ps → IsOk (check_sorted least ps)
unfolding check_sorted
IsSorted→check_sorted least [] h = tt
IsSorted→check_sorted least (p ∷ ps) (le, h) = elim (Bool-cases (ltb p.utilization_bps least)) [
  | inl e ↦ ground arith
  | inr e ↦ rw e (IsSorted→check_sorted p.utilization_bps ps h)
]

-- The points of `initialize` are accepted exactly when their utilizations never fall from one to
-- the next.
pub validate_utilization_multipliers_iff :
    (ps : List MultiplierPoint) → IsOk (validate_utilization_multipliers ps) ↔ IsSorted 0 ps
unfolding validate_utilization_multipliers
validate_utilization_multipliers_iff [] = (λ h. tt, λ h. tt)
validate_utilization_multipliers_iff (p ∷ ps) =
    (check_sorted→IsSorted 0 (p ∷ ps), IsSorted→check_sorted 0 (p ∷ ps))

IsSorted-least :
    (least : ℕ) (ps : List MultiplierPoint) (r : MultiplierPoint)
    → IsSorted least ps
    → IsAmong r ps
    → least ≤ r.utilization_bps
IsSorted-least least [] r s m = elim m [ ]
IsSorted-least least (p ∷ ps) r (le, s) (inl e) = rw e le
IsSorted-least least (p ∷ ps) r (le, s) (inr m) =
    omega (arith, IsSorted-least p.utilization_bps ps r s m)

-- A point that covers the utilization and is the least of those that do.
abbrev pub IsLeastCover : ℕ → List MultiplierPoint → MultiplierPoint → Type 0
IsLeastCover utilization ps q =
    IsAmong q ps
    × (utilization ≤ q.utilization_bps)
    × ((r : MultiplierPoint)
        → IsAmong r ps
        → utilization ≤ r.utilization_bps
        → q.utilization_bps ≤ r.utilization_bps)

-- On sorted points, of which one covers the utilization, the loop selects the multiplier of a
-- point that covers it and has the least utilization of those that do, whatever was selected
-- before.
pub select_multiplier_least :
    (least selected utilization : ℕ) (ps : List MultiplierPoint) (p : MultiplierPoint)
    → IsSorted least ps
    → IsAmong p ps
    → utilization ≤ p.utilization_bps
    → (q : MultiplierPoint) × (select_multiplier selected utilization ps ≡ q.multiplier_bps)
      × IsLeastCover utilization ps q
unfolding select_multiplier
select_multiplier_least least selected utilization [] p s m c = elim m [ ]
select_multiplier_least least selected utilization (x ∷ ps) p (le, s) m c =
    elim (Bool-cases (leb utilization x.utilization_bps)) [
      | inl e ↦ (
        x,
        rw e refl,
        (
          inl refl,
          ground arith,
          λ r m' c'. elim m' [
            | inl same ↦ rw same (omega arith)
            | inr later ↦ IsSorted-least x.utilization_bps ps r s later
          ],
        ),
      )
      | inr e ↦ elim m [
        | inl same ↦ absurd (cover_first same e)
        | inr later ↦
            let (q, found, (among, covers, first)) =
              select_multiplier_least x.utilization_bps selected utilization ps p s later c in
            (
              q,
              rw e found,
              (
                inr among,
                covers,
                λ r m' c'. elim m' [
                  | inl same ↦ absurd (skip_first r same c' e)
                  | inr l ↦ first r l c'
                ],
              ),
            )
      ]
    ]
  where
    cover_first : p ≡ x → leb utilization x.utilization_bps ≡ false → ⊥
    cover_first same e = ground arith

    skip_first :
        (r : MultiplierPoint)
        → r ≡ x
        → utilization ≤ r.utilization_bps
        → leb utilization x.utilization_bps ≡ false
        → ⊥
    skip_first r same c' e = ground arith

-- The multiplier for a positive target, where the product is in range: the quotient is cut to 32
-- bits before the points are searched.
pub calculate_utilization_multiplier_lem :
    (total target : ℕ) (p : MultiplierPoint) (ps : List MultiplierPoint)
    → 0 < target
    → target < i128_bound
    → total * 10000 < i128_bound
    → calculate_utilization_multiplier (pos total) (pos target) (p ∷ ps)
      ≡ ok (select_multiplier (last_multiplier p ps) (total * 10000 / target % u32_bound) (p ∷ ps))
unfolding calculate_utilization_multiplier
calculate_utilization_multiplier_lem total target p ps h f k =
    ground (arith, checked_mul_pos total 10000, checked_div_pos (total * 10000) target)

same_remainder :
    (total target : ℕ)
    → 0 < target
    → (total + u32_bound * target) * 10000 / target % u32_bound ≡ total * 10000 / target % u32_bound
same_remainder total target h =
    let shift = add-mul-div_right (total * 10000) (u32_bound * 10000) h in
    let same : (total + u32_bound * target) * 10000 ≡ total * 10000 + u32_bound * 10000 * target =
      omega arith in
    rw (same, shift) (omega arith)

-- For a positive i128 target, some points and a product in range, a total that is larger by 2^32
-- times the target gives the same multiplier, although its utilization is larger by 2^32 * 10000
-- basis points.
pub calculate_utilization_multiplier_wraps :
    (total target : ℕ) (p : MultiplierPoint) (ps : List MultiplierPoint)
    → 0 < target
    → target < i128_bound
    → (total + u32_bound * target) * 10000 < i128_bound
    → calculate_utilization_multiplier (pos (total + u32_bound * target)) (pos target) (p ∷ ps)
      ≡ calculate_utilization_multiplier (pos total) (pos target) (p ∷ ps)
calculate_utilization_multiplier_wraps total target p ps h f k =
    rw
      (
        calculate_utilization_multiplier_lem total target p ps h f (omega arith),
        calculate_utilization_multiplier_lem (total + u32_bound * target) target p ps h f k,
      )
      (ap (λ u. ok (select_multiplier (last_multiplier p ps) u (p ∷ ps)))
        (same_remainder total target h))
