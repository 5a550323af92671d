-- ===== src/Base/I128.antt =====
-- Rust's `i128`, `u128`, `u64` and `u32`: an `i128` is an integer in range, an unsigned number a
-- native one below its bound. Checked operations return `none` out of range, `as` casts wrap, and
-- so does `+` on `i128` in the release profile, which leaves overflow checks off.
use axionvera_network.Base.{
  ℕ, ◌+◌, ◌-◌, ◌*◌, ◌/◌, ◌%◌, ◌^◌, ◌≤◌, ◌<◌, ◌≡◌, Bool, Option, none, some, arith, ltb, leb, ◌==◌,
  if◌then◌else◌,
}
use axionvera_network.Base.Int.{
  ℤ, pos, negsuc, ◌+ℤ◌, ◌-ℤ◌, ◌*ℤ◌, ◌/ℤ◌, eqb_ℤ, +ℤ_pos, -ℤ_pos, *ℤ_pos,
}

-- One more than the largest `i128`, `u128`, `u64` and `u32`.
abbrev pub i128_bound : ℕ
i128_bound = 2 ^ 127

abbrev pub u128_bound : ℕ
u128_bound = 2 ^ 128

abbrev pub u64_bound : ℕ
u64_bound = 2 ^ 64

abbrev pub u32_bound : ℕ
u32_bound = 2 ^ 32

abbrev pub fits_i128 : ℤ → Bool
fits_i128 (pos n) = ltb n i128_bound
fits_i128 (negsuc n) = ltb n i128_bound

abbrev pub checked : ℤ → Option ℤ
checked z = if fits_i128 z then some z else none

unfoldable pub checked_add : ℤ → ℤ → Option ℤ
checked_add a b = checked (a +ℤ b)

unfoldable pub checked_sub : ℤ → ℤ → Option ℤ
checked_sub a b = checked (a -ℤ b)

unfoldable pub checked_mul : ℤ → ℤ → Option ℤ
checked_mul a b = checked (a *ℤ b)

unfoldable pub checked_div : ℤ → ℤ → Option ℤ
checked_div a b = if eqb_ℤ b (pos 0) then none else checked (a /ℤ b)

-- `as u128`, `as i128` and `as u32`.
abbrev pub as_u128 : ℤ → ℕ
as_u128 (pos n) = n % u128_bound
as_u128 (negsuc n) = u128_bound - 1 - n % u128_bound

abbrev pub as_i128 : ℕ → ℤ
as_i128 n = if ltb n i128_bound then pos n else negsuc (u128_bound - n - 1)

abbrev pub as_u32 : ℤ → ℕ
as_u32 (pos n) = n % u32_bound
as_u32 (negsuc n) = u32_bound - 1 - n % u32_bound

-- `a + b` with wrap-around.
unfoldable pub wrapping_add : ℤ → ℤ → ℤ
wrapping_add a b = as_i128 (as_u128 (a +ℤ b))

unfoldable pub checked_mul_u128 : ℕ → ℕ → Option ℕ
checked_mul_u128 a b = if ltb (a * b) u128_bound then some (a * b) else none

unfoldable pub checked_div_u128 : ℕ → ℕ → Option ℕ
checked_div_u128 a b = if b == 0 then none else some (a / b)

unfoldable pub checked_add_u64 : ℕ → ℕ → Option ℕ
checked_add_u64 a b = if ltb (a + b) u64_bound then some (a + b) else none

unfoldable pub checked_sub_u64 : ℕ → ℕ → Option ℕ
checked_sub_u64 a b = if leb b a then some (a - b) else none

-- The checked operations on numbers that are not negative.
pub checked_add_pos :
    (a b : ℕ)
    → checked_add (pos a) (pos b) ≡ (if ltb (a + b) i128_bound then some (pos (a + b)) else none)
unfolding checked_add
checked_add_pos a b = ground (arith, +ℤ_pos a b)

pub checked_sub_pos :
    (a b : ℕ) → b ≤ a → a < i128_bound → checked_sub (pos a) (pos b) ≡ some (pos (a - b))
unfolding checked_sub
checked_sub_pos a b h k = ground (arith, -ℤ_pos a b h)

pub checked_mul_pos :
    (a b : ℕ)
    → checked_mul (pos a) (pos b) ≡ (if ltb (a * b) i128_bound then some (pos (a * b)) else none)
unfolding checked_mul
checked_mul_pos a b = ground (arith, *ℤ_pos a b)

pub checked_div_pos :
    (a b : ℕ) → 0 < b → a < i128_bound → checked_div (pos a) (pos b) ≡ some (pos (a / b))
unfolding checked_div ◌/ℤ◌
checked_div_pos a b h k = ground arith

pub wrapping_add_pos : (a b : ℕ) → a + b < i128_bound → wrapping_add (pos a) (pos b) ≡ pos (a + b)
unfolding wrapping_add
wrapping_add_pos a b h = ground (arith, +ℤ_pos a b)
