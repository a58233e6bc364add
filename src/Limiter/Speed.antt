-- ===== src/Limiter/Speed.antt =====
-- determineSpeedLimit of limiter/dynamic.go, and the conversion of a limit to a rate.
use bxtest.Prelude.{
  ℤ, pos, ltb_ℤ, ◌==◌, int_eq, ◌||◌, if◌then◌else◌, ◌*ℤ◌, wrap64, quot_ℤ, ◌≤ℤ◌, ◌≡◌, ◌⊎◌, ℕ, arith,
  ◌≢◌,
}

unfoldable pub determine_speed_limit : ℤ → ℤ → ℤ
determine_speed_limit limit1 limit2 =
    if limit1 == pos 0 || limit2 == pos 0
    then (if ltb_ℤ limit2 limit1 then limit1 else if ltb_ℤ limit1 limit2 then limit2 else pos 0)
    else if ltb_ℤ limit2 limit1
    then limit2
    else if ltb_ℤ limit1 limit2
    then limit1
    else limit1

-- int64(limit) * 1000000 / 8
unfoldable pub byte_rate : ℤ → ℤ
byte_rate limit = quot_ℤ (wrap64 (limit *ℤ pos 1000000)) 8

-- What the comment on determineSpeedLimit promises: of two limits that are not negative, the result
-- is one of the two, it is 0 only if both are, and no limit that is set lies below it.
pub record IsLeastSet (a b r : ℤ) : Type 0 where
  pub chosen : (r ≡ a) ⊎ (r ≡ b)
  pub zero_only : r ≡ pos 0 → (a ≡ pos 0) × (b ≡ pos 0)
  pub below_left : a ≢ pos 0 → r ≤ℤ a
  pub below_right : b ≢ pos 0 → r ≤ℤ b

-- For limits that are not negative, determineSpeedLimit returns one of the two, returns 0 only when
-- both are 0, and returns nothing above a limit that is set.
pub determine_speed_limit-IsLeastSet :
    (m n : ℕ) → IsLeastSet (pos m) (pos n) (determine_speed_limit (pos m) (pos n))
unfolding determine_speed_limit
determine_speed_limit-IsLeastSet m n = record {
  chosen = ground arith;
  zero_only = ground arith;
  below_left = ground arith;
  below_right = ground arith;
}

-- In whichever order the limits come, the result is the same, negative limits included.
pub determine_speed_limit_comm : (a b : ℤ) → determine_speed_limit a b ≡ determine_speed_limit b a
unfolding determine_speed_limit
determine_speed_limit_comm a b = ground arith
