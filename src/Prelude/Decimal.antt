-- ===== src/Prelude/Decimal.antt =====
-- strconv.Itoa: decimal digits, with fuel for one more division than the number has digits.
use Prim.Native.Nat.{ℕ, zero, suc, ◌+◌, ◌/◌, ◌%◌}
use mathlib.Core.Path.{◌≡◌, refl}
use mathlib.Core.List.{[], ◌∷◌, ◌++◌}
use bxtest.Prelude.Tests.{ltb, if◌then◌else◌}
use bxtest.Prelude.Int.{ℤ, pos, negsuc}
use bxtest.Prelude.Text.{Str, codes}

unfoldable pub digits : ℕ → ℕ → Str
digits zero n = []
digits (suc f) n =
    let rest = digits f (n / 10) in
    if ltb n 10 then (b'0' + n) ∷ [] else rest ++ ((b'0' + n % 10) ∷ [])

unfoldable pub itoa : ℤ → Str
unfolding digits
itoa (pos n) = digits (suc n) n
itoa (negsuc n) = b'-' ∷ digits (suc (suc n)) (suc n)

itoa_example : itoa (pos 1204) ≡ codes "1204"
unfolding itoa
itoa_example = refl
