-- ===== src/Common/Decimal.antt =====
-- `String(n)` for a natural number.
use Prim.Native.Nat.{ℕ, zero, suc, ◌/◌, ◌%◌}
use Prim.Native.String.{String, ◌++◌}
use mathlib.Core.List.{[], ◌∷◌}
use g_manager.Common.Tests.{ltb, if◌then◌else◌}
use g_manager.Common.Lists.{get_or}

abbrev digit : ℕ → String
digit d = get_or ("0" ∷ "1" ∷ "2" ∷ "3" ∷ "4" ∷ "5" ∷ "6" ∷ "7" ∷ "8" ∷ "9" ∷ []) d ""

-- The number itself bounds the count of its digits after the first.
decimal_within : (fuel : ℕ) → ℕ → String
decimal_within zero n = digit (n % 10)
decimal_within (suc fuel) n =
    let front = decimal_within fuel (n / 10) in
    if ltb n 10 then digit n else front ++ digit (n % 10)

unfoldable pub decimal : ℕ → String
unfolding decimal_within
decimal n = decimal_within n n
