-- ===== src/Prelude/Decimal.antt =====
-- strconv.Itoa of a number that is not negative.
use Prim.Native.Nat.{ℕ, zero, suc, ◌+◌, ◌/◌, ◌%◌}
use mathlib.Core.List.{[], ◌∷◌}
use srm.Prelude.Tests.{ltb, if◌then◌else◌}
use srm.Prelude.Strings.{Text}

-- The digits of n in front of `acc`, with `fuel` divisions left
unfoldable pub digits_onto : ℕ → ℕ → Text → Text
digits_onto zero n acc = acc
digits_onto (suc fuel) n acc =
    let rest = digits_onto fuel (n / 10) ((b'0' + n % 10) ∷ acc) in
    if ltb n 10 then (b'0' + n) ∷ acc else rest

-- A number has at most as many digits as its successor says.
unfoldable pub decimal : ℕ → Text
unfolding digits_onto
decimal n = digits_onto (suc n) n []
