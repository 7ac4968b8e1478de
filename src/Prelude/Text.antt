-- ===== src/Prelude/Text.antt =====
-- Decimal numbers in text, as `{}` writes an unsigned integer.
use Prim.Native.Nat.{ℕ, zero, suc, ◌+◌, ◌/◌, ◌%◌}
use Prim.Native.String.{String, slice, ◌++◌}
use mathlib.Core.Path.{◌≡◌, refl}
use bdk_floresta.Prelude.Tests.{◌==◌, if◌then◌else◌}

infixr 65 ◌<>◌
abbrev pub ◌<>◌ : String → String → String
s <> t = s ++ t

digit : ℕ → String
digit d = slice "0123456789" d (d + 1)

decimal_fuel : ℕ → ℕ → String
decimal_fuel zero n = digit (n % 10)
decimal_fuel (suc f) n =
    let rest = decimal_fuel f (n / 10) in if n / 10 == 0 then digit n else rest <> digit (n % 10)

-- Twenty digits are enough for a `u64`.
unfoldable pub decimal : ℕ → String
unfolding decimal_fuel digit
decimal n = decimal_fuel 20 n

decimal_million : decimal 1000200 ≡ "1000200"
unfolding decimal
decimal_million = refl
