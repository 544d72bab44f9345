-- ===== src/Prelude/Decimal.antt =====
-- Numbers as Python prints them.
use Prim.Native.Nat.{ℕ, zero, suc, ◌+◌, ◌/◌, ◌%◌}
use mathlib.Core.List.{[], ◌∷◌}
use weft_mark.Prelude.Tests.{ltb, if◌then◌else◌}
use weft_mark.Prelude.Strings.{Text}

-- `str(n)`, on fuel: dividing by ten shortens a number, so the number is fuel enough.
unfoldable pub digits : (fuel : ℕ) → ℕ → Text → Text
digits zero n behind = behind
digits (suc fuel) n behind =
    let longer = digits fuel (n / 10) ((b'0' + n % 10) ∷ behind) in
    if ltb n 10 then (b'0' + n) ∷ behind else longer

abbrev pub decimal : ℕ → Text
decimal n = digits (suc n) n []
