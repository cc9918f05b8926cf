-- ===== src/Prelude/Decimal.antt =====
-- Unsigned decimal numbers as the standard library prints and parses them (`Display`, `FromStr`).
pub mod RoundTrip
use orb.Prelude.Text.{Text}
use Prim.Native.Nat.{ℕ, zero, suc, ◌+◌, ◌-◌, ◌*◌, ◌/◌, ◌%◌}
use mathlib.Core.Bool.{Bool, true, false, ◌&&◌}
use mathlib.Core.List.{List, [], ◌∷◌}
use mathlib.Core.Option.{Option, none, some}
use orb.Prelude.Tests.{◌==◌, ltb, leb, if◌then◌else◌}

-- The digits of `n` in front of `out`. The fuel `suc n` is enough, since each round divides by ten.
unfoldable pub digits : ℕ → ℕ → Text → Text
digits zero n out = out
digits (suc fuel) n out =
    let more = digits fuel (n / 10) ((b'0' + n % 10) ∷ out) in
    if ltb n 10 then (b'0' + n) ∷ out else more

-- `format!("{}", n)`
unfoldable pub format_uint : ℕ → Text
unfolding digits
format_uint n = digits (suc n) n []

abbrev pub is_digit : ℕ → Bool
is_digit c = leb b'0' c && leb c b'9'

-- The digits of `from_str_radix`, with the checked multiplication and addition of a type whose
-- largest value is `max`.
unfoldable pub parse_digits : ℕ → Text → ℕ → Option ℕ
parse_digits max [] n = some n
parse_digits max (c ∷ s) n =
    let rest = parse_digits max s (n * 10 + (c - b'0')) in
    if is_digit c
    then if ltb max (n * 10) then none else if ltb max (n * 10 + (c - b'0')) then none else rest
    else none

-- `s.parse::<T>()` for an unsigned `T`: one leading `+` is allowed, and the digits may not be empty.
unfoldable pub parse_uint : ℕ → Text → Option ℕ
unfolding parse_digits
parse_uint max [] = none
parse_uint max (c ∷ []) = if c == b'+' then none else parse_digits max (c ∷ []) 0
parse_uint max (c ∷ d ∷ s) =
    if c == b'+' then parse_digits max (d ∷ s) 0 else parse_digits max (c ∷ d ∷ s) 0
