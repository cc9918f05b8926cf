-- ===== src/Prelude/Decimal/RoundTrip.antt =====
-- A printed number is read back, and its print holds digits only.
use orb.Prelude.Text.{Text}
use orb.Prelude.Decimal.{digits, format_uint, parse_digits, parse_uint}
use Prim.Native.Nat.{ℕ, zero, suc, ◌+◌, ◌/◌, ◌%◌, ◌≤◌, ◌<◌}
use mathlib.Core.Path.{◌≡◌, refl}
use mathlib.Core.Logic.{◌≢◌}
use mathlib.Core.List.{[], ◌∷◌, cons-ne-nil}
use mathlib.Core.Option.{some}
use native.Mathlib.Omega.{arith}
use orb.Prelude.Lists.{All}

abbrev pub IsDigit : ℕ → Type 0
IsDigit c = (b'0' ≤ c) × (c ≤ b'9')

parse_digits_last :
    (max n : ℕ) (out : Text)
    → n ≤ max
    → parse_digits max ((b'0' + n % 10) ∷ out) (n / 10) ≡ parse_digits max out n
unfolding parse_digits
parse_digits_last max n out h = ground arith

parse_digits-digits :
    (fuel max n : ℕ) (out : Text)
    → n < fuel
    → n ≤ max
    → parse_digits max (digits fuel n out) 0 ≡ parse_digits max out n
unfolding digits
parse_digits-digits zero max n out h _ = absurd (omega arith)
parse_digits-digits (suc fuel) max n out h fits = ground (
  arith,
  parse_digits_last max n out fits,
  parse_digits-digits fuel max (n / 10) ((b'0' + n % 10) ∷ out),
)

digits-IsDigit : (fuel n : ℕ) (out : Text) → All IsDigit out → All IsDigit (digits fuel n out)
unfolding digits
digits-IsDigit zero n out h = h
digits-IsDigit (suc fuel) n out h =
    ground (arith, digits-IsDigit fuel (n / 10) ((b'0' + n % 10) ∷ out))

digits-ne-nil : (fuel n : ℕ) (out : Text) → out ≢ [] → digits fuel n out ≢ []
unfolding digits
digits-ne-nil zero n out h = h
digits-ne-nil (suc fuel) n out h =
    ground (arith, digits-ne-nil fuel (n / 10) ((b'0' + n % 10) ∷ out))

pub format_uint-IsDigit : (n : ℕ) → All IsDigit (format_uint n)
unfolding format_uint
format_uint-IsDigit n = digits-IsDigit (suc n) n [] tt

format_uint-ne-nil : (n : ℕ) → format_uint n ≢ []
unfolding format_uint
format_uint-ne-nil n =
    ground (arith, digits-ne-nil n (n / 10) ((b'0' + n % 10) ∷ []) (cons-ne-nil _ _))

parse_uint_of_digits :
    (max : ℕ) (s : Text) → s ≢ [] → All IsDigit s → parse_uint max s ≡ parse_digits max s 0
unfolding parse_uint
parse_uint_of_digits max [] h _ = absurd (h refl)
parse_uint_of_digits max (c ∷ []) _ hs = ground arith
parse_uint_of_digits max (c ∷ d ∷ s) _ hs = ground arith

-- Every number that fits the type is read back from its print.
pub parse_uint-format_uint : (max n : ℕ) → n ≤ max → parse_uint max (format_uint n) ≡ some n
unfolding format_uint parse_digits
parse_uint-format_uint max n fits =
    rw (parse_uint_of_digits max (format_uint n) (format_uint-ne-nil n) (format_uint-IsDigit n))
      (parse_digits-digits (suc n) max n [] (omega arith) fits)
