-- ===== src/Prelude/Trim.antt =====
-- Text without white space, which trimming leaves alone.
use mathlib.Core.List.{reverse, reverse_aux, reverse-reverse}
use orb.Prelude.{ℕ, ◌≡◌, refl, false, [], ◌∷◌, arith, All, All-imp}
use orb.Prelude.Text.{Text, drop_while, is_whitespace, trim, trim_start, trim_end}
use orb.Prelude.Decimal.{format_uint}
use orb.Prelude.Decimal.RoundTrip.{IsDigit, format_uint-IsDigit}

abbrev pub IsSolid : Text → Type 0
IsSolid = All (λ c. is_whitespace c ≡ false)

pub digit-IsSolid : (c : ℕ) → IsDigit c → is_whitespace c ≡ false
unfolding is_whitespace
digit-IsSolid c d = ground arith

trim_start-IsSolid : (s : Text) → IsSolid s → trim_start s ≡ s
unfolding trim_start drop_while
trim_start-IsSolid [] h = refl
trim_start-IsSolid (c ∷ s) (h, hs) = rw h

reverse_aux-IsSolid : (s acc : Text) → IsSolid s → IsSolid acc → IsSolid (reverse_aux s acc)
reverse_aux-IsSolid [] acc _ h = h
reverse_aux-IsSolid (c ∷ s) acc (hc, hs) h = reverse_aux-IsSolid s (c ∷ acc) hs (hc, h)

-- Text without white space is not trimmed.
pub trim-IsSolid : (s : Text) → IsSolid s → trim s ≡ s
unfolding trim trim_end
trim-IsSolid s h = rw (
  trim_start-IsSolid s h,
  trim_start-IsSolid (reverse s) (reverse_aux-IsSolid s [] h tt),
  reverse-reverse,
)

pub trim-format_uint : (n : ℕ) → trim (format_uint n) ≡ format_uint n
trim-format_uint n =
    trim-IsSolid (format_uint n) (All-imp (format_uint n) digit-IsSolid (format_uint-IsDigit n))
