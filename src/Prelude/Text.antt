-- ===== src/Prelude/Text.antt =====
-- Text as the list of its code points, which are its bytes where the text is ASCII, and the
-- standard library's operations on `str` that the program uses.
mod Split
mod Scan
pub use Split.{Lacks, split-append, split-append_any, split-Lacks}
unfoldable pub use Split.{split, prepend}
unfoldable pub use Scan.{
  strip_prefix, starts_with, ends_with, strip_suffix, contains_text, strip_prefixes,
  trim_start_matches, trim_end_matches, drop_while, lines, split_by,
}
pub use Scan.{non_empty, lines-crlf, lines-lf, split_by-append, split_by-All}
use Prim.Native.Nat.{ℕ, ◌+◌}
use Prim.Native.Char.{code}
use Prim.Native.String.{String}
use mathlib.Core.Path.{◌≡◌, refl, ap₂}
use mathlib.Core.Logic.{ite}
use mathlib.Core.Bool.{Bool, true, false, ◌&&◌, ◌||◌}
use mathlib.Core.List.{List, [], ◌∷◌, ◌++◌, reverse, head-eq_of_cons-eq, tail-eq_of_cons-eq}
use native.Mathlib.Decide.{ℕ_discrete}
use orb.Prelude.Tests.{◌==◌, ltb, leb, if◌then◌else◌}

abbrev pub Text : Type 0
Text = List ℕ

abbrev pub codes : String → Text
codes String.[] = []
codes (String.◌∷◌ c s) = code c ∷ codes s

decide_cons : {c d : ℕ} {s t : Text} → Dec (c ≡ d) → Dec (s ≡ t) → Dec ((c ∷ s) ≡ (d ∷ t))
decide_cons (yes p) (yes q) = yes (ap₂ ◌∷◌ p q)
decide_cons (yes p) (no q) = no (λ e. q (tail-eq_of_cons-eq e))
decide_cons (no p) r = no (λ e. p (head-eq_of_cons-eq e))

-- `==` on strings
unfoldable pub Text-discrete : Discrete Text
unfolding decide_cons
Text-discrete [] [] = yes refl
Text-discrete [] (d ∷ t) = no (λ e. cc)
Text-discrete (c ∷ s) [] = no (λ e. cc)
Text-discrete (c ∷ s) (d ∷ t) = decide_cons (ℕ_discrete c d) (Text-discrete s t)

abbrev pub text_eq : Text → Text → Bool
text_eq s t = ite (Text-discrete s t) true false

-- the length of a code point in UTF-8
abbrev pub utf8_len : ℕ → ℕ
utf8_len c = if ltb c 0x80 then 1 else if ltb c 0x800 then 2 else if ltb c 0x10000 then 3 else 4

-- `str::len`, in bytes
unfoldable pub byte_len : Text → ℕ
byte_len [] = 0
byte_len (c ∷ s) = utf8_len c + byte_len s

-- `char::is_whitespace`: the code points with the property White_Space
unfoldable pub is_whitespace : ℕ → Bool
is_whitespace c =
    (leb 9 c && leb c 13)
    || c == 32
    || c == 0x85
    || c == 0xA0
    || c == 0x1680
    || (leb 0x2000 c && leb c 0x200A)
    || c == 0x2028
    || c == 0x2029
    || c == 0x202F
    || c == 0x205F
    || c == 0x3000

-- `join("; ")` and the like
unfoldable pub join : Text → List Text → Text
join sep [] = []
join sep (p ∷ []) = p
join sep (p ∷ q ∷ ps) = p ++ (sep ++ join sep (q ∷ ps))

-- `str::trim_start`, `str::trim_end` and `str::trim`
unfoldable pub trim_start : Text → Text
unfolding drop_while is_whitespace
trim_start = drop_while is_whitespace

unfoldable pub trim_end : Text → Text
unfolding trim_start
trim_end s = reverse (trim_start (reverse s))

unfoldable pub trim : Text → Text
unfolding trim_start trim_end
trim s = trim_end (trim_start s)

-- `str::split_whitespace`
unfoldable pub split_whitespace : Text → List Text
unfolding split_by is_whitespace
split_whitespace s = non_empty (split_by is_whitespace s)
