-- ===== src/Prelude/Text/Scan.antt =====
-- Lines, trimming and searching, as `str` does them.
use Prim.Native.Nat.{ℕ, zero, suc}
use mathlib.Core.Path.{◌≡◌, refl, sym, ap, ◌∙◌}
use mathlib.Core.Logic.{◌≢◌}
use mathlib.Core.Bool.{Bool, true, false, not, ◌||◌}
use mathlib.Core.List.{List, [], ◌∷◌, ◌++◌, append_assoc, reverse}
use native.Mathlib.Omega.{arith}
use mathlib.Core.Option.{Option, none, some}
use orb.Prelude.Tests.{◌==◌, if◌then◌else◌, is_some, map_option}
use orb.Prelude.Lists.{length, filter, is_empty, All, All-append}
use orb.Prelude.Text.Split.{split, prepend, Lacks, split-append, split-ne-nil}

-- `str::strip_prefix`
unfoldable pub strip_prefix : List ℕ → List ℕ → Option (List ℕ)
strip_prefix s [] = some s
strip_prefix [] (p ∷ ps) = none
strip_prefix (c ∷ s) (p ∷ ps) = let rest = strip_prefix s ps in if c == p then rest else none

-- `str::starts_with`
unfoldable pub starts_with : List ℕ → List ℕ → Bool
unfolding strip_prefix
starts_with s p = is_some (strip_prefix s p)

-- `str::ends_with`
unfoldable pub ends_with : List ℕ → List ℕ → Bool
unfolding starts_with
ends_with s p = starts_with (reverse s) (reverse p)

-- `str::strip_suffix`
unfoldable pub strip_suffix : List ℕ → List ℕ → Option (List ℕ)
unfolding strip_prefix
strip_suffix s p = map_option reverse (strip_prefix (reverse s) (reverse p))

-- `str::contains` with a text
unfoldable pub contains_text : List ℕ → List ℕ → Bool
unfolding starts_with
contains_text [] p = is_empty p
contains_text (c ∷ s) p = starts_with (c ∷ s) p || contains_text s p

-- One prefix less while there is one. The fuel is the length of the text, since the prefixes that
-- the program strips are not empty.
unfoldable pub strip_prefixes : ℕ → List ℕ → List ℕ → List ℕ
unfolding strip_prefix
strip_prefixes zero s p = s
strip_prefixes (suc fuel) s p = elim (strip_prefix s p) [
  | none ↦ s
  | some rest ↦ strip_prefixes fuel rest p
]

-- `str::trim_start_matches`
unfoldable pub trim_start_matches : List ℕ → List ℕ → List ℕ
unfolding strip_prefixes
trim_start_matches s p = strip_prefixes (length s) s p

-- `str::trim_end_matches`
unfoldable pub trim_end_matches : List ℕ → List ℕ → List ℕ
unfolding trim_start_matches
trim_end_matches s p = reverse (trim_start_matches (reverse s) (reverse p))

unfoldable pub drop_while : (ℕ → Bool) → List ℕ → List ℕ
drop_while p [] = []
drop_while p (c ∷ s) = if p c then drop_while p s else c ∷ s

-- A carriage return before the line feed belongs to the line's end.
strip_cr : List ℕ → List ℕ
strip_cr [] = []
strip_cr (c ∷ []) = if c == 13 then [] else c ∷ []
strip_cr (c ∷ d ∷ s) = c ∷ strip_cr (d ∷ s)

-- The parts between line feeds, but for an empty one at the end.
drop_last_empty : List (List ℕ) → List (List ℕ)
drop_last_empty [] = []
drop_last_empty (p ∷ []) = if is_empty p then [] else p ∷ []
drop_last_empty (p ∷ q ∷ ps) = strip_cr p ∷ drop_last_empty (q ∷ ps)

-- `str::lines`: the last line keeps a carriage return that no line feed follows.
unfoldable pub lines : List ℕ → List (List ℕ)
unfolding split drop_last_empty strip_cr
lines s = drop_last_empty (split 10 s)

-- `str::split_whitespace` and the like: the parts that are not empty.
unfoldable pub split_by : (ℕ → Bool) → List ℕ → List (List ℕ)
unfolding prepend
split_by p [] = [] ∷ []
split_by p (c ∷ s) = let rest = split_by p s in if p c then [] ∷ rest else prepend c rest

abbrev pub non_empty : List (List ℕ) → List (List ℕ)
non_empty = filter (λ p. not (is_empty p))

strip_cr-append : (line : List ℕ) → strip_cr (line ++ 13 ∷ []) ≡ line
unfolding strip_cr
strip_cr-append [] = refl
strip_cr-append (c ∷ []) = refl
strip_cr-append (c ∷ d ∷ line) = ap (◌∷◌ c) (strip_cr-append (d ∷ line))

drop_last_empty-cons :
    (p : List ℕ) (ps : List (List ℕ))
    → ps ≢ []
    → drop_last_empty (p ∷ ps) ≡ strip_cr p ∷ drop_last_empty ps
unfolding drop_last_empty
drop_last_empty-cons p [] more = absurd (more refl)
drop_last_empty-cons p (q ∷ ps) more = refl

-- A line that ends as in HTTP is the first line.
pub lines-crlf :
    (line rest : List ℕ) → Lacks 10 line → lines (line ++ 13 ∷ 10 ∷ rest) ≡ line ∷ lines rest
unfolding lines
lines-crlf line rest lacks =
    ap (λ s. drop_last_empty (split 10 s)) (sym (append_assoc line (13 ∷ []) (10 ∷ rest)))
    ∙ (ap drop_last_empty (
          split-append 10 (line ++ 13 ∷ []) rest
            (All-append (λ c. c ≢ 10) line (13 ∷ []) lacks ((λ e. ground arith), tt)))
        ∙ (drop_last_empty-cons (line ++ 13 ∷ []) (split 10 rest) (split-ne-nil 10 rest)
            ∙ ap (λ l. l ∷ drop_last_empty (split 10 rest)) (strip_cr-append line)))

-- The parts of a text, of which the first holds no character to split at.
pub split_by-append :
    (p : ℕ → Bool) (word : List ℕ) (c : ℕ) (rest : List ℕ)
    → All (λ d. p d ≡ false) word
    → p c ≡ true
    → split_by p (word ++ c ∷ rest) ≡ word ∷ split_by p rest
unfolding split_by prepend
split_by-append p [] c rest solid space = rw space refl
split_by-append p (d ∷ word) c rest (h, solid) space =
    rw (h, split_by-append p word c rest solid space) refl

pub split_by-All :
    (p : ℕ → Bool) (word : List ℕ) → All (λ d. p d ≡ false) word → split_by p word ≡ word ∷ []
unfolding split_by prepend
split_by-All p [] solid = refl
split_by-All p (d ∷ word) (h, solid) = rw (h, split_by-All p word solid) refl

strip_cr-Lacks : (line : List ℕ) → Lacks 13 line → strip_cr line ≡ line
unfolding strip_cr
strip_cr-Lacks [] lacks = refl
strip_cr-Lacks (c ∷ []) lacks = ground arith
strip_cr-Lacks (c ∷ d ∷ line) (h, lacks) = ap (◌∷◌ c) (strip_cr-Lacks (d ∷ line) lacks)

-- A line that ends as in a file of Linux is the first line.
pub lines-lf :
    (line rest : List ℕ)
    → Lacks 10 line
    → Lacks 13 line
    → lines (line ++ 10 ∷ rest) ≡ line ∷ lines rest
unfolding lines
lines-lf line rest lf cr =
    ap drop_last_empty (split-append 10 line rest lf)
    ∙ (drop_last_empty-cons line (split 10 rest) (split-ne-nil 10 rest)
        ∙ ap (λ l. l ∷ drop_last_empty (split 10 rest)) (strip_cr-Lacks line cr))
