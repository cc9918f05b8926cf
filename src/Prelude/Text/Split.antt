-- ===== src/Prelude/Text/Split.antt =====
-- `str::split` at a character.
use Prim.Native.Nat.{ℕ}
use mathlib.Core.Path.{◌≡◌, refl, ap, ◌∙◌}
use mathlib.Core.Logic.{◌≢◌, inl, inr}
use mathlib.Core.List.{List, [], ◌∷◌, ◌++◌}
use native.Mathlib.Omega.{arith}
use orb.Prelude.Tests.{◌==◌, if◌then◌else◌, Bool-cases}
use orb.Prelude.Lists.{All}

unfoldable pub prepend : ℕ → List (List ℕ) → List (List ℕ)
prepend c [] = (c ∷ []) ∷ []
prepend c (p ∷ ps) = (c ∷ p) ∷ ps

unfoldable pub split : ℕ → List ℕ → List (List ℕ)
unfolding prepend
split sep [] = [] ∷ []
split sep (c ∷ s) = let rest = split sep s in if c == sep then [] ∷ rest else prepend c rest

abbrev pub Lacks : ℕ → List ℕ → Type 0
Lacks sep = All (λ c. c ≢ sep)

-- A part without the separator, in front of a separator, is the first part of the split.
pub split-append :
    (sep : ℕ) (p rest : List ℕ) → Lacks sep p → split sep (p ++ sep ∷ rest) ≡ p ∷ split sep rest
unfolding split
split-append sep [] rest _ = ground arith
split-append sep (c ∷ p) rest (h, hs) = ground (arith, split-append sep p rest hs)

-- A text without the separator is one part.
pub split-Lacks : (sep : ℕ) (p : List ℕ) → Lacks sep p → split sep p ≡ p ∷ []
unfolding split
split-Lacks sep [] _ = refl
split-Lacks sep (c ∷ p) (h, hs) = ground (arith, split-Lacks sep p hs)

prepend-ne-nil : (c : ℕ) (ps : List (List ℕ)) → prepend c ps ≢ []
unfolding prepend
prepend-ne-nil c [] = λ e. cc
prepend-ne-nil c (p ∷ ps) = λ e. cc

pub split-ne-nil : (sep : ℕ) (s : List ℕ) → split sep s ≢ []
unfolding split
split-ne-nil sep [] = λ e. cc
split-ne-nil sep (c ∷ s) = elim (Bool-cases (c == sep)) [
  | inl e ↦ rw e (λ h. cc)
  | inr e ↦ rw e (prepend-ne-nil c (split sep s))
]

prepend-append :
    (c : ℕ) (ps qs : List (List ℕ)) → ps ≢ [] → prepend c (ps ++ qs) ≡ prepend c ps ++ qs
unfolding prepend
prepend-append c [] qs h = absurd (h refl)
prepend-append c (p ∷ ps) qs h = refl

-- A split at a separator is the split of the text before it, and then that of the text behind it.
pub split-append_any :
    (sep : ℕ) (p rest : List ℕ) → split sep (p ++ sep ∷ rest) ≡ split sep p ++ split sep rest
unfolding split
split-append_any sep [] rest = ground arith
split-append_any sep (c ∷ p) rest = elim (Bool-cases (c == sep)) [
  | inl e ↦ rw e (ap (◌∷◌ []) (split-append_any sep p rest))
  | inr e ↦ rw e (
      ap (prepend c) (split-append_any sep p rest)
      ∙ prepend-append c (split sep p) (split sep rest) (split-ne-nil sep p))
]
