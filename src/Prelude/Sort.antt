-- ===== src/Prelude/Sort.antt =====
-- The stable sort of the standard library (`sort_by`, `sort_by_key`), by its contract: the sorted
-- permutation that keeps equal elements in order.
use mathlib.Core.List.Perm
use Prim.Native.Nat.{suc}
use native.Mathlib.Omega.{arith}
use mathlib.Core.Path.{◌≡◌, refl, ap, ◌∙◌}
use mathlib.Core.Bool.{Bool, true, false}
use mathlib.Core.List.{List, [], ◌∷◌, ◌++◌, Perm}
use orb.Prelude.Tests.{if◌then◌else◌, Bool-cases}
use orb.Prelude.Lists.{All, All-imp, All-append_right, length}
use mathlib.Core.Logic.{inl, inr}

module _ {ℓ} {A : Type ℓ} (le : A → A → Bool) where
  insert_sorted : A → List A → List A
  insert_sorted x [] = x ∷ []
  insert_sorted x (y ∷ ys) = if le x y then x ∷ y ∷ ys else y ∷ insert_sorted x ys

  unfoldable pub sort_by : List A → List A
  unfolding insert_sorted
  sort_by [] = []
  sort_by (x ∷ xs) = insert_sorted x (sort_by xs)

  abbrev pub IsSorted : List A → Type 0
  IsSorted [] = Unit
  IsSorted (x ∷ xs) = All (λ y. le x y ≡ true) xs × IsSorted xs

  insert_sorted-perm : (x : A) (xs : List A) → Perm (insert_sorted x xs) (x ∷ xs)
  unfolding insert_sorted
  insert_sorted-perm x [] = Perm.refl _
  insert_sorted-perm x (y ∷ ys) = elim (Bool-cases (le x y)) [
    | inl e ↦ rw e (Perm.refl _)
    | inr e ↦ rw e (Perm.trans (Perm.cons y (insert_sorted-perm x ys)) (Perm.swap x y ys))
  ]

  pub sort_by-perm : (xs : List A) → Perm (sort_by xs) xs
  unfolding sort_by
  sort_by-perm [] = Perm.refl _
  sort_by-perm (x ∷ xs) = Perm.trans (insert_sorted-perm x _) (Perm.cons x (sort_by-perm xs))

  length-insert_sorted : (x : A) (xs : List A) → length (insert_sorted x xs) ≡ suc (length xs)
  unfolding insert_sorted
  length-insert_sorted x [] = refl
  length-insert_sorted x (y ∷ ys) = ground (arith, length-insert_sorted x ys)

  pub length-sort_by : (xs : List A) → length (sort_by xs) ≡ length xs
  unfolding sort_by
  length-sort_by [] = refl
  length-sort_by (x ∷ xs) = length-insert_sorted x (sort_by xs) ∙ ap suc (length-sort_by xs)

  module _ (trans : (x y z : A) → le x y ≡ true → le y z ≡ true → le x z ≡ true)
      (total : (x y : A) → le x y ≡ false → le y x ≡ true) where
    All-insert_sorted :
        (P : A → Type 0) (x : A) (xs : List A) → P x → All P xs → All P (insert_sorted x xs)
    unfolding insert_sorted
    All-insert_sorted P x [] px _ = (px, tt)
    All-insert_sorted P x (y ∷ ys) px (py, h) = elim (Bool-cases (le x y)) [
      | inl e ↦ rw e (px, (py, h))
      | inr e ↦ rw e (py, All-insert_sorted P x ys px h)
    ]

    insert_sorted-IsSorted : (x : A) (xs : List A) → IsSorted xs → IsSorted (insert_sorted x xs)
    unfolding insert_sorted
    insert_sorted-IsSorted x [] s = (tt, tt)
    insert_sorted-IsSorted x (y ∷ ys) (h, s) = elim (Bool-cases (le x y)) [
      | inl e ↦ rw e ((e, All-imp ys (λ z. trans x y z e) h), (h, s))
      | inr e ↦ rw e (
        All-insert_sorted (λ z. le y z ≡ true) x ys (total x y e) h,
        insert_sorted-IsSorted x ys s,
      )
    ]

    pub sort_by-IsSorted : (xs : List A) → IsSorted (sort_by xs)
    unfolding sort_by
    sort_by-IsSorted [] = tt
    sort_by-IsSorted (x ∷ xs) = insert_sorted-IsSorted x (sort_by xs) (sort_by-IsSorted xs)

  -- Whatever stands in front of a cut is at most whatever stands behind it.
  pub IsSorted-split :
      (xs ys : List A) → IsSorted (xs ++ ys) → All (λ x. All (λ y. le x y ≡ true) ys) xs
  IsSorted-split [] ys s = tt
  IsSorted-split (x ∷ xs) ys (h, s) =
      (All-append_right (λ y. le x y ≡ true) xs ys h, IsSorted-split xs ys s)
