-- ===== src/Prelude/Lists.antt =====
-- Lists measured by native numbers, and predicates on all their elements.
use Prim.Native.Nat.{ℕ, zero, suc, ◌+◌, ◌-◌, ◌≤◌, min}
use mathlib.Core.Path.{◌≡◌, refl, ap, sym, ◌∙◌}
use mathlib.Core.Bool.{Bool, true, false, not, Bool-set}
use mathlib.Core.Logic.{ite, ◌↔◌, inl, inr}
use mathlib.Core.HLevel.{×_prop}
use mathlib.Core.Logic.Or
use mathlib.Core.List.{
  List, [], ◌∷◌, ◌++◌, map, Mem, Mem-prop, mem-cons, mem-cons_self, mem-cons_of_mem, not-mem-nil,
}
use mathlib.Core.Option.{Option, none, some}
use native.Mathlib.Omega.{arith}
use orb.Prelude.Tests.{if◌then◌else◌, Bool-cases}

module _ {ℓ} {A : Type ℓ} where
  abbrev pub length : List A → ℕ
  length [] = 0
  length (x ∷ xs) = suc (length xs)

  abbrev pub get_elem? : List A → ℕ → Option A
  get_elem? [] i = none
  get_elem? (x ∷ xs) zero = some x
  get_elem? (x ∷ xs) (suc i) = get_elem? xs i

  abbrev pub take : ℕ → List A → List A
  take zero xs = []
  take (suc n) [] = []
  take (suc n) (x ∷ xs) = x ∷ take n xs

  abbrev pub drop : ℕ → List A → List A
  drop zero xs = xs
  drop (suc n) [] = []
  drop (suc n) (x ∷ xs) = drop n xs

  -- `iter().filter(..)`, with the test as the program writes it
  abbrev pub filter : (A → Bool) → List A → List A
  filter p [] = []
  filter p (x ∷ xs) = if p x then x ∷ filter p xs else filter p xs

  abbrev pub is_empty : List A → Bool
  is_empty [] = true
  is_empty (x ∷ xs) = false

  -- `slice::contains`
  abbrev pub contains : Discrete A → List A → A → Bool
  contains dec [] a = false
  contains dec (x ∷ xs) a = ite (dec x a) true (contains dec xs a)

  pub length-append : (xs ys : List A) → length (xs ++ ys) ≡ length xs + length ys
  length-append [] ys = omega arith
  length-append (x ∷ xs) ys = omega (arith, length-append xs ys)

  pub length-take : (n : ℕ) (xs : List A) → length (take n xs) ≡ min n (length xs)
  length-take zero xs = omega arith
  length-take (suc n) [] = omega arith
  length-take (suc n) (x ∷ xs) = omega (arith, length-take n xs)

  pub take-append-drop : (n : ℕ) (xs : List A) → take n xs ++ drop n xs ≡ xs
  take-append-drop zero xs = refl
  take-append-drop (suc n) [] = refl
  take-append-drop (suc n) (x ∷ xs) = ap (◌∷◌ x) (take-append-drop n xs)

  -- A cut at or behind the end takes all.
  pub take_of_length-le : (k : ℕ) (l : List A) → length l ≤ k → take k l ≡ l
  take_of_length-le zero [] short = refl
  take_of_length-le (suc k) [] short = refl
  take_of_length-le zero (a ∷ l) short = absurd (omega arith)
  take_of_length-le (suc k) (a ∷ l) short =
      let rest : take k l ≡ l = take_of_length-le k l (omega arith) in ap (◌∷◌ a) rest

module _ {ℓ} {A : Type ℓ} (dec : Discrete A) where
  contains→mem : (xs : List A) (a : A) → contains dec xs a ≡ true → Mem a xs
  contains→mem [] a h = cc
  contains→mem (x ∷ xs) a h = elim (dec x a) [
    | yes e ↦ rw e mem-cons_self
    | no n ↦ mem-cons_of_mem x (contains→mem xs a (ground arith))
  ]

  mem→contains : (xs : List A) (a : A) → Mem a xs → contains dec xs a ≡ true
  mem→contains [] a m = absurd (not-mem-nil m)
  mem→contains (x ∷ xs) a m =
      Or.elim (Bool-set _ _) (mem-cons.0 m) (λ e. ground arith)
        λ r. ground (arith, mem→contains xs a r)

  -- `contains` decides membership.
  pub contains_iff : (xs : List A) (a : A) → (contains dec xs a ≡ true) ↔ Mem a xs
  contains_iff xs a = (contains→mem xs a, mem→contains xs a)

module _ {ℓ} {A : Type ℓ} (p : A → Bool) where
  mem-filter_left : (xs : List A) (a : A) → Mem a (filter p xs) → Mem a xs × (p a ≡ true)
  mem-filter_left [] a m = absurd (not-mem-nil m)
  mem-filter_left (x ∷ xs) a m = elim (Bool-cases (p x)) [
    | inl e ↦
        Or.elim (×_prop Mem-prop (Bool-set _ _)) (mem-cons.0 (rw e at m))
          (λ q. (mem-cons.1 (Or.inl q), ap p q ∙ e)) (λ r. behind (mem-filter_left xs a r))
    | inr e ↦ behind (mem-filter_left xs a (rw e at m))
  ]
    where
      behind : Mem a xs × (p a ≡ true) → Mem a (x ∷ xs) × (p a ≡ true)
      behind (there, ok) = (mem-cons_of_mem x there, ok)

  mem-filter_right : (xs : List A) (a : A) → Mem a xs → p a ≡ true → Mem a (filter p xs)
  mem-filter_right [] a m ok = m
  mem-filter_right (x ∷ xs) a m ok =
      Or.elim Mem-prop (mem-cons.0 m) (λ q. rw (ap p (sym q) ∙ ok) (mem-cons.1 (Or.inl q)))
        (λ r. elim (Bool-cases (p x)) [
          | inl e ↦ rw e (mem-cons_of_mem x (mem-filter_right xs a r ok))
          | inr e ↦ rw e (mem-filter_right xs a r ok)
        ])

  -- The elements of a filtered list.
  pub mem-filter : (xs : List A) (a : A) → Mem a (filter p xs) ↔ (Mem a xs × (p a ≡ true))
  mem-filter xs a = (mem-filter_left xs a, λ (m, ok). mem-filter_right xs a m ok)

module _ {ℓ} {A : Type ℓ} where
  -- A cut behind a first part is a cut of the second part.
  pub drop-append : (xs ys : List A) (k m : ℕ) → k ≡ length xs + m → drop k (xs ++ ys) ≡ drop m ys
  drop-append [] ys k m e = let e' : k ≡ m = omega arith in rw e'
  drop-append (x ∷ xs) ys zero m e = absurd (omega arith)
  drop-append (x ∷ xs) ys (suc k) m e = drop-append xs ys k m (omega arith)

  pub take-append : (xs ys : List A) (k : ℕ) → k ≡ length xs → take k (xs ++ ys) ≡ xs
  take-append [] ys zero e = refl
  take-append [] ys (suc k) e = absurd (omega arith)
  take-append (x ∷ xs) ys zero e = absurd (omega arith)
  take-append (x ∷ xs) ys (suc k) e = ap (◌∷◌ x) (take-append xs ys k (omega arith))

module _ {ℓ κ} {A : Type ℓ} (P : A → Type κ) where
  abbrev pub All : List A → Type κ
  All [] = Unit
  All (x ∷ xs) = P x × All xs

  pub All-append : (xs ys : List A) → All xs → All ys → All (xs ++ ys)
  All-append [] ys _ hy = hy
  All-append (x ∷ xs) ys (px, hx) hy = (px, All-append xs ys hx hy)

  pub All-append_left : (xs ys : List A) → All (xs ++ ys) → All xs
  All-append_left [] ys _ = tt
  All-append_left (x ∷ xs) ys (px, h) = (px, All-append_left xs ys h)

  pub All-append_right : (xs ys : List A) → All (xs ++ ys) → All ys
  All-append_right [] ys h = h
  All-append_right (x ∷ xs) ys (px, h) = All-append_right xs ys h

  pub All-of_mem : (xs : List A) → ((a : A) → Mem a xs → P a) → All xs
  All-of_mem [] h = tt
  All-of_mem (x ∷ xs) h = (h x mem-cons_self, All-of_mem xs (λ a m. h a (mem-cons_of_mem x m)))

  pub All-mem : ((a : A) → IsProp (P a)) → (xs : List A) → All xs → {a : A} → Mem a xs → P a
  All-mem prop [] _ m = absurd (not-mem-nil m)
  All-mem prop (x ∷ xs) (px, h) {a} m =
      Or.elim (prop a) (mem-cons.0 m) (λ e. subst_P e px) (λ r. All-mem prop xs h r)
    where
      subst_P : a ≡ x → P x → P a
      subst_P e p = rw e p

module _ {ℓ κ λ'} {A : Type ℓ} {P : A → Type κ} {Q : A → Type λ'} where
  pub All-imp : (xs : List A) → ((a : A) → P a → Q a) → All P xs → All Q xs
  All-imp [] f _ = tt
  All-imp (x ∷ xs) f (px, h) = (f x px, All-imp xs f h)

pub length-map {ℓ κ} :
    {A : Type ℓ} {B : Type κ} (f : A → B) (xs : List A) → length (map f xs) ≡ length xs
length-map f [] = refl
length-map f (x ∷ xs) = ap suc (length-map f xs)

pub length-drop {ℓ} : {A : Type ℓ} (n : ℕ) (xs : List A) → length (drop n xs) ≡ length xs - n
length-drop zero xs = omega arith
length-drop (suc n) [] = omega arith
length-drop (suc n) (x ∷ xs) = omega (arith, length-drop n xs)

-- A test splits a list into what passes and what does not.
pub length-filter-not {ℓ} :
    {A : Type ℓ} (p : A → Bool) (xs : List A)
    → length (filter p xs) + length (filter (λ x. not (p x)) xs) ≡ length xs
length-filter-not p [] = omega arith
length-filter-not p (x ∷ xs) = elim (Bool-cases (p x)) [
  | inl e ↦ rw e (omega (arith, length-filter-not p xs))
  | inr e ↦ rw e (omega (arith, length-filter-not p xs))
]

pub All-drop {ℓ κ} :
    {A : Type ℓ} (P : A → Type κ) (n : ℕ) (xs : List A) → All P xs → All P (drop n xs)
All-drop P zero xs h = h
All-drop P (suc n) [] h = tt
All-drop P (suc n) (x ∷ xs) (hx, h) = All-drop P n xs h

drop-nil {ℓ} : {A : Type ℓ} (n : ℕ) → drop {A = A} n [] ≡ []
drop-nil zero = refl
drop-nil (suc n) = refl

pub drop-drop {ℓ} : {A : Type ℓ} (m n : ℕ) (xs : List A) → drop n (drop m xs) ≡ drop (m + n) xs
drop-drop zero n xs = ap (λ i. drop i xs) (omega arith)
drop-drop (suc m) n [] = drop-nil n ∙ (let e : suc m + n ≡ suc (m + n) = omega arith in rw e refl)
drop-drop (suc m) n (x ∷ xs) =
    let e : suc m + n ≡ suc (m + n) = omega arith in rw e (drop-drop m n xs)

-- Nothing is left once as many elements are dropped as there are.
pub drop-nil_of_le {ℓ} : {A : Type ℓ} (n : ℕ) (xs : List A) → length xs ≤ n → drop n xs ≡ []
drop-nil_of_le zero [] small = refl
drop-nil_of_le zero (x ∷ xs) small = absurd (omega arith)
drop-nil_of_le (suc n) [] small = refl
drop-nil_of_le (suc n) (x ∷ xs) small = drop-nil_of_le n xs (omega arith)

pub All-take {ℓ κ} :
    {A : Type ℓ} (P : A → Type κ) (n : ℕ) (xs : List A) → All P xs → All P (take n xs)
All-take P zero xs h = tt
All-take P (suc n) [] h = tt
All-take P (suc n) (x ∷ xs) (hx, h) = (hx, All-take P n xs h)
