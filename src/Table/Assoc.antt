-- ===== src/Table/Assoc.antt =====
-- An association list without repeated keys meets the interface of the map.
use orb.Prelude.{
  suc, ◌≤◌, ◌<◌, ◌≡◌, refl, inl, inr, Bool, false, if◌then◌else◌, Option, none, some, List, [], ◌∷◌,
  Mem, ite, length, arith, mem-cons, mem-cons_of_mem, not-mem-nil, Bool-cases, if_pos, if_neg, map,
  Nodup, Nodup-nil, Nodup-cons,
}
use mathlib.Core.HLevel.{⊥_prop}
use mathlib.Core.Logic.Or
use orb.Table.{Table}

module _ {K V : Type 0} (dec : Discrete K) where
  pub get : List (K × V) → K → Option V
  get [] k = none
  get ((j, v) ∷ m) k = ite (dec j k) (some v) (get m k)

  pub insert : List (K × V) → K → V → List (K × V)
  insert [] k v = (k, v) ∷ []
  insert ((j, w) ∷ m) k v = ite (dec j k) ((k, v) ∷ m) ((j, w) ∷ insert m k v)

  pub remove : List (K × V) → K → List (K × V)
  remove [] k = []
  remove ((j, w) ∷ m) k = ite (dec j k) (remove m k) ((j, w) ∷ remove m k)

  pub retain : List (K × V) → (K → V → Bool) → List (K × V)
  retain [] p = []
  retain ((j, w) ∷ m) p = if p j w then (j, w) ∷ retain m p else retain m p

  -- No key occurs twice.
  abbrev pub Distinct : List (K × V) → Type 0
  Distinct [] = Unit
  Distinct ((k, v) ∷ m) = (get m k ≡ none) × Distinct m

  pub get-insert :
      (m : List (K × V)) (k : K) (v : V) (j : K)
      → get (insert m k v) j ≡ ite (dec k j) (some v) (get m j)
  unfolding get insert
  get-insert [] k v j = refl
  get-insert ((i, w) ∷ m) k v j = ground (arith, get-insert m k v j)

  pub get-remove : (m : List (K × V)) (k j : K) → get (remove m k) j ≡ ite (dec k j) none (get m j)
  unfolding get remove
  get-remove [] k j = ground arith
  get-remove ((i, w) ∷ m) k j = ground (arith, get-remove m k j)

  pub get-retain_none :
      (m : List (K × V)) (p : K → V → Bool) (k : K) → get m k ≡ none → get (retain m p) k ≡ none
  unfolding get retain
  get-retain_none [] p k h = refl
  get-retain_none ((i, w) ∷ m) p k h = ground (arith, get-retain_none m p k)

  pub get-retain_some :
      (m : List (K × V)) (p : K → V → Bool) (k : K) (v : V)
      → Distinct m
      → get m k ≡ some v
      → get (retain m p) k ≡ (if p k v then some v else none)
  unfolding get retain
  get-retain_some [] p k v d h = cc
  get-retain_some ((i, w) ∷ m) p k v (fresh, d) h =
      ground (arith, get-retain_some m p k v d, get-retain_none m p k)

  pub insert-Distinct : (m : List (K × V)) (k : K) (v : V) → Distinct m → Distinct (insert m k v)
  unfolding get insert
  insert-Distinct [] k v d = (refl, tt)
  insert-Distinct ((j, w) ∷ m) k v (fresh, d) = elim (dec j k) [
    | yes p ↦ rw (if_pos _ p) (ground arith, d)
    | no n ↦ rw (if_neg _ n) (ground (arith, get-insert m k v j), insert-Distinct m k v d)
  ]

  pub remove-Distinct : (m : List (K × V)) (k : K) → Distinct m → Distinct (remove m k)
  unfolding get remove
  remove-Distinct [] k d = tt
  remove-Distinct ((j, w) ∷ m) k (fresh, d) = elim (dec j k) [
    | yes p ↦ rw (if_pos _ p) (remove-Distinct m k d)
    | no n ↦ rw (if_neg _ n) (ground (arith, get-remove m k j), remove-Distinct m k d)
  ]

  pub retain-Distinct : (m : List (K × V)) (p : K → V → Bool) → Distinct m → Distinct (retain m p)
  unfolding get retain
  retain-Distinct [] p d = tt
  retain-Distinct ((j, w) ∷ m) p (fresh, d) = elim (Bool-cases (p j w)) [
    | inl e ↦ rw e (get-retain_none m p j fresh, retain-Distinct m p d)
    | inr e ↦ rw e (retain-Distinct m p d)
  ]

  pub length-insert_new :
      (m : List (K × V)) (k : K) (v : V) → get m k ≡ none → length (insert m k v) ≡ suc (length m)
  unfolding get insert
  length-insert_new [] k v h = refl
  length-insert_new ((j, w) ∷ m) k v h = ground (arith, length-insert_new m k v)

  pub length-insert_old :
      (m : List (K × V)) (k : K) (v w : V) → get m k ≡ some w → length (insert m k v) ≡ length m
  unfolding get insert
  length-insert_old [] k v w h = cc
  length-insert_old ((j, u) ∷ m) k v w h = ground (arith, length-insert_old m k v w)

  pub length-remove_none :
      (m : List (K × V)) (k : K) → get m k ≡ none → length (remove m k) ≡ length m
  unfolding get remove
  length-remove_none [] k h = refl
  length-remove_none ((j, w) ∷ m) k h = ground (arith, length-remove_none m k)

  pub length-remove_some :
      (m : List (K × V)) (k : K) (v : V)
      → Distinct m
      → get m k ≡ some v
      → suc (length (remove m k)) ≡ length m
  unfolding get remove
  length-remove_some [] k v d h = cc
  length-remove_some ((j, w) ∷ m) k v (fresh, d) h =
      ground (arith, length-remove_some m k v d, length-remove_none m k)

  pub length-retain-le : (m : List (K × V)) (p : K → V → Bool) → length (retain m p) ≤ length m
  unfolding retain
  length-retain-le [] p = omega arith
  length-retain-le ((j, w) ∷ m) p = ground (arith, length-retain-le m p)

  pub length-retain-lt :
      (m : List (K × V)) (p : K → V → Bool) (k : K) (v : V)
      → get m k ≡ some v
      → p k v ≡ false
      → length (retain m p) < length m
  unfolding get retain
  length-retain-lt [] p k v h e = cc
  length-retain-lt ((j, w) ∷ m) p k v h e =
      ground (arith, length-retain-lt m p k v, length-retain-le m p)

  pub not-mem-keys : (m : List (K × V)) (k : K) → get m k ≡ none → ¬ Mem k (map (λ e. e.0) m)
  unfolding get
  not-mem-keys [] k h = not-mem-nil
  not-mem-keys ((j, w) ∷ m) k h = λ found.
      Or.elim ⊥_prop (mem-cons.0 found) (λ e. ground arith) (not-mem-keys m k (ground arith))

  pub Distinct-Nodup : (m : List (K × V)) → Distinct m → Nodup (map (λ e. e.0) m)
  Distinct-Nodup [] d = Nodup-nil
  Distinct-Nodup ((j, w) ∷ m) (fresh, d) = Nodup-cons.1 (not-mem-keys m j fresh, Distinct-Nodup m d)

  pub get→mem : (m : List (K × V)) (k : K) (v : V) → get m k ≡ some v → Mem (k, v) m
  unfolding get
  get→mem [] k v h = cc
  get→mem ((j, w) ∷ m) k v h = elim (dec j k) [
    | yes p ↦ here (ground arith)
    | no n ↦ mem-cons_of_mem (j, w) (get→mem m k v (ground arith))
  ]
    where
      here : ◌≡◌ {A = K × V} (k, v) (j, w) → Mem (k, v) ((j, w) ∷ m)
      here e = mem-cons.1 (Or.inl e)

  module _ (set : IsSet V) where
    pub mem→get : (m : List (K × V)) (k : K) (v : V) → Distinct m → Mem (k, v) m → get m k ≡ some v
    unfolding get
    mem→get [] k v d h = absurd (not-mem-nil h)
    mem→get ((j, w) ∷ m) k v (fresh, d) h =
        Or.elim (hlevel set) (mem-cons.0 h) (λ e. ground arith)
          (λ r. ground (arith, mem→get m k v d r))

    unfoldable pub assoc : Table K V
    unfolding get insert remove retain
    assoc = record {
      Map = (m : List (K × V)) × Distinct m;
      dec = dec;
      empty = ([], tt);
      get = λ m. get m.0;
      insert = λ m k v. (insert m.0 k v, insert-Distinct m.0 k v m.1);
      remove = λ m k. (remove m.0 k, remove-Distinct m.0 k m.1);
      retain = λ m p. (retain m.0 p, retain-Distinct m.0 p m.1);
      entries = λ m. m.0;
      len = λ m. length m.0;
      get-empty = λ k. refl;
      get-insert = λ m. get-insert m.0;
      get-remove = λ m. get-remove m.0;
      get-retain_some = λ m p k v. get-retain_some m.0 p k v m.1;
      get-retain_none = λ m. get-retain_none m.0;
      mem-entries_iff = λ m k v. (mem→get m.0 k v m.1, get→mem m.0 k v);
      entries-Nodup = λ m. Distinct-Nodup m.0 m.1;
      len-empty = refl;
      len-entries = λ m. refl;
      len-insert_new = λ m. length-insert_new m.0;
      len-insert_old = λ m. length-insert_old m.0;
      len-remove_some = λ m k v. length-remove_some m.0 k v m.1;
      len-remove_none = λ m. length-remove_none m.0;
      len-retain-le = λ m. length-retain-le m.0;
      len-retain-lt = λ m. length-retain-lt m.0;
    }
