-- ===== src/Table.antt =====
-- The concurrent hash map of the crate `dashmap`, which the agent keeps its flows and its pods in.
-- The crate is not part of the repository: `Table` lists the operations that the agent calls, each
-- as one atomic step, and what the crate's documentation says of them. `Table/Assoc.antt` shows
-- that an association list meets it.
pub mod Assoc
use orb.Prelude.{
  ℕ, suc, ◌≤◌, ◌<◌, ◌≡◌, ◌≢◌, ◌↔◌, Bool, false, if◌then◌else◌, Option, none, some, List, Mem, ite,
  length, map, Nodup,
}

pub record Table (K V : Type 0) : Type 1 where
  pub Map : Type 0
  -- `K: Eq + Hash`
  pub dec : Discrete K
  pub empty : Map
  pub get : Map → K → Option V
  -- a value replaces the one under an equal key
  pub insert : Map → K → V → Map
  pub remove : Map → K → Map
  -- keeps the entries for which the test holds
  pub retain : Map → (K → V → Bool) → Map
  -- `iter`, in the order in which the iterator yields them
  pub entries : Map → List (K × V)
  pub len : Map → ℕ
  pub get-empty : (k : K) → get empty k ≡ none
  pub get-insert :
      (m : Map) (k : K) (v : V) (j : K) → get (insert m k v) j ≡ ite (dec k j) (some v) (get m j)
  pub get-remove : (m : Map) (k j : K) → get (remove m k) j ≡ ite (dec k j) none (get m j)
  pub get-retain_some :
      (m : Map) (p : K → V → Bool) (k : K) (v : V)
      → get m k ≡ some v
      → get (retain m p) k ≡ (if p k v then some v else none)
  pub get-retain_none :
      (m : Map) (p : K → V → Bool) (k : K) → get m k ≡ none → get (retain m p) k ≡ none
  pub mem-entries_iff : (m : Map) (k : K) (v : V) → Mem (k, v) (entries m) ↔ (get m k ≡ some v)
  -- the iterator yields each key once
  pub entries-Nodup : (m : Map) → Nodup (map (λ e. e.0) (entries m))
  pub len-empty : len empty ≡ 0
  pub len-entries : (m : Map) → len m ≡ length (entries m)
  pub len-insert_new : (m : Map) (k : K) (v : V) → get m k ≡ none → len (insert m k v) ≡ suc (len m)
  pub len-insert_old : (m : Map) (k : K) (v w : V) → get m k ≡ some w → len (insert m k v) ≡ len m
  pub len-remove_some :
      (m : Map) (k : K) (v : V) → get m k ≡ some v → suc (len (remove m k)) ≡ len m
  pub len-remove_none : (m : Map) (k : K) → get m k ≡ none → len (remove m k) ≡ len m
  pub len-retain-le : (m : Map) (p : K → V → Bool) → len (retain m p) ≤ len m
  -- an entry for which the test fails is gone
  pub len-retain-lt :
      (m : Map) (p : K → V → Bool) (k : K) (v : V)
      → get m k ≡ some v
      → p k v ≡ false
      → len (retain m p) < len m
