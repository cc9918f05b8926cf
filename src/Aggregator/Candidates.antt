-- ===== src/Aggregator/Candidates.antt =====
-- orb8-agent/src/aggregator.rs: the candidates for eviction, and the removal of a list of keys.
use mathlib.Core.List.Perm
use mathlib.Core.Logic.{∥∥₁_elim}
use mathlib.Core.Logic.Or
use mathlib.Core.HLevel.{×_prop}
use orb.Prelude.{
  ℕ, ◌+◌, ◌≡◌, ◌≢◌, refl, sym, ap, subst, ◌∙◌, inl, inr, Bool, true, false, none, some, List, [],
  ◌∷◌, arith, is_some, Option-cases, if◌then◌else◌, ite, map, Mem, Nodup, All, All-of_mem, length,
  length-map, mem-cons, mem-map_of_mem, exists_of_mem-map, Nodup-cons, mem-cons_self,
  mem-cons_of_mem, All-mem, not-mem-nil, Bool-set,
}
use orb.Prelude.Sort.{sort_by-perm, sort_by-IsSorted, length-sort_by, IsSorted}
use orb.Aggregator.{FlowKey, FlowStats, older, last_seen_of, remove_all, candidates}
use orb.Table.{Table}

module _ (T : Table FlowKey FlowStats) where
  -- Some candidate has the key.
  abbrev pub has_key : List (FlowKey × ℕ) → FlowKey → Bool
  has_key [] k = false
  has_key (e ∷ es) k = ite (T.dec e.0 k) true (has_key es k)

  pub get-remove_all :
      (es : List (FlowKey × ℕ)) (m : T.Map) (k : FlowKey)
      → T.get (remove_all T es m).0 k ≡ (if has_key es k then none else T.get m k)
  unfolding remove_all
  get-remove_all [] m k = refl
  get-remove_all (e ∷ es) m k =
      get-remove_all es (T.remove m e.0) k ∙ ground (arith, T.get-remove m e.0 k)

  pub len-remove_all :
      (es : List (FlowKey × ℕ)) (m : T.Map)
      → T.len (remove_all T es m).0 + (remove_all T es m).1 ≡ T.len m
  unfolding remove_all
  len-remove_all [] m = omega arith
  len-remove_all (e ∷ es) m = elim (Option-cases (T.get m e.0)) [
    | inl miss ↦ ground (arith, len-remove_all es (T.remove m e.0), T.len-remove_none m e.0 miss)
    | inr (v, hit) ↦
        ground (arith, len-remove_all es (T.remove m e.0), T.len-remove_some m e.0 v hit)
  ]

  abbrev pub keys : List (FlowKey × ℕ) → List FlowKey
  keys = map (λ e. e.0)

  pub count-remove_all :
      (es : List (FlowKey × ℕ)) (m : T.Map)
      → Nodup (keys es)
      → All (λ e. is_some (T.get m e.0) ≡ true) es
      → (remove_all T es m).1 ≡ length es
  unfolding remove_all
  count-remove_all [] m d h = refl
  count-remove_all (e ∷ es) m d (here, h) =
      ground (arith, count-remove_all es (T.remove m e.0) (Nodup-cons.0 d).1 later)
    where
      later : All (λ x. is_some (T.get (T.remove m e.0) x.0) ≡ true) es
      later =
          All-of_mem (λ x. is_some (T.get (T.remove m e.0) x.0) ≡ true) es
            λ a found.
              let other : e.0 ≢ a.0 = λ q.
                (Nodup-cons.0 d).0
                  (subst (λ k. Mem k (keys es)) (sym q) (mem-map_of_mem (λ x. x.0) found)) in
              let there : is_some (T.get m a.0) ≡ true =
                All-mem (λ x. is_some (T.get m x.0) ≡ true) (λ x. Bool-set _ _) es h found in
              ground (arith, T.get-remove m e.0 a.0)

  pub candidates-IsSorted : (m : T.Map) → IsSorted older (candidates T m)
  unfolding candidates
  candidates-IsSorted m =
      sort_by-IsSorted older (λ x y z p q. ground arith) (λ x y p. ground arith)
        (map last_seen_of (T.entries m))

  pub length-candidates : (m : T.Map) → length (candidates T m) ≡ T.len m
  unfolding candidates
  length-candidates m =
      length-sort_by older (map last_seen_of (T.entries m))
      ∙ (length-map last_seen_of (T.entries m) ∙ sym (T.len-entries m))

  pub mem-candidates :
      (m : T.Map) (k : FlowKey) (v : FlowStats)
      → T.get m k ≡ some v
      → Mem (k, v.last_seen) (candidates T m)
  unfolding candidates
  mem-candidates m k v h =
      (Perm.mem_iff (sort_by-perm older (map last_seen_of (T.entries m)))).1
        (mem-map_of_mem last_seen_of ((T.mem-entries_iff m k v).1 h))

  pub candidates-get :
      (m : T.Map) (e : FlowKey × ℕ)
      → Mem e (candidates T m)
      → ∥ ((v : FlowStats) × (T.get m e.0 ≡ some v) × (v.last_seen ≡ e.1)) ∥₁
  unfolding candidates
  candidates-get m e h =
      ∥∥₁_elim
        (exists_of_mem-map
          ((Perm.mem_iff (sort_by-perm older (map last_seen_of (T.entries m)))).0 h))
        squash₁
        (λ (x, found, q). ∣ (
          x.1,
          ap (λ (z : FlowKey × ℕ). T.get m z.0) (sym q) ∙ (T.mem-entries_iff m x.0 x.1).0 found,
          ap (λ (z : FlowKey × ℕ). z.1) q,
        ) ∣₁)

  pub keys-candidates-Nodup : (m : T.Map) → Nodup (keys (candidates T m))
  unfolding candidates
  keys-candidates-Nodup m =
      Perm.nodup
        (Perm.symm (Perm.map (λ e. e.0) (sort_by-perm older (map last_seen_of (T.entries m)))))
        (subst Nodup (sym (keys-last_seen_of (T.entries m))) (T.entries-Nodup m))
    where
      keys-last_seen_of :
          (es : List (FlowKey × FlowStats)) → keys (map last_seen_of es) ≡ map (λ e. e.0) es
      keys-last_seen_of [] = refl
      keys-last_seen_of (e ∷ es) = ap (◌∷◌ e.0) (keys-last_seen_of es)

  pub has_key_of_mem :
      (es : List (FlowKey × ℕ)) (k : FlowKey) (t : ℕ) → Mem (k, t) es → has_key es k ≡ true
  has_key_of_mem [] k t h = absurd (not-mem-nil h)
  has_key_of_mem (e ∷ es) k t h =
      Or.elim (Bool-set _ _) (mem-cons.0 h) (λ q. ground arith)
        λ r. ground (arith, has_key_of_mem es k t r)

  pub mem_of_has_key :
      (es : List (FlowKey × ℕ)) (k : FlowKey)
      → has_key es k ≡ true
      → (e : FlowKey × ℕ) × Mem e es × (e.0 ≡ k)
  mem_of_has_key [] k h = absurd (cc h)
  mem_of_has_key (e ∷ es) k h = elim (T.dec e.0 k) [
    | yes p ↦ (e, mem-cons_self, p)
    | no n ↦
        let (x, found, q) = mem_of_has_key es k (ground arith) in (x, mem-cons_of_mem e found, q)
  ]

  pub All-IsProp :
      (x : FlowKey × ℕ) (es : List (FlowKey × ℕ)) → IsProp (All (λ z. older x z ≡ true) es)
  All-IsProp x [] = hlevel
  All-IsProp x (e ∷ es) = ×_prop (Bool-set _ _) (All-IsProp x es)
