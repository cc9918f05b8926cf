-- ===== src/Aggregator/Eviction.antt =====
-- orb8-agent/src/aggregator.rs: `evict_oldest_flows`.
use mathlib.Core.Logic.{∥∥₁_elim}
use mathlib.Core.Logic.Or
use mathlib.Core.List.{Mem-prop}
use native.Mathlib.Nat.{ℕ_set}
use Prim.Native.Nat.{min}
use orb.Prelude.{
  ℕ, ◌+◌, ◌≤◌, ◌≡◌, sym, ap, subst, ◌∙◌, true, false, none, some, List, ◌++◌, arith, is_some, ltb,
  leb→le, if◌then◌else◌, Mem, Nodup, All, All-of_mem, take, drop, length-take, take-append-drop,
  mem-append, map-append, Nodup-append, All-mem, Bool-set,
}
use orb.Prelude.Sort.{IsSorted, IsSorted-split}
use orb.Health.{HealthState, inc_flow_evictions}
use orb.Aggregator.{
  FlowKey, FlowStats, FlowAggregator, older, remove_all, candidates, evict_count,
  evict_oldest_flows,
}
use orb.Aggregator.Candidates.{
  has_key, get-remove_all, len-remove_all, keys, count-remove_all, candidates-IsSorted,
  length-candidates, mem-candidates, candidates-get, keys-candidates-Nodup, has_key_of_mem,
  mem_of_has_key, All-IsProp,
}
use orb.Table.{Table}

module _ (T : Table FlowKey FlowStats) where
  module _ (a : FlowAggregator T) (h : HealthState) where
    victims : List (FlowKey × ℕ)
    victims = take (evict_count T a.max_flows) (candidates T a.flows)

    rest : List (FlowKey × ℕ)
    rest = drop (evict_count T a.max_flows) (candidates T a.flows)

    victims-rest : victims ++ rest ≡ candidates T a.flows
    unfolding victims rest
    victims-rest = take-append-drop (evict_count T a.max_flows) (candidates T a.flows)

    get-evict :
        (k : FlowKey)
        → T.get (evict_oldest_flows T a h).0.flows k
          ≡ (if has_key T victims k then none else T.get a.flows k)
    unfolding evict_oldest_flows victims
    get-evict k = get-remove_all T victims a.flows k

    -- Eviction changes no flow: it drops it or keeps it as it is.
    pub get-evict_none :
        (k : FlowKey) → T.get a.flows k ≡ none → T.get (evict_oldest_flows T a h).0.flows k ≡ none
    get-evict_none k miss = ground (arith, get-evict k)

    victims-le-rest : {x y : FlowKey × ℕ} → Mem x victims → Mem y rest → x.1 ≤ y.1
    victims-le-rest {x} {y} hx hy =
        let sorted : IsSorted older (victims ++ rest) =
          subst (IsSorted older) (sym victims-rest) (candidates-IsSorted T a.flows) in
        let above : All (λ z. older x z ≡ true) rest =
          All-mem (λ u. All (λ z. older u z ≡ true) rest) (λ u. All-IsProp T u rest) victims
            (IsSorted-split older victims rest sorted) hx in
        leb→le x.1 y.1 (All-mem (λ z. older x z ≡ true) (λ z. Bool-set _ _) rest above hy)

    victim_time :
        (e : FlowKey × ℕ) (v : FlowStats)
        → Mem e victims
        → T.get a.flows e.0 ≡ some v
        → v.last_seen ≡ e.1
    victim_time e v found h =
        ∥∥₁_elim
          (candidates-get T a.flows e (subst (Mem e) victims-rest (mem-append.1 (Or.inl found))))
          (ℕ_set _ _) (λ (u, there, time). ground arith)

    survivor-rest :
        (j : FlowKey) (w : FlowStats)
        → T.get a.flows j ≡ some w
        → has_key T victims j ≡ false
        → Mem (j, w.last_seen) rest
    survivor-rest j w h free =
        Or.elim Mem-prop
          (mem-append.0
            (subst (Mem (j, w.last_seen)) (sym victims-rest) (mem-candidates T a.flows j w h)))
          (λ (found : Mem (j, w.last_seen) victims).
            absurd (cc (has_key_of_mem T victims j w.last_seen found)))
          (λ found. found)

    -- A flow that eviction drops was last seen no later than any flow that it keeps.
    pub evict_oldest_flows_lem :
        (j k : FlowKey) (v w : FlowStats)
        → T.get a.flows k ≡ some v
        → T.get (evict_oldest_flows T a h).0.flows k ≡ none
        → T.get (evict_oldest_flows T a h).0.flows j ≡ some w
        → v.last_seen ≤ w.last_seen
    evict_oldest_flows_lem j k v w hk gone kept =
        let (e, found, q) = mem_of_has_key T victims k (ground (arith, get-evict k)) in
        let free : has_key T victims j ≡ false = ground (arith, get-evict j) in
        let there : T.get a.flows j ≡ some w = ground (arith, get-evict j) in
        omega (
          arith,
          victim_time e v found (ap (T.get a.flows) q ∙ hk),
          victims-le-rest found (survivor-rest j w there free),
        )

    evicted : ℕ
    evicted = min (evict_count T a.max_flows) (T.len a.flows)

    evicted-count : (remove_all T victims a.flows).1 ≡ evicted
    unfolding evicted victims
    evicted-count =
        count-remove_all T victims a.flows victims-Nodup present
        ∙ (length-take (evict_count T a.max_flows) (candidates T a.flows)
            ∙ ap (min (evict_count T a.max_flows)) (length-candidates T a.flows))
      where
        victims-Nodup : Nodup (keys T victims)
        victims-Nodup =
            (Nodup-append.0 (
              subst Nodup (map-append (λ e. e.0) victims rest) (
                subst (λ es. Nodup (keys T es)) (sym victims-rest)
                  (keys-candidates-Nodup T a.flows)))).0

        present : All (λ e. is_some (T.get a.flows e.0) ≡ true) victims
        present =
            All-of_mem (λ e. is_some (T.get a.flows e.0) ≡ true) victims
              λ e found.
                ∥∥₁_elim
                  (candidates-get T a.flows e
                    (subst (Mem e) victims-rest (mem-append.1 (Or.inl found))))
                  (Bool-set _ _) (λ (u, there, time). ground arith)

    pub evict_oldest_flows-count :
        (T.len (evict_oldest_flows T a h).0.flows + min (evict_count T a.max_flows) (T.len a.flows)
          ≡ T.len a.flows)
        × ((evict_oldest_flows T a h).1 ≡ (
            if ltb 0 (min (evict_count T a.max_flows) (T.len a.flows))
            then inc_flow_evictions (min (evict_count T a.max_flows) (T.len a.flows)) h
            else h))
    unfolding evict_oldest_flows victims evicted
    evict_oldest_flows-count =
        (omega (arith, evicted-count, len-remove_all T victims a.flows), rw evicted-count)
