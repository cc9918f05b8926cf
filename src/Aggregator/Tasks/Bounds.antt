-- ===== src/Aggregator/Tasks/Bounds.antt =====
-- orb8-agent/src/aggregator.rs: the table stays within its limit whatever the two tasks do to each other.
use Prim.Native.Nat.{max}
use orb.Prelude.{
  ℕ, ◌≤◌, ◌<◌, ◌≡◌, refl, sym, ap, subst, ◌∙◌, ◌⊎◌, inl, inr, Bool, true, List, [], ◌∷◌, arith,
  is_some, Bool-cases, Option-cases, Bool-set, take, length, Mem, mem-cons_self, mem-append,
  length-take, take-append-drop,
}
use mathlib.Core.Logic.Or
use mathlib.Core.Logic.{∥∥₁_elim}
use orb.Health.{HealthState}
use orb.Aggregator.{FlowKey, FlowStats, candidates, evict_count, is_fresh, new}
use orb.Aggregator.Bounds.{modify_or_insert-len, modify_or_insert-max_flows}
use orb.Aggregator.Candidates.{candidates-get, length-candidates}
use orb.Aggregator.Tasks.{
  Packet, Recorder, Shared, initial, Step, Reach, here, next, begin, hit, miss, full, room, collect,
  evict, evicted, insert, measure, raise, expire, retain, count, remeasure, lower,
}
use orb.Table.{Table}

module _ (T : Table FlowKey FlowStats) where
  -- At the points from which the next insertion follows without a further test, the table has room
  -- for it, or is about to lose a flow.
  abbrev Room : ℕ → T.Map → Recorder → Type 0
  Room bound flows (Recorder.inserting p) = T.len flows < bound
  Room bound flows (Recorder.evicting p [] n) = T.len flows < bound
  Room bound flows (Recorder.evicting p (e ∷ es) n) =
      (T.len flows < bound) ⊎ (is_some (T.get flows e.0) ≡ true)
  Room bound flows _ = Unit

  abbrev limit : Shared T → ℕ
  limit s = max s.aggregator.max_flows 1

  record IsBounded (s : Shared T) : Type 0 where
    bounded : T.len s.aggregator.flows ≤ limit s
    has_room : Room (limit s) s.aggregator.flows s.recorder

  -- A flow that is about to be evicted and that the expiration drops makes room as well.
  retain-still :
      (bound : ℕ) (flows : T.Map) (keep : FlowKey → FlowStats → Bool) (k : FlowKey)
      → T.len flows ≤ bound
      → (T.len flows < bound) ⊎ (is_some (T.get flows k) ≡ true)
      → (T.len (T.retain flows keep) < bound) ⊎ (is_some (T.get (T.retain flows keep) k) ≡ true)
  retain-still bound flows keep k bounded (inl free) =
      inl (omega (arith, T.len-retain-le flows keep))
  retain-still bound flows keep k bounded (inr there) = elim (Option-cases (T.get flows k)) [
    | inl absent ↦ absurd (ground arith)
    | inr (v, found) ↦ elim (Bool-cases (keep k v)) [
      | inl kept ↦ inr (ground (arith, T.get-retain_some flows keep k v found))
      | inr dropped ↦ inl (omega (arith, T.len-retain-lt flows keep k v found dropped))
    ]
  ]

  retain-Room :
      (bound : ℕ) (flows : T.Map) (keep : FlowKey → FlowStats → Bool) (r : Recorder)
      → T.len flows ≤ bound
      → Room bound flows r
      → Room bound (T.retain flows keep) r
  retain-Room bound flows keep Recorder.idle bounded free = tt
  retain-Room bound flows keep (Recorder.looking p) bounded free = tt
  retain-Room bound flows keep (Recorder.checking p) bounded free = tt
  retain-Room bound flows keep (Recorder.collecting p) bounded free = tt
  retain-Room bound flows keep (Recorder.evicting p [] n) bounded free =
      omega (arith, T.len-retain-le flows keep)
  retain-Room bound flows keep (Recorder.evicting p (e ∷ es) n) bounded free =
      retain-still bound flows keep e.0 bounded free
  retain-Room bound flows keep (Recorder.inserting p) bounded free =
      omega (arith, T.len-retain-le flows keep)
  retain-Room bound flows keep Recorder.measuring bounded free = tt
  retain-Room bound flows keep (Recorder.raising len) bounded free = tt

  -- The first victim is a flow of the table; without candidates the table is empty.
  collect-Room :
      (max_flows : ℕ) (flows : T.Map) (p : Packet) (es : List (FlowKey × ℕ))
      → take (evict_count T max_flows) (candidates T flows) ≡ es
      → Room (max max_flows 1) flows (Recorder.evicting p es 0)
  unfolding evict_count
  collect-Room max_flows flows p [] e =
      let none_taken : length (take (evict_count T max_flows) (candidates T flows)) ≡ 0 =
        ap (λ (q : List (FlowKey × ℕ)). length q) e in
      omega (
        arith,
        none_taken,
        length-take (evict_count T max_flows) (candidates T flows),
        length-candidates T flows,
      )
  collect-Room max_flows flows p (x ∷ es) e =
      let taken : Mem x (take (evict_count T max_flows) (candidates T flows)) =
        subst (Mem x) (sym e) mem-cons_self in
      let candidate : Mem x (candidates T flows) =
        subst (Mem x) (take-append-drop (evict_count T max_flows) (candidates T flows))
          (mem-append.1 (Or.inl taken)) in
      inr (
        ∥∥₁_elim (candidates-get T flows x candidate) (Bool-set _ _)
          (λ (v, found, time). ground arith))

  remove-len :
      (flows : T.Map) (k : FlowKey) (bound : ℕ)
      → T.len flows ≤ bound
      → (T.len flows < bound) ⊎ (is_some (T.get flows k) ≡ true)
      → T.len (T.remove flows k) < bound
  remove-len flows k bound bounded free = elim (Option-cases (T.get flows k)) [
    | inl absent ↦ ground (arith, T.len-remove_none flows k absent)
    | inr (v, found) ↦ omega (arith, T.len-remove_some flows k v found)
  ]

  evict-Room :
      (bound : ℕ) (flows : T.Map) (p : Packet) (es : List (FlowKey × ℕ)) (n : ℕ)
      → T.len flows < bound
      → Room bound flows (Recorder.evicting p es n)
  evict-Room bound flows p [] n free = free
  evict-Room bound flows p (e ∷ es) n free = inl free

  Step-IsBounded : {s t : Shared T} → Step T s t → IsBounded s → IsBounded t
  Step-IsBounded (begin p e) b = record { bounded = b.bounded; has_room = tt }
  Step-IsBounded {s} (hit p v e found) b = record {
    bounded = omega (arith, b.bounded, T.len-insert_old s.aggregator.flows p.key _ v found);
    has_room = tt;
  }
  Step-IsBounded (miss p e absent) b = record { bounded = b.bounded; has_room = tt }
  Step-IsBounded (full p e reached) b = record { bounded = b.bounded; has_room = tt }
  Step-IsBounded (room p e free) b = record { bounded = b.bounded; has_room = ground arith }
  Step-IsBounded {s} (collect p e) b = record {
    bounded = b.bounded;
    has_room = collect-Room s.aggregator.max_flows s.aggregator.flows p _ refl;
  }
  Step-IsBounded {s} (evict p x es n e) b =
      let free =
        remove-len s.aggregator.flows x.0 (limit s) b.bounded
          (subst (Room (limit s) s.aggregator.flows) e b.has_room) in
      record { bounded = omega arith; has_room = evict-Room (limit s) _ p es _ free }
  Step-IsBounded {s} (evicted p n e) b = record {
    bounded = b.bounded;
    has_room = subst (Room (limit s) s.aggregator.flows) e b.has_room;
  }
  Step-IsBounded {s} (insert p e) b =
      let free : T.len s.aggregator.flows < limit s =
        subst (Room (limit s) s.aggregator.flows) e b.has_room in
      record {
        bounded = omega (
          arith,
          modify_or_insert-len T p.now p.event p.key s.aggregator,
          modify_or_insert-max_flows T p.now p.event p.key s.aggregator,
        );
        has_room = tt;
      }
  Step-IsBounded (measure e) b = record { bounded = b.bounded; has_room = tt }
  Step-IsBounded (raise len e) b = record { bounded = b.bounded; has_room = tt }
  Step-IsBounded (expire now e) b = record { bounded = b.bounded; has_room = b.has_room }
  Step-IsBounded {s} (retain now before e) b = record {
    bounded = omega (
      arith,
      b.bounded,
      T.len-retain-le s.aggregator.flows (is_fresh T now s.aggregator.flow_timeout),
    );
    has_room = retain-Room (limit s) s.aggregator.flows _ s.recorder b.bounded b.has_room;
  }
  Step-IsBounded (count before e) b = record { bounded = b.bounded; has_room = b.has_room }
  Step-IsBounded (remeasure before after e) b = record {
    bounded = b.bounded;
    has_room = b.has_room;
  }
  Step-IsBounded (lower len e) b = record { bounded = b.bounded; has_room = b.has_room }

  Reach-IsBounded : {s t : Shared T} → Reach T s t → IsBounded s → IsBounded t
  Reach-IsBounded here b = b
  Reach-IsBounded (next before step) b = Step-IsBounded step (Reach-IsBounded before b)

  Step-max_flows : {s t : Shared T} → Step T s t → t.aggregator.max_flows ≡ s.aggregator.max_flows
  Step-max_flows (begin p e) = refl
  Step-max_flows (hit p v e found) = refl
  Step-max_flows (miss p e absent) = refl
  Step-max_flows (full p e reached) = refl
  Step-max_flows (room p e free) = refl
  Step-max_flows (collect p e) = refl
  Step-max_flows (evict p x es n e) = refl
  Step-max_flows (evicted p n e) = refl
  Step-max_flows {s} (insert p e) = modify_or_insert-max_flows T p.now p.event p.key s.aggregator
  Step-max_flows (measure e) = refl
  Step-max_flows (raise len e) = refl
  Step-max_flows (expire now e) = refl
  Step-max_flows (retain now before e) = refl
  Step-max_flows (count before e) = refl
  Step-max_flows (remeasure before after e) = refl
  Step-max_flows (lower len e) = refl

  Reach-max_flows : {s t : Shared T} → Reach T s t → t.aggregator.max_flows ≡ s.aggregator.max_flows
  Reach-max_flows here = refl
  Reach-max_flows (next before step) = Step-max_flows step ∙ Reach-max_flows before

  -- However the steps of the two tasks interleave from the start, the table never holds more flows
  -- than its limit (one, if the limit is 0): not between the steps of an eviction either, and not
  -- where flows that are to be evicted expire at the same time.
  pub Reach-len :
      (max_flows flow_timeout : ℕ) (h : HealthState) (s : Shared T)
      → Reach T (initial T max_flows flow_timeout h) s
      → T.len s.aggregator.flows ≤ max max_flows 1
  unfolding new
  Reach-len max_flows flow_timeout h s reach =
      let b =
        Reach-IsBounded reach (record { bounded = omega (arith, T.len-empty); has_room = tt }) in
      omega (arith, b.bounded, Reach-max_flows reach)
