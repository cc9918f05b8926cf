-- ===== src/Aggregator/Tasks/Atomic.antt =====
-- orb8-agent/src/aggregator.rs: a call that is not interrupted does in its steps what the operation does
-- at once.
use orb.Prelude.{
  ℕ, suc, ◌+◌, ◌≡◌, refl, subst, inl, inr, Option, none, some, List, [], ◌∷◌, arith, Bool-cases,
  if◌then◌else◌, is_some, take, leb, add_u64,
}
use orb.Prelude.Text.{Text}
use orb.Common.{NetworkFlowEvent}
use orb.Health.{HealthState}
use orb.Aggregator.{
  FlowKey, FlowStats, FlowAggregator, flow_key, remove_all, candidates, evict_count,
  evict_oldest_flows, make_room, modify_or_insert, update_capacity_flag, record_event,
  process_event, expire_old_flows,
}
use orb.Aggregator.Tasks.{
  Packet, Recorder, Expirer, Shared, Step, Reach, here, next, with_flows, begin, hit, miss, full,
  room, collect, evict, evicted, insert, measure, raise, expire, retain, count, remeasure, lower,
}
use orb.Table.{Table}

module _ (T : Table FlowKey FlowStats) where
  abbrev pub state : FlowAggregator T → HealthState → Recorder → Expirer → Shared T
  state a h r x = record { aggregator = a; health = h; recorder = r; expirer = x }

  join : {s t u : Shared T} → Reach T s t → Reach T t u → Reach T s u
  join first here = first
  join first (next second step) = next (join first second) step

  one : {s t : Shared T} → Step T s t → Reach T s t
  one step = next here step

  -- The candidates are removed one by one; `total` counts those that were there.
  evict-Reach :
      (p : Packet) (es : List (FlowKey × ℕ)) (n total : ℕ) (a : FlowAggregator T) (h : HealthState)
      (x : Expirer)
      → n + (remove_all T es a.flows).1 ≡ total
      → Reach T
          (state a h (Recorder.evicting p es n) x)
          (state (with_flows T (remove_all T es a.flows).0 a) h (Recorder.evicting p [] total) x)
  unfolding remove_all
  evict-Reach p [] n total a h x sum =
      let same : n ≡ total = omega (arith, sum) in
      subst
        (λ m.
          Reach T (state a h (Recorder.evicting p [] n) x) (state a h (Recorder.evicting p [] m) x))
        same here
  evict-Reach p (e ∷ es) n total a h x sum =
      let left : FlowAggregator T = with_flows T (T.remove a.flows e.0) a in
      join (one (evict p e es n refl)) (
        evict-Reach p es (if is_some (T.get a.flows e.0) then suc n else n) total left h x
          (ground (arith, sum)))

  make_room-Reach :
      (p : Packet) (a : FlowAggregator T) (h : HealthState) (x : Expirer)
      → Reach T
          (state a h (Recorder.checking p) x)
          (state (make_room T a h).0 (make_room T a h).1 (Recorder.inserting p) x)
  unfolding make_room evict_oldest_flows
  make_room-Reach p a h x = elim (Bool-cases (leb a.max_flows (T.len a.flows))) [
    | inl e ↦
        let es : List (FlowKey × ℕ) = take (evict_count T a.max_flows) (candidates T a.flows) in
        rw e (
          join (one (full p refl e)) (
            join (one (collect p refl)) (
              join (evict-Reach p es 0 (remove_all T es a.flows).1 a h x (omega arith))
                (one (evicted p (remove_all T es a.flows).1 refl)))))
    | inr e ↦ rw e (one (room p refl e))
  ]

  flag-Reach :
      (a : FlowAggregator T) (h : HealthState) (x : Expirer)
      → Reach T
          (state a h Recorder.measuring x)
          (state a (update_capacity_flag T a h) Recorder.idle x)
  unfolding update_capacity_flag
  flag-Reach a h x = join (one (measure refl)) (one (raise (T.len a.flows) refl))

  record_event-Reach :
      (p : Packet) (o : Option FlowStats) (a : FlowAggregator T) (h : HealthState) (x : Expirer)
      → T.get a.flows p.key ≡ o
      → Reach T (state a h (Recorder.looking p) x) (
          state
            (record_event T p.now p.event p.key o a h).0
            (record_event T p.now p.event p.key o a h).1
            Recorder.idle
            x)
  unfolding record_event
  record_event-Reach p (some v) a h x found = join (one (hit p v refl found)) (flag-Reach _ h x)
  record_event-Reach p none a h x absent = join (one (miss p refl absent)) (
      join (make_room-Reach p a h x) (
        join (one (insert p refl)) (
          flag-Reach (modify_or_insert T p.now p.event p.key (make_room T a h).0)
            (make_room T a h).1 x)))

  -- From a point where no event is being recorded, the steps of one event lead, where no expiration
  -- comes between, to exactly the table and the health state that `process_event` gives; and so do
  -- the steps of one expiration, where no event comes between, with `expire_old_flows`.
  pub calls-Reach :
      (now : ℕ) (event : NetworkFlowEvent) (namespace pod_name : Text) (a : FlowAggregator T)
      (h : HealthState) (r : Recorder) (x : Expirer)
      → Reach T (state a h Recorder.idle x) (
          state
            (process_event T now event namespace pod_name a h).0
            (process_event T now event namespace pod_name a h).1
            Recorder.idle
            x)
        × Reach T
            (state a h r Expirer.idle)
            (state (expire_old_flows T now a h).0 (expire_old_flows T now a h).1 r Expirer.idle)
  unfolding process_event expire_old_flows
  calls-Reach now event namespace pod_name a h r x =
      let p : Packet = record {
        now = now;
        event = event;
        key = flow_key event namespace pod_name;
      } in
      let counted : FlowAggregator T = record a {
        events_processed = add_u64 a.events_processed 1;
      } in
      (
        join (one (begin p refl)) (record_event-Reach p (T.get a.flows p.key) counted h x refl),
        join (one (expire now refl)) (
            join (one (retain now (T.len a.flows) refl)) (
              join (one (count (T.len a.flows) refl))
                (join (one (remeasure (T.len a.flows) _ refl)) (one (lower _ refl))))),
      )
