-- ===== src/Aggregator/Tasks/Exact.antt =====
-- orb8-agent/src/aggregator.rs: the steps of a call that is not interrupted can give nothing but the
-- result of the operation.
use orb.Prelude.{ℕ, ◌+◌, ◌≡◌, ◌≢◌, refl, sym, ap, ◌∙◌, Bool, true, false, if◌then◌else◌, ltb}
use orb.Prelude.Text.{Text}
use orb.Health
use orb.Health.{HealthState}
use orb.Aggregator.{
  FlowKey, FlowStats, FlowAggregator, remove_all, evict_oldest_flows, make_room, modify_or_insert,
  update_capacity_flag, record_event, expire_old_flows, is_fresh,
}
use orb.Aggregator.Tasks.{
  Packet, Recorder, Expirer, Shared, Step, with_flows, raised, lowered, begin, hit, miss, full,
  room, collect, evict, evicted, insert, measure, raise, expire, retain, count, remeasure, lower,
}
use orb.Table.{Table}

module _ (T : Table FlowKey FlowStats) where
  -- Which of the two tasks makes a step.
  abbrev pub by_loop : {s t : Shared T} → Step T s t → Bool
  by_loop (expire now e) = false
  by_loop (retain now before e) = false
  by_loop (count before e) = false
  by_loop (remeasure before after e) = false
  by_loop (lower len e) = false
  by_loop _ = true

  -- The steps of one event, or of one expiration, up to its end, without a step of the other task.
  pub data Recording (s : Shared T) : Shared T → Type 0 where
    here : Recording s s
    next :
        {t u : Shared T}
        → Recording s t
        → (step : Step T t u) → by_loop step ≡ true
        → t.recorder ≢ Recorder.idle
        → Recording s u

  pub data Expiring (s : Shared T) : Shared T → Type 0 where
    here : Expiring s s
    next :
        {t u : Shared T}
        → Expiring s t
        → (step : Step T t u) → by_loop step ≡ false
        → t.expirer ≢ Expirer.idle
        → Expiring s u

  abbrev placed : Packet → FlowAggregator T → HealthState → FlowAggregator T × HealthState
  placed p a h =
      let a' = modify_or_insert T p.now p.event p.key a in (a', update_capacity_flag T a' h)

  abbrev evictions : ℕ → HealthState → HealthState
  evictions n h = if ltb 0 n then Health.inc_flow_evictions n h else h

  abbrev evicted_all :
      Packet → T.Map → ℕ → FlowAggregator T → HealthState → FlowAggregator T × HealthState
  evicted_all p left n a h = placed p (with_flows T left a) (evictions n h)

  -- What is left of the operation at each point of it.
  abbrev outcome : Recorder → FlowAggregator T → HealthState → FlowAggregator T × HealthState
  outcome Recorder.idle a h = (a, h)
  outcome (Recorder.looking p) a h = record_event T p.now p.event p.key (T.get a.flows p.key) a h
  outcome (Recorder.checking p) a h = placed p (make_room T a h).0 (make_room T a h).1
  outcome (Recorder.collecting p) a h =
      placed p (evict_oldest_flows T a h).0 (evict_oldest_flows T a h).1
  outcome (Recorder.evicting p es n) a h =
      let (left, gone) = remove_all T es a.flows in evicted_all p left (n + gone) a h
  outcome (Recorder.inserting p) a h = placed p a h
  outcome Recorder.measuring a h = (a, update_capacity_flag T a h)
  outcome (Recorder.raising len) a h = (a, raised T len a h)

  abbrev outcome_of : Shared T → FlowAggregator T × HealthState
  outcome_of s = outcome s.recorder s.aggregator s.health

  -- What is left of an expiration at each point of it.
  abbrev left_over : Expirer → FlowAggregator T → HealthState → FlowAggregator T × HealthState
  left_over Expirer.idle a h = (a, h)
  left_over (Expirer.started now before) a h =
      let a' = with_flows T (T.retain a.flows (is_fresh T now a.flow_timeout)) a in
      (a', lowered T (T.len a'.flows) a' h)
  left_over (Expirer.retained before) a h = (a, lowered T (T.len a.flows) a h)
  left_over (Expirer.counted before after) a h = (a, lowered T (T.len a.flows) a h)
  left_over (Expirer.lowering len) a h = (a, lowered T len a h)

  abbrev left_over_of : Shared T → FlowAggregator T × HealthState
  left_over_of s = left_over s.expirer s.aggregator s.health

  Step-left_over :
      {s t : Shared T} (step : Step T s t)
      → by_loop step ≡ false
      → s.expirer ≢ Expirer.idle
      → left_over_of t ≡ left_over_of s
  Step-left_over (begin p e) other busy = absurd (cc)
  Step-left_over (hit p v e found) other busy = absurd (cc)
  Step-left_over (miss p e absent) other busy = absurd (cc)
  Step-left_over (full p e f) other busy = absurd (cc)
  Step-left_over (room p e f) other busy = absurd (cc)
  Step-left_over (collect p e) other busy = absurd (cc)
  Step-left_over (evict p c es n e) other busy = absurd (cc)
  Step-left_over (evicted p n e) other busy = absurd (cc)
  Step-left_over (insert p e) other busy = absurd (cc)
  Step-left_over (measure e) other busy = absurd (cc)
  Step-left_over (raise len e) other busy = absurd (cc)
  Step-left_over (expire now e) other busy = absurd (busy e)
  Step-left_over (retain now before e) other busy = rw e refl
  Step-left_over (count before e) other busy = rw e refl
  Step-left_over (remeasure before after e) other busy = rw e refl
  Step-left_over (lower len e) other busy = rw e refl

  Expiring-left_over : {s t : Shared T} → Expiring s t → left_over_of t ≡ left_over_of s
  Expiring-left_over here = refl
  Expiring-left_over (next steps step other busy) =
      Step-left_over step other busy ∙ Expiring-left_over steps

  -- So does an expiration: from its first step on, without a step of the loop between, it leaves
  -- exactly what `expire_old_flows` gives.
  pub Expiring-expire_old_flows :
      (now before : ℕ) (s t : Shared T)
      → s.expirer ≡ Expirer.started now before
      → Expiring s t
      → t.expirer ≡ Expirer.idle
      → (t.aggregator ≡ (expire_old_flows T now s.aggregator s.health).0)
        × (t.health ≡ (expire_old_flows T now s.aggregator s.health).1)
  unfolding expire_old_flows
  Expiring-expire_old_flows now before s t entry steps done =
      let both =
        sym (ap (λ x. left_over x t.aggregator t.health) done)
        ∙ (Expiring-left_over steps ∙ ap (λ x. left_over x s.aggregator s.health) entry) in
      (
        ap (λ (y : FlowAggregator T × HealthState). y.0) both,
        ap (λ (y : FlowAggregator T × HealthState). y.1) both,
      )
