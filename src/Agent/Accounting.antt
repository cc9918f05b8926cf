-- ===== src/Agent/Accounting.antt =====
-- orb8-agent/src/main.rs: each event of a batch is counted, and either sent or counted as not sent.
use orb.Prelude.{
  ℕ, suc, ◌+◌, ◌≤◌, ◌<◌, ◌≡◌, refl, ◌∙◌, inl, inr, true, false, not, Option, none, some, List, [],
  ◌∷◌, arith, add_u64, add_u64_exact, u64_mod, Bool-cases, length, length-append, filter,
}
use orb.Prelude.Text.{Text}
use orb.Common.{NetworkFlowEvent}
use orb.Health.{HealthState, inc_broadcast_drops, inc_flow_evictions, set_flow_table_at_capacity}
use orb.Net.{is_self_traffic}
use orb.Agent.{
  AgentState, Moment, broadcast, record_flow, handle_event, handle_events, attribution,
  network_event,
}
use orb.Aggregator.{
  FlowKey, FlowStats, FlowAggregator, flow_key, process_event, record_event, make_room,
  modify_or_insert, update_capacity_flag, evict_oldest_flows,
}
use orb.PodCache.{PodMetadata}
use orb.Table.{Table}

module _ (F : Table FlowKey FlowStats) where
  make_room-counters :
      (a : FlowAggregator F) (h : HealthState)
      → ((make_room F a h).0.events_processed ≡ a.events_processed)
        × ((make_room F a h).1.broadcast_drops ≡ h.broadcast_drops)
  unfolding make_room evict_oldest_flows inc_flow_evictions
  make_room-counters a h = ground arith

  modify_or_insert-counters :
      (now : ℕ) (event : NetworkFlowEvent) (key : FlowKey) (a : FlowAggregator F)
      → (modify_or_insert F now event key a).events_processed ≡ a.events_processed
  unfolding modify_or_insert
  modify_or_insert-counters now event key a = ground arith

  update_capacity_flag-counters :
      (a : FlowAggregator F) (h : HealthState)
      → (update_capacity_flag F a h).broadcast_drops ≡ h.broadcast_drops
  unfolding update_capacity_flag set_flow_table_at_capacity
  update_capacity_flag-counters a h = ground arith

  record_event-counters :
      (now : ℕ) (event : NetworkFlowEvent) (key : FlowKey) (o : Option FlowStats)
      (a : FlowAggregator F) (h : HealthState)
      → ((record_event F now event key o a h).0.events_processed ≡ a.events_processed)
        × ((record_event F now event key o a h).1.broadcast_drops ≡ h.broadcast_drops)
  unfolding record_event
  record_event-counters now event key (some s) a h = (refl, update_capacity_flag-counters _ h)
  record_event-counters now event key none a h = (
    modify_or_insert-counters now event key (make_room F a h).0 ∙ (make_room-counters a h).0,
    update_capacity_flag-counters _ (make_room F a h).1 ∙ (make_room-counters a h).1,
  )

  -- Recording an event counts it, and leaves the counter of the broadcasts alone.
  pub process_event-counters :
      (now : ℕ) (event : NetworkFlowEvent) (namespace pod_name : Text) (a : FlowAggregator F)
      (h : HealthState)
      → ((process_event F now event namespace pod_name a h).0.events_processed
          ≡ add_u64 a.events_processed 1)
        × ((process_event F now event namespace pod_name a h).1.broadcast_drops ≡ h.broadcast_drops)
  unfolding process_event
  process_event-counters now event namespace pod_name a h =
      record_event-counters now event (flow_key event namespace pod_name) _
        (record a { events_processed = add_u64 a.events_processed 1 }) h

-- The events that are not the agent's own.
abbrev pub foreign : ℕ → List ℕ → List NetworkFlowEvent → List NetworkFlowEvent
foreign grpc_port local_ips = filter (λ event. not (is_self_traffic event grpc_port local_ips))

module _ (F : Table FlowKey FlowStats) (P : Table ℕ PodMetadata) where
  -- How many messages were sent, and how many were counted as not sent.
  abbrev pub delivered : AgentState F P → ℕ
  delivered s = length s.sent + s.health.broadcast_drops

  record_flow-counters :
      (moment : Moment) (event : NetworkFlowEvent) (names : Text × Text) (s : AgentState F P)
      → s.aggregator.events_processed + 1 < u64_mod
      → s.health.broadcast_drops + 1 < u64_mod
      → let t = record_flow F P moment event names s in
        (t.aggregator.events_processed ≡ s.aggregator.events_processed + 1)
        × (delivered t ≡ delivered s + 1)
        × (t.health.broadcast_drops ≤ s.health.broadcast_drops + 1)
  unfolding record_flow broadcast inc_broadcast_drops
  record_flow-counters moment event names s room room' =
      let counters =
        process_event-counters F moment.now event names.0 names.1 s.aggregator s.health in
      let counted = add_u64_exact s.aggregator.events_processed 1 room in
      elim (Bool-cases moment.has_receivers) [
        | inl heard ↦ rw heard (
          counters.0 ∙ counted,
          omega (
            arith,
            counters.1,
            length-append {0} s.sent (network_event event names.0 names.1 ∷ []),
          ),
          omega (arith, counters.1),
        )
        | inr unheard ↦
            rw unheard (counters.0 ∙ counted, omega (arith, counters.1), omega (arith, counters.1))
      ]

  module _ (grpc_port : ℕ) (local_ips : List ℕ) where
    pub handle_event_own :
        (moment : Moment) (event : NetworkFlowEvent) (s : AgentState F P)
        → is_self_traffic event grpc_port local_ips ≡ true
        → handle_event F P grpc_port local_ips moment event s ≡ s
    unfolding handle_event
    handle_event_own moment event s own = rw own

    pub handle_event_foreign :
        (moment : Moment) (event : NetworkFlowEvent) (s : AgentState F P)
        → is_self_traffic event grpc_port local_ips ≡ false
        → handle_event F P grpc_port local_ips moment event s
          ≡ record_flow F P moment event (attribution F P event s) s
    unfolding handle_event
    handle_event_foreign moment event s other = rw other

    handle_events_cons :
        (moments : ℕ → Moment) (i : ℕ) (event : NetworkFlowEvent) (events : List NetworkFlowEvent)
        (s : AgentState F P)
        → handle_events F P grpc_port local_ips moments i (event ∷ events) s
          ≡ handle_events F P grpc_port local_ips moments
              (suc i)
              events
              (handle_event F P grpc_port local_ips (moments i) event s)
    unfolding handle_events
    handle_events_cons moments i event events s = refl

    -- Every event of a batch that is not the agent's own is counted as processed once, and is either
    -- sent to the subscribers or counted as not sent; the agent's own events leave no trace in these
    -- counts. Neither counter may reach 2^64.
    pub handle_events_lem :
        (moments : ℕ → Moment) (i : ℕ) (events : List NetworkFlowEvent) (s : AgentState F P)
        → s.aggregator.events_processed + length (foreign grpc_port local_ips events) < u64_mod
        → s.health.broadcast_drops + length (foreign grpc_port local_ips events) < u64_mod
        → ((handle_events F P grpc_port local_ips moments i events s).aggregator.events_processed
            ≡ s.aggregator.events_processed + length (foreign grpc_port local_ips events))
          × (delivered (handle_events F P grpc_port local_ips moments i events s)
              ≡ delivered s + length (foreign grpc_port local_ips events))
    unfolding handle_events
    handle_events_lem moments i [] s room room' = (omega arith, omega arith)
    handle_events_lem moments i (event ∷ events) s room room' =
        elim (Bool-cases (is_self_traffic event grpc_port local_ips)) [
          | inl own ↦
              let rest = handle_events_lem moments (suc i) events s (ground arith) (ground arith) in
              rw
                (
                  handle_events_cons moments i event events s,
                  handle_event_own (moments i) event s own,
                  own,
                )
                (rest.0, rest.1)
          | inr other ↦
              let names = attribution F P event s in
              let t : AgentState F P = record_flow F P (moments i) event names s in
              let step =
                record_flow-counters (moments i) event names s (ground arith) (ground arith) in
              let rest =
                handle_events_lem moments (suc i) events t (ground (arith, step.0))
                  (ground (arith, step.2)) in
              rw
                (
                  handle_events_cons moments i event events s,
                  handle_event_foreign (moments i) event s other,
                  other,
                )
                (omega (arith, rest.0, step.0), omega (arith, rest.1, step.1))
        ]
