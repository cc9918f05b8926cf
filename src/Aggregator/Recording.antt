-- ===== src/Aggregator/Recording.antt =====
-- orb8-agent/src/aggregator.rs: what `process_event` records.
use orb.Prelude.{
  ℕ, ◌<◌, ◌≡◌, ◌≢◌, refl, inl, inr, Option, none, some, arith, leb, Bool-cases, Option-cases, ite,
  add_u64,
}
use orb.Prelude.Text.{Text}
use orb.Common.{NetworkFlowEvent}
use orb.Health.{HealthState}
use orb.Aggregator.{
  FlowKey, FlowStats, FlowAggregator, flow_key, new_stats, update, modify_or_insert, make_room,
  record_event, process_event,
}
use orb.Aggregator.Eviction.{get-evict_none}
use orb.Table.{Table}

-- The statistics of a flow after one more packet.
abbrev pub count_packet : ℕ → NetworkFlowEvent → Option FlowStats → FlowStats
count_packet now event none = new_stats now event.timestamp_ns event.packet_len
count_packet now event (some s) = update now event.timestamp_ns event.packet_len s

module _ (T : Table FlowKey FlowStats) where
  modify_or_insert-get :
      (now : ℕ) (event : NetworkFlowEvent) (key : FlowKey) (a : FlowAggregator T) (j : FlowKey)
      → T.get (modify_or_insert T now event key a).flows j
        ≡ ite (T.dec key j) (some (count_packet now event (T.get a.flows key))) (T.get a.flows j)
  unfolding modify_or_insert
  modify_or_insert-get now event key a j = elim (Option-cases (T.get a.flows key)) [
    | inl miss ↦ rw (miss, modify_or_insert) (T.get-insert a.flows key _ j)
    | inr (s, hit) ↦ rw (hit, modify_or_insert) (T.get-insert a.flows key _ j)
  ]

  -- A flow that is not there is not brought back by eviction.
  make_room-get_none :
      (a : FlowAggregator T) (h : HealthState) (k : FlowKey)
      → T.get a.flows k ≡ none
      → T.get (make_room T a h).0.flows k ≡ none
  unfolding make_room
  make_room-get_none a h k miss = elim (Bool-cases (leb a.max_flows (T.len a.flows))) [
    | inl full ↦ rw full (get-evict_none T a h k miss)
    | inr room ↦ rw room miss
  ]

  record_event-get_self :
      (now : ℕ) (event : NetworkFlowEvent) (key : FlowKey) (o : Option FlowStats)
      (a : FlowAggregator T) (h : HealthState)
      → T.get a.flows key ≡ o
      → T.get (record_event T now event key o a h).0.flows key ≡ some (count_packet now event o)
  unfolding record_event
  record_event-get_self now event key (some s) a h e =
      ground
        (arith, T.get-insert a.flows key (update now event.timestamp_ns event.packet_len s) key)
  record_event-get_self now event key none a h e = ground (
    arith,
    modify_or_insert-get now event key (make_room T a h).0 key,
    make_room-get_none a h key e,
  )

  -- The packet is counted in the flow of its key, on every branch: also where the table is full and
  -- a flow has to go, since the flow that the packet belongs to is not among those that go.
  pub process_event-get_self :
      (now : ℕ) (event : NetworkFlowEvent) (namespace pod_name : Text) (a : FlowAggregator T)
      (h : HealthState)
      → T.get
          (process_event T now event namespace pod_name a h).0.flows
          (flow_key event namespace pod_name)
        ≡ some (count_packet now event (T.get a.flows (flow_key event namespace pod_name)))
  unfolding process_event
  process_event-get_self now event namespace pod_name a h =
      record_event-get_self now event (flow_key event namespace pod_name) _
        (record a { events_processed = add_u64 a.events_processed 1 }) h refl

  record_event-get_ne :
      (now : ℕ) (event : NetworkFlowEvent) (key : FlowKey) (o : Option FlowStats)
      (a : FlowAggregator T) (h : HealthState) (j : FlowKey)
      → key ≢ j
      → T.len a.flows < a.max_flows
      → T.get (record_event T now event key o a h).0.flows j ≡ T.get a.flows j
  unfolding record_event make_room
  record_event-get_ne now event key (some s) a h j other room =
      ground (arith, T.get-insert a.flows key (update now event.timestamp_ns event.packet_len s) j)
  record_event-get_ne now event key none a h j other room =
      ground (arith, modify_or_insert-get now event key a j)

  -- While the table has room no other flow changes.
  pub process_event-get_ne :
      (now : ℕ) (event : NetworkFlowEvent) (namespace pod_name : Text) (a : FlowAggregator T)
      (h : HealthState) (j : FlowKey)
      → flow_key event namespace pod_name ≢ j
      → T.len a.flows < a.max_flows
      → T.get (process_event T now event namespace pod_name a h).0.flows j ≡ T.get a.flows j
  unfolding process_event
  process_event-get_ne now event namespace pod_name a h j other room =
      record_event-get_ne now event (flow_key event namespace pod_name) _
        (record a { events_processed = add_u64 a.events_processed 1 }) h j other room
