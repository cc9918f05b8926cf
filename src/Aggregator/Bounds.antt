-- ===== src/Aggregator/Bounds.antt =====
-- orb8-agent/src/aggregator.rs: the size of the table.
use Prim.Native.Nat.{max}
use orb.Prelude.{
  ℕ, suc, ◌≤◌, ◌<◌, ◌≡◌, refl, ◌∙◌, inl, inr, Option, none, some, arith, leb, Bool-cases,
  Option-cases,
}
use orb.Prelude.Text.{Text}
use orb.Common.{NetworkFlowEvent}
use orb.Health.{HealthState}
use orb.Aggregator.{
  FlowKey, FlowStats, FlowAggregator, flow_key, update, evict_count, evict_oldest_flows,
  modify_or_insert, make_room, record_event, process_event,
}
use orb.Aggregator.Eviction.{evict_oldest_flows-count}
use orb.Table.{Table}

module _ (T : Table FlowKey FlowStats) where
  make_room-len :
      (a : FlowAggregator T) (h : HealthState)
      → T.len a.flows ≤ max a.max_flows 1
      → T.len (make_room T a h).0.flows < max a.max_flows 1
  unfolding make_room evict_count
  make_room-len a h bounded = elim (Bool-cases (leb a.max_flows (T.len a.flows))) [
    | inl full ↦ rw full (omega (arith, (evict_oldest_flows-count T a h).0))
    | inr room ↦ rw room (ground arith)
  ]

  make_room-max_flows :
      (a : FlowAggregator T) (h : HealthState) → (make_room T a h).0.max_flows ≡ a.max_flows
  unfolding make_room evict_oldest_flows
  make_room-max_flows a h = ground arith

  pub modify_or_insert-len :
      (now : ℕ) (event : NetworkFlowEvent) (key : FlowKey) (a : FlowAggregator T)
      → T.len (modify_or_insert T now event key a).flows ≤ suc (T.len a.flows)
  unfolding modify_or_insert
  modify_or_insert-len now event key a = elim (Option-cases (T.get a.flows key)) [
    | inl miss ↦ rw (miss, modify_or_insert) (omega (arith, T.len-insert_new a.flows key _ miss))
    | inr (s, hit) ↦
        rw (hit, modify_or_insert) (omega (arith, T.len-insert_old a.flows key _ s hit))
  ]

  pub modify_or_insert-max_flows :
      (now : ℕ) (event : NetworkFlowEvent) (key : FlowKey) (a : FlowAggregator T)
      → (modify_or_insert T now event key a).max_flows ≡ a.max_flows
  unfolding modify_or_insert
  modify_or_insert-max_flows now event key a = ground arith

  record_event-bounded :
      (now : ℕ) (event : NetworkFlowEvent) (key : FlowKey) (o : Option FlowStats)
      (a : FlowAggregator T) (h : HealthState)
      → T.get a.flows key ≡ o
      → T.len a.flows ≤ max a.max_flows 1
      → T.len (record_event T now event key o a h).0.flows
        ≤ max (record_event T now event key o a h).0.max_flows 1
  unfolding record_event
  record_event-bounded now event key (some s) a h e bounded =
      omega
        (arith, T.len-insert_old a.flows key (update now event.timestamp_ns event.packet_len s) s e)
  record_event-bounded now event key none a h e bounded = omega (
    arith,
    make_room-len a h bounded,
    make_room-max_flows a h,
    modify_or_insert-len now event key (make_room T a h).0,
    modify_or_insert-max_flows now event key (make_room T a h).0,
  )

  record_event-max_flows :
      (now : ℕ) (event : NetworkFlowEvent) (key : FlowKey) (o : Option FlowStats)
      (a : FlowAggregator T) (h : HealthState)
      → (record_event T now event key o a h).0.max_flows ≡ a.max_flows
  unfolding record_event
  record_event-max_flows now event key (some s) a h = refl
  record_event-max_flows now event key none a h =
      modify_or_insert-max_flows now event key (make_room T a h).0 ∙ make_room-max_flows a h

  pub process_event-max_flows :
      (now : ℕ) (event : NetworkFlowEvent) (namespace pod_name : Text) (a : FlowAggregator T)
      (h : HealthState)
      → (process_event T now event namespace pod_name a h).0.max_flows ≡ a.max_flows
  unfolding process_event
  process_event-max_flows now event namespace pod_name a h =
      record_event-max_flows now event (flow_key event namespace pod_name)
        (T.get a.flows (flow_key event namespace pod_name)) _ h

  record_event-len :
      (now : ℕ) (event : NetworkFlowEvent) (key : FlowKey) (o : Option FlowStats)
      (a : FlowAggregator T) (h : HealthState)
      → T.get a.flows key ≡ o
      → T.len a.flows < a.max_flows
      → T.len (record_event T now event key o a h).0.flows ≤ suc (T.len a.flows)
  unfolding record_event make_room
  record_event-len now event key (some s) a h e room =
      omega
        (arith, T.len-insert_old a.flows key (update now event.timestamp_ns event.packet_len s) s e)
  record_event-len now event key none a h e room =
      ground (arith, modify_or_insert-len now event key a)

  -- A recorded packet adds at most one flow to a table with room.
  pub process_event-len :
      (now : ℕ) (event : NetworkFlowEvent) (namespace pod_name : Text) (a : FlowAggregator T)
      (h : HealthState)
      → T.len a.flows < a.max_flows
      → T.len (process_event T now event namespace pod_name a h).0.flows ≤ suc (T.len a.flows)
  unfolding process_event
  process_event-len now event namespace pod_name a h room =
      record_event-len now event (flow_key event namespace pod_name)
        (T.get a.flows (flow_key event namespace pod_name)) _ h refl room

  -- The table holds at most `max_flows` flows, or one if the limit is 0, behind each packet.
  pub process_event-bounded :
      (now : ℕ) (event : NetworkFlowEvent) (namespace pod_name : Text) (a : FlowAggregator T)
      (h : HealthState)
      → T.len a.flows ≤ max a.max_flows 1
      → T.len (process_event T now event namespace pod_name a h).0.flows
        ≤ max (process_event T now event namespace pod_name a h).0.max_flows 1
  unfolding process_event
  process_event-bounded now event namespace pod_name a h bounded =
      record_event-bounded now event (flow_key event namespace pod_name) _ _ h refl bounded
