-- ===== src/Agent.antt =====
-- orb8-agent/src/main.rs: the loop that polls the probes, attributes each event to a pod, records it
-- and broadcasts it.
pub mod Attribution
pub mod Accounting
pub mod Pipeline
pub mod Delivery
use orb.Prelude.{
  ℕ, suc, ◌+◌, Bool, true, false, Option, none, some, List, [], ◌∷◌, ◌++◌, if◌then◌else◌, ◌==◌, ℤ,
  as_i64, unwrap_or, or_else, map_option,
}
use orb.Prelude.Text.{Text, codes}
use orb.Common.{NetworkFlowEvent, ingress}
use orb.Health
use orb.Health.{HealthState}
use orb.Net.{format_ipv4, format_protocol, format_direction, is_self_traffic}
use orb.Aggregator.{FlowKey, FlowStats, FlowAggregator, process_event}
use orb.PodCache.{PodMetadata, PodCache, get_by_ip}
use orb.ProbeLoader.{poll_events, read_events_dropped}
use orb.Ring.{RingBuf}
use orb.Table.{Table}

-- The message of orb8-proto/proto/orb8.proto that subscribers receive.
pub record NetworkEvent : Type 0 where
  pub namespace : Text
  pub pod_name : Text
  pub src_ip : Text
  pub dst_ip : Text
  pub src_port : ℕ
  pub dst_port : ℕ
  pub protocol : Text
  pub direction : Text
  pub bytes : ℕ
  pub timestamp_ns : ℤ

-- `|p| (p.namespace, p.pod_name)`
abbrev pub names_of : PodMetadata → Text × Text
names_of p = (p.namespace, p.pod_name)

abbrev pub unknown_pod : Text × Text
unknown_pod = (codes "external", codes "unknown")

-- Namespace and name of the pod that an event is attributed to, from the pods at its two ends.
unfoldable pub attribute : ℕ → Option PodMetadata → Option PodMetadata → Text × Text
attribute direction src_pod dst_pod =
    if direction == ingress
    then unwrap_or (or_else (map_option names_of dst_pod) (map_option names_of src_pod)) unknown_pod
    else unwrap_or (or_else (map_option names_of src_pod) (map_option names_of dst_pod)) unknown_pod

abbrev pub network_event : NetworkFlowEvent → Text → Text → NetworkEvent
network_event event namespace pod_name = record {
  namespace = namespace;
  pod_name = pod_name;
  src_ip = format_ipv4 event.src_ip;
  dst_ip = format_ipv4 event.dst_ip;
  src_port = event.src_port;
  dst_port = event.dst_port;
  protocol = format_protocol event.protocol;
  direction = format_direction event.direction;
  bytes = event.packet_len;
  timestamp_ns = as_i64 event.timestamp_ns;
}

-- What the environment decides while an event is handled: the time, and whether the broadcast channel
-- of the crate `tokio` has a receiver, without which `send` fails.
pub record Moment : Type 0 where
  pub now : ℕ
  pub has_receivers : Bool

module _ (F : Table FlowKey FlowStats) (P : Table ℕ PodMetadata) where
  -- The state that the loop shares with the other tasks, and the messages that were sent.
  pub record AgentState : Type 0 where
    pub aggregator : FlowAggregator F
    pub pod_cache : PodCache P
    pub health : HealthState
    pub events_dropped : ℕ
    pub sent : List NetworkEvent

  -- `if event_tx.send(network_event).is_err() { health.inc_broadcast_drops() }`
  unfoldable pub broadcast : Bool → NetworkEvent → AgentState → AgentState
  broadcast has_receivers message s =
      if has_receivers
      then record s { sent = s.sent ++ message ∷ [] }
      else record s { health = Health.inc_broadcast_drops s.health }

  abbrev pub attribution : NetworkFlowEvent → AgentState → Text × Text
  attribution event s =
      attribute event.direction (get_by_ip P event.src_ip s.pod_cache)
        (get_by_ip P event.dst_ip s.pod_cache)

  -- An event that is not the agent's own.
  unfoldable pub record_flow : Moment → NetworkFlowEvent → Text × Text → AgentState → AgentState
  record_flow moment event names s =
      let (aggregator, health) =
        process_event F moment.now event names.0 names.1 s.aggregator s.health in
      broadcast moment.has_receivers (network_event event names.0 names.1)
        (record s { aggregator = aggregator; health = health })

  module _ (grpc_port : ℕ) (local_ips : List ℕ) where
    -- The body of `for event in events`.
    unfoldable pub handle_event : Moment → NetworkFlowEvent → AgentState → AgentState
    handle_event moment event s =
        if is_self_traffic event grpc_port local_ips
        then s
        else record_flow moment event (attribution event s) s

    -- `moments` gives the environment for each event of the batch.
    unfoldable pub handle_events :
        (ℕ → Moment) → ℕ → List NetworkFlowEvent → AgentState → AgentState
    handle_events moments i [] s = s
    handle_events moments i (event ∷ events) s =
        handle_events moments (suc i) events (handle_event (moments i) event s)

    -- One round of the main loop. `dropped` is the value of the map EVENTS_DROPPED, if the agent has
    -- a reader of the map (the first `Option`) and the read succeeds (the second).
    unfoldable pub poll_round :
        (R : RingBuf)
        → ℕ
        → (ℕ → Moment)
        → Option (Option ℕ)
        → R.Ring
        → AgentState
        → AgentState × R.Ring
    poll_round R max_batch_size moments dropped ring s =
        let (events, ring') = poll_events R max_batch_size ring in
        let s' : AgentState = record s {
          events_dropped = unwrap_or (map_option read_events_dropped dropped) s.events_dropped;
        } in
        (handle_events moments 0 events s', ring')
