-- ===== src/Grpc.antt =====
-- orb8-agent/src/grpc_server.rs: the three calls of the agent's service.
pub mod Queries
pub mod Streams
pub mod Service
use orb.Prelude.{
  ℕ, suc, ◌+◌, ◌%◌, ◌<◌, Bool, true, false, ◌||◌, Option, none, some, List, [], ◌∷◌, map,
  if◌then◌else◌, ltb, leb, ◌==◌, is_empty, contains, take, filter, u32_mod, ℤ, as_i64,
}
use orb.Prelude.Sort.{sort_by}
use orb.Prelude.Text.{Text, Text-discrete}
use orb.Agent.{NetworkEvent, AgentState}
use orb.Aggregator.{FlowKey, FlowStats, FlowAggregator, get_flows, active_flow_count}
use orb.Health.{is_healthy, health_message}
use orb.Net.{format_ipv4, format_protocol, format_direction}
use orb.PodCache.{PodMetadata, ip_entries_count}
use orb.Table.{Table}

-- The messages of orb8-proto/proto/orb8.proto.
pub record QueryFlowsRequest : Type 0 where
  pub namespaces : List Text
  pub pod_names : List Text
  pub limit : ℕ

pub record NetworkFlow : Type 0 where
  pub namespace : Text
  pub pod_name : Text
  pub src_ip : Text
  pub dst_ip : Text
  pub src_port : ℕ
  pub dst_port : ℕ
  pub protocol : Text
  pub direction : Text
  pub bytes : ℕ
  pub packets : ℕ
  pub first_seen_ns : ℤ
  pub last_seen_ns : ℤ

pub record AgentStatus : Type 0 where
  pub node_name : Text
  pub version : Text
  pub healthy : Bool
  pub health_message : Text
  pub events_processed : ℕ
  pub events_dropped : ℕ
  pub pods_tracked : ℕ
  pub active_flows : ℕ
  pub uptime_seconds : ℤ

abbrev pub effective_limit : ℕ → ℕ → ℕ
effective_limit max_query_limit limit =
    if limit == 0 || ltb max_query_limit limit then max_query_limit else limit

abbrev pub network_flow : FlowKey × FlowStats → NetworkFlow
network_flow e =
    let key = e.0 in
    let stats = e.1 in
    record {
      namespace = key.namespace;
      pod_name = key.pod_name;
      src_ip = format_ipv4 key.src_ip;
      dst_ip = format_ipv4 key.dst_ip;
      src_port = key.src_port;
      dst_port = key.dst_port;
      protocol = format_protocol key.protocol;
      direction = format_direction key.direction;
      bytes = stats.bytes;
      packets = stats.packets;
      first_seen_ns = as_i64 stats.first_seen_ns;
      last_seen_ns = as_i64 stats.last_seen_ns;
    }

-- `|a, b| b.bytes.cmp(&a.bytes)`
abbrev pub by_bytes : NetworkFlow → NetworkFlow → Bool
by_bytes a b = leb b.bytes a.bytes

abbrev pub wants_pod : QueryFlowsRequest → FlowKey × FlowStats → Bool
wants_pod req e = is_empty req.pod_names || contains Text-discrete req.pod_names (e.0).pod_name

-- The filter of `stream_events`; a lagging receiver's error is left out as well.
unfoldable pub stream_item : List Text → Option NetworkEvent → Option NetworkEvent
stream_item namespaces none = none
stream_item namespaces (some event) =
    if is_empty namespaces || contains Text-discrete namespaces event.namespace
    then some event
    else none

-- What a subscriber receives of the results that its receiver yields.
unfoldable pub stream_events : List Text → List (Option NetworkEvent) → List NetworkEvent
stream_events namespaces [] = []
stream_events namespaces (result ∷ results) = elim (stream_item namespaces result) [
  | none ↦ stream_events namespaces results
  | some event ↦ event ∷ stream_events namespaces results
]

module _ (F : Table FlowKey FlowStats) (P : Table ℕ PodMetadata) where
  -- The flows that a request asks for, before they are sorted and cut.
  unfoldable pub selected_flows : QueryFlowsRequest → FlowAggregator F → List NetworkFlow
  selected_flows req aggregator =
      map network_flow (filter (wants_pod req) (get_flows F req.namespaces aggregator))

  unfoldable pub query_flows : ℕ → QueryFlowsRequest → FlowAggregator F → List NetworkFlow
  query_flows max_query_limit req aggregator =
      take (effective_limit max_query_limit req.limit)
        (sort_by by_bytes (selected_flows req aggregator))

  -- The counts are cut to 32 bits.
  unfoldable pub get_status : Text → Text → ℕ → AgentState F P → AgentStatus
  get_status node_name version uptime s = record {
    node_name = node_name;
    version = version;
    healthy = is_healthy s.health;
    health_message = health_message s.health;
    events_processed = s.aggregator.events_processed;
    events_dropped = s.events_dropped;
    pods_tracked = ip_entries_count P s.pod_cache % u32_mod;
    active_flows = active_flow_count F s.aggregator % u32_mod;
    uptime_seconds = as_i64 uptime;
  }
