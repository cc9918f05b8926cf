-- ===== src/Examples/Rounds.antt =====
-- Runs of orb8-agent/src/main.rs and orb8-agent/src/grpc_server.rs: one round of the loop, and the
-- calls of the service on the state behind it.
use Prim.Native.Nat.{min}
use orb.Prelude.{
  map, ℕ, ◌+◌, ◌≤◌, ◌<◌, ◌≡◌, ◌↔◌, refl, arith, true, false, List, [], ◌∷◌, ◌++◌, some, none, Mem,
  Perm, All, filter, length, ◌^◌,
}
use orb.Prelude.Text.{codes}
use orb.Agent.{AgentState, Moment, handle_events}
use orb.Agent.Accounting.{delivered, foreign, handle_events_lem}
use orb.Agent.Delivery.{message_of, handle_events-received}
use orb.Aggregator
use orb.Aggregator.{flow_key, FlowKey, FlowStats}
use orb.Aggregator.Recording.{count_packet}
use orb.Examples.{flow_table, pod_table, db_ip, request, response}
use orb.Grpc.{
  QueryFlowsRequest, NetworkFlow, query_flows, selected_flows, network_flow, stream_events,
}
use orb.Grpc.Queries.{granted, Wanted, query_flows_lem, selected_flows_lem}
use orb.Grpc.Streams.{is_subscribed}
use orb.Health
use orb.Net.{is_self_traffic}
use orb.PodCache
use orb.PodCache.{insert_by_ip}

abbrev start : AgentState flow_table pod_table
start = record {
  aggregator = Aggregator.new flow_table 100 40;
  pod_cache = PodCache.new pod_table 10;
  health = Health.new;
  events_dropped = 0;
  sent = [];
}

abbrev moments : ℕ → Moment
moments i = record { now = 1000 + i; has_receivers = true }

-- The agent listens on port 9090 of 10.0.0.2, and has no part in this traffic.
not_own : is_self_traffic request 9090 (db_ip ∷ []) ≡ false
unfolding is_self_traffic
not_own = refl

few_events : 0 + length (foreign 9090 (db_ip ∷ []) (request ∷ response ∷ [])) < 2 ^ 64
unfolding is_self_traffic
few_events = omega arith

handle_events_lem_example :
    ((handle_events flow_table pod_table 9090
        (db_ip ∷ [])
        moments
        0
        (request ∷ response ∷ [])
        start).aggregator.events_processed
      ≡ 0 + length (foreign 9090 (db_ip ∷ []) (request ∷ response ∷ [])))
    × (delivered flow_table pod_table (
          handle_events flow_table pod_table 9090
            (db_ip ∷ [])
            moments
            0
            (request ∷ response ∷ [])
            start)
        ≡ delivered flow_table pod_table start
          + length (foreign 9090 (db_ip ∷ []) (request ∷ response ∷ [])))
unfolding Aggregator.new
handle_events_lem_example =
    handle_events_lem flow_table pod_table 9090 (db_ip ∷ []) moments 0 (request ∷ response ∷ [])
      start few_events few_events

-- The state after the two packets.
unfoldable busy : AgentState flow_table pod_table
busy =
    handle_events flow_table pod_table 9090 (db_ip ∷ []) moments 0 (request ∷ response ∷ []) start

abbrev ask : QueryFlowsRequest
ask = record { namespaces = codes "external" ∷ []; pod_names = []; limit = 1 }

query_flows_lem_example :
    (left_out : List NetworkFlow) × Perm
      (query_flows flow_table pod_table 1000 ask busy.aggregator ++ left_out)
      (selected_flows flow_table pod_table ask busy.aggregator)
    × All
        (λ x. All (λ y. y.bytes ≤ x.bytes) left_out)
        (query_flows flow_table pod_table 1000 ask busy.aggregator)
    × (length (query_flows flow_table pod_table 1000 ask busy.aggregator)
        ≡ min (granted 1000 1) (length (selected_flows flow_table pod_table ask busy.aggregator)))
    × (length (query_flows flow_table pod_table 1000 ask busy.aggregator) ≤ 1000)
query_flows_lem_example = query_flows_lem flow_table pod_table 1000 ask busy.aggregator

abbrev answer : NetworkFlow
answer =
    network_flow
      (flow_key request (codes "external") (codes "unknown"), count_packet 1000 request none)

selected_flows_lem_example :
    Mem answer (selected_flows flow_table pod_table ask busy.aggregator)
    ↔ ∥ (
        (k : FlowKey) × (v : FlowStats) × (flow_table.get busy.aggregator.flows k ≡ some v)
        × ∥ Wanted ask.namespaces k.namespace ∥₁
        × ∥ Wanted ask.pod_names k.pod_name ∥₁
        × (network_flow (k, v) ≡ answer)) ∥₁
selected_flows_lem_example = selected_flows_lem flow_table pod_table ask busy.aggregator answer

handle_events-received_example :
    let events = request ∷ response ∷ [] in
    let messages =
      map (message_of flow_table pod_table start.pod_cache) (foreign 9090 (db_ip ∷ []) events) in
    ((handle_events flow_table pod_table 9090 (db_ip ∷ []) moments 0 events start).sent
      ≡ start.sent ++ messages)
    × (stream_events (codes "external" ∷ []) (map some messages)
        ≡ filter (is_subscribed (codes "external" ∷ [])) messages)
handle_events-received_example =
    handle_events-received flow_table pod_table 9090 (db_ip ∷ []) moments (λ i. refl)
      (codes "external" ∷ []) (request ∷ response ∷ []) start
