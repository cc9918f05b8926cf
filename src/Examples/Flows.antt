-- ===== src/Examples/Flows.antt =====
-- Runs of orb8-agent/src/aggregator.rs: a table of two flows, and packets of three.
use orb.Prelude.{
  ℕ, ◌+◌, ◌≤◌, ◌<◌, ◌≡◌, ◌↔◌, refl, arith, List, [], ◌∷◌, some, none, ltb, is_some, ℕ_discrete,
  mul_u64, ◌^◌,
}
use orb.Prelude.Sort.{sort_by}
use orb.Prelude.Text.{codes, Text, Text-discrete}
use orb.Common.{NetworkFlowEvent}
use orb.Examples.{flow_table, FlowKey-discrete, request, response}
use orb.Health
use orb.Health.{HealthState}
use orb.Aggregator.{
  FlowAggregator, FlowKey, FlowStats, new, flow_key, evict_oldest_flows, evict_count,
  expire_old_flows, candidates, remove_all,
}
use orb.Aggregator.Eviction.{evict_oldest_flows_lem}
use orb.Aggregator.Expiry.{expire_old_flows_lem}
use orb.Aggregator.Refinement.{
  Packet, record_all, packets_of, bytes_of, packets_in, bytes_in, record_all_lem,
}
use orb.Table.Assoc.{assoc}

abbrev prod : Text
prod = codes "prod"

abbrev web_name : Text
web_name = codes "web"

abbrev key : NetworkFlowEvent → FlowKey
key event = flow_key event prod web_name

abbrev stats : ℕ → FlowStats
stats now = record {
  bytes = 100;
  packets = 1;
  first_seen = now;
  last_seen = now;
  first_seen_ns = 1000;
  last_seen_ns = 1000;
}

-- A table with the request, last seen at 50, and the response, last seen at 20.
unfoldable two_flows : FlowAggregator flow_table
unfolding assoc FlowKey-discrete
two_flows = record {
  flows =
      flow_table.insert (flow_table.insert flow_table.empty (key request) (stats 50)) (key response)
        (stats 20);
  events_processed = 2;
  flow_timeout = 40;
  max_flows = 2;
}

response_there : flow_table.get two_flows.flows (key response) ≡ some (stats 20)
unfolding two_flows assoc FlowKey-discrete Text-discrete ℕ_discrete
response_there = refl

response_gone :
    flow_table.get (evict_oldest_flows flow_table two_flows Health.new).0.flows (key response)
    ≡ none
unfolding two_flows assoc FlowKey-discrete Text-discrete ℕ_discrete evict_oldest_flows remove_all
    candidates evict_count sort_by mul_u64
response_gone = refl

request_kept :
    flow_table.get (evict_oldest_flows flow_table two_flows Health.new).0.flows (key request)
    ≡ some (stats 50)
unfolding two_flows assoc FlowKey-discrete Text-discrete ℕ_discrete evict_oldest_flows remove_all
    candidates evict_count sort_by mul_u64
request_kept = refl

evict_oldest_flows_lem_example : 20 ≤ 50
evict_oldest_flows_lem_example =
    evict_oldest_flows_lem flow_table two_flows Health.new (key request) (key response) (stats 20)
      (stats 50) response_there response_gone request_kept

expire_old_flows_lem_example :
    ((flow_table.get (expire_old_flows flow_table 70 two_flows Health.new).0.flows (key request)
        ≡ some (stats 50))
      ↔ ((flow_table.get two_flows.flows (key request) ≡ some (stats 50))
          × (70 < 50 + two_flows.flow_timeout)))
    × (flow_table.len (expire_old_flows flow_table 70 two_flows Health.new).0.flows
          + (expire_old_flows flow_table 70 two_flows Health.new).2
        ≡ flow_table.len two_flows.flows)
expire_old_flows_lem_example =
    expire_old_flows_lem flow_table 70 two_flows Health.new (key request) (stats 50)

abbrev packets : List Packet
packets =
    record { now = 10; event = request; namespace = prod; pod_name = web_name }
    ∷ record { now = 20; event = response; namespace = prod; pod_name = web_name }
    ∷ record { now = 30; event = request; namespace = prod; pod_name = web_name }
    ∷ []

few_bytes : bytes_of flow_table (key request) packets < 2 ^ 64
unfolding assoc FlowKey-discrete Text-discrete ℕ_discrete
few_bytes = omega arith

few_packets : packets_of flow_table (key request) packets < 2 ^ 64
unfolding assoc FlowKey-discrete Text-discrete ℕ_discrete
few_packets = omega arith

record_all_lem_example :
    let found =
      flow_table.get
        (record_all flow_table packets (new flow_table 3 40) Health.new).0.flows
        (key request) in
    (is_some found ≡ ltb 0 (packets_of flow_table (key request) packets))
    × (packets_in found ≡ packets_of flow_table (key request) packets)
    × (bytes_in found ≡ bytes_of flow_table (key request) packets)
record_all_lem_example =
    record_all_lem flow_table packets 3 40 Health.new (key request) (omega arith) few_bytes
      few_packets
