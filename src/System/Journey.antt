-- ===== src/System/Journey.antt =====
-- The whole way of one packet, through orb8-agent/src/k8s_watcher.rs, orb8-probes/src/network_probe.rs
-- and orb8-agent/src/main.rs: its pod is applied, the packet is captured, and the loop polls.
use orb.Prelude.{
  ℕ, ◌≡◌, Bool, true, false, Option, some, List, [], ◌∷◌, ◌++◌, map_option, unwrap_or, add_u64,
}
use orb.Prelude.Text.{Text}
use orb.Agent.{AgentState, network_event}
use orb.Aggregator.{FlowKey, FlowStats, flow_key}
use orb.Aggregator.Refinement.{packets_in, bytes_in}
use orb.Common.{NetworkFlowEvent, ingress, egress}
use orb.PodCache.{PodMetadata}
use orb.Probe.{TcContext}
use orb.Probe.Frame.{Frame}
use orb.ProbeLoader.{read_events_dropped}
use orb.Ring.{RingBuf}
use orb.System.{Move, Reader, State, read_of}
use orb.Table.{Table}
use orb.Watcher

-- A packet that comes in, or one that goes out, and its direction.
abbrev pub passes : Bool → ℕ → TcContext → Move
passes true timestamp_ns ctx = Move.arrive timestamp_ns ctx
passes false timestamp_ns ctx = Move.leave timestamp_ns ctx

abbrev pub direction_of : Bool → ℕ
direction_of true = ingress
direction_of false = egress

module _ (F : Table FlowKey FlowStats) (P : Table ℕ PodMetadata) where
  -- What becomes of an event of a pod: it is counted in a flow of the pod, and sent with its names.
  abbrev pub IsDelivered :
      ℕ → NetworkFlowEvent → Text → Text → AgentState F P → AgentState F P → Type 0
  IsDelivered now event namespace pod_name before after =
      let key = flow_key event namespace pod_name in
      let old = F.get before.aggregator.flows key in
      ((v : FlowStats) × (F.get after.aggregator.flows key ≡ some v)
        × (v.packets ≡ add_u64 (packets_in old) 1)
        × (v.bytes ≡ add_u64 (bytes_in old) event.packet_len)
        × (v.last_seen ≡ now))
      × (after.sent ≡ before.sent ++ network_event event namespace pod_name ∷ [])

  module _ (R : RingBuf) (resolve : Text → Text → Option ℕ) (grpc_port : ℕ) (local_ips : List ℕ)
      (max_batch_size : ℕ) where
    -- The state of the agent once it has read the drop counter.
    abbrev counted : Reader → State F P R → AgentState F P
    counted reader s = record s.agent {
      events_dropped =
          unwrap_or (map_option read_events_dropped (read_of reader s.maps.events_dropped))
            s.agent.events_dropped;
    }
