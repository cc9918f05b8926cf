-- ===== src/Agent/Attribution.antt =====
-- orb8-agent/src/main.rs: which pod an event is attributed to, and where it is recorded.
use orb.Prelude.{
  ℕ, ◌≡◌, inl, inr, false, none, some, List, arith, if◌then◌else◌, ◌==◌, Bool-cases, map_option,
  unwrap_or, or_else,
}
use orb.Prelude.Text.{Text}
use orb.Common.{NetworkFlowEvent, ingress}
use orb.Net.{is_self_traffic}
use orb.Agent.{
  AgentState, Moment, attribute, names_of, unknown_pod, broadcast, record_flow, handle_event,
  attribution,
}
use orb.Agent.Accounting.{handle_event_foreign}
use orb.Aggregator.{FlowKey, FlowStats, flow_key, process_event}
use orb.Aggregator.Recording.{count_packet, process_event-get_self}
use orb.PodCache.{PodMetadata, get_by_ip}
use orb.Table.{Table}

-- The address at the near end of a packet: where it arrives if it comes in, else where it is from.
abbrev pub near_ip : NetworkFlowEvent → ℕ
near_ip event = if event.direction == ingress then event.dst_ip else event.src_ip

abbrev pub far_ip : NetworkFlowEvent → ℕ
far_ip event = if event.direction == ingress then event.src_ip else event.dst_ip

module _ (F : Table FlowKey FlowStats) (P : Table ℕ PodMetadata) where
  -- The near end decides; the far end is asked only if no pod is known there.
  attribution_ends :
      (event : NetworkFlowEvent) (s : AgentState F P)
      → attribution F P event s
        ≡ unwrap_or
            (or_else
              (map_option names_of (get_by_ip P (near_ip event) s.pod_cache))
              (map_option names_of (get_by_ip P (far_ip event) s.pod_cache)))
            unknown_pod
  unfolding attribute
  attribution_ends event s = elim (Bool-cases (event.direction == ingress)) [
    | inl e ↦ rw e
    | inr e ↦ rw e
  ]

  -- A pod that is known at the near end is the one that counts, whatever is known of the far end.
  pub attribution_near :
      (m : PodMetadata) (event : NetworkFlowEvent) (s : AgentState F P)
      → get_by_ip P (near_ip event) s.pod_cache ≡ some m
      → attribution F P event s ≡ names_of m
  attribution_near m event s found = rw (attribution_ends event s, found)

  -- With no pod known at either end the packet counts as external.
  pub attribution_unknown :
      (event : NetworkFlowEvent) (s : AgentState F P)
      → get_by_ip P event.src_ip s.pod_cache ≡ none
      → get_by_ip P event.dst_ip s.pod_cache ≡ none
      → attribution F P event s ≡ unknown_pod
  unfolding attribute
  attribution_unknown event s src dst = ground arith

  record_flow-aggregator :
      (moment : Moment) (event : NetworkFlowEvent) (names : Text × Text) (s : AgentState F P)
      → (record_flow F P moment event names s).aggregator
        ≡ (process_event F moment.now event names.0 names.1 s.aggregator s.health).0
  unfolding record_flow broadcast
  record_flow-aggregator moment event names s = ground arith

  -- An event that is not the agent's own is counted in the flow of the pod that it is attributed to.
  pub handle_event-recorded :
      (grpc_port : ℕ) (local_ips : List ℕ) (moment : Moment) (event : NetworkFlowEvent)
      (s : AgentState F P)
      → is_self_traffic event grpc_port local_ips ≡ false
      → let names = attribution F P event s in
        let key = flow_key event names.0 names.1 in
        F.get (handle_event F P grpc_port local_ips moment event s).aggregator.flows key
        ≡ some (count_packet moment.now event (F.get s.aggregator.flows key))
  handle_event-recorded grpc_port local_ips moment event s other =
      let names = attribution F P event s in
      rw
        (
          handle_event_foreign F P grpc_port local_ips moment event s other,
          record_flow-aggregator moment event names s,
        )
        (process_event-get_self F moment.now event names.0 names.1 s.aggregator s.health)
