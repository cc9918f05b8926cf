-- ===== src/Agent/Delivery.antt =====
-- orb8-agent/src/main.rs with orb8-agent/src/grpc_server.rs: what a subscriber receives of a batch.
use orb.Prelude.{
  ℕ, suc, ◌≡◌, refl, sym, ap, ap₂, ◌∙◌, inl, inr, true, List, [], ◌∷◌, ◌++◌, append-nil,
  append_assoc, map, Bool-cases, filter, some,
}
use orb.Prelude.Text.{Text}
use orb.Agent.{
  AgentState, Moment, NetworkEvent, attribute, attribution, broadcast, handle_events, network_event,
  record_flow,
}
use orb.Agent.Accounting.{foreign, handle_event_own, handle_event_foreign}
use orb.Aggregator.{FlowKey, FlowStats}
use orb.Common.{NetworkFlowEvent}
use orb.Grpc.{stream_events}
use orb.Grpc.Streams.{is_subscribed, received, stream_events-received}
use orb.Net.{is_self_traffic}
use orb.PodCache.{PodMetadata, PodCache, get_by_ip}
use orb.Table.{Table}

module _ (F : Table FlowKey FlowStats) (P : Table ℕ PodMetadata) where
  -- The message of an event, by the pods of a cache.
  abbrev pub message_of : PodCache P → NetworkFlowEvent → NetworkEvent
  message_of cache event =
      let names =
        attribute event.direction (get_by_ip P event.src_ip cache)
          (get_by_ip P event.dst_ip cache) in
      network_event event names.0 names.1

  pub record_flow-sent :
      (moment : Moment) (event : NetworkFlowEvent) (names : Text × Text) (s : AgentState F P)
      → moment.has_receivers ≡ true
      → ((record_flow F P moment event names s).sent
          ≡ s.sent ++ network_event event names.0 names.1 ∷ [])
        × ((record_flow F P moment event names s).pod_cache ≡ s.pod_cache)
  unfolding record_flow broadcast
  record_flow-sent moment event names s listening = rw listening (refl, refl)

  module _ (grpc_port : ℕ) (local_ips : List ℕ) (moments : ℕ → Moment)
      (listening : (i : ℕ) → (moments i).has_receivers ≡ true) where
    handle_events-sent :
        (i : ℕ) (events : List NetworkFlowEvent) (s : AgentState F P)
        → (handle_events F P grpc_port local_ips moments i events s).sent
          ≡ s.sent ++ map (message_of s.pod_cache) (foreign grpc_port local_ips events)
    unfolding handle_events
    handle_events-sent i [] s = sym (append-nil s.sent)
    handle_events-sent i (event ∷ events) s =
        let rest : AgentState F P → List NetworkEvent =
          λ t. (handle_events F P grpc_port local_ips moments (suc i) events t).sent in
        elim (Bool-cases (is_self_traffic event grpc_port local_ips)) [
          | inl own ↦
              ap rest (handle_event_own F P grpc_port local_ips (moments i) event s own)
              ∙ rw own (handle_events-sent (suc i) events s)
          | inr other ↦
              let names = attribution F P event s in
              let s' = record_flow F P (moments i) event names s in
              let one = record_flow-sent (moments i) event names s (listening i) in
              ap rest (handle_event_foreign F P grpc_port local_ips (moments i) event s other)
              ∙ rw other (
                  handle_events-sent (suc i) events s'
                  ∙ (ap₂
                        (λ sent cache.
                          sent ++ map (message_of cache) (foreign grpc_port local_ips events))
                        one.0 one.1
                      ∙ append_assoc s.sent (message_of s.pod_cache event ∷ [])
                          (map (message_of s.pod_cache) (foreign grpc_port local_ips events))))
        ]

    received-some : (xs : List NetworkEvent) → received (map some xs) ≡ xs
    received-some [] = refl
    received-some (x ∷ xs) = ap (◌∷◌ x) (received-some xs)

    -- While there are receivers, the loop sends of a batch the messages of exactly the events that
    -- are not the agent's own, in their order, each attributed by the pods of the cache. A
    -- subscriber that the channel yields them all to receives exactly those of its namespaces.
    pub handle_events-received :
        (namespaces : List Text) (events : List NetworkFlowEvent) (s : AgentState F P)
        → let messages = map (message_of s.pod_cache) (foreign grpc_port local_ips events) in
          ((handle_events F P grpc_port local_ips moments 0 events s).sent ≡ s.sent ++ messages)
          × (stream_events namespaces (map some messages)
              ≡ filter (is_subscribed namespaces) messages)
    handle_events-received namespaces events s =
        let messages = map (message_of s.pod_cache) (foreign grpc_port local_ips events) in
        (
          handle_events-sent 0 events s,
          stream_events-received namespaces (map some messages)
              ∙ ap (filter (is_subscribed namespaces)) (received-some messages),
        )
