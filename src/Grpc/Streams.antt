-- ===== src/Grpc/Streams.antt =====
-- orb8-agent/src/grpc_server.rs: what a subscriber receives, and what the status tells.
use orb.Prelude.{
  ℕ, ◌≡◌, refl, ap, ◌↔◌, inl, inr, Bool, true, not, ◌||◌, Option, none, some, List, [], ◌∷◌,
  Bool-cases, is_empty, contains, filter,
}
use orb.Prelude.Text.{Text, Text-discrete, codes, starts_with}
use orb.Agent.{NetworkEvent, AgentState}
use orb.Aggregator.{FlowKey, FlowStats}
use orb.Grpc.{stream_item, stream_events, get_status}
use orb.Health.Message.{IsClean, health_message_tells}
use orb.PodCache.{PodMetadata}
use orb.Table.{Table}

-- The events of a channel, without the notices that some were missed.
abbrev pub received : List (Option NetworkEvent) → List NetworkEvent
received [] = []
received (none ∷ results) = received results
received (some event ∷ results) = event ∷ received results

-- The test of the subscription's filter.
abbrev pub is_subscribed : List Text → NetworkEvent → Bool
is_subscribed namespaces event =
    is_empty namespaces || contains Text-discrete namespaces event.namespace

-- A subscriber receives every event of its namespaces that the channel yields, in order, and nothing
-- else: a notice that events were missed neither ends the stream nor shows in it.
pub stream_events-received :
    (namespaces : List Text) (results : List (Option NetworkEvent))
    → stream_events namespaces results ≡ filter (is_subscribed namespaces) (received results)
unfolding stream_events stream_item
stream_events-received namespaces [] = refl
stream_events-received namespaces (none ∷ results) = stream_events-received namespaces results
stream_events-received namespaces (some event ∷ results) =
    elim (Bool-cases (is_subscribed namespaces event)) [
      | inl e ↦ rw (e, stream_events) (ap (◌∷◌ event) (stream_events-received namespaces results))
      | inr e ↦ rw (e, stream_events) (stream_events-received namespaces results)
    ]

-- The status is of one piece: it is healthy exactly if its message does not begin with `UNHEALTHY: `,
-- and the message begins with `OK` exactly if nothing speaks against the agent.
pub get_status-health :
    (F : Table FlowKey FlowStats) (P : Table ℕ PodMetadata) (node_name version : Text) (uptime : ℕ)
    (s : AgentState F P)
    → (starts_with (get_status F P node_name version uptime s).health_message (codes "UNHEALTHY: ")
        ≡ not (get_status F P node_name version uptime s).healthy)
      × ((starts_with (get_status F P node_name version uptime s).health_message (codes "OK")
            ≡ true)
          ↔ IsClean s.health)
unfolding get_status
get_status-health F P node_name version uptime s =
    let tells = health_message_tells s.health in (tells.1, tells.0)
