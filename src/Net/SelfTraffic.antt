-- ===== src/Net/SelfTraffic.antt =====
-- orb8-agent/src/net.rs: which events the filter on the agent's own traffic drops.
use mathlib.Core.Logic.Or
use orb.Prelude.{
  ℕ, ◌≡◌, refl, ◌≢◌, ◌↔◌, inl, inr, true, ◌&&◌, List, [], ◌∷◌, arith, Mem, contains, contains_iff,
  ℕ_discrete, ◌==◌, Bool-cases,
}
use orb.Common.{NetworkFlowEvent}
use orb.Net.{is_self_traffic}

-- An endpoint of the agent itself: its port, at an address of the host.
pub data IsAgentEnd (event : NetworkFlowEvent) (grpc_port : ℕ) (local_ips : List ℕ) : Type 0 where
  sends :
      event.src_port ≡ grpc_port → Mem event.src_ip local_ips → IsAgentEnd event grpc_port local_ips
  receives :
      event.dst_port ≡ grpc_port → Mem event.dst_ip local_ips → IsAgentEnd event grpc_port local_ips

-- With the addresses of the host known, an event is dropped exactly if the agent itself is one of
-- its two ends: the port alone does not suffice.
pub is_self_traffic_iff :
    (event : NetworkFlowEvent) (grpc_port : ℕ) (local_ips : List ℕ)
    → local_ips ≢ []
    → (is_self_traffic event grpc_port local_ips ≡ true) ↔ IsAgentEnd event grpc_port local_ips
unfolding is_self_traffic
is_self_traffic_iff event grpc_port [] h = absurd (h refl)
is_self_traffic_iff event grpc_port (ip ∷ ips) h = (to, of)
  where
    src : (contains ℕ_discrete (ip ∷ ips) event.src_ip ≡ true) ↔ Mem event.src_ip (ip ∷ ips)
    src = contains_iff ℕ_discrete (ip ∷ ips) event.src_ip

    dst : (contains ℕ_discrete (ip ∷ ips) event.dst_ip ≡ true) ↔ Mem event.dst_ip (ip ∷ ips)
    dst = contains_iff ℕ_discrete (ip ∷ ips) event.dst_ip

    to : is_self_traffic event grpc_port (ip ∷ ips) ≡ true → IsAgentEnd event grpc_port (ip ∷ ips)
    to e =
        elim (Bool-cases
          (event.src_port == grpc_port && contains ℕ_discrete (ip ∷ ips) event.src_ip)) [
            | inl t ↦ IsAgentEnd.sends (ground arith) (src.0 (ground arith))
            | inr f ↦ IsAgentEnd.receives (ground arith) (dst.0 (ground arith))
          ]

    of : IsAgentEnd event grpc_port (ip ∷ ips) → is_self_traffic event grpc_port (ip ∷ ips) ≡ true
    of (IsAgentEnd.sends p m) = ground (arith, src.1 m)
    of (IsAgentEnd.receives p m) = ground (arith, dst.1 m)

-- The two ends of an event, each with its port.
abbrev pub ends_of : NetworkFlowEvent → List (ℕ × ℕ)
ends_of event = (event.src_port, event.src_ip) ∷ (event.dst_port, event.dst_ip) ∷ []
