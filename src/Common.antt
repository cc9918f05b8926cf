-- ===== src/Common.antt =====
-- orb8-common/src/lib.rs: the event that the probes send to the agent, and its constants.
pub mod Layout
pub mod Bytes
use orb.Prelude.{ℕ}

-- `PacketEvent`, which no probe sends any more. Its padding is a field of its own.
pub record PacketEvent : Type 0 where
  pub timestamp_ns : ℕ
  pub packet_len : ℕ
  pub padding : ℕ

-- `NetworkFlowEvent`. Addresses have their first octet in the lowest byte; ports are in host order.
pub record NetworkFlowEvent : Type 0 where
  pub timestamp_ns : ℕ
  pub cgroup_id : ℕ
  pub src_ip : ℕ
  pub dst_ip : ℕ
  pub src_port : ℕ
  pub dst_port : ℕ
  pub protocol : ℕ
  pub direction : ℕ
  pub packet_len : ℕ

-- `direction::INGRESS` and `direction::EGRESS`
abbrev pub ingress : ℕ
ingress = 0

abbrev pub egress : ℕ
egress = 1

-- `protocol::ICMP`, `protocol::TCP` and `protocol::UDP`
abbrev pub icmp : ℕ
icmp = 1

abbrev pub tcp : ℕ
tcp = 6

abbrev pub udp : ℕ
udp = 17
