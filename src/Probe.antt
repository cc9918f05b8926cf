-- ===== src/Probe.antt =====
-- orb8-probes/src/network_probe.rs: the classifiers that run in the kernel on each packet.
pub mod Verdict
pub mod Types
pub mod Frame
pub mod Capture
use orb.Prelude.{
  ℕ, suc, ◌+◌, ◌*◌, ◌%◌, ◌^◌, Bool, true, false, not, ◌||◌, Option, none, some, ◌>>=◌, List, [],
  ◌∷◌, if◌then◌else◌, ltb, ◌==◌, length, take, drop, u16_mod, add_u64,
}
use orb.Common.{NetworkFlowEvent, ingress, egress, tcp, udp}
use orb.Common.Layout.{from_le_bytes, to_bytes}
use orb.Ring.{RingBuf}

-- The packet as the program sees it: `data()`, the bytes up to `data_end()`, and `len()`, the length
-- of the whole packet, of which the bytes may be a first part.
pub record TcContext : Type 0 where
  pub data_start : ℕ
  pub bytes : List ℕ
  pub len : ℕ

abbrev pub data_end : TcContext → ℕ
data_end ctx = ctx.data_start + length ctx.bytes

abbrev pub tc_act_ok : ℕ
tc_act_ok = 0

abbrev pub eth_hlen : ℕ
eth_hlen = 14

abbrev pub eth_p_ip : ℕ
eth_p_ip = 0x0800

abbrev pub ip_hlen_min : ℕ
ip_hlen_min = 20

-- `ptr_at`, and the bytes behind the pointer; `none` is `Err(())`
unfoldable pub ptr_at : TcContext → ℕ → ℕ → Option (List ℕ)
ptr_at ctx offset len =
    if ltb (data_end ctx) (ctx.data_start + offset + len)
    then none
    else some (take len (drop offset ctx.bytes))

-- `u16::from_be_bytes`
abbrev pub from_be_bytes : List ℕ → ℕ
from_be_bytes [] = 0
from_be_bytes (hi ∷ []) = hi
from_be_bytes (hi ∷ lo ∷ _) = 256 * hi + lo

unfoldable pub read_u8 : TcContext → ℕ → Option ℕ
read_u8 ctx offset = do b ← ptr_at ctx offset 1; some (from_le_bytes b)

unfoldable pub read_be16 : TcContext → ℕ → Option ℕ
read_be16 ctx offset = do b ← ptr_at ctx offset 2; some (from_be_bytes b)

unfoldable pub read_u32 : TcContext → ℕ → Option ℕ
read_u32 ctx offset = do b ← ptr_at ctx offset 4; some (from_le_bytes b)

-- What the probe reads of a packet.
pub record Headers : Type 0 where
  pub src_ip : ℕ
  pub dst_ip : ℕ
  pub src_port : ℕ
  pub dst_port : ℕ
  pub protocol : ℕ

-- `match proto { TCP | UDP => .., _ => (0, 0) }`
unfoldable pub read_ports : TcContext → ℕ → ℕ → Option (ℕ × ℕ)
read_ports ctx proto transport_offset =
    if proto == tcp || proto == udp
    then (do
      sport ← read_be16 ctx transport_offset
      dport ← read_be16 ctx (transport_offset + 2)
      some (sport, dport))
    else some (0, 0)

-- The part of `try_network_probe` from the check of the IP header's length on.
unfoldable pub read_ip : TcContext → ℕ → Option (Option Headers)
read_ip ctx version_ihl =
    let ip_header_len = version_ihl % 16 * 4 in
    if ltb ip_header_len ip_hlen_min then some none else do
      proto ← read_u8 ctx (eth_hlen + 9)
      src_ip ← read_u32 ctx (eth_hlen + 12)
      dst_ip ← read_u32 ctx (eth_hlen + 16)
      ports ← read_ports ctx proto (eth_hlen + ip_header_len)
      some (
          some (record {
            src_ip = src_ip;
            dst_ip = dst_ip;
            src_port = ports.0;
            dst_port = ports.1;
            protocol = proto;
          }))

-- The reads of `try_network_probe`: `none` is `Err(())`, and `some none` is an early `Ok`.
unfoldable pub read_headers : TcContext → Option (Option Headers)
read_headers ctx = if ltb ctx.len (eth_hlen + ip_hlen_min) then some none else do
  ethertype ← read_be16 ctx 12
  if ethertype == eth_p_ip
      then (do version_ihl ← read_u8 ctx eth_hlen; read_ip ctx version_ihl)
      else some none

-- The event of a packet. The length is cut to 16 bits.
abbrev pub event_of : ℕ → ℕ → TcContext → Headers → NetworkFlowEvent
event_of timestamp_ns dir ctx h = record {
  timestamp_ns = timestamp_ns;
  cgroup_id = 0;
  src_ip = h.src_ip;
  dst_ip = h.dst_ip;
  src_port = h.src_port;
  dst_port = h.dst_port;
  protocol = h.protocol;
  direction = dir;
  packet_len = ctx.len % u16_mod;
}

module _ (R : RingBuf) where
  -- The two maps that the probes write.
  pub record Maps : Type 0 where
    pub events : R.Ring
    pub events_dropped : ℕ

  -- `if let Some(entry) = EVENTS.reserve(0) { .. } else { *counter += 1 }`
  unfoldable pub submit_event : NetworkFlowEvent → Maps → Maps
  submit_event event maps = elim (R.submit maps.events (to_bytes event)) [
    | none ↦ record maps { events_dropped = add_u64 maps.events_dropped 1 }
    | some events ↦ record maps { events = events }
  ]

  -- `try_network_probe` from its reads on
  unfoldable pub finish : ℕ → ℕ → TcContext → Option (Option Headers) → Maps → Option ℕ × Maps
  finish timestamp_ns dir ctx none maps = (none, maps)
  finish timestamp_ns dir ctx (some none) maps = (some tc_act_ok, maps)
  finish timestamp_ns dir ctx (some (some h)) maps =
      (some tc_act_ok, submit_event (event_of timestamp_ns dir ctx h) maps)

  unfoldable pub try_network_probe : ℕ → ℕ → TcContext → Maps → Option ℕ × Maps
  unfolding finish
  try_network_probe timestamp_ns dir ctx = finish timestamp_ns dir ctx (read_headers ctx)

  -- `match try_network_probe(..) { Ok(ret) => ret, Err(_) => TC_ACT_OK }`
  abbrev pub verdict : Option ℕ → ℕ
  verdict none = tc_act_ok
  verdict (some ret) = ret

  unfoldable pub network_probe : ℕ → TcContext → Maps → ℕ × Maps
  unfolding try_network_probe
  network_probe timestamp_ns ctx maps =
      let (ret, maps') = try_network_probe timestamp_ns ingress ctx maps in (verdict ret, maps')

  unfoldable pub network_probe_egress : ℕ → TcContext → Maps → ℕ × Maps
  unfolding try_network_probe
  network_probe_egress timestamp_ns ctx maps =
      let (ret, maps') = try_network_probe timestamp_ns egress ctx maps in (verdict ret, maps')
