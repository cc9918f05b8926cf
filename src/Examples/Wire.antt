-- ===== src/Examples/Wire.antt =====
-- Runs of orb8-probes/src/network_probe.rs, orb8-common/src/lib.rs and the ring buffer.
use orb.Prelude.{ℕ, List, ◌≡◌, refl, arith, [], ◌∷◌, some, length, take, drop, All, map}
use orb.Common.Bytes.{are_bytes-IsByte, to_bytes-of_bytes}
use orb.Common.Layout.{
  event_size, to_bytes, of_bytes, FitsTypes, of_bytes-to_bytes, length-to_bytes,
}
use orb.Examples.{request, response}
use orb.Probe.{TcContext, Maps, read_headers, network_probe, network_probe_egress, tc_act_ok}
use orb.Probe.Capture.{headers_of, read_headers_frame}
use orb.Probe.Frame.{Frame, IsWellFormed, frame_bytes}
use orb.Probe.Verdict.{Effect, network_probes_lem}
use orb.ProbeLoader.{poll_events}
use orb.ProbeLoader.Polling.{poll_events_lem}
use orb.Ring.{RingBuf}
use orb.Ring.Queue.{queue}

-- A segment of TCP from 10.0.0.1:40000 to 10.0.0.2:5432 with four bytes of options.
abbrev pub frame : Frame
frame = record {
  macs = 1 ∷ 2 ∷ 3 ∷ 4 ∷ 5 ∷ 6 ∷ 7 ∷ 8 ∷ 9 ∷ 10 ∷ 11 ∷ 12 ∷ [];
  version_ihl = 0x46;
  tos_to_ttl = 0 ∷ 0 ∷ 40 ∷ 0 ∷ 1 ∷ 0 ∷ 0 ∷ 64 ∷ [];
  protocol = 6;
  checksum = 0 ∷ 0 ∷ [];
  src = 10 ∷ 0 ∷ 0 ∷ 1 ∷ [];
  dst = 10 ∷ 0 ∷ 0 ∷ 2 ∷ [];
  options = 1 ∷ 1 ∷ 1 ∷ 1 ∷ [];
  src_port_hi = 0x9C;
  src_port_lo = 0x40;
  dst_port_hi = 0x15;
  dst_port_lo = 0x38;
  payload = 0 ∷ 0 ∷ [];
}

pub frame-IsWellFormed : IsWellFormed frame
frame-IsWellFormed = record {
  macs = refl;
  tos_to_ttl = refl;
  checksum = refl;
  src = refl;
  dst = refl;
  options = refl;
}

abbrev pub context : TcContext
context = record { data_start = 4096; bytes = frame_bytes frame; len = 60 }

abbrev pub ring_buf : RingBuf
ring_buf = queue 4

unfoldable no_events : Maps ring_buf
unfolding queue
no_events = record { events = []; events_dropped = 0 }

read_headers_frame_example : read_headers context ≡ some (some (headers_of frame))
read_headers_frame_example = read_headers_frame frame frame-IsWellFormed context refl (omega arith)

network_probes_lem_example :
    ((network_probe ring_buf 7 context no_events).0 ≡ tc_act_ok)
    × Effect ring_buf 7 0 context
        (read_headers context)
        no_events
        (network_probe ring_buf 7 context no_events).1
    × ((network_probe_egress ring_buf 7 context no_events).0 ≡ tc_act_ok)
    × Effect ring_buf 7 1 context
        (read_headers context)
        no_events
        (network_probe_egress ring_buf 7 context no_events).1
network_probes_lem_example = network_probes_lem ring_buf 7 context no_events

request-FitsTypes : FitsTypes request
request-FitsTypes = record {
  timestamp_ns = omega arith;
  cgroup_id = omega arith;
  src_ip = omega arith;
  dst_ip = omega arith;
  src_port = omega arith;
  dst_port = omega arith;
  protocol = omega arith;
  direction = omega arith;
  packet_len = omega arith;
}

of_bytes-to_bytes_example : of_bytes (to_bytes request) ≡ request
of_bytes-to_bytes_example = of_bytes-to_bytes request request-FitsTypes

length-to_bytes_example : length (to_bytes request) ≡ event_size
length-to_bytes_example = length-to_bytes request

-- Three records, of which a batch of one takes one and loses one.
unfoldable three_records : ring_buf.Ring
unfolding queue
three_records = to_bytes request ∷ to_bytes response ∷ to_bytes request ∷ []

three_records-sized : All (λ b. length b ≡ event_size) (ring_buf.pending three_records)
unfolding queue three_records
three_records-sized =
    (length-to_bytes request, (length-to_bytes response, (length-to_bytes request, tt)))

poll_events_lem_example :
    ((poll_events ring_buf 1 three_records).0
      ≡ map of_bytes (take 1 (ring_buf.pending three_records)))
    × (ring_buf.pending (poll_events ring_buf 1 three_records).1
        ≡ drop 2 (ring_buf.pending three_records))
poll_events_lem_example = poll_events_lem ring_buf 1 three_records three_records-sized

abbrev record_bytes : List ℕ
record_bytes =
    1 ∷ 2 ∷ 3 ∷ 4 ∷ 5 ∷ 6 ∷ 7 ∷ 8 ∷ 0 ∷ 0 ∷ 0 ∷ 0 ∷ 0 ∷ 0 ∷ 0 ∷ 0 ∷ 10 ∷ 0 ∷ 0 ∷ 1 ∷ 10 ∷ 0 ∷ 0 ∷ 2
    ∷ 64 ∷ 156 ∷ 56 ∷ 21 ∷ 6 ∷ 0 ∷ 255 ∷ 255 ∷ []

to_bytes-of_bytes_example :
    (to_bytes (of_bytes record_bytes) ≡ record_bytes) × FitsTypes (of_bytes record_bytes)
to_bytes-of_bytes_example = to_bytes-of_bytes record_bytes (are_bytes-IsByte record_bytes refl) refl
