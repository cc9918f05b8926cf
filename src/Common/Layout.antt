-- ===== src/Common/Layout.antt =====
-- orb8-common/src/lib.rs: the `repr(C)` layout of an event on a little-endian target, in which the
-- probe writes it to the ring buffer and the agent reads it back.
use orb.Prelude.{
  ℕ, zero, suc, ◌+◌, ◌*◌, ◌/◌, ◌%◌, ◌^◌, ◌<◌, ◌≡◌, refl, List, [], ◌∷◌, ◌++◌, arith, length, take,
  drop,
}
use native.Mathlib.Nat.{pow-succ'}
use orb.Common.{NetworkFlowEvent, PacketEvent}

-- An integer of `w` bytes, its lowest byte first.
unfoldable pub le_bytes : ℕ → ℕ → List ℕ
le_bytes zero n = []
le_bytes (suc w) n = n % 256 ∷ le_bytes w (n / 256)

-- The integer that a list of bytes spells, its lowest byte first.
unfoldable pub from_le_bytes : List ℕ → ℕ
from_le_bytes [] = 0
from_le_bytes (b ∷ bs) = b + 256 * from_le_bytes bs

-- The bytes of an event, in the order of its fields: no padding is needed.
unfoldable pub to_bytes : NetworkFlowEvent → List ℕ
unfolding le_bytes
to_bytes e =
    le_bytes 8 e.timestamp_ns
    ++ (le_bytes 8 e.cgroup_id
        ++ (le_bytes 4 e.src_ip
            ++ (le_bytes 4 e.dst_ip
                ++ (le_bytes 2 e.src_port
                    ++ (le_bytes 2 e.dst_port
                        ++ (le_bytes 1 e.protocol
                            ++ (le_bytes 1 e.direction ++ le_bytes 2 e.packet_len)))))))

unfoldable pub packet_bytes : PacketEvent → List ℕ
unfolding le_bytes
packet_bytes e = le_bytes 8 e.timestamp_ns ++ (le_bytes 4 e.packet_len ++ le_bytes 4 e.padding)

-- `size_of::<NetworkFlowEvent>()`
abbrev pub event_size : ℕ
event_size = 32

unfoldable pub field_at : List ℕ → ℕ → ℕ → ℕ
unfolding from_le_bytes
field_at bytes offset w = from_le_bytes (take w (drop offset bytes))

-- `ptr::read_unaligned(item.as_ptr() as *const NetworkFlowEvent)`
unfoldable pub of_bytes : List ℕ → NetworkFlowEvent
unfolding field_at
of_bytes bytes = record {
  timestamp_ns = field_at bytes 0 8;
  cgroup_id = field_at bytes 8 8;
  src_ip = field_at bytes 16 4;
  dst_ip = field_at bytes 20 4;
  src_port = field_at bytes 24 2;
  dst_port = field_at bytes 26 2;
  protocol = field_at bytes 28 1;
  direction = field_at bytes 29 1;
  packet_len = field_at bytes 30 2;
}

-- Each field fits its Rust type.
pub record FitsTypes (e : NetworkFlowEvent) : Type 0 where
  pub timestamp_ns : e.timestamp_ns < 256 ^ 8
  pub cgroup_id : e.cgroup_id < 256 ^ 8
  pub src_ip : e.src_ip < 256 ^ 4
  pub dst_ip : e.dst_ip < 256 ^ 4
  pub src_port : e.src_port < 256 ^ 2
  pub dst_port : e.dst_port < 256 ^ 2
  pub protocol : e.protocol < 256 ^ 1
  pub direction : e.direction < 256 ^ 1
  pub packet_len : e.packet_len < 256 ^ 2

from_le_bytes-le_bytes : (w n : ℕ) → n < 256 ^ w → from_le_bytes (le_bytes w n) ≡ n
unfolding le_bytes from_le_bytes
from_le_bytes-le_bytes zero n h = omega arith
from_le_bytes-le_bytes (suc w) n h =
    let p : 256 ^ suc w ≡ 256 * 256 ^ w = pow-succ' 256 w in
    omega (arith, p, from_le_bytes-le_bytes w (n / 256) (omega (arith, p)))

-- The assertion on the size of an event: its fields fill 32 bytes with no padding.
pub length-to_bytes : (e : NetworkFlowEvent) → length (to_bytes e) ≡ event_size
unfolding to_bytes
length-to_bytes e = refl

-- The assertion on the size of a legacy event.
pub length-packet_bytes : (e : PacketEvent) → length (packet_bytes e) ≡ 16
unfolding packet_bytes
length-packet_bytes e = refl

-- What the probe writes is what the agent reads, field by field, where each field fits its type.
pub of_bytes-to_bytes : (e : NetworkFlowEvent) → FitsTypes e → of_bytes (to_bytes e) ≡ e
unfolding of_bytes to_bytes
of_bytes-to_bytes e fits = λ i. record {
  timestamp_ns = from_le_bytes-le_bytes 8 e.timestamp_ns fits.timestamp_ns i;
  cgroup_id = from_le_bytes-le_bytes 8 e.cgroup_id fits.cgroup_id i;
  src_ip = from_le_bytes-le_bytes 4 e.src_ip fits.src_ip i;
  dst_ip = from_le_bytes-le_bytes 4 e.dst_ip fits.dst_ip i;
  src_port = from_le_bytes-le_bytes 2 e.src_port fits.src_port i;
  dst_port = from_le_bytes-le_bytes 2 e.dst_port fits.dst_port i;
  protocol = from_le_bytes-le_bytes 1 e.protocol fits.protocol i;
  direction = from_le_bytes-le_bytes 1 e.direction fits.direction i;
  packet_len = from_le_bytes-le_bytes 2 e.packet_len fits.packet_len i;
}
