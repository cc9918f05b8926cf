-- ===== src/Net.antt =====
-- orb8-agent/src/net.rs: addresses as text, names of protocols and directions, the addresses of the
-- host, and the filter on the agent's own traffic.
pub mod RoundTrip
pub mod Parsing
pub mod SelfTraffic
pub mod LocalIps
pub mod Trie
pub mod Rendered
pub mod Lines
use orb.Prelude.{
  ℕ, ◌+◌, ◌*◌, ◌/◌, ◌%◌, ◌^◌, Bool, true, false, ◌&&◌, ◌||◌, List, [], ◌∷◌, ◌++◌, Option, none,
  some, ◌==◌, if◌then◌else◌, contains, is_empty, ℕ_discrete,
}
use orb.Prelude.Text.{
  Text, codes, split, trim, starts_with, contains_text, trim_start_matches, lines,
}
use orb.Prelude.Decimal.{format_uint, parse_uint}
use orb.Common.{NetworkFlowEvent}

-- `ip & 0xFF` and the octets behind it
abbrev octet : ℕ → ℕ → ℕ
octet ip shift = ip / 2 ^ shift % 256

unfoldable pub format_ipv4 : ℕ → Text
format_ipv4 ip =
    format_uint (ip % 256)
    ++ b'.'
      ∷ (format_uint (octet ip 8)
          ++ b'.' ∷ (format_uint (octet ip 16) ++ b'.' ∷ format_uint (octet ip 24)))

unfoldable pub format_protocol : ℕ → Text
format_protocol protocol =
    if protocol == 1
    then codes "ICMP"
    else if protocol == 6
    then codes "TCP"
    else if protocol == 17
    then codes "UDP"
    else codes "OTHER"

unfoldable pub format_direction : ℕ → Text
format_direction direction =
    if direction == 0
    then codes "ingress"
    else if direction == 1
    then codes "egress"
    else codes "unknown"

-- `filter_map(|p| p.parse::<u8>().ok())`
unfoldable pub octets : List Text → List ℕ
octets [] = []
octets (p ∷ ps) = elim (parse_uint 255 p) [ none ↦ octets ps | some n ↦ n ∷ octets ps ]

-- `u32::from_le_bytes`
abbrev pub u32_from_le_bytes : ℕ → ℕ → ℕ → ℕ → ℕ
u32_from_le_bytes a b c d = a + 256 * b + 65536 * c + 16777216 * d

unfoldable pub ipv4_of_parts : List ℕ → Option ℕ
ipv4_of_parts (a ∷ b ∷ c ∷ d ∷ []) = some (u32_from_le_bytes a b c d)
ipv4_of_parts _ = none

unfoldable pub parse_ipv4 : Text → Option ℕ
parse_ipv4 ip_str = ipv4_of_parts (octets (split b'.' ip_str))

-- A `HashSet<u32>` is a list without repetitions.
abbrev pub insert_ip : ℕ → List ℕ → List ℕ
insert_ip ip ips = if contains ℕ_discrete ips ip then ips else ip ∷ ips

-- `lines.get(i + 1)` holds the mark of a local address.
unfoldable pub next_is_local : List Text → Bool
next_is_local [] = false
next_is_local (next_line ∷ rest) = contains_text next_line (codes "/32 host LOCAL")

-- The address on a line of the trie.
unfoldable pub line_ip : Text → Option ℕ
line_ip line =
    parse_ipv4 (trim_start_matches (trim_start_matches (trim line) (codes "|-- ")) (codes "+-- "))

unfoldable pub is_entry : Text → Bool
is_entry line = starts_with (trim line) (codes "|-- ") || starts_with (trim line) (codes "+-- ")

unfoldable pub insert_found : Option ℕ → List ℕ → List ℕ
insert_found none ips = ips
insert_found (some ip) ips = insert_ip ip ips

-- One round of the loop over the lines: `rest` holds the lines behind `line`.
unfoldable pub add_local_ip : Text → List Text → List ℕ → List ℕ
add_local_ip line rest ips =
    if is_entry line && next_is_local rest then insert_found (line_ip line) ips else ips

unfoldable pub local_ips_from : List Text → List ℕ → List ℕ
local_ips_from [] ips = ips
local_ips_from (line ∷ rest) ips = local_ips_from rest (add_local_ip line rest ips)

abbrev pub loopback : ℕ
loopback = u32_from_le_bytes 127 0 0 1

-- The argument is the content of /proc/net/fib_trie, or `none` if it cannot be read.
unfoldable pub resolve_local_ips : Option Text → List ℕ
resolve_local_ips none = loopback ∷ []
resolve_local_ips (some content) = local_ips_from (lines content) (loopback ∷ [])

unfoldable pub is_self_traffic : NetworkFlowEvent → ℕ → List ℕ → Bool
is_self_traffic event grpc_port local_ips =
    if is_empty local_ips
    then event.src_port == grpc_port || event.dst_port == grpc_port
    else (event.src_port == grpc_port && contains ℕ_discrete local_ips event.src_ip)
      || (event.dst_port == grpc_port && contains ℕ_discrete local_ips event.dst_ip)
