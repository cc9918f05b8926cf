-- ===== src/Examples/Hosts.antt =====
-- Runs of orb8-agent/src/net.rs, of the choice of interfaces and of the check of the kernel.
use orb.Prelude.{
  refl, ℕ, List, false, ◌<◌, ◌≡◌, ◌↔◌, ◌⊎◌, ◌≤◌, arith, [], ◌∷◌, ◌++◌, some, true, not,
}
use orb.Prelude.Text.{codes}
use orb.Prelude.Decimal.{format_uint}
use orb.Examples.{web_ip}
use orb.Health
use orb.Health.Message.{IsClean, says, health_message_tells}
use orb.Net.{parse_ipv4, format_ipv4}
use orb.Net.RoundTrip.{parse_ipv4-format_ipv4}
use orb.Net.Rendered.{Leaf, render}
use orb.ProbeLoader.{check_kernel_version, supported}
use orb.ProbeLoader.Kernel.{check_kernel_version_iff}

parse_ipv4-format_ipv4_example : parse_ipv4 (format_ipv4 web_ip) ≡ some web_ip
parse_ipv4-format_ipv4_example = parse_ipv4-format_ipv4 web_ip (omega arith)

-- A trie with an address of the host and one of its broadcast addresses.
abbrev leaves : List Leaf
leaves =
    record { depth = 2; ip = web_ip; is_local = true }
    ∷ record { depth = 5; ip = 0xFF00000A; is_local = false }
    ∷ []

leaves-shown :
    render leaves
    ≡ codes "  |-- 10.0.0.1\n     /32 host LOCAL\n     |-- 10.0.0.255\n        /32 link BROADCAST\n"
unfolding format_ipv4 format_uint
leaves-shown = refl

health_message_tells_example :
    ((says Health.new (codes "OK") ≡ true) ↔ IsClean Health.new)
    × (says Health.new (codes "UNHEALTHY: ") ≡ not (Health.is_healthy Health.new))
health_message_tells_example = health_message_tells Health.new

check_kernel_version_iff_example :
    (check_kernel_version (some (format_uint 5 ++ b'.' ∷ (format_uint 15 ++ b'.' ∷ codes "0-91")))
      ≡ supported)
    ↔ ((5 < 5) ⊎ ((◌≡◌ {A = ℕ} 5 5) × (8 ≤ 15)))
check_kernel_version_iff_example =
    check_kernel_version_iff 5 15 (codes "0-91") (omega arith) (omega arith)
