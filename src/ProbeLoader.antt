-- ===== src/ProbeLoader.antt =====
-- orb8-agent/src/probe_loader.rs: reading the ring buffer, the checks before the probes are loaded,
-- and the choice of the network interfaces.
pub mod Polling
pub mod Interfaces
pub mod Kernel
pub mod Attach
pub mod Manager
pub mod Coverage
use orb.Prelude.{
  ℕ, zero, suc, ◌+◌, ◌^◌, ◌-◌, Bool, true, false, not, ◌&&◌, ◌||◌, Option, none, some, ◌>>=◌, List,
  [], ◌∷◌, ◌++◌, if◌then◌else◌, ltb, leb, ◌==◌, length, drop, is_empty, contains, unwrap_or,
  or_else, map_option, is_some,
}
use orb.Prelude.Text.{
  Text, Text-discrete, text_eq, codes, split, split_whitespace, trim, lines, starts_with,
}
use orb.Prelude.Decimal.{parse_uint}
use orb.Common.{NetworkFlowEvent}
use orb.Common.Layout.{event_size, of_bytes}
use orb.Ring.{RingBuf}

module _ (R : RingBuf) where
  -- The loop of `poll_events`, with the events so far. `None` of `next` ends it, and so does a record
  -- beyond the batch size, which `next` has consumed by then.
  unfoldable pub poll_loop : ℕ → ℕ → R.Ring → List NetworkFlowEvent → List NetworkFlowEvent × R.Ring
  poll_loop zero max_batch_size ring events = (events, ring)
  poll_loop (suc fuel) max_batch_size ring events = elim (R.next ring) [
    | none ↦ (events, ring)
    | some (item, ring') ↦ elim (leb max_batch_size (length events)) [
      | true ↦ (events, ring')
      | false ↦
          poll_loop fuel max_batch_size ring'
            (if length item == event_size then events ++ of_bytes item ∷ [] else events)
    ]
  ]

  -- Each round consumes a record, so one round more than there are records is enough.
  unfoldable pub poll_events : ℕ → R.Ring → List NetworkFlowEvent × R.Ring
  poll_events max_batch_size ring = poll_loop (suc (length (R.pending ring))) max_batch_size ring []

-- `map.get(&0, 0).unwrap_or(0)`
abbrev pub read_events_dropped : Option ℕ → ℕ
read_events_dropped value = unwrap_or value 0

-- The errors of `check_kernel_version`.
pub data KernelError : Type 0 where
  unreadable no_minor invalid_major invalid_minor too_old : KernelError

-- `Result<(), KernelError>`
pub data KernelCheck : Type 0 where
  supported : KernelCheck
  rejected : KernelError → KernelCheck

-- `next().unwrap_or(s)`
abbrev pub first_or : Text → List Text → Text
first_or s [] = s
first_or s (p ∷ _) = p

-- `parts[1].split('-').next().unwrap_or(parts[1])`
abbrev pub before_dash : Text → Text
before_dash s = first_or s (split b'-' s)

abbrev pub u32_max : ℕ
u32_max = 2 ^ 32 - 1

abbrev pub is_too_old : ℕ → ℕ → Bool
is_too_old major minor = ltb major 5 || (major == 5 && ltb minor 8)

abbrev pub check_numbers : Option ℕ → Option ℕ → KernelCheck
check_numbers none minor = rejected invalid_major
check_numbers (some major) none = rejected invalid_minor
check_numbers (some major) (some minor) =
    if is_too_old major minor then rejected too_old else supported

abbrev pub check_parts : List Text → KernelCheck
check_parts (p ∷ q ∷ _) =
    check_numbers (parse_uint u32_max (trim p)) (parse_uint u32_max (trim (before_dash q)))
check_parts _ = rejected no_minor

-- The argument is the output of `uname -r`, if it could be run and is UTF-8.
unfoldable pub check_kernel_version : Option Text → KernelCheck
check_kernel_version none = rejected unreadable
check_kernel_version (some version_str) = check_parts (split b'.' version_str)

-- What `discover_interfaces` reads of the host: /proc/net/route, whether /sys/class/net has a name,
-- and the names in that directory in the order in which it lists them.
pub record Host : Type 0 where
  pub route : Option Text
  pub interface_exists : Text → Bool
  pub net_names : List Text

-- The default route has the destination 00000000.
abbrev pub route_interface : List Text → Option Text
route_interface (iface ∷ destination ∷ _) =
    if text_eq destination (codes "00000000") && not (text_eq iface (codes "lo"))
    then some iface
    else none
route_interface _ = none

unfoldable pub first_route : List Text → Option Text
first_route [] = none
first_route (line ∷ rest) = or_else (route_interface (split_whitespace line)) (first_route rest)

unfoldable pub get_default_route_interface : Host → Option Text
get_default_route_interface host = do content ← host.route; first_route (drop 1 (lines content))

unfoldable pub find_docker_bridge : List Text → Option Text
find_docker_bridge [] = none
find_docker_bridge (name ∷ rest) =
    if starts_with name (codes "br-") then some name else find_docker_bridge rest

-- Step 1: the interface of the default route, or eth0.
unfoldable pub primary_interfaces : Host → List Text
primary_interfaces host = elim (get_default_route_interface host) [
  | some primary ↦ primary ∷ []
  | none ↦ if host.interface_exists (codes "eth0") then codes "eth0" ∷ [] else []
]

-- Step 2: the first container bridge that exists.
unfoldable pub first_bridge : Host → List Text → List Text
first_bridge host [] = []
first_bridge host (bridge ∷ bridges) =
    if host.interface_exists bridge then bridge ∷ [] else first_bridge host bridges

-- Step 3: a bridge of Docker, if it is not there yet.
unfoldable pub add_docker_bridge : Host → List Text → List Text
add_docker_bridge host interfaces = elim (find_docker_bridge host.net_names) [
  | none ↦ interfaces
  | some bridge ↦
      if contains Text-discrete interfaces bridge then interfaces else interfaces ++ bridge ∷ []
]

-- Step 4: the loopback interface, if there is nothing else.
abbrev pub or_loopback : List Text → List Text
or_loopback interfaces = if is_empty interfaces then codes "lo" ∷ [] else interfaces

unfoldable pub discover_interfaces : Host → List Text
discover_interfaces host = or_loopback (
    add_docker_bridge host (
      primary_interfaces host
      ++ first_bridge host (codes "cni0" ∷ codes "docker0" ∷ codes "cbr0" ∷ [])))
