-- ===== src/Examples/Starts.antt =====
-- Runs of orb8-agent/src/main.rs around its loop: a start on a host with one interface, the signal that
-- ends the loop, and the shutdown.
use orb.Prelude.{
  ℕ, map, ◌≡◌, ◌≤◌, ◌↔◌, refl, true, false, Option, none, some, List, [], ◌∷◌, All, ltb, ℕ_discrete,
}
use orb.Prelude.Text.{Text, codes, text_eq, Text-discrete, split, trim}
use orb.Prelude.Results.{ok}
use orb.Bpf.{Bpf, AttachType, Attachment}
use orb.Bpf.Fixed.{fixed, attach_fixed}
use orb.Prelude.{if◌then◌else◌, arith}
use orb.Prelude.Decimal.{format_uint}
use orb.Config.Overrides.{Settings, Provides, unset, valid, malformed, in_force, from_env-in_force}
use orb.Config.{u16_max, from_env, parse_env}
use orb.Examples.{flow_table, pod_table}
use orb.Examples.Interleavings.{empty_ring}
use orb.Examples.Wire.{ring_buf}
use orb.Grpc.Service
use orb.Grpc.Service.{start_server, node_name_of}
use orb.Net.{resolve_local_ips}
use orb.ProbeLoader.{
  discover_interfaces, primary_interfaces, get_default_route_interface, first_bridge,
  add_docker_bridge, find_docker_bridge, check_kernel_version,
}
use orb.ProbeLoader.Attach.{attach_to_interfaces, attach_probe, attach_each, add_qdiscs}
use orb.ProbeLoader.Manager
use orb.Prelude.Decimal.{parse_uint, parse_digits}
use orb.ProbeLoader.Manager.{
  Preflight, PinCalls, EventsMap, run_preflight_checks, events_ring_buf, events_dropped_reader,
}
use orb.Startup.{World, Running, Task, Occurrence, begin, startup, shutdown}
use orb.Watcher
use orb.Watcher.{Round}
use orb.Examples.Cluster.{web_pod}
use orb.Examples.Interleavings.{moves}
use orb.Startup.Ready.{IsReady, startup-IsReady}
use orb.Startup.Shutdown.{IsClean, IsDone, elapsed, shutdown_lem}

-- One of the three tasks never ends.
abbrev ends : List (Option ℕ)
ends = some 20 ∷ none ∷ some 3 ∷ []

shutdown_lem_example :
    (elapsed (shutdown 10000 ends) ≤ 10000)
    × (IsClean (shutdown 10000 ends) ↔ All (IsDone 10000) ends)
shutdown_lem_example = shutdown_lem 10000 ends

-- The classifiers can be attached to eth0 and to nothing else.
abbrev object : Bpf
object = fixed (codes "network_probe" ∷ codes "network_probe_egress" ∷ []) (codes "eth0" ∷ [])

unfoldable no_attachments : object.Object
unfolding fixed
no_attachments = []

abbrev eth0 : Text → AttachType → Attachment
eth0 name attach_type = record { program = name; iface = codes "eth0"; attach_type = attach_type }

unfoldable attachments : object.Object
unfolding fixed
attachments =
    eth0 (codes "network_probe") AttachType.ingress
    ∷ eth0 (codes "network_probe_egress") AttachType.egress
    ∷ []

-- The first round of the watcher, which finds the pod web and is still under way.
abbrev first_round : Round
first_round = record {
  results = some Watcher.init ∷ some (Watcher.init_apply web_pod) ∷ [];
  cancelled_watching = true;
  cancelled_asleep = false;
  cancelled_after = false;
  nanos = 0;
  listed = none;
}

abbrev world : World object ring_buf
world = record {
  var = λ key. none;
  kubernetes_available = true;
  hostname = none;
  channel_accepts = λ size. ltb 0 size;
  now = 5;
  preflight = record { uname = some (codes "6.1.0"); btf_exists = true; euid_is_root = true };
  object = some no_attachments;
  host = record {
    route = none;
    interface_exists = λ name. text_eq name (codes "eth0");
    net_names = [];
  };
  fib_trie = none;
  pin_calls = record {
    found = true;
    pinned = true;
    opened = true;
    is_array = true;
    removed = true;
  };
  pin_left = false;
  events = EventsMap.ring_buf empty_ring;
  events_dropped = 3;
  rounds = first_round ∷ [];
  resolve = λ uid id. some 7;
  sigterm_registered = true;
}

abbrev running : Running object flow_table pod_table ring_buf
running = record {
  config = from_env world.var;
  state = begin object flow_table pod_table ring_buf world (from_env world.var) empty_ring;
  bpf = attachments;
  service = record {
    node_name = codes "unknown";
    start_time = 5;
    channel_size = 1000;
    max_query_limit = 10000;
  };
  handles = Task.pod_watcher ∷ Task.grpc_server ∷ Task.health_server ∷ Task.expiration ∷ [];
  local_ips = resolve_local_ips none;
  has_drop_counter = true;
  k8s_enabled = true;
}

started : startup object flow_table pod_table ring_buf world ≡ ok running
unfolding startup from_env parse_env start_server Service.new node_name_of Manager.new
    run_preflight_checks check_kernel_version events_ring_buf events_dropped_reader parse_uint
    parse_digits discover_interfaces primary_interfaces get_default_route_interface first_bridge
    add_docker_bridge find_docker_bridge attach_to_interfaces attach_probe attach_each add_qdiscs
    fixed attach_fixed no_attachments attachments Text-discrete split trim ℕ_discrete
started = refl

startup-IsReady_example :
    IsReady object flow_table pod_table ring_buf world running (map Occurrence.act moves)
startup-IsReady_example =
    startup-IsReady object flow_table pod_table ring_buf world running (map Occurrence.act moves)
      started

-- The limit of flows is set, and a port is malformed.
abbrev variable : Text → Option Text
variable key =
    if text_eq key (codes "ORB8_MAX_FLOWS")
    then some (format_uint 500)
    else if text_eq key (codes "ORB8_GRPC_PORT")
    then some (codes "no port")
    else none

abbrev settings : Settings
settings = record {
  grpc_port = none;
  health_port = none;
  max_flows = some 500;
  flow_timeout_secs = none;
  max_pod_cache = none;
  broadcast_channel_size = none;
  poll_interval_ms = none;
  max_batch_size = none;
  shutdown_timeout_secs = none;
  expiration_interval_secs = none;
  max_query_limit = none;
}

no_port : parse_uint u16_max (codes "no port") ≡ none
unfolding parse_uint parse_digits
no_port = refl

variable-Provides : Provides variable settings
unfolding Text-discrete ℕ_discrete
variable-Provides = record {
  grpc_port = malformed (codes "no port") no_port;
  health_port = unset;
  max_flows = valid 500 (omega arith);
  flow_timeout_secs = unset;
  max_pod_cache = unset;
  broadcast_channel_size = unset;
  poll_interval_ms = unset;
  max_batch_size = unset;
  shutdown_timeout_secs = unset;
  expiration_interval_secs = unset;
  max_query_limit = unset;
}

from_env-in_force_example : from_env variable ≡ in_force settings
from_env-in_force_example = from_env-in_force variable settings variable-Provides
