-- ===== src/Lib.antt =====
-- orb8 watches the network traffic of the pods of a Kubernetes cluster. On each node a probe in
-- the kernel turns packets into events; an agent reads the events from a ring buffer, attributes
-- each to a pod, keeps statistics of the flows, and answers queries by gRPC. This library models
-- that path from the packet to the answer, and the parts that it rests on.
--
-- Parts, files and code (paths from the root of the repository):
-- - Common: orb8-common/src/lib.rs, the event `NetworkFlowEvent`, and Common/Layout its 32 bytes.
-- - Probe: orb8-probes/src/network_probe.rs, the classifiers `network_probe` and
--   `network_probe_egress`. Probe/Frame writes an IPv4 frame field by field as an independent
--   reference.
-- - Ring: the ring buffer EVENTS between probe and agent, an interface that Ring/Queue implements.
-- - Bpf: the object that the crate aya loads and attaches, an interface that Bpf/Fixed implements.
-- - ProbeLoader: orb8-agent/src/probe_loader.rs, `poll_events`, `check_kernel_version` and
--   `discover_interfaces`; ProbeLoader/Attach is `attach_to_interfaces`, ProbeLoader/Manager the
--   rest of `ProbeManager`.
-- - Net: orb8-agent/src/net.rs, addresses as text, `resolve_local_ips` and `is_self_traffic`.
--   Net/Rendered writes out a routing trie as an independent reference.
-- - Health: orb8-agent/src/health.rs, the flags and counters that all parts share.
-- - Table: the concurrent map of the crate dashmap, an interface that Table/Assoc implements.
-- - PodCache: orb8-agent/src/pod_cache.rs, the pods by cgroup and by address.
-- - Aggregator: orb8-agent/src/aggregator.rs, the flows: `process_event`, `evict_oldest_flows`,
--   `expire_old_flows`. Aggregator/Tasks takes `process_event` and `expire_old_flows` apart into
--   the single calls of the map and of the flags, as two tasks interleave them.
-- - Agent: orb8-agent/src/main.rs, one round of the main loop.
-- - System: the probe, the main loop and the tasks beside it, as moves on one state. A list of
--   moves (packets, rounds of the loop, expirations, events of the watcher) is one interleaving.
-- - Startup: orb8-agent/src/main.rs, the start with its failures and with what the watcher finds
--   meanwhile, the signals, and the shutdown.
-- - Grpc: orb8-agent/src/grpc_server.rs, `query_flows`, `stream_events` and `get_status`, with the
--   messages of orb8-proto/proto/orb8.proto; Grpc/Service is `start_server`.
-- - Watcher: orb8-agent/src/k8s_watcher.rs, `handle_pod_apply`, `handle_pod_delete` and the rounds
--   of `run`; it keeps the pod cache in step with the cluster.
-- - Cgroup: orb8-agent/src/cgroup.rs, the resolver of cgroups that the watcher calls.
-- - Config: orb8-agent/src/config.rs, `from_env`.
-- - HealthServer: orb8-agent/src/health_server.rs, the answer to one connection, and the loop of
--   `run`.
-- - Cli: orb8-cli/src/lib.rs, `parse_duration`; Cli/Rows has the rows that are printed,
--   Cli/Commands the commands.
-- - Prelude: lists, texts as lists of code points, decimal numbers, sorting, and words of fixed
--   width.
-- - Examples: runs at concrete inputs.
--
-- State is passed explicitly: an operation takes the state of its part, and the health state where
-- it touches it, and returns the new ones. In System an expiration takes five steps, which the
-- other tasks interrupt; Aggregator/Tasks takes the recording of an event apart as well. Elsewhere
-- an operation is one atomic step; a list of calls or of moves stands for one interleaving of the
-- tasks that share the state. Durations and times of the agent are in nanoseconds. Numbers are
-- natural numbers; an addition on u64 wraps around at 2^64 (`add_u64`), as in a release build, and
-- a cast keeps the low bits. The clock, the content of files of the host, the presence of
-- subscribers and the value of the drop counter are arguments.
--
-- `poll_events` runs on fuel, one round more than the ring has records, which is enough since each
-- round consumes one. `trim_start_matches` runs on the length of its text. `as_f64` of Cli/Rows
-- halves at most 11 times, the bits by which a u64 is longer than the fraction of an f64.
--
-- Not modelled: what the crates do behind the calls of the program, that is aya (the object of the
-- probes), tonic (the transport of gRPC), kube (the client of Kubernetes), tokio (tasks, timers
-- and sockets), dashmap (the map) and clap (the arguments of the client); logging; the build
-- scripts and the generated protocol code; and the placeholder of the cluster server, which has no
-- logic.
pub mod Prelude
pub mod Common
pub mod Net
pub mod Health
pub mod Table
pub mod PodCache
pub mod Aggregator
pub mod Ring
pub mod Probe
pub mod ProbeLoader
pub mod Agent
pub mod Grpc
pub mod Config
pub mod Cgroup
pub mod HealthServer
pub mod Cli
pub mod Watcher
pub mod Bpf
pub mod System
pub mod Startup
pub mod Examples
