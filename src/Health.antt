-- ===== src/Health.antt =====
-- orb8-agent/src/health.rs: the health of the agent. The program shares one `HealthState` between
-- its parts; here each operation takes the state and returns the new one.
pub mod Message
use orb.Prelude.{
  ℕ, ◌<◌, Bool, true, false, not, ◌&&◌, ◌||◌, List, [], ◌∷◌, ◌++◌, if◌then◌else◌, ltb, add_u64,
  is_empty,
}
use orb.Prelude.Text.{Text, codes, join}
use orb.Prelude.Decimal.{format_uint}

-- `Inner`: four flags, and three counters of type u64
pub record HealthState : Type 0 where
  pub probes_attached : Bool
  pub k8s_watcher_connected : Bool
  pub flow_table_at_capacity : Bool
  pub pod_cache_at_capacity : Bool
  pub broadcast_drops : ℕ
  pub flow_evictions : ℕ
  pub pod_cache_evictions : ℕ

-- `HealthState::new`
abbrev pub new : HealthState
new = record {
  probes_attached = false;
  k8s_watcher_connected = false;
  flow_table_at_capacity = false;
  pod_cache_at_capacity = false;
  broadcast_drops = 0;
  flow_evictions = 0;
  pod_cache_evictions = 0;
}

unfoldable pub is_healthy : HealthState → Bool
is_healthy h = h.probes_attached && not h.flow_table_at_capacity

unfoldable pub is_ready : HealthState → Bool
is_ready h = h.probes_attached

-- `if test { issues.push(issue) }`, in front of the issues that follow
abbrev issue_if : Bool → Text → List Text → List Text
issue_if test issue later = if test then issue ∷ later else later

unfoldable pub issues : HealthState → List Text
issues h = issue_if (not h.probes_attached) (codes "probes not attached") (
    issue_if h.flow_table_at_capacity (codes "flow table at capacity") (
      issue_if (not h.k8s_watcher_connected) (codes "k8s watcher disconnected")
        (issue_if h.pod_cache_at_capacity (codes "pod cache at capacity") [])))

unfoldable pub counters : HealthState → Text
counters h =
    codes "; broadcast_drops="
    ++ (format_uint h.broadcast_drops
        ++ (codes ", flow_evictions="
            ++ (format_uint h.flow_evictions
                ++ (codes ", pod_cache_evictions=" ++ format_uint h.pod_cache_evictions))))

abbrev pub counts_something : HealthState → Bool
counts_something h =
    ltb 0 h.broadcast_drops || ltb 0 h.flow_evictions || ltb 0 h.pod_cache_evictions

unfoldable pub health_message : HealthState → Text
health_message h =
    if is_empty (issues h)
    then (if counts_something h then codes "OK" ++ counters h else codes "OK")
    else (if is_healthy h then codes "DEGRADED" else codes "UNHEALTHY")
      ++ (codes ": " ++ join (codes "; ") (issues h))

unfoldable pub set_probes_attached : Bool → HealthState → HealthState
set_probes_attached val h = record h { probes_attached = val }

unfoldable pub set_k8s_watcher_connected : Bool → HealthState → HealthState
set_k8s_watcher_connected val h = record h { k8s_watcher_connected = val }

unfoldable pub set_flow_table_at_capacity : Bool → HealthState → HealthState
set_flow_table_at_capacity val h = record h { flow_table_at_capacity = val }

unfoldable pub set_pod_cache_at_capacity : Bool → HealthState → HealthState
set_pod_cache_at_capacity val h = record h { pod_cache_at_capacity = val }

-- `fetch_add` wraps around.
unfoldable pub inc_broadcast_drops : HealthState → HealthState
unfolding add_u64
inc_broadcast_drops h = record h { broadcast_drops = add_u64 h.broadcast_drops 1 }

unfoldable pub inc_flow_evictions : ℕ → HealthState → HealthState
unfolding add_u64
inc_flow_evictions count h = record h { flow_evictions = add_u64 h.flow_evictions count }

unfoldable pub inc_pod_cache_evictions : HealthState → HealthState
unfolding add_u64
inc_pod_cache_evictions h = record h { pod_cache_evictions = add_u64 h.pod_cache_evictions 1 }
