-- ===== src/Config/Overrides.antt =====
-- orb8-agent/src/config.rs: which settings are in force, for any mixture of variables that are unset,
-- valid and malformed.
use orb.Prelude.{ℕ, ◌*◌, ◌≤◌, ◌≡◌, refl, Option, none, some, unwrap_or}
use orb.Prelude.Decimal.{format_uint, parse_uint}
use orb.Prelude.Decimal.RoundTrip.{parse_uint-format_uint}
use orb.Prelude.Text.{Text, codes}
use orb.Config.{AgentConfig, parse_env, from_env, u16_max, u64_max, from_secs}

-- What a variable says: nothing, a number in decimal notation that fits the type, or something that
-- is no number of the type.
pub data Says (max : ℕ) : Option Text → Option ℕ → Type 0 where
  unset : Says max none none
  valid : (n : ℕ) → n ≤ max → Says max (some (format_uint n)) (some n)
  malformed : (val : Text) → parse_uint max val ≡ none → Says max (some val) none

parse_env-Says :
    (max default : ℕ) {o : Option Text} {setting : Option ℕ}
    → Says max o setting
    → parse_env max o default ≡ unwrap_or setting default
unfolding parse_env
parse_env-Says max default unset = refl
parse_env-Says max default (valid n fits) = rw (parse_uint-format_uint max n fits) refl
parse_env-Says max default (malformed val bad) = rw bad refl

-- One optional number for each variable.
pub record Settings : Type 0 where
  pub grpc_port : Option ℕ
  pub health_port : Option ℕ
  pub max_flows : Option ℕ
  pub flow_timeout_secs : Option ℕ
  pub max_pod_cache : Option ℕ
  pub broadcast_channel_size : Option ℕ
  pub poll_interval_ms : Option ℕ
  pub max_batch_size : Option ℕ
  pub shutdown_timeout_secs : Option ℕ
  pub expiration_interval_secs : Option ℕ
  pub max_query_limit : Option ℕ

-- The variables of the environment say so.
pub record Provides (var : Text → Option Text) (s : Settings) : Type 0 where
  pub grpc_port : Says u16_max (var (codes "ORB8_GRPC_PORT")) s.grpc_port
  pub health_port : Says u16_max (var (codes "ORB8_HEALTH_PORT")) s.health_port
  pub max_flows : Says u64_max (var (codes "ORB8_MAX_FLOWS")) s.max_flows
  pub flow_timeout_secs : Says u64_max (var (codes "ORB8_FLOW_TIMEOUT_SECS")) s.flow_timeout_secs
  pub max_pod_cache : Says u64_max (var (codes "ORB8_MAX_POD_CACHE")) s.max_pod_cache
  pub broadcast_channel_size :
      Says u64_max (var (codes "ORB8_BROADCAST_CHANNEL_SIZE")) s.broadcast_channel_size
  pub poll_interval_ms : Says u64_max (var (codes "ORB8_POLL_INTERVAL_MS")) s.poll_interval_ms
  pub max_batch_size : Says u64_max (var (codes "ORB8_MAX_BATCH_SIZE")) s.max_batch_size
  pub shutdown_timeout_secs :
      Says u64_max (var (codes "ORB8_SHUTDOWN_TIMEOUT_SECS")) s.shutdown_timeout_secs
  pub expiration_interval_secs :
      Says u64_max (var (codes "ORB8_EXPIRATION_INTERVAL_SECS")) s.expiration_interval_secs
  pub max_query_limit : Says u64_max (var (codes "ORB8_MAX_QUERY_LIMIT")) s.max_query_limit

-- The settings, with the documented defaults for those that are missing; durations in nanoseconds.
abbrev pub in_force : Settings → AgentConfig
in_force s = record {
  grpc_port = unwrap_or s.grpc_port 9090;
  health_port = unwrap_or s.health_port 9091;
  max_flows = unwrap_or s.max_flows 100000;
  flow_timeout = unwrap_or s.flow_timeout_secs 30 * 1000000000;
  max_pod_cache_entries = unwrap_or s.max_pod_cache 10000;
  broadcast_channel_size = unwrap_or s.broadcast_channel_size 1000;
  poll_interval = unwrap_or s.poll_interval_ms 100 * 1000000;
  max_batch_size = unwrap_or s.max_batch_size 1024;
  shutdown_timeout = unwrap_or s.shutdown_timeout_secs 10 * 1000000000;
  expiration_interval = unwrap_or s.expiration_interval_secs 10 * 1000000000;
  max_query_limit = unwrap_or s.max_query_limit 10000;
}

-- Each variable is read for itself: a number in decimal notation that fits the type of its setting
-- is in force, and one that is unset, or holds no such number, leaves the default of its setting.
pub from_env-in_force :
    (var : Text → Option Text) (s : Settings) → Provides var s → from_env var ≡ in_force s
unfolding from_env
from_env-in_force var s given = λ i. record {
  grpc_port = parse_env-Says u16_max 9090 given.grpc_port i;
  health_port = parse_env-Says u16_max 9091 given.health_port i;
  max_flows = parse_env-Says u64_max 100000 given.max_flows i;
  flow_timeout = from_secs (parse_env-Says u64_max 30 given.flow_timeout_secs i);
  max_pod_cache_entries = parse_env-Says u64_max 10000 given.max_pod_cache i;
  broadcast_channel_size = parse_env-Says u64_max 1000 given.broadcast_channel_size i;
  poll_interval = parse_env-Says u64_max 100 given.poll_interval_ms i * 1000000;
  max_batch_size = parse_env-Says u64_max 1024 given.max_batch_size i;
  shutdown_timeout = from_secs (parse_env-Says u64_max 10 given.shutdown_timeout_secs i);
  expiration_interval = from_secs (parse_env-Says u64_max 10 given.expiration_interval_secs i);
  max_query_limit = parse_env-Says u64_max 10000 given.max_query_limit i;
}
