-- ===== src/Config.antt =====
-- orb8-agent/src/config.rs: the settings of the agent, from its environment.
pub mod Settings
pub mod Overrides
use orb.Prelude.{ℕ, ◌*◌, ◌^◌, ◌-◌, Option, none, some, unwrap_or}
use orb.Prelude.Decimal.{parse_uint}
use orb.Prelude.Text.{Text, codes}

-- Durations are in nanoseconds, as the clock of the aggregator and of the watcher.
pub record AgentConfig : Type 0 where
  pub grpc_port : ℕ
  pub health_port : ℕ
  pub max_flows : ℕ
  pub flow_timeout : ℕ
  pub max_pod_cache_entries : ℕ
  pub broadcast_channel_size : ℕ
  pub poll_interval : ℕ
  pub max_batch_size : ℕ
  pub shutdown_timeout : ℕ
  pub expiration_interval : ℕ
  pub max_query_limit : ℕ

-- `Duration::from_secs`
abbrev pub from_secs : ℕ → ℕ
from_secs n = n * 1000000000

-- `Duration::from_millis`
abbrev pub from_millis : ℕ → ℕ
from_millis n = n * 1000000

-- `AgentConfig::default`
abbrev pub defaults : AgentConfig
defaults = record {
  grpc_port = 9090;
  health_port = 9091;
  max_flows = 100000;
  flow_timeout = from_secs 30;
  max_pod_cache_entries = 10000;
  broadcast_channel_size = 1000;
  poll_interval = from_millis 100;
  max_batch_size = 1024;
  shutdown_timeout = from_secs 10;
  expiration_interval = from_secs 10;
  max_query_limit = 10000;
}

abbrev pub u16_max : ℕ
u16_max = 2 ^ 16 - 1

-- The largest u64, and the largest usize of 64 bits.
abbrev pub u64_max : ℕ
u64_max = 2 ^ 64 - 1

-- `parse_env` at a type whose largest value is `max`, for what the variable holds.
unfoldable pub parse_env : ℕ → Option Text → ℕ → ℕ
parse_env max none default = default
parse_env max (some val) default = unwrap_or (parse_uint max val) default

-- `std::env::var` is the argument; a variable that is not UTF-8 counts as missing.
unfoldable pub from_env : (Text → Option Text) → AgentConfig
from_env var = record {
  grpc_port = parse_env u16_max (var (codes "ORB8_GRPC_PORT")) 9090;
  health_port = parse_env u16_max (var (codes "ORB8_HEALTH_PORT")) 9091;
  max_flows = parse_env u64_max (var (codes "ORB8_MAX_FLOWS")) 100000;
  flow_timeout = from_secs (parse_env u64_max (var (codes "ORB8_FLOW_TIMEOUT_SECS")) 30);
  max_pod_cache_entries = parse_env u64_max (var (codes "ORB8_MAX_POD_CACHE")) 10000;
  broadcast_channel_size = parse_env u64_max (var (codes "ORB8_BROADCAST_CHANNEL_SIZE")) 1000;
  poll_interval = from_millis (parse_env u64_max (var (codes "ORB8_POLL_INTERVAL_MS")) 100);
  max_batch_size = parse_env u64_max (var (codes "ORB8_MAX_BATCH_SIZE")) 1024;
  shutdown_timeout = from_secs (parse_env u64_max (var (codes "ORB8_SHUTDOWN_TIMEOUT_SECS")) 10);
  expiration_interval =
      from_secs (parse_env u64_max (var (codes "ORB8_EXPIRATION_INTERVAL_SECS")) 10);
  max_query_limit = parse_env u64_max (var (codes "ORB8_MAX_QUERY_LIMIT")) 10000;
}
