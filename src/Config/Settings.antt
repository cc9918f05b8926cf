-- ===== src/Config/Settings.antt =====
-- orb8-agent/src/config.rs: which settings an environment gives.
use orb.Prelude.{ℕ, ◌≤◌, ◌≡◌, ap, Option, none, some, arith, Option-cases, inl, inr}
use orb.Prelude.Decimal.{format_uint, parse_uint}
use orb.Prelude.Decimal.RoundTrip.{parse_uint-format_uint}
use orb.Prelude.Text.{Text, codes}
use orb.Config.{defaults, parse_env, from_env, u16_max, u64_max, from_secs, from_millis}
use orb.Net.Parsing.{parse_uint-le}

-- An environment without settings gives the defaults.
pub from_env_unset :
    (var : Text → Option Text) → ((key : Text) → var key ≡ none) → from_env var ≡ defaults
unfolding from_env parse_env
from_env_unset var unset = λ i. record {
  grpc_port = default u16_max 9090 (codes "ORB8_GRPC_PORT") i;
  health_port = default u16_max 9091 (codes "ORB8_HEALTH_PORT") i;
  max_flows = default u64_max 100000 (codes "ORB8_MAX_FLOWS") i;
  flow_timeout = from_secs (default u64_max 30 (codes "ORB8_FLOW_TIMEOUT_SECS") i);
  max_pod_cache_entries = default u64_max 10000 (codes "ORB8_MAX_POD_CACHE") i;
  broadcast_channel_size = default u64_max 1000 (codes "ORB8_BROADCAST_CHANNEL_SIZE") i;
  poll_interval = from_millis (default u64_max 100 (codes "ORB8_POLL_INTERVAL_MS") i);
  max_batch_size = default u64_max 1024 (codes "ORB8_MAX_BATCH_SIZE") i;
  shutdown_timeout = from_secs (default u64_max 10 (codes "ORB8_SHUTDOWN_TIMEOUT_SECS") i);
  expiration_interval = from_secs (default u64_max 10 (codes "ORB8_EXPIRATION_INTERVAL_SECS") i);
  max_query_limit = default u64_max 10000 (codes "ORB8_MAX_QUERY_LIMIT") i;
}
  where
    default : (max n : ℕ) (key : Text) → parse_env max (var key) n ≡ n
    default max n key = ap (λ o. parse_env max o n) (unset key)

parse_env_set : (max n default : ℕ) → n ≤ max → parse_env max (some (format_uint n)) default ≡ n
unfolding parse_env
parse_env_set max n default fits = rw (parse_uint-format_uint max n fits)

parse_env-le : (max default : ℕ) (o : Option Text) → default ≤ max → parse_env max o default ≤ max
unfolding parse_env
parse_env-le max default none fits = fits
parse_env-le max default (some val) fits = elim (Option-cases (parse_uint max val)) [
  | inl bad ↦ rw bad fits
  | inr (n, good) ↦ rw good (parse_uint-le max val n good)
]

-- A limit that the environment sets to a number in decimal notation is in force, and whatever the
-- environment holds, the two ports fit 16 bits. The number has to fit 64 bits.
pub from_env_set :
    (var : Text → Option Text) (n : ℕ)
    → n ≤ u64_max
    → var (codes "ORB8_MAX_FLOWS") ≡ some (format_uint n)
    → ((from_env var).max_flows ≡ n)
      × ((from_env var).grpc_port ≤ u16_max)
      × ((from_env var).health_port ≤ u16_max)
unfolding from_env
from_env_set var n fits set = (
  rw set (parse_env_set u64_max n 100000 fits),
  parse_env-le u16_max 9090 (var (codes "ORB8_GRPC_PORT")) (omega arith),
  parse_env-le u16_max 9091 (var (codes "ORB8_HEALTH_PORT")) (omega arith),
)
