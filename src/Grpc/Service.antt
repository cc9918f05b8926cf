-- ===== src/Grpc/Service.antt =====
-- orb8-agent/src/grpc_server.rs: the service that the server is built from. What it shares with the
-- other tasks, that is the table of flows, the cache, the health state and the drop counter, stands in
-- the state of the agent; the record has what is the service's own.
use orb.Prelude.{ℕ, Bool, Option, unwrap_or, or_else, if◌then◌else◌}
use orb.Prelude.Text.{Text, codes}
use orb.Prelude.Results.{Result, ok, error, ◌>>=◌}

-- The part of `ServerConfig` that is not shared; its address is that of every interface.
pub record ServerConfig : Type 0 where
  pub port : ℕ
  pub broadcast_channel_size : ℕ
  pub max_query_limit : ℕ

pub record AgentService : Type 0 where
  pub node_name : Text
  pub start_time : ℕ
  pub channel_size : ℕ
  pub max_query_limit : ℕ

pub data ServerError : Type 0 where
  channel_panic : ServerError

-- `broadcast::channel` of the crate `tokio` panics for a size that it does not accept.
abbrev pub channel : (ℕ → Bool) → ℕ → Result ServerError ℕ
channel accepts size = if accepts size then ok size else error channel_panic

-- `AgentService::new`, at the time `now`
unfoldable pub new : (ℕ → Bool) → Text → ℕ → ℕ → ℕ → Result ServerError AgentService
new accepts node_name broadcast_channel_size max_query_limit now = do
  channel_size ← channel accepts broadcast_channel_size
  ok (record {
    node_name = node_name;
    start_time = now;
    channel_size = channel_size;
    max_query_limit = max_query_limit;
  })

-- The variable NODE_NAME, or else the name of the host, if it can be read.
unfoldable pub node_name_of : Option Text → Option Text → Text
node_name_of var hostname = unwrap_or (or_else var hostname) (codes "unknown")

-- The service that the task of the server serves.
unfoldable pub start_server :
    (ℕ → Bool) → ServerConfig → Option Text → Option Text → ℕ → Result ServerError AgentService
start_server accepts config var hostname now =
    new accepts (node_name_of var hostname) config.broadcast_channel_size config.max_query_limit now
