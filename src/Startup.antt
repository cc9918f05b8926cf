-- ===== src/Startup.antt =====
-- orb8-agent/src/main.rs: the start of the agent up to its loop, the signals that end the loop, and
-- the shutdown.
pub mod Ready
pub mod Shutdown
use Prim.Native.Nat.{max}
use orb.Prelude.{ℕ, Bool, true, false, Option, none, some, List, [], ◌∷◌, ◌++◌, if◌then◌else◌, leb}
use orb.Prelude.Text.{Text, codes}
use orb.Prelude.Results.{Result, ok, error, ◌>>=◌}
use orb.Aggregator.{FlowKey, FlowStats}
use orb.Bpf.{Bpf}
use orb.Agent.{AgentState}
use orb.Watcher
use orb.Watcher.{Round}
use orb.Config.{AgentConfig, from_env, from_secs}
use orb.Grpc.Service.{ServerConfig, AgentService, ServerError, start_server}
use orb.Net.{resolve_local_ips}
use orb.PodCache.{PodMetadata}
use orb.ProbeLoader.{Host, KernelError, discover_interfaces}
use orb.ProbeLoader.Attach.{AttachError, attach_to_interfaces}
use orb.ProbeLoader.Manager
use orb.ProbeLoader.Manager.{
  Preflight, NewError, EventsMap, RingError, PinCalls, or_error, events_ring_buf,
  events_dropped_reader,
}
use orb.Ring.{RingBuf}
use orb.System.{Move, State, start, step, watched}
use orb.Table.{Table}

-- The tasks that are started beside the main loop, in the order of their handles.
pub data Task : Type 0 where
  pod_watcher grpc_server health_server expiration : Task

-- Why the agent ends before its loop. The channel of the server and the handler of SIGTERM end it by
-- a panic.
pub data Failure : Type 0 where
  not_served : ServerError → Failure
  not_created : NewError → Failure
  not_attached : AttachError → Failure
  no_ring : RingError → Failure
  sigterm_panic : Failure

-- What the start reads of its surroundings: the environment, the answers of its calls, and the sizes
-- that a broadcast channel accepts. The task of the watcher, which runs from its beginning on, meets
-- `rounds` until the loop begins; a last round that is still under way is one that a cancellation
-- ends. The probes, once attached, have left `events` and `events_dropped` by then.
pub record World (B : Bpf) (R : RingBuf) : Type 0 where
  pub var : Text → Option Text
  pub kubernetes_available : Bool
  pub hostname : Option Text
  pub channel_accepts : ℕ → Bool
  pub now : ℕ
  pub preflight : Preflight
  pub object : Option B.Object
  pub host : Host
  pub fib_trie : Option Text
  pub pin_calls : PinCalls
  pub pin_left : Bool
  pub events : EventsMap R
  pub events_dropped : ℕ
  pub rounds : List Round
  pub resolve : Text → Text → Option ℕ
  pub sigterm_registered : Bool

-- What happens while the loop runs.
pub data Occurrence : Type 0 where
  sigint sigterm : Occurrence
  act : Move → Occurrence

abbrev pub server_config : AgentConfig → ServerConfig
server_config config = record {
  port = config.grpc_port;
  broadcast_channel_size = config.broadcast_channel_size;
  max_query_limit = config.max_query_limit;
}

module _ (B : Bpf) (F : Table FlowKey FlowStats) (P : Table ℕ PodMetadata) (R : RingBuf) where
  -- What the loop starts with.
  pub record Running : Type 0 where
    pub config : AgentConfig
    pub state : State F P R
    pub bpf : B.Object
    pub service : AgentService
    pub handles : List Task
    pub local_ips : List ℕ
    pub has_drop_counter : Bool
    pub k8s_enabled : Bool

  -- The pods that the watcher has found so far, if there is one. The bounds of its backoff are one
  -- second and thirty.
  unfoldable pub watched_pods : World B R → AgentState F P → AgentState F P
  watched_pods w s =
      if w.kubernetes_available
      then watched F P R
          (λ watcher. (Watcher.run P w.resolve (from_secs 1) (from_secs 30) w.rounds watcher).1) s
      else s

  -- The state in which the loop begins.
  unfoldable pub begin : World B R → AgentConfig → R.Ring → State F P R
  begin w config ring =
      let s = start F P R config.max_flows config.flow_timeout config.max_pod_cache_entries ring in
      record s {
        agent = watched_pods w s.agent;
        maps = record { events = ring; events_dropped = w.events_dropped };
      }

  abbrev pub register_sigterm : Bool → Result Failure Unit
  register_sigterm registered = if registered then ok tt else error Failure.sigterm_panic

  unfoldable pub startup : World B R → Result Failure Running
  startup w = do
    service ← or_error Failure.not_served (
        start_server w.channel_accepts (server_config (from_env w.var)) (w.var (codes "NODE_NAME"))
          w.hostname w.now)
    manager ← or_error Failure.not_created (Manager.new w.preflight w.object)
    bpf ←
        or_error Failure.not_attached (attach_to_interfaces B (discover_interfaces w.host) manager)
    ring ← or_error Failure.no_ring (events_ring_buf R w.events)
    _ ← register_sigterm w.sigterm_registered
    ok (record {
      config = from_env w.var;
      state = begin w (from_env w.var) ring;
      bpf = bpf;
      service = service;
      handles =
          (if w.kubernetes_available then Task.pod_watcher ∷ [] else [])
          ++ Task.grpc_server ∷ Task.health_server ∷ Task.expiration ∷ [];
      local_ips = resolve_local_ips w.fib_trie;
      has_drop_counter = (events_dropped_reader w.pin_calls w.pin_left).0;
      k8s_enabled = w.kubernetes_available;
    })

-- The end of the task, in the time since the signal, or `none` if it never ends.
abbrev pub join : Option ℕ → ℕ → Option ℕ
join none now = none
join (some end) now = some (max now end)

-- `for handle in handles { handle.await }`: the time at which the last of them was awaited.
unfoldable pub join_all : List (Option ℕ) → ℕ → Option ℕ
join_all [] now = some now
join_all (end ∷ ends) now = elim (join end now) [ none ↦ none | some now' ↦ join_all ends now' ]

pub data Outcome : Type 0 where
  clean timed_out : ℕ → Outcome

-- `timeout` gives up at the deadline.
abbrev pub before_deadline : ℕ → Option ℕ → Outcome
before_deadline deadline none = Outcome.timed_out deadline
before_deadline deadline (some end) =
    if leb end deadline then Outcome.clean end else Outcome.timed_out deadline

unfoldable pub shutdown : ℕ → List (Option ℕ) → Outcome
shutdown deadline ends = before_deadline deadline (join_all ends 0)

module _ (F : Table FlowKey FlowStats) (P : Table ℕ PodMetadata) (R : RingBuf) where
  -- A signal cancels the tasks and ends the loop; what occurs behind it is left.
  pub data Loop : Type 0 where
    waiting : State F P R → Loop
    cancelled : State F P R → List Occurrence → Loop

  module _ (resolve : Text → Text → Option ℕ) (grpc_port : ℕ) (local_ips : List ℕ)
      (max_batch_size : ℕ) where
    unfoldable pub main_loop : List Occurrence → State F P R → Loop
    main_loop [] s = Loop.waiting s
    main_loop (Occurrence.sigint ∷ rest) s = Loop.cancelled s rest
    main_loop (Occurrence.sigterm ∷ rest) s = Loop.cancelled s rest
    main_loop (Occurrence.act m ∷ rest) s =
        main_loop rest (step F P R resolve grpc_port local_ips max_batch_size m s)
