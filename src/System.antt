-- ===== src/System.antt =====
-- The agent as a whole: orb8-probes/src/network_probe.rs writes the ring buffer, the main loop of
-- orb8-agent/src/main.rs reads it, and the tasks that orb8-agent/src/main.rs starts beside the loop
-- expire flows and watch the pods. A move is one action of one of them, or of the environment; a
-- list of moves is one interleaving. An expiration takes five moves, one for each call of the map
-- and one for the flag, between which the others act.
pub mod Frames
pub mod Packets
pub mod Ledger
pub mod Limits
pub mod Safety
pub mod Drain
pub mod Journey
use orb.Prelude.{
  ℕ, ◌+◌, Bool, Option, none, some, List, [], ◌∷◌, if◌then◌else◌, length, filter, map_option, ltb,
}
use orb.Prelude.Text.{Text}
use orb.Agent.{AgentState, Moment, poll_round}
use orb.Aggregator
use orb.Aggregator.{FlowKey, FlowStats, is_fresh}
use orb.Aggregator.Tasks.{Expirer, with_flows, lowered}
use orb.Common.{NetworkFlowEvent}
use orb.Health
use orb.Net.{is_self_traffic}
use orb.PodCache
use orb.PodCache.{PodMetadata}
use orb.Probe.{TcContext, Maps, network_probe, network_probe_egress, read_headers}
use orb.ProbeLoader.{poll_events}
use orb.Ring.{RingBuf}
use orb.Table.{Table}
use orb.Watcher.{Event, Pod, Watcher, handle_event, resync_all, set_connected}

-- The drop counter as the loop sees it: there is no reader of the map, the read fails, or it succeeds.
pub data Reader : Type 0 where
  missing broken working : Reader

pub data Move : Type 0 where
  -- a packet that comes in or goes out, with the time
  arrive : ℕ → TcContext → Move
  leave : ℕ → TcContext → Move
  -- a round of the main loop
  poll : (ℕ → Moment) → Reader → Move
  -- the next step of the expiration task, with the time
  expire : ℕ → Move
  -- the watcher: an event of the stream, the failure of the stream, and a resync
  watch : Event → Move
  disconnect : Move
  resync : Option (List Pod) → Move

abbrev pub read_of : Reader → ℕ → Option (Option ℕ)
read_of Reader.missing dropped = none
read_of Reader.broken dropped = some none
read_of Reader.working dropped = some (some dropped)

module _ (F : Table FlowKey FlowStats) (P : Table ℕ PodMetadata) (R : RingBuf) where
  pub record State : Type 0 where
    pub agent : AgentState F P
    pub maps : Maps R
    -- where the expiration task stands
    pub expirer : Expirer

  -- The state when the main loop starts, with an empty ring and the probes attached.
  unfoldable pub start : ℕ → ℕ → ℕ → R.Ring → State
  start max_flows flow_timeout max_entries ring = record {
    agent = record {
      aggregator = Aggregator.new F max_flows flow_timeout;
      pod_cache = PodCache.new P max_entries;
      health = Health.set_probes_attached Bool.true Health.new;
      events_dropped = 0;
      sent = [];
    };
    maps = record { events = ring; events_dropped = 0 };
    expirer = Expirer.idle;
  }

  -- What one step of `expire_old_flows` does: the call of `retain`, or the change of the flag.
  unfoldable pub expire_step : Expirer → AgentState F P → AgentState F P
  expire_step (Expirer.started now before) s = record s {
    aggregator =
        with_flows F (F.retain s.aggregator.flows (is_fresh F now s.aggregator.flow_timeout))
          s.aggregator;
  }
  expire_step (Expirer.lowering len) s = record s { health = lowered F len s.aggregator s.health }
  expire_step _ s = s

  -- Where the task stands behind the step, with the length that the step has read.
  unfoldable pub expire_next : ℕ → Expirer → AgentState F P → Expirer
  expire_next now Expirer.idle s = Expirer.started now (F.len s.aggregator.flows)
  expire_next now (Expirer.started since before) s = Expirer.retained before
  expire_next now (Expirer.retained before) s = Expirer.counted before (F.len s.aggregator.flows)
  expire_next now (Expirer.counted before after) s = Expirer.lowering (F.len s.aggregator.flows)
  expire_next now (Expirer.lowering len) s = Expirer.idle

  -- A change by the watcher, which shares the cache and the health state with the loop.
  abbrev pub watched : (Watcher P → Watcher P) → AgentState F P → AgentState F P
  watched change s =
      let w = change (record { cache = s.pod_cache; health = s.health }) in
      record s { pod_cache = w.cache; health = w.health }

  module _ (resolve : Text → Text → Option ℕ) (grpc_port : ℕ) (local_ips : List ℕ)
      (max_batch_size : ℕ) where
    unfoldable pub poll_step : (ℕ → Moment) → Reader → State → State
    poll_step moments reader s =
        let (agent, events) =
          poll_round F P grpc_port local_ips R max_batch_size moments
            (read_of reader s.maps.events_dropped) s.maps.events s.agent in
        record s { agent = agent; maps = record s.maps { events = events } }

    unfoldable pub step : Move → State → State
    step (Move.arrive timestamp_ns ctx) s = record s {
      maps = (network_probe R timestamp_ns ctx s.maps).1;
    }
    step (Move.leave timestamp_ns ctx) s = record s {
      maps = (network_probe_egress R timestamp_ns ctx s.maps).1;
    }
    step (Move.poll moments reader) s = poll_step moments reader s
    step (Move.expire now) s = record s {
      agent = expire_step s.expirer s.agent;
      expirer = expire_next now s.expirer s.agent;
    }
    step (Move.watch event) s = record s { agent = watched (handle_event P resolve event) s.agent }
    step Move.disconnect s = record s { agent = watched (set_connected P Bool.false) s.agent }
    step (Move.resync listed) s = record s { agent = watched (resync_all P resolve listed) s.agent }

    unfoldable pub run : List Move → State → State
    run [] s = s
    run (m ∷ ms) s = run ms (step m s)
