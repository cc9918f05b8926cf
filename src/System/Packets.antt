-- ===== src/System/Packets.antt =====
-- From orb8-probes/src/network_probe.rs to orb8-agent/src/main.rs: the account of the packets, and what
-- each part of the agent does to it.
use orb.Prelude.{
  ℕ, ◌+◌, ◌<◌, ◌≡◌, refl, sym, ap, subst, Option, none, some, List, [], ◌∷◌, arith, length,
  length-append, filter, All, All-append, add_u64_exact, u64_mod,
}
use orb.Agent.{NetworkEvent}
use orb.Aggregator.Tasks.{Expirer}
use orb.Agent.Accounting.{delivered}
use orb.Aggregator
use orb.Aggregator.{FlowKey, FlowStats}
use orb.Common.{NetworkFlowEvent}
use orb.Common.Layout.{event_size, to_bytes, length-to_bytes}
use orb.Health.{set_probes_attached}
use orb.Net.{is_self_traffic}
use orb.PodCache.{PodMetadata}
use orb.Probe.{TcContext, Headers, Maps, read_headers}
use orb.Probe.Verdict.{IsAccounted, Effect}
use orb.Ring.{RingBuf}
use orb.System.{Move, State, start, expire_step, watched}
use orb.System.Frames.{Untouched, expire_step-frame}
use orb.Table.{Table}
use orb.Watcher.{Watcher}

-- Whether the probe captures a packet: it can read its headers.
abbrev pub captured_headers : Option (Option Headers) → ℕ
captured_headers (some (some h)) = 1
captured_headers _ = 0

-- How many packets are captured in a list of moves.
abbrev pub captured_by : Move → ℕ
captured_by (Move.arrive timestamp_ns ctx) = captured_headers (read_headers ctx)
captured_by (Move.leave timestamp_ns ctx) = captured_headers (read_headers ctx)
captured_by _ = 0

abbrev pub captured : List Move → ℕ
captured [] = 0
captured (m ∷ ms) = captured_by m + captured ms

-- The events of the agent's own traffic.
abbrev pub own_events : ℕ → List ℕ → List NetworkFlowEvent → List NetworkFlowEvent
own_events grpc_port local_ips = filter (λ event. is_self_traffic event grpc_port local_ips)

module _ (F : Table FlowKey FlowStats) (P : Table ℕ PodMetadata) (R : RingBuf) where
  -- `c` packets were captured, `o` of them the agent's own, and `l` lost behind a batch; every other
  -- one waits in the ring, was dropped by the probe, or was processed.
  pub record Balanced (c o l : ℕ) (s : State F P R) : Type 0 where
    pub sized : All (λ b. length b ≡ event_size) (R.pending s.maps.events)
    pub balanced :
        length (R.pending s.maps.events)
          + s.maps.events_dropped
          + s.agent.aggregator.events_processed
          + o
          + l
        ≡ c
    pub delivered_all : delivered F P s.agent ≡ s.agent.aggregator.events_processed

  -- The capture of a packet, by what the probe does to the maps.
  pub capture-Balanced :
      (c o l : ℕ) (s : State F P R) (timestamp_ns dir : ℕ) (ctx : TcContext)
      (h : Option (Option Headers)) (maps : Maps R)
      → c + captured_headers h < u64_mod
      → Effect R timestamp_ns dir ctx h s.maps maps
      → Balanced c o l s
      → Balanced (c + captured_headers h) o l (record s { maps = maps })
  capture-Balanced c o l s timestamp_ns dir ctx none maps room same b =
      subst (λ m. Balanced (c + 0) o l (record s { maps = m })) (sym same)
        (record {
          sized = b.sized;
          balanced = omega (arith, b.balanced);
          delivered_all = b.delivered_all;
        })
  capture-Balanced c o l s timestamp_ns dir ctx (some none) maps room same b =
      subst (λ m. Balanced (c + 0) o l (record s { maps = m })) (sym same)
        (record {
          sized = b.sized;
          balanced = omega (arith, b.balanced);
          delivered_all = b.delivered_all;
        })
  capture-Balanced c o l s timestamp_ns dir ctx (some (some h)) maps room
        (IsAccounted.submitted queued kept) b =
      record {
        sized = subst (All (λ b. length b ≡ event_size)) (sym queued) (
            All-append (λ b. length b ≡ event_size) (R.pending s.maps.events) _ b.sized
              (length-to_bytes _, tt));
        balanced = omega (
          arith,
          b.balanced,
          kept,
          ap (λ (q : List (List ℕ)). length q) queued,
          length-append {0} (R.pending s.maps.events) (to_bytes _ ∷ []),
        );
        delivered_all = b.delivered_all;
      }
  capture-Balanced c o l s timestamp_ns dir ctx (some (some h)) maps room
        (IsAccounted.dropped kept counted) b =
      let same : R.pending maps.events ≡ R.pending s.maps.events = ap R.pending kept in
      record {
        sized = subst (All (λ b. length b ≡ event_size)) (sym same) b.sized;
        balanced = omega (
          arith,
          b.balanced,
          counted,
          add_u64_exact s.maps.events_dropped 1 (omega (arith, b.balanced)),
          ap (λ (q : List (List ℕ)). length q) same,
        );
        delivered_all = b.delivered_all;
      }

  -- A change of the cache and of the health state that leaves the counter of broadcasts alone.
  pub watched-Balanced :
      (c o l : ℕ) (s : State F P R) (change : Watcher P → Watcher P)
      → Untouched P s.agent.health
          (change (record { cache = s.agent.pod_cache; health = s.agent.health }))
      → Balanced c o l s
      → Balanced c o l (record s { agent = watched F P R change s.agent })
  watched-Balanced c o l s change same b = record {
    sized = b.sized;
    balanced = b.balanced;
    delivered_all = omega (arith, b.delivered_all, same.1);
  }

  pub expire-Balanced :
      (c o l : ℕ) (s : State F P R) (next : Expirer)
      → Balanced c o l s
      → Balanced c o l (record s { agent = expire_step F P R s.expirer s.agent; expirer = next })
  expire-Balanced c o l s next b =
      let same = expire_step-frame F P R s.expirer s.agent in
      record {
        sized = b.sized;
        balanced = omega (arith, b.balanced, same.0);
        delivered_all = omega (
          arith,
          b.delivered_all,
          same.0,
          same.1,
          ap (λ (q : List NetworkEvent). length q) same.3,
        );
      }

  -- The same counts, spelled otherwise.
  pub Balanced-subst :
      (c c' o o' l l' : ℕ) (s : State F P R)
      → c ≡ c'
      → o ≡ o'
      → l ≡ l'
      → Balanced c o l s
      → Balanced c' o' l' s
  Balanced-subst c c' o o' l l' s same_c same_o same_l b = record {
    sized = b.sized;
    balanced = omega (arith, b.balanced);
    delivered_all = b.delivered_all;
  }

  pub start-Balanced :
      (max_flows flow_timeout max_entries : ℕ) (ring : R.Ring)
      → R.pending ring ≡ []
      → Balanced 0 0 0 (start F P R max_flows flow_timeout max_entries ring)
  unfolding start Aggregator.new set_probes_attached
  start-Balanced max_flows flow_timeout max_entries ring empty = record {
    sized = subst (All (λ b. length b ≡ event_size)) (sym empty) tt;
    balanced = omega (arith, ap (λ (q : List (List ℕ)). length q) empty);
    delivered_all = refl;
  }
