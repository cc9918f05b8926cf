-- ===== src/System/Safety.antt =====
-- The state that the parts of orb8-agent/src/ share: both tables stay within their bounds whatever
-- the order in which the parts act.
use orb.Prelude.{
  ℕ, ◌≤◌, ◌≡◌, refl, suc, subst, sym, ◌∙◌, inl, inr, Bool, true, false, Option, ap, List, [], ◌∷◌,
  arith, Bool-cases,
}
use orb.Prelude.Text.{Text}
use Prim.Native.Nat.{max}
use orb.Aggregator
use orb.Aggregator.Tasks.{Expirer}
use orb.PodCache
use orb.Agent.{
  AgentState, Moment, NetworkEvent, attribution, broadcast, handle_event, handle_events,
  network_event, poll_round, record_flow,
}
use orb.Aggregator.{FlowKey, FlowStats, process_event}
use orb.Aggregator.Bounds.{process_event-bounded, process_event-max_flows}
use orb.Common.{NetworkFlowEvent}
use orb.Health.{HealthState, inc_broadcast_drops, set_probes_attached}
use orb.Net.{is_self_traffic}
use orb.PodCache.{PodMetadata, PodCache, insert_pod_ip, insert_ip}
use orb.PodCache.Bounds as PodBounds
use orb.Ring.{RingBuf}
use orb.System.{Move, State, start, expire_step, watched, poll_step, step, run}
use orb.System.Limits.{Limited, Limited-IsClosed}
use orb.System.Frames.{process_event-pod_flag, expire_step-frame}
use orb.Table.{Table}
use orb.Watcher
use orb.Watcher.{with_cache, Watcher, resync_all, set_connected}
use orb.Watcher.Induction.{handle_event-Kept, resync_all-Kept}
use orb.Watcher.Safety.{IsSafe, handle_event-IsSafe, resync_all-IsSafe, set_connected-IsSafe}

module _ (F : Table FlowKey FlowStats) (P : Table ℕ PodMetadata) (max_flows max_entries : ℕ) where
  -- The table of flows keeps its limit, and the cache its invariant.
  pub record IsSound (s : AgentState F P) : Type 0 where
    pub limit : s.aggregator.max_flows ≡ max_flows
    pub flows : F.len s.aggregator.flows ≤ max max_flows 1
    pub entries : s.pod_cache.max_entries ≡ max_entries
    pub pods : PodBounds.IsValid P s.pod_cache s.health

  broadcast-IsSound :
      (has_receivers : Bool) (message : NetworkEvent) (s : AgentState F P)
      → IsSound s
      → IsSound (broadcast F P has_receivers message s)
  unfolding broadcast inc_broadcast_drops
  broadcast-IsSound true message s sound = record {
    limit = sound.limit;
    flows = sound.flows;
    entries = sound.entries;
    pods = sound.pods;
  }
  broadcast-IsSound false message s sound = record {
    limit = sound.limit;
    flows = sound.flows;
    entries = sound.entries;
    pods = record {
      bounded = sound.pods.bounded;
      keyed = sound.pods.keyed;
      truthful = sound.pods.truthful;
    };
  }

  -- The pod cache with a health state that reports the same of it.
  pods-IsValid :
      (s : AgentState F P) (h : HealthState)
      → h.pod_cache_at_capacity ≡ s.health.pod_cache_at_capacity
      → PodBounds.IsValid P s.pod_cache s.health
      → PodBounds.IsValid P s.pod_cache h
  pods-IsValid s h same valid = record {
    bounded = valid.bounded;
    keyed = valid.keyed;
    truthful = λ full. valid.truthful (sym same ∙ full);
  }

  record_flow-IsSound :
      (moment : Moment) (event : NetworkFlowEvent) (names : Text × Text) (s : AgentState F P)
      → IsSound s
      → IsSound (record_flow F P moment event names s)
  unfolding record_flow
  record_flow-IsSound moment event names s sound =
      let kept = process_event-max_flows F moment.now event names.0 names.1 s.aggregator s.health in
      broadcast-IsSound moment.has_receivers (network_event event names.0 names.1) _ (record {
        limit = kept ∙ sound.limit;
        flows = omega (
          arith,
          kept,
          sound.limit,
          process_event-bounded F moment.now event names.0 names.1 s.aggregator s.health
              (omega (arith, sound.limit, sound.flows)),
        );
        entries = sound.entries;
        pods =
            pods-IsValid s _
              (process_event-pod_flag F moment.now event names.0 names.1 s.aggregator s.health)
              sound.pods;
      })

  expire_step-IsSound :
      (R : RingBuf) (x : Expirer) (s : AgentState F P) → IsSound s → IsSound (expire_step F P R x s)
  expire_step-IsSound R x s sound =
      let (processed, drops, flag, sent, cache, kept, shrunk) = expire_step-frame F P R x s in
      record {
        limit = kept ∙ sound.limit;
        flows = omega (arith, sound.flows, shrunk);
        entries = ap (λ (c : PodCache P). c.max_entries) cache ∙ sound.entries;
        pods =
            subst (λ c. PodBounds.IsValid P c (expire_step F P R x s).health) (sym cache)
              (pods-IsValid s (expire_step F P R x s).health flag sound.pods);
      }

  pub watched-IsSound :
      (R : RingBuf) (change : Watcher P → Watcher P) (s : AgentState F P)
      → (let w = change (record { cache = s.pod_cache; health = s.health }) in
          Limited P max_entries w × IsSafe P w)
      → IsSound s
      → IsSound (watched F P R change s)
  watched-IsSound R change s (same, safe) sound = record {
    limit = sound.limit;
    flows = sound.flows;
    entries = same;
    pods = safe;
  }

  module _ (grpc_port : ℕ) (local_ips : List ℕ) where
    handle_event-IsSound :
        (moment : Moment) (event : NetworkFlowEvent) (s : AgentState F P)
        → IsSound s
        → IsSound (handle_event F P grpc_port local_ips moment event s)
    unfolding handle_event
    handle_event-IsSound moment event s sound =
        elim (Bool-cases (is_self_traffic event grpc_port local_ips)) [
          | inl e ↦ rw e sound
          | inr e ↦ rw e (record_flow-IsSound moment event (attribution F P event s) s sound)
        ]

    handle_events-IsSound :
        (moments : ℕ → Moment) (i : ℕ) (events : List NetworkFlowEvent) (s : AgentState F P)
        → IsSound s
        → IsSound (handle_events F P grpc_port local_ips moments i events s)
    unfolding handle_events
    handle_events-IsSound moments i [] s sound = sound
    handle_events-IsSound moments i (event ∷ events) s sound =
        handle_events-IsSound moments (suc i) events _
          (handle_event-IsSound (moments i) event s sound)

    module _ (R : RingBuf) (resolve : Text → Text → Option ℕ) (max_batch_size : ℕ) where
      pub step-IsSound :
          (m : Move) (s : State F P R)
          → IsSound s.agent
          → IsSound (step F P R resolve grpc_port local_ips max_batch_size m s).agent
      unfolding step poll_step poll_round
      step-IsSound (Move.arrive timestamp_ns ctx) s sound = sound
      step-IsSound (Move.leave timestamp_ns ctx) s sound = sound
      step-IsSound (Move.poll moments reader) s sound =
          handle_events-IsSound moments 0 _ _ (record {
            limit = sound.limit;
            flows = sound.flows;
            entries = sound.entries;
            pods = sound.pods;
          })
      step-IsSound (Move.expire now) s sound = expire_step-IsSound R s.expirer s.agent sound
      step-IsSound (Move.watch event) s sound =
          let w : Watcher P = record { cache = s.agent.pod_cache; health = s.agent.health } in
          watched-IsSound R (Watcher.handle_event P resolve event) s.agent
            (
              handle_event-Kept P resolve (Limited P max_entries) (Limited-IsClosed P max_entries)
                  event w sound.entries,
              handle_event-IsSafe P resolve event w sound.pods,
            )
            sound
      step-IsSound Move.disconnect s sound =
          let w : Watcher P = record { cache = s.agent.pod_cache; health = s.agent.health } in
          watched-IsSound R (set_connected P false) s.agent
            (
              (Limited-IsClosed P max_entries).set_connected false w sound.entries,
              set_connected-IsSafe P resolve false w sound.pods,
            )
            sound
      step-IsSound (Move.resync listed) s sound =
          let w : Watcher P = record { cache = s.agent.pod_cache; health = s.agent.health } in
          watched-IsSound R (resync_all P resolve listed) s.agent
            (
              resync_all-Kept P resolve (Limited P max_entries) (Limited-IsClosed P max_entries)
                  listed w sound.entries,
              resync_all-IsSafe P resolve listed w sound.pods,
            )
            sound

      run-IsSound :
          (ms : List Move) (s : State F P R)
          → IsSound s.agent
          → IsSound (run F P R resolve grpc_port local_ips max_batch_size ms s).agent
      unfolding run
      run-IsSound [] s sound = sound
      run-IsSound (m ∷ ms) s sound = run-IsSound ms _ (step-IsSound m s sound)

      pub start-IsSound :
          (flow_timeout : ℕ) (ring : R.Ring)
          → IsSound (start F P R max_flows flow_timeout max_entries ring).agent
      unfolding start Aggregator.new PodCache.new set_probes_attached
      start-IsSound flow_timeout ring = record {
        limit = refl;
        flows = omega (arith, F.len-empty);
        entries = refl;
        pods = record {
          bounded = omega (arith, P.len-empty);
          keyed = λ ip v e. cc (P.get-empty ip);
          truthful = λ e. cc;
        };
      }

      -- After every list of moves from the start, in which each expiration may be interrupted between
      -- any two of its calls, the table of flows holds at most its limit (one, if the limit is 0);
      -- the map of pods by address holds at most its limit, each pod in it under its own address, and
      -- the health state reports a full cache only while the map is full.
      pub run-start-IsSound :
          (flow_timeout : ℕ) (ring : R.Ring) (ms : List Move)
          → IsSound
              (run F P R resolve grpc_port local_ips max_batch_size ms
                (start F P R max_flows flow_timeout max_entries ring)).agent
      run-start-IsSound flow_timeout ring ms =
          run-IsSound ms (start F P R max_flows flow_timeout max_entries ring)
            (start-IsSound flow_timeout ring)
