-- ===== src/System/Ledger.antt =====
-- From orb8-probes/src/network_probe.rs to orb8-agent/src/main.rs: what becomes of each packet.
use Prim.Native.Nat.{min}
use orb.Prelude.{
  ℕ, suc, ◌+◌, ◌-◌, ◌<◌, ◌≡◌, refl, sym, ap, subst, ◌∙◌, false, Option, List, [], ◌∷◌, arith,
  if◌then◌else◌, ltb, length, length-map, length-take, length-drop, length-filter-not, take, All,
  All-drop, u64_mod, unwrap_or, map_option,
}
use orb.Prelude.Text.{Text}
use orb.Agent.{AgentState, Moment, poll_round}
use orb.Agent.Accounting.{foreign, handle_events_lem}
use orb.Aggregator.{FlowKey, FlowStats}
use orb.Common.{NetworkFlowEvent}
use orb.Common.Layout.{event_size, of_bytes}
use orb.Net.{is_self_traffic}
use orb.PodCache.{PodMetadata}
use orb.Probe.{read_headers}
use orb.Probe.Verdict.{network_probes_lem}
use orb.ProbeLoader.{poll_events, read_events_dropped}
use orb.ProbeLoader.Polling.{poll_events_lem}
use orb.Ring.{RingBuf}
use orb.System.{Reader, Move, read_of, State, start, poll_step, step, run}
use orb.System.Frames.{Untouched, Untouched-IsClosed}
use orb.Table.{Table}
use orb.Watcher.{handle_event, resync_all, set_connected}
use orb.Watcher.Induction.{handle_event-Kept, resync_all-Kept}
use orb.System.Packets.{
  captured_by, captured, own_events, Balanced, capture-Balanced, watched-Balanced, expire-Balanced,
  Balanced-subst, start-Balanced,
}

module _ (F : Table FlowKey FlowStats) (P : Table ℕ PodMetadata) (R : RingBuf) where
  module _ (resolve : Text → Text → Option ℕ) (grpc_port : ℕ) (local_ips : List ℕ)
      (max_batch_size : ℕ) where
    -- The events of the next poll that are filtered out.
    abbrev pub own_by : Move → State F P R → ℕ
    own_by (Move.poll moments reader) s =
        length (own_events grpc_port local_ips (poll_events R max_batch_size s.maps.events).0)
    own_by _ s = 0

    -- The record that the next poll consumes behind a full batch.
    abbrev pub lost_by : Move → State F P R → ℕ
    lost_by (Move.poll moments reader) s =
        if ltb max_batch_size (length (R.pending s.maps.events)) then 1 else 0
    lost_by _ s = 0

    abbrev pub own : List Move → State F P R → ℕ
    own [] s = 0
    own (m ∷ ms) s = own_by m s + own ms (step F P R resolve grpc_port local_ips max_batch_size m s)

    abbrev pub lost : List Move → State F P R → ℕ
    lost [] s = 0
    lost (m ∷ ms) s =
        lost_by m s + lost ms (step F P R resolve grpc_port local_ips max_batch_size m s)

    poll-Balanced :
        (c o l : ℕ) (s : State F P R) (moments : ℕ → Moment) (reader : Reader)
        → c < u64_mod
        → Balanced F P R c o l s
        → Balanced F P R c
            (own_by (Move.poll moments reader) s + o)
            (lost_by (Move.poll moments reader) s + l)
            (poll_step F P R resolve grpc_port local_ips max_batch_size moments reader s)
    unfolding poll_step poll_round
    poll-Balanced c o l s moments reader room b =
        let pending = R.pending s.maps.events in
        let events = (poll_events R max_batch_size s.maps.events).0 in
        let polled = poll_events_lem R max_batch_size s.maps.events b.sized in
        let before : AgentState F P = record s.agent {
          events_dropped =
              unwrap_or (map_option read_events_dropped (read_of reader s.maps.events_dropped))
                s.agent.events_dropped;
        } in
        let taken : length events ≡ min max_batch_size (length pending) =
          ap (λ (q : List NetworkFlowEvent). length q) polled.0
          ∙ (length-map of_bytes (take max_batch_size pending)
              ∙ length-take max_batch_size pending) in
        let left : length (R.pending (poll_events R max_batch_size s.maps.events).1)
            ≡ length pending - suc max_batch_size =
          ap (λ (q : List (List ℕ)). length q) polled.1
          ∙ length-drop (suc max_batch_size) pending in
        let parts : length (own_events grpc_port local_ips events)
              + length (foreign grpc_port local_ips events)
            ≡ length events =
          length-filter-not (λ event. is_self_traffic event grpc_port local_ips) events in
        let handled =
          handle_events_lem F P grpc_port local_ips moments 0 events before
            (omega (arith, b.balanced, taken, parts))
            (omega (arith, b.balanced, b.delivered_all, taken, parts)) in
        record {
          sized =
              subst (All (λ b. length b ≡ event_size)) (sym polled.1)
                (All-drop (λ b. length b ≡ event_size) (suc max_batch_size) pending b.sized);
          balanced = ground (arith, b.balanced, taken, left, parts, handled.0);
          delivered_all = omega (arith, b.delivered_all, handled.0, handled.1);
        }

    pub step-Balanced :
        (c o l : ℕ) (m : Move) (s : State F P R)
        → c + captured_by m < u64_mod
        → Balanced F P R c o l s
        → Balanced F P R
            (c + captured_by m)
            (own_by m s + o)
            (lost_by m s + l)
            (step F P R resolve grpc_port local_ips max_batch_size m s)
    unfolding step
    step-Balanced c o l (Move.arrive timestamp_ns ctx) s room b =
        Balanced-subst F P R _ _ o _ l _ _ refl (omega arith) (omega arith) (
          capture-Balanced F P R c o l s timestamp_ns _ ctx (read_headers ctx) _ room
            (network_probes_lem R timestamp_ns ctx s.maps).1 b)
    step-Balanced c o l (Move.leave timestamp_ns ctx) s room b =
        Balanced-subst F P R _ _ o _ l _ _ refl (omega arith) (omega arith) (
          capture-Balanced F P R c o l s timestamp_ns _ ctx (read_headers ctx) _ room
            (network_probes_lem R timestamp_ns ctx s.maps).3 b)
    step-Balanced c o l (Move.poll moments reader) s room b =
        Balanced-subst F P R c _ _ _ _ _ _ (omega arith) refl refl
          (poll-Balanced c o l s moments reader (omega (arith, room)) b)
    step-Balanced c o l (Move.expire now) s room b =
        Balanced-subst F P R c _ o _ l _ _ (omega arith) (omega arith) (omega arith)
          (expire-Balanced F P R c o l s _ b)
    step-Balanced c o l (Move.watch event) s room b =
        Balanced-subst F P R c _ o _ l _ _ (omega arith) (omega arith) (omega arith) (
          watched-Balanced F P R c o l s (handle_event P resolve event)
            (handle_event-Kept P resolve (Untouched P s.agent.health)
              (Untouched-IsClosed P s.agent.health) event _ (refl, refl))
            b)
    step-Balanced c o l Move.disconnect s room b =
        Balanced-subst F P R c _ o _ l _ _ (omega arith) (omega arith) (omega arith) (
          watched-Balanced F P R c o l s (set_connected P false)
            ((Untouched-IsClosed P s.agent.health).set_connected false
              (record { cache = s.agent.pod_cache; health = s.agent.health }) (refl, refl))
            b)
    step-Balanced c o l (Move.resync listed) s room b =
        Balanced-subst F P R c _ o _ l _ _ (omega arith) (omega arith) (omega arith) (
          watched-Balanced F P R c o l s (resync_all P resolve listed)
            (resync_all-Kept P resolve (Untouched P s.agent.health)
              (Untouched-IsClosed P s.agent.health) listed _ (refl, refl))
            b)

    pub run-Balanced :
        (c o l : ℕ) (ms : List Move) (s : State F P R)
        → c + captured ms < u64_mod
        → Balanced F P R c o l s
        → Balanced F P R
            (c + captured ms)
            (own ms s + o)
            (lost ms s + l)
            (run F P R resolve grpc_port local_ips max_batch_size ms s)
    unfolding run
    run-Balanced c o l [] s room b =
        Balanced-subst F P R c _ o _ l _ _ (omega arith) (omega arith) (omega arith) b
    run-Balanced c o l (m ∷ ms) s room b =
        Balanced-subst F P R _ _ _ _ _ _ _ (omega arith) (omega arith) (omega arith) (
          run-Balanced (c + captured_by m) _ _ ms
            (step F P R resolve grpc_port local_ips max_batch_size m s) (omega (arith, room))
            (step-Balanced c o l m s (omega (arith, room)) b))

    -- From the start with an empty ring, and for fewer than 2^64 captured packets: after every list
    -- of moves, each captured packet either waits in the ring, was dropped by the probe and counted,
    -- was processed, was filtered out as the agent's own, or was consumed behind a full batch; and
    -- each processed one was sent to the subscribers or is counted as a broadcast drop.
    pub run-captured :
        (max_flows flow_timeout max_entries : ℕ) (ring : R.Ring) (ms : List Move)
        → R.pending ring ≡ []
        → captured ms < u64_mod
        → let s0 = start F P R max_flows flow_timeout max_entries ring in
          let s = run F P R resolve grpc_port local_ips max_batch_size ms s0 in
          (captured ms
            ≡ length (R.pending s.maps.events)
              + s.maps.events_dropped
              + s.agent.aggregator.events_processed
              + own ms s0
              + lost ms s0)
          × (length s.agent.sent + s.agent.health.broadcast_drops
              ≡ s.agent.aggregator.events_processed)
    run-captured max_flows flow_timeout max_entries ring ms empty room =
        let s0 = start F P R max_flows flow_timeout max_entries ring in
        let b =
          run-Balanced 0 0 0 ms s0 (omega (arith, room))
            (start-Balanced F P R max_flows flow_timeout max_entries ring empty) in
        (omega (arith, b.balanced), b.delivered_all)
