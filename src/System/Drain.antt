-- ===== src/System/Drain.antt =====
-- orb8-agent/src/main.rs with orb8-probes/src/network_probe.rs: the loop empties the ring when no
-- packets are captured any more.
use orb.Prelude.{
  ℕ, suc, ◌+◌, ◌≤◌, ◌<◌, ◌≡◌, refl, ap, ◌∙◌, Option, none, some, List, [], ◌∷◌, arith, length, drop,
  drop-drop, drop-nil_of_le, All, u64_mod,
}
use orb.Prelude.Text.{Text}
use orb.Agent.{poll_round}
use orb.Aggregator.{FlowKey, FlowStats}
use orb.Common.Layout.{event_size}
use orb.PodCache.{PodMetadata}
use orb.Probe.{TcContext, Headers, Maps, read_headers}
use orb.Probe.Verdict.{Effect, network_probes_lem}
use orb.ProbeLoader.Polling.{poll_events_lem}
use orb.Ring.{RingBuf}
use orb.System.{Move, State, start, poll_step, step, run}
use orb.System.Ledger.{run-Balanced, step-Balanced}
use orb.System.Packets.{Balanced, captured, captured_by, captured_headers, start-Balanced}
use orb.Table.{Table}

-- The records that the rounds of the main loop can take: one more than the batch size each.
abbrev pub taken_by : ℕ → Move → ℕ
taken_by max_batch_size (Move.poll moments reader) = suc max_batch_size
taken_by max_batch_size _ = 0

abbrev pub taken : ℕ → List Move → ℕ
taken max_batch_size [] = 0
taken max_batch_size (m ∷ ms) = taken_by max_batch_size m + taken max_batch_size ms

module _ (F : Table FlowKey FlowStats) (P : Table ℕ PodMetadata) (R : RingBuf) where
  -- A packet that is not captured leaves the maps alone.
  uncaptured :
      (timestamp_ns dir : ℕ) (ctx : TcContext) (o : Option (Option Headers)) (before after : Maps R)
      → captured_headers o ≡ 0
      → Effect R timestamp_ns dir ctx o before after
      → after ≡ before
  uncaptured timestamp_ns dir ctx none before after quiet same = same
  uncaptured timestamp_ns dir ctx (some none) before after quiet same = same
  uncaptured timestamp_ns dir ctx (some (some h)) before after quiet effect = absurd (omega arith)

  module _ (resolve : Text → Text → Option ℕ) (grpc_port : ℕ) (local_ips : List ℕ)
      (max_batch_size : ℕ) where
    step-pending :
        (m : Move) (s : State F P R)
        → captured_by m ≡ 0
        → All (λ b. length b ≡ event_size) (R.pending s.maps.events)
        → R.pending (step F P R resolve grpc_port local_ips max_batch_size m s).maps.events
          ≡ drop (taken_by max_batch_size m) (R.pending s.maps.events)
    unfolding step poll_step poll_round
    step-pending (Move.arrive timestamp_ns ctx) s quiet sized =
        ap (λ (maps : Maps R). R.pending maps.events)
          (uncaptured timestamp_ns _ ctx (read_headers ctx) s.maps _ quiet
            (network_probes_lem R timestamp_ns ctx s.maps).1)
    step-pending (Move.leave timestamp_ns ctx) s quiet sized =
        ap (λ (maps : Maps R). R.pending maps.events)
          (uncaptured timestamp_ns _ ctx (read_headers ctx) s.maps _ quiet
            (network_probes_lem R timestamp_ns ctx s.maps).3)
    step-pending (Move.poll moments reader) s quiet sized =
        (poll_events_lem R max_batch_size s.maps.events sized).1
    step-pending (Move.expire now) s quiet sized = refl
    step-pending (Move.watch event) s quiet sized = refl
    step-pending Move.disconnect s quiet sized = refl
    step-pending (Move.resync listed) s quiet sized = refl

    run-pending :
        (ms : List Move) (c o l : ℕ) (s : State F P R)
        → captured ms ≡ 0
        → c < u64_mod
        → Balanced F P R c o l s
        → R.pending (run F P R resolve grpc_port local_ips max_batch_size ms s).maps.events
          ≡ drop (taken max_batch_size ms) (R.pending s.maps.events)
    unfolding run
    run-pending [] c o l s quiet room b = refl
    run-pending (m ∷ ms) c o l s quiet room b =
        run-pending ms _ _ _ (step F P R resolve grpc_port local_ips max_batch_size m s)
          (omega (arith, quiet)) (omega (arith, quiet, room))
          (step-Balanced F P R resolve grpc_port local_ips max_batch_size c o l m s
            (omega (arith, quiet, room)) b)
        ∙ (ap (drop (taken max_batch_size ms)) (step-pending m s (omega (arith, quiet)) b.sized)
            ∙ (drop-drop (taken_by max_batch_size m) (taken max_batch_size ms)
                (R.pending s.maps.events)))

    -- After any moves from the start, with fewer than 2^64 captured packets and an empty ring at the
    -- start: moves that capture nothing more and hold enough rounds of the loop, of which each
    -- takes up to one record more than the batch size, leave the ring empty.
    pub run-drained :
        (max_flows flow_timeout max_entries : ℕ) (ring : R.Ring) (before ms : List Move)
        → R.pending ring ≡ []
        → captured before < u64_mod
        → captured ms ≡ 0
        → (let s0 = start F P R max_flows flow_timeout max_entries ring in
            let s = run F P R resolve grpc_port local_ips max_batch_size before s0 in
            length (R.pending s.maps.events) ≤ taken max_batch_size ms)
        → let s0 = start F P R max_flows flow_timeout max_entries ring in
          let s = run F P R resolve grpc_port local_ips max_batch_size before s0 in
          R.pending (run F P R resolve grpc_port local_ips max_batch_size ms s).maps.events ≡ []
    run-drained max_flows flow_timeout max_entries ring before ms empty room quiet enough =
        let s0 = start F P R max_flows flow_timeout max_entries ring in
        let s = run F P R resolve grpc_port local_ips max_batch_size before s0 in
        run-pending ms _ _ _ s quiet (omega (arith, room)) (
          run-Balanced F P R resolve grpc_port local_ips max_batch_size 0 0 0 before s0
            (omega (arith, room))
            (start-Balanced F P R max_flows flow_timeout max_entries ring empty))
        ∙ drop-nil_of_le (taken max_batch_size ms) (R.pending s.maps.events) enough
