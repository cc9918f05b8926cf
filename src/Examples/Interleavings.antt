-- ===== src/Examples/Interleavings.antt =====
-- Runs of the whole agent: orb8-probes/src/network_probe.rs and orb8-agent/src/main.rs, with the tasks
-- beside the loop.
use orb.Prelude.{
  ℕ, ◌+◌, ◌≤◌, ◌<◌, ◌≡◌, refl, true, Option, some, List, [], ◌∷◌, ◌++◌, arith, length, u64_mod,
}
use orb.Prelude.Text.{Text}
use orb.Agent.{Moment}
use orb.Common.{NetworkFlowEvent, egress}
use orb.Common.Layout.{to_bytes}
use orb.Examples.{flow_table, pod_table, db_ip}
use orb.Examples.Cluster.{web_pod}
use orb.PodCache
use orb.Examples.Wire.{frame, frame-IsWellFormed, context, ring_buf}
use orb.Probe.{read_headers, event_of}
use orb.Probe.Capture.{headers_of, read_headers_frame}
use orb.Ring.Queue.{queue}
use orb.System.{Move, Reader, State, start, run}
use orb.System.Drain.{taken, run-drained}
use orb.System.Ledger.{own, lost, run-captured}
use orb.System.Packets.{captured}
use orb.System.Safety.{IsSound, run-start-IsSound}
use orb.Watcher

abbrev pub resolve : Text → Text → Option ℕ
resolve uid id = some 7

abbrev moments : ℕ → Moment
moments i = record { now = 1000 + i; has_receivers = true }

-- Two packets are captured while the watcher loses its stream and flows expire; the loop polls in
-- the middle of the expiration.
abbrev before : List Move
before =
    Move.arrive 7 context
    ∷ Move.disconnect
    ∷ Move.leave 8 context
    ∷ Move.expire 900
    ∷ Move.expire 900
    ∷ []

abbrev after : List Move
after = Move.watch Watcher.init_done ∷ Move.poll moments Reader.working ∷ Move.expire 901 ∷ []

abbrev pub moves : List Move
moves = before ++ after

has_headers : read_headers context ≡ some (some (headers_of frame))
has_headers = read_headers_frame frame frame-IsWellFormed context refl (omega arith)

unfoldable pub empty_ring : ring_buf.Ring
unfolding queue
empty_ring = []

empty_ring-pending : ring_buf.pending empty_ring ≡ []
unfolding queue empty_ring
empty_ring-pending = refl

few : captured moves < u64_mod
few = rw has_headers (omega arith)

few_before : captured before < u64_mod
few_before = rw has_headers (omega arith)

abbrev pub begin : State flow_table pod_table ring_buf
begin = start flow_table pod_table ring_buf 2 40 10 empty_ring

abbrev run_moves : List Move → State flow_table pod_table ring_buf
run_moves ms = run flow_table pod_table ring_buf resolve 9090 (db_ip ∷ []) 100 ms begin

run-captured_example :
    (captured moves
      ≡ length (ring_buf.pending (run_moves moves).maps.events)
        + (run_moves moves).maps.events_dropped
        + (run_moves moves).agent.aggregator.events_processed
        + own flow_table pod_table ring_buf resolve 9090 (db_ip ∷ []) 100 moves begin
        + lost flow_table pod_table ring_buf resolve 9090 (db_ip ∷ []) 100 moves begin)
    × (length (run_moves moves).agent.sent + (run_moves moves).agent.health.broadcast_drops
        ≡ (run_moves moves).agent.aggregator.events_processed)
run-captured_example =
    run-captured flow_table pod_table ring_buf resolve 9090 (db_ip ∷ []) 100 2 40 10 empty_ring
      moves empty_ring-pending few

run-start-IsSound_example : IsSound flow_table pod_table 2 10 (run_moves moves).agent
run-start-IsSound_example =
    run-start-IsSound flow_table pod_table 2 10 9090 (db_ip ∷ []) ring_buf resolve 100 40 empty_ring
      moves

-- At most the two captured packets wait.
enough : length (ring_buf.pending (run_moves before).maps.events) ≤ taken 100 after
enough =
    let counts =
      run-captured flow_table pod_table ring_buf resolve 9090 (db_ip ∷ []) 100 2 40 10 empty_ring
        before empty_ring-pending few_before in
    let two : captured before ≡ 2 = rw has_headers refl in omega (arith, counts.0, two)

run-drained_example :
    ring_buf.pending
      (run flow_table pod_table ring_buf resolve 9090
        (db_ip ∷ [])
        100
        after
        (run_moves before)).maps.events
    ≡ []
run-drained_example =
    run-drained flow_table pod_table ring_buf resolve 9090 (db_ip ∷ []) 100 2 40 10 empty_ring
      before after empty_ring-pending few_before refl enough

-- The pod web is applied, the packet leaves it, and the loop polls.
abbrev journey : List Move
journey =
    Move.watch (Watcher.apply web_pod)
    ∷ Move.leave 7 context
    ∷ Move.poll moments Reader.working
    ∷ []

abbrev left : NetworkFlowEvent
left = event_of 7 egress context (headers_of frame)

unfoldable one_event : ring_buf.Ring
unfolding queue
one_event = to_bytes left ∷ []
