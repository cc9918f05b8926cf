-- ===== src/Examples/Client.antt =====
-- Runs of orb8-cli/src/lib.rs: a trace of two seconds.
use orb.Prelude.{◌≡◌, ◌++◌, refl, true, false, some, List, [], ◌∷◌, length, arith, All}
use orb.Prelude.Decimal.{format_uint}
use orb.Prelude.Text.{Text, codes}
use orb.Agent.{NetworkEvent, network_event}
use orb.Cli.Columns.{IsAscii}
use orb.Cli.Commands.{Arrival, End, trace_loop, over_lines}
use orb.Cli.Rows.{format_bytes, tenths, as_f64, f64_unit}
use orb.Cli.Tracing.{IsShown, trace_loop_lem}
use orb.Examples.{request}

abbrev event : NetworkEvent
event = network_event request (codes "prod") (codes "web-7f9c4d-abcde")

abbrev at : Arrival
at = record { result = some event; elapsed = 500; time = codes "10:00:00.000" }

abbrev late : Arrival
late = record at { elapsed = 2500 }

names-IsAscii : All IsAscii (codes "prod") × All IsAscii (codes "web-7f9c4d-abcde")
names-IsAscii = ground arith

at-IsShown : IsShown 2000 at
at-IsShown = record {
  in_time = omega arith;
  event = event;
  received = refl;
  namespace = names-IsAscii.0;
  pod_name = names-IsAscii.1;
}

trace_loop_lem_example :
    (texts : List Text) × (length texts ≡ length (at ∷ at ∷ []))
    × (trace_loop (some 2000) true (at ∷ at ∷ [] ++ late ∷ at ∷ [])
        ≡ (texts ++ over_lines, End.duration_reached))
    × (trace_loop (some 2000) false (at ∷ at ∷ []) ≡ (texts, End.waiting))
trace_loop_lem_example =
    trace_loop_lem 2000 true (at ∷ at ∷ []) late (at ∷ []) (at-IsShown, (at-IsShown, tt))
      (omega arith)

-- 1.5 KB, and a number of bytes that lies halfway between two tenths.
sizes : (format_bytes 1536 ≡ codes "1.5KB") × (format_bytes 1280 ≡ codes "1.2KB")
unfolding format_bytes tenths as_f64 f64_unit format_uint
sizes = (refl, refl)
