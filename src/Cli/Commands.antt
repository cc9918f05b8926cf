-- ===== src/Cli/Commands.antt =====
-- orb8-cli/src/lib.rs: the three commands. What the agent answers is an argument; the result is what is
-- printed and how the command ends.
use orb.Prelude.{
  ℕ, zero, suc, Option, none, some, List, [], ◌∷◌, ◌++◌, if◌then◌else◌, Bool, false, leb, is_empty,
  map_option, ℤ, pos, negsuc,
}
use orb.Prelude.Decimal.{format_uint}
use orb.Prelude.Text.{Text, codes, join}
use orb.Agent.{NetworkEvent}
use orb.Cli.{parse_duration}
use orb.Cli.Rows.{Columns, row, line, pad_left}
use orb.Grpc.{NetworkFlow, AgentStatus, QueryFlowsRequest}

-- How a command ends: well, with an error, by a panic, or not yet.
pub data End : Type 0 where
  done duration_reached stream_error panicked waiting : End
  not_connected invalid_duration refused : End

-- `"-".repeat(n)`
unfoldable pub dashes : ℕ → Text
dashes zero = []
dashes (suc n) = b'-' ∷ dashes n

abbrev pub header : Text → Text
header last =
    line (codes "NAMESPACE/POD") (codes "PROTOCOL") (codes "SOURCE") (codes "DESTINATION")
      (codes "DIR") (codes "BYTES") last

abbrev pub event_columns : NetworkEvent → Columns
event_columns event = record {
  namespace = event.namespace;
  pod_name = event.pod_name;
  protocol = event.protocol;
  src_ip = event.src_ip;
  src_port = event.src_port;
  dst_ip = event.dst_ip;
  dst_port = event.dst_port;
  direction = event.direction;
  bytes = event.bytes;
}

abbrev pub flow_columns : NetworkFlow → Columns
flow_columns flow = record {
  namespace = flow.namespace;
  pod_name = flow.pod_name;
  protocol = flow.protocol;
  src_ip = flow.src_ip;
  src_port = flow.src_port;
  dst_ip = flow.dst_ip;
  dst_port = flow.dst_port;
  direction = flow.direction;
  bytes = flow.bytes;
}

-- A result of the stream (`none` is an error), the milliseconds since the start at which it is
-- there, and the local time as text.
pub record Arrival : Type 0 where
  pub result : Option NetworkEvent
  pub elapsed : ℕ
  pub time : Text

-- A line that is printed before the rest.
abbrev pub printing : Text → List Text × End → List Text × End
printing text (texts, end) = (text ∷ texts, end)

unfoldable pub is_over : Option ℕ → ℕ → Bool
is_over none elapsed = false
is_over (some max_ms) elapsed = leb max_ms elapsed

abbrev pub print_row : Option Text → List Text × End → List Text × End
print_row none rest = ([], End.panicked)
print_row (some text) rest = printing text rest

abbrev pub over_lines : List Text
over_lines = [] ∷ codes "Duration reached, stopping trace." ∷ []

-- The loop over the stream, which ends (`true`) behind the given arrivals or is still open. The lines
-- are those of the standard output.
unfoldable pub trace_loop : Option ℕ → Bool → List Arrival → List Text × End
trace_loop max_ms closed [] = ([], if closed then End.done else End.waiting)
trace_loop max_ms closed (a ∷ rest) =
    let others = trace_loop max_ms closed rest in
    if is_over max_ms a.elapsed then (over_lines, End.duration_reached) else elim a.result [
      | none ↦ ([], End.stream_error)
      | some event ↦ print_row (row (event_columns event) (pad_left 7 a.time)) others
    ]

-- The lines before the rows.
abbrev pub trace_intro : Text → List Text → List Text
trace_intro agent namespaces =
    (codes "Streaming network events from "
      ++ (agent
          ++ ((if is_empty namespaces
                then []
                else codes " (namespaces: " ++ (join (codes ", ") namespaces ++ codes ")"))
              ++ codes "...")))
    ∷ header (pad_left 7 (codes "TIME"))
    ∷ dashes 110
    ∷ []

-- `duration.map(|d| parse_duration(&d)).transpose()`
unfoldable pub duration_ms : Option Text → Option (Option ℕ)
duration_ms none = some none
duration_ms (some d) = map_option some (parse_duration d)

-- The agent's side of a stream: whether the call is accepted, and what arrives.
pub record Stream : Type 0 where
  pub connected : Bool
  pub accepted : Bool
  pub closed : Bool
  pub arrivals : List Arrival

abbrev pub after_intro : List Text → List Text × End → List Text × End
after_intro intro (texts, end) = (intro ++ texts, end)

unfoldable pub trace_network : Text → List Text → Option Text → Stream → List Text × End
trace_network agent namespaces duration stream =
    if stream.connected
    then after_intro (trace_intro agent namespaces) (elim (duration_ms duration) [
      | none ↦ ([], End.invalid_duration)
      | some max_ms ↦
          if stream.accepted
          then trace_loop max_ms stream.closed stream.arrivals
          else ([], End.refused)
    ])
    else ([], End.not_connected)

unfoldable pub print_flows : List NetworkFlow → List Text × End
print_flows [] = ([], End.done)
print_flows (flow ∷ flows) =
    let others = print_flows flows in
    print_row (row (flow_columns flow) (pad_left 8 (format_uint flow.packets))) others

-- The first `Option` of the answer is the connection, the second the call.
unfoldable pub query_flows : Option (Option (List NetworkFlow)) → List Text × End
query_flows none = ([], End.not_connected)
query_flows (some none) = ([], End.refused)
query_flows (some (some [])) = (codes "No flows found." ∷ [], End.done)
query_flows (some (some (flow ∷ flows))) =
    after_intro (header (pad_left 8 (codes "PACKETS")) ∷ dashes 110 ∷ [])
      (print_flows (flow ∷ flows))

unfoldable pub format_int : ℤ → Text
format_int (pos n) = format_uint n
format_int (negsuc n) = b'-' ∷ format_uint (suc n)

abbrev pub status_lines : AgentStatus → List Text
status_lines r =
    codes "Agent Status"
    ∷ dashes 40
    ∷ (codes "Node:             " ++ r.node_name)
    ∷ (codes "Version:          " ++ r.version)
    ∷ (codes "Health:           " ++ (if r.healthy then codes "OK" else codes "UNHEALTHY"))
    ∷ (codes "Health Message:   " ++ r.health_message)
    ∷ (codes "Uptime:           " ++ (format_int r.uptime_seconds ++ codes "s"))
    ∷ (codes "Events Processed: " ++ format_uint r.events_processed)
    ∷ (codes "Events Dropped:   " ++ format_uint r.events_dropped)
    ∷ (codes "Pods Tracked:     " ++ format_uint r.pods_tracked)
    ∷ (codes "Active Flows:     " ++ format_uint r.active_flows)
    ∷ []

unfoldable pub get_status : Option (Option AgentStatus) → List Text × End
get_status none = ([], End.not_connected)
get_status (some none) = ([], End.refused)
get_status (some (some response)) = (status_lines response, End.done)

-- `Commands`, with `TraceKind`
pub data Command : Type 0 where
  trace : List Text → Option Text → Command
  flows : QueryFlowsRequest → Command
  status : Command

-- What the agent answers to the three calls.
pub record Agent : Type 0 where
  pub stream : List Text → Stream
  pub query : QueryFlowsRequest → Option (Option (List NetworkFlow))
  pub status : Option (Option AgentStatus)

-- `run`, for the address and the command that the crate `clap` has read
unfoldable pub run : Text → Command → Agent → List Text × End
run address (trace namespaces duration) agent =
    trace_network address namespaces duration (agent.stream namespaces)
run address (flows request) agent = query_flows (agent.query request)
run address status agent = get_status agent.status
