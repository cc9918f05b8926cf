-- ===== src/Cli/Tracing.antt =====
-- orb8-cli/src/lib.rs: what a trace prints, and when it ends.
use orb.Prelude.{
  ℕ, suc, ◌≤◌, ◌<◌, ◌≡◌, refl, sym, ap, append-nil, ◌∙◌, Bool, true, false, some, List, [], ◌∷◌,
  ◌++◌, arith, All, leb, length,
}
use orb.Prelude.Text.{Text}
use orb.Agent.{NetworkEvent}
use orb.Cli.Columns.{IsAscii, row-column}
use orb.Cli.Commands.{End, Arrival, trace_loop, is_over, over_lines, after_intro, event_columns}
use orb.Cli.Rows.{pad_left}

-- An event that is there in time, with ASCII names.
pub record IsShown (max_ms : ℕ) (a : Arrival) : Type 0 where
  pub in_time : a.elapsed < max_ms
  pub event : NetworkEvent
  pub received : a.result ≡ some event
  pub namespace : All IsAscii event.namespace
  pub pod_name : All IsAscii event.pod_name

-- Each event that is shown adds its row to what the rest prints.
shown :
    (max_ms : ℕ) (arrivals : List Arrival)
    → All (IsShown max_ms) arrivals
    → (texts : List Text) × (length texts ≡ length arrivals)
      × ((rest : List Arrival) (closed : Bool)
          → trace_loop (some max_ms) closed (arrivals ++ rest)
            ≡ after_intro texts (trace_loop (some max_ms) closed rest))
unfolding trace_loop is_over
shown max_ms [] all = ([], refl, λ rest closed. refl)
shown max_ms (a ∷ arrivals) (h, all) =
    let (texts, same, rest_eq) = shown max_ms arrivals all in
    let (first, rest_row, row_eq, wide) =
      row-column (event_columns h.event) (pad_left 7 a.time) h.namespace h.pod_name in
    let early : leb max_ms a.elapsed ≡ false = let t = h.in_time in ground arith in
    (
      (first ++ b' ' ∷ rest_row) ∷ texts,
      ap suc same,
      λ rest closed. rw (early, h.received, row_eq, rest_eq rest closed) refl,
    )

-- A trace with a time limit prints one row for each event that is there in time, and ends with the
-- first arrival that is not, whatever follows it. While no such arrival comes the trace waits, however
-- much time passes. The names are ASCII.
pub trace_loop_lem :
    (max_ms : ℕ) (closed : Bool) (arrivals : List Arrival) (late : Arrival) (rest : List Arrival)
    → All (IsShown max_ms) arrivals
    → max_ms ≤ late.elapsed
    → (texts : List Text) × (length texts ≡ length arrivals)
      × (trace_loop (some max_ms) closed (arrivals ++ late ∷ rest)
          ≡ (texts ++ over_lines, End.duration_reached))
      × (trace_loop (some max_ms) false arrivals ≡ (texts, End.waiting))
unfolding trace_loop is_over
trace_loop_lem max_ms closed arrivals late rest all beyond =
    let (texts, same, rest_eq) = shown max_ms arrivals all in
    let over : leb max_ms late.elapsed ≡ true = ground arith in
    (
      texts,
      same,
      rest_eq (late ∷ rest) closed ∙ rw over refl,
      ap (λ xs. trace_loop (some max_ms) false xs) (sym (append-nil arrivals))
          ∙ (rest_eq [] false ∙ ap (λ ts. (ts, End.waiting)) (append-nil texts)),
    )
