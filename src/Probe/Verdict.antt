-- ===== src/Probe/Verdict.antt =====
-- orb8-probes/src/network_probe.rs: what the classifiers return, and what they write.
use orb.Prelude.{ℕ, ◌≡◌, refl, inl, inr, Option, none, some, [], ◌∷◌, ◌++◌, add_u64, Option-cases}
use orb.Common.{NetworkFlowEvent, ingress, egress}
use orb.Common.Layout.{to_bytes}
use orb.Probe.{
  TcContext, Headers, Maps, read_headers, event_of, submit_event, finish, verdict, network_probe,
  network_probe_egress, tc_act_ok,
}
use orb.Ring.{RingBuf}

module _ (R : RingBuf) where
  -- An event is either the newest record of the ring, or it is counted as dropped.
  pub data IsAccounted (event : NetworkFlowEvent) (before after : Maps R) : Type 0 where
    submitted :
        R.pending after.events ≡ R.pending before.events ++ to_bytes event ∷ []
        → after.events_dropped ≡ before.events_dropped
        → IsAccounted event before after
    dropped :
        after.events ≡ before.events
        → after.events_dropped ≡ add_u64 before.events_dropped 1
        → IsAccounted event before after

  submit_event-IsAccounted :
      (event : NetworkFlowEvent) (maps : Maps R)
      → IsAccounted event maps (submit_event R event maps)
  unfolding submit_event
  submit_event-IsAccounted event maps =
      elim (Option-cases (R.submit maps.events (to_bytes event))) [
        | inl full ↦ rw (full, submit_event) (IsAccounted.dropped refl refl)
        | inr (events, room) ↦
            rw (room, submit_event)
              (IsAccounted.submitted (R.pending-submit maps.events events (to_bytes event) room)
                refl)
      ]

  -- What a classifier does to the maps: a packet with headers is accounted for as one event, and any
  -- other packet leaves the maps as they are.
  abbrev pub Effect : ℕ → ℕ → TcContext → Option (Option Headers) → Maps R → Maps R → Type 0
  Effect timestamp_ns dir ctx (some (some h)) before after =
      IsAccounted (event_of timestamp_ns dir ctx h) before after
  Effect timestamp_ns dir ctx _ before after = after ≡ before

  finish-Effect :
      (timestamp_ns dir : ℕ) (ctx : TcContext) (o : Option (Option Headers)) (maps : Maps R)
      → (verdict R (finish R timestamp_ns dir ctx o maps).0 ≡ tc_act_ok)
        × Effect timestamp_ns dir ctx o maps (finish R timestamp_ns dir ctx o maps).1
  unfolding finish
  finish-Effect timestamp_ns dir ctx none maps = (refl, refl)
  finish-Effect timestamp_ns dir ctx (some none) maps = (refl, refl)
  finish-Effect timestamp_ns dir ctx (some (some h)) maps =
      (refl, submit_event-IsAccounted (event_of timestamp_ns dir ctx h) maps)

  -- Both classifiers let every packet pass, whatever it holds. A packet of which the headers can be
  -- read becomes one record of the ring, or one more dropped event; no other packet leaves a trace.
  pub network_probes_lem :
      (timestamp_ns : ℕ) (ctx : TcContext) (maps : Maps R)
      → ((network_probe R timestamp_ns ctx maps).0 ≡ tc_act_ok)
        × Effect timestamp_ns ingress ctx
            (read_headers ctx)
            maps
            (network_probe R timestamp_ns ctx maps).1
        × ((network_probe_egress R timestamp_ns ctx maps).0 ≡ tc_act_ok)
        × Effect timestamp_ns egress ctx
            (read_headers ctx)
            maps
            (network_probe_egress R timestamp_ns ctx maps).1
  unfolding network_probe network_probe_egress
  network_probes_lem timestamp_ns ctx maps =
      let on_ingress = finish-Effect timestamp_ns ingress ctx (read_headers ctx) maps in
      let on_egress = finish-Effect timestamp_ns egress ctx (read_headers ctx) maps in
      (on_ingress.0, on_ingress.1, on_egress.0, on_egress.1)
