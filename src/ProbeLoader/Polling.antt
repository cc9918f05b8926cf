-- ===== src/ProbeLoader/Polling.antt =====
-- orb8-agent/src/probe_loader.rs: what `poll_events` returns, and what it leaves in the ring.
use orb.Prelude.{
  ℕ, zero, suc, ◌+◌, ◌<◌, ◌≡◌, refl, sym, ap, ◌∙◌, inl, inr, true, false, none, some, List, [], ◌∷◌,
  ◌++◌, append-nil, append_assoc, arith, leb, ◌==◌, length, take, drop, map, All, Option-cases,
  length-append, ==_iff,
}
use mathlib.Core.List.{head-eq_of_cons-eq, tail-eq_of_cons-eq}
use orb.Common.{NetworkFlowEvent}
use orb.Common.Layout.{event_size, of_bytes}
use orb.ProbeLoader.{poll_loop, poll_events}
use orb.Ring.{RingBuf}

module _ (R : RingBuf) where
  next_of_nil : (ring : R.Ring) → R.pending ring ≡ [] → R.next ring ≡ none
  next_of_nil ring e = elim (Option-cases (R.next ring)) [
    | inl done ↦ done
    | inr ((b, ring'), more) ↦ cc (R.pending-next_some ring ring' b more)
  ]

  next_of_cons :
      (ring : R.Ring) (b : List ℕ) (bs : List (List ℕ))
      → R.pending ring ≡ b ∷ bs
      → (ring' : R.Ring) × (R.next ring ≡ some (b, ring')) × (R.pending ring' ≡ bs)
  next_of_cons ring b bs e = elim (Option-cases (R.next ring)) [
    | inl done ↦ cc (R.pending-next_none ring done)
    | inr ((c, ring'), more) ↦
        let same : c ∷ R.pending ring' ≡ b ∷ bs = sym (R.pending-next_some ring ring' c more) ∙ e in
        (
          ring',
          more ∙ ap (λ (x : List ℕ). some (x, ring')) (head-eq_of_cons-eq same),
          tail-eq_of_cons-eq same,
        )
  ]

  module _ (max_batch_size : ℕ) where
    -- `room` is what the batch can still take.
    poll_loop_lem :
        (fuel room : ℕ) (ring : R.Ring) (events : List NetworkFlowEvent) (bs : List (List ℕ))
        → R.pending ring ≡ bs
        → length bs < fuel
        → room + length events ≡ max_batch_size
        → All (λ b. length b ≡ event_size) bs
        → ((poll_loop R fuel max_batch_size ring events).0 ≡ events ++ map of_bytes (take room bs))
          × (R.pending (poll_loop R fuel max_batch_size ring events).1 ≡ drop (suc room) bs)
    unfolding poll_loop
    poll_loop_lem zero room ring events bs e enough fits sized = absurd (omega arith)
    poll_loop_lem (suc fuel) zero ring events [] e enough fits sized =
        rw (next_of_nil ring e, poll_loop) (sym (append-nil events), e)
    poll_loop_lem (suc fuel) (suc room) ring events [] e enough fits sized =
        rw (next_of_nil ring e, poll_loop) (sym (append-nil events), e)
    poll_loop_lem (suc fuel) zero ring events (b ∷ bs) e enough fits sized =
        let (ring', found, left) = next_of_cons ring b bs e in
        let full : leb max_batch_size (length events) ≡ true = ground arith in
        rw (found, poll_loop, full) (sym (append-nil events), left)
    poll_loop_lem (suc fuel) (suc room) ring events (b ∷ bs) e enough fits (size, sized) =
        let (ring', found, left) = next_of_cons ring b bs e in
        let more : leb max_batch_size (length events) ≡ false = ground arith in
        let whole : (length b == event_size) ≡ true = (==_iff (length b) event_size).1 size in
        let (events_eq, left_eq) =
          poll_loop_lem fuel room ring' (events ++ of_bytes b ∷ []) bs left (omega arith)
            (omega (arith, length-append {0} events (of_bytes b ∷ []))) sized in
        rw (found, poll_loop, more, whole)
          (events_eq ∙ append_assoc events (of_bytes b ∷ []) (map of_bytes (take room bs)), left_eq)

    -- With records of the right size a poll always ends, and returns the oldest ones, in order, as
    -- many as the batch size allows. Of the ring it leaves what lies behind the first
    -- `max_batch_size + 1` records: where there are more records than the batch can take, the one
    -- behind the batch is consumed and not returned.
    pub poll_events_lem :
        (ring : R.Ring)
        → All (λ b. length b ≡ event_size) (R.pending ring)
        → ((poll_events R max_batch_size ring).0
            ≡ map of_bytes (take max_batch_size (R.pending ring)))
          × (R.pending (poll_events R max_batch_size ring).1
              ≡ drop (suc max_batch_size) (R.pending ring))
    unfolding poll_events
    poll_events_lem ring sized =
        poll_loop_lem (suc (length (R.pending ring))) max_batch_size ring [] (R.pending ring) refl
          (omega arith) (omega arith) sized
