-- ===== src/Watcher/Rounds.antt =====
-- orb8-agent/src/k8s_watcher.rs: the rounds of `run`, through errors, resyncs and cancellation.
use orb.Prelude.{
  ℕ, ◌≤◌, ◌≡◌, refl, inl, inr, Bool, true, false, Option, List, [], ◌∷◌, arith, if◌then◌else◌,
  subst, ◌⊎◌, ◌*◌,
}
use orb.Prelude.Text.{Text}
use orb.PodCache.{PodMetadata}
use orb.Table.{Table}
use orb.Watcher.{
  Round, Watcher, set_connected, watch_pods, resync_all, Next, finish_round, after_watch, run_round,
  run_from, run, next_backoff, sleep_duration, jitter_millis,
}
use orb.Watcher.Safety.{IsSafe, IsSafe-IsClosed}
use orb.Watcher.Induction.{IsClosed, watch_pods-Kept, resync_all-Kept}

-- The backoff is between its bounds.
abbrev pub IsWithin : ℕ → ℕ → ℕ → Type 0
IsWithin backoff_min backoff_max backoff = (backoff_min ≤ backoff) × (backoff ≤ backoff_max)

module _ (P : Table ℕ PodMetadata) (resolve : Text → Text → Option ℕ) (backoff_min backoff_max : ℕ)
    (ordered : backoff_min ≤ backoff_max) (Q : Watcher P → Type 0) (closed : IsClosed P Q) where
  -- How a round may end.
  abbrev IsFine : Next P → Type 0
  IsFine (Next.stop w) = Q w
  IsFine (Next.continue backoff w) = IsWithin backoff_min backoff_max backoff × Q w

  either-IsFine : (b : Bool) (x y : Next P) → IsFine x → IsFine y → IsFine (if b then x else y)
  either-IsFine true x y fine other = fine
  either-IsFine false x y other fine = fine

  finish_round-IsFine :
      (round : Round) (backoff : ℕ) (w : Watcher P)
      → IsWithin backoff_min backoff_max backoff
      → Q w
      → IsFine (finish_round P resolve backoff_min backoff_max round backoff w)
  unfolding finish_round
  finish_round-IsFine round backoff w within kept =
      either-IsFine round.cancelled_after (Next.stop w)
        (Next.continue backoff (resync_all P resolve round.listed w)) kept
        (within, resync_all-Kept P resolve Q closed round.listed w kept)

  after_watch-IsFine :
      (round : Round) (backoff : ℕ) (ended : Bool) (w : Watcher P)
      → IsWithin backoff_min backoff_max backoff
      → Q w
      → IsFine (after_watch P resolve backoff_min backoff_max round backoff ended w)
  unfolding after_watch
  after_watch-IsFine round backoff true w within kept =
      finish_round-IsFine round backoff_min w (omega arith, ordered) kept
  after_watch-IsFine round backoff false w within kept =
      let kept' = closed.set_connected false w kept in
      either-IsFine round.cancelled_asleep (Next.stop (set_connected P false w))
        (finish_round P resolve backoff_min backoff_max round (next_backoff backoff_max backoff)
          (set_connected P false w))
        kept'
        (finish_round-IsFine round (next_backoff backoff_max backoff) (set_connected P false w)
          (omega (arith, within.0, within.1, ordered), omega arith) kept')

  run_round-IsFine :
      (round : Round) (backoff : ℕ) (w : Watcher P)
      → IsWithin backoff_min backoff_max backoff
      → Q w
      → IsFine (run_round P resolve backoff_min backoff_max round backoff w)
  unfolding run_round
  run_round-IsFine round backoff w within kept =
      let kept' = watch_pods-Kept P resolve Q closed round.results w kept in
      let (ended, w') = watch_pods P resolve round.results w in
      either-IsFine round.cancelled_watching (Next.stop (watch_pods P resolve round.results w).1)
        (after_watch P resolve backoff_min backoff_max round backoff
          (watch_pods P resolve round.results w).0 (watch_pods P resolve round.results w).1)
        kept'
        (after_watch-IsFine round backoff (watch_pods P resolve round.results w).0
          (watch_pods P resolve round.results w).1 within kept')

  Next-cases :
      (x : Next P)
      → ((w : Watcher P) × (x ≡ Next.stop w))
        ⊎ ((backoff : ℕ) × (w : Watcher P) × (x ≡ Next.continue backoff w))
  Next-cases (Next.stop w) = inl (w, refl)
  Next-cases (Next.continue backoff w) = inr (backoff, w, refl)

  pub run_from-IsFine :
      (rounds : List Round) (backoff : ℕ) (w : Watcher P)
      → IsWithin backoff_min backoff_max backoff
      → Q w
      → IsWithin backoff_min backoff_max
          (run_from P resolve backoff_min backoff_max rounds backoff w).0
        × Q (run_from P resolve backoff_min backoff_max rounds backoff w).1
  unfolding run_from
  run_from-IsFine [] backoff w within kept = (within, kept)
  run_from-IsFine (round ∷ rounds) backoff w within kept =
      elim (Next-cases (run_round P resolve backoff_min backoff_max round backoff w)) [
        | inl (w', e) ↦
            let fine : IsFine (Next.stop w') =
              subst IsFine e (run_round-IsFine round backoff w within kept) in
            rw (e, run_from) (within, fine)
        | inr (backoff', w', e) ↦
            let fine : IsFine (Next.continue backoff' w') =
              subst IsFine e (run_round-IsFine round backoff w within kept) in
            rw (e, run_from) (run_from-IsFine rounds backoff' w' fine.0 fine.1)
      ]

module _ (P : Table ℕ PodMetadata) (resolve : Text → Text → Option ℕ) (backoff_min backoff_max : ℕ)
    (ordered : backoff_min ≤ backoff_max) where
  -- Whatever the rounds of the watcher meet, errors and cancellation included, the backoff stays
  -- between its bounds, and the pod cache keeps its invariant: its map by address never outgrows the
  -- limit, each pod stands under its own address, and the health state reports a full cache only
  -- while it is full. The invariant has to hold at the start, and the bounds have to be in order.
  pub run-IsSafe :
      (rounds : List Round) (w : Watcher P)
      → IsSafe P w
      → IsWithin backoff_min backoff_max (run P resolve backoff_min backoff_max rounds w).0
        × IsSafe P (run P resolve backoff_min backoff_max rounds w).1
  run-IsSafe rounds w safe =
      run_from-IsFine P resolve backoff_min backoff_max ordered (IsSafe P)
        (IsSafe-IsClosed P resolve) rounds backoff_min w (omega arith, ordered) safe

-- After an error the watcher sleeps at least the backoff, and at most a quarter longer.
pub sleep_duration-bounds :
    (nanos backoff : ℕ)
    → (backoff ≤ sleep_duration nanos backoff) × (4 * sleep_duration nanos backoff ≤ 5 * backoff)
unfolding jitter_millis
sleep_duration-bounds nanos backoff = ground arith
