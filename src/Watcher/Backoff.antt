-- ===== src/Watcher/Backoff.antt =====
-- orb8-agent/src/k8s_watcher.rs: how the rounds of `run` wait for each other, and how they end.
use Prim.Native.Nat.{min}
use native.Mathlib.Nat.{pow-succ', mul_assoc, mul_comm, mul_left_comm, mul-le-mul_right}
use orb.Prelude.{
  ℕ, zero, suc, dec_le, ◌*◌, ◌^◌, ◌≤◌, ◌≡◌, refl, sym, ap, ◌∙◌, ◌⊎◌, inl, inr, true, false, Option,
  none, some, List, [], ◌∷◌, ◌++◌, arith, length, All, Bool-cases,
}
use orb.Prelude.Text.{Text}
use orb.PodCache.{PodMetadata}
use orb.Table.{Table}
use orb.Watcher.{
  Event, Round, Watcher, Next, watch_pods, handle_event, after_watch, finish_round, run_round,
  run_from, run, next_backoff, resync_all, set_connected,
}

-- The stream fails before it ends.
abbrev pub FailsIn : List (Option Event) → Type 0
FailsIn [] = ⊥
FailsIn (none ∷ results) = Unit
FailsIn (some event ∷ results) = FailsIn results

-- A round whose stream fails, and that is not cancelled.
pub record IsFailure (round : Round) : Type 0 where
  pub fails : FailsIn round.results
  pub watching : round.cancelled_watching ≡ false
  pub asleep : round.cancelled_asleep ≡ false
  pub after : round.cancelled_after ≡ false

-- The cancellation is there while the round watches, or at its end.
abbrev pub IsCancelled : Round → Type 0
IsCancelled round = (round.cancelled_watching ≡ true) ⊎ (round.cancelled_after ≡ true)

doubled :
    (backoff most n : ℕ)
    → min (2 ^ n * min (backoff * 2) most) most ≡ min (2 ^ suc n * backoff) most
doubled backoff most n =
    let twice : 2 ^ n * (backoff * 2) ≡ 2 ^ suc n * backoff =
      ap (λ m. 2 ^ n * m) (mul_comm backoff 2)
      ∙ (mul_left_comm (2 ^ n) 2 backoff
          ∙ (sym (mul_assoc 2 (2 ^ n) backoff) ∙ ap (λ m. m * backoff) (sym (pow-succ' 2 n)))) in
    elim (dec_le (backoff * 2) most) [
      | yes small ↦
          let short : min (backoff * 2) most ≡ backoff * 2 = omega arith in rw (short, twice) refl
      | no large ↦
          let long : min (backoff * 2) most ≡ most = omega arith in
          let above : most ≤ 2 ^ n * most = omega (arith, mul-le-mul_right most (one-le-pow n)) in
          let beyond : most ≤ 2 ^ suc n * backoff =
            omega (arith, twice, mul-le-mul_right (backoff * 2) (one-le-pow n)) in
          rw long (omega arith)
    ]
  where
    one-le-pow : (n : ℕ) → 1 ≤ 2 ^ n
    one-le-pow zero = omega arith
    one-le-pow (suc n) = omega (arith, pow-succ' 2 n, one-le-pow n)

module _ (P : Table ℕ PodMetadata) (resolve : Text → Text → Option ℕ)
    (backoff_min backoff_max : ℕ) where
  watch_pods-fails :
      (results : List (Option Event)) (w : Watcher P)
      → FailsIn results
      → (watch_pods P resolve results w).0 ≡ false
  unfolding watch_pods
  watch_pods-fails [] w fails = absurd fails
  watch_pods-fails (none ∷ results) w fails = refl
  watch_pods-fails (some event ∷ results) w fails =
      watch_pods-fails results (handle_event P resolve event w) fails

  run_round-failure :
      (round : Round) (backoff : ℕ) (w : Watcher P)
      → IsFailure round
      → (w' : Watcher P) × (run_round P resolve backoff_min backoff_max round backoff w
          ≡ Next.continue (next_backoff backoff_max backoff) w')
  unfolding run_round after_watch finish_round
  run_round-failure round backoff w failure = (
    resync_all P resolve round.listed
        (set_connected P false (watch_pods P resolve round.results w).1),
    rw
        (
          failure.watching,
          watch_pods-fails round.results w failure.fails,
          after_watch,
          failure.asleep,
          failure.after,
        )
        refl,
  )

  failures-backoff :
      (rounds : List Round) (backoff : ℕ) (w : Watcher P)
      → All IsFailure rounds
      → backoff ≤ backoff_max
      → (run_from P resolve backoff_min backoff_max rounds backoff w).0
        ≡ min (2 ^ length rounds * backoff) backoff_max
  unfolding run_from
  failures-backoff [] backoff w all within = omega arith
  failures-backoff (round ∷ rounds) backoff w (failure, all) within =
      let (w', e) = run_round-failure round backoff w failure in
      rw (e, run_from)
        (failures-backoff rounds (next_backoff backoff_max backoff) w' all (omega arith)
          ∙ doubled backoff backoff_max (length rounds))

  run_round-cancelled :
      (round : Round) (backoff : ℕ) (w : Watcher P)
      → IsCancelled round
      → (w' : Watcher P) × (run_round P resolve backoff_min backoff_max round backoff w
          ≡ Next.stop w')
  unfolding run_round after_watch finish_round
  run_round-cancelled round backoff w (inl seen) =
      ((watch_pods P resolve round.results w).1, rw (seen, run_round) refl)
  run_round-cancelled round backoff w (inr seen) =
      let watched = watch_pods P resolve round.results w in
      elim (Bool-cases round.cancelled_watching) [
        | inl e ↦ (watched.1, rw (e, run_round) refl)
        | inr e ↦ elim (Bool-cases watched.0) [
          | inl ended ↦ (watched.1, rw (e, ended, after_watch, seen) refl)
          | inr failed ↦ elim (Bool-cases round.cancelled_asleep) [
            | inl asleep ↦
                (set_connected P false watched.1, rw (e, failed, after_watch, asleep) refl)
            | inr awake ↦
                (set_connected P false watched.1, rw (e, failed, after_watch, awake, seen) refl)
          ]
        ]
      ]

  -- After so many rounds in a row whose stream failed, none of them cancelled, the backoff has doubled
  -- as often, up to its upper bound. The bounds have to be in order.
  pub run-backoff :
      (rounds : List Round) (w : Watcher P)
      → backoff_min ≤ backoff_max
      → All IsFailure rounds
      → (run P resolve backoff_min backoff_max rounds w).0
        ≡ min (2 ^ length rounds * backoff_min) backoff_max
  run-backoff rounds w ordered all = failures-backoff rounds backoff_min w all ordered

  Next-cases :
      (x : Next P)
      → ((w : Watcher P) × (x ≡ Next.stop w))
        ⊎ ((backoff : ℕ) × (w : Watcher P) × (x ≡ Next.continue backoff w))
  Next-cases (Next.stop w) = inl (w, refl)
  Next-cases (Next.continue backoff w) = inr (backoff, w, refl)

  run_from-cancelled :
      (before : List Round) (round : Round) (rest : List Round) (backoff : ℕ) (w : Watcher P)
      → IsCancelled round
      → run_from P resolve backoff_min backoff_max (before ++ round ∷ rest) backoff w
        ≡ run_from P resolve backoff_min backoff_max (before ++ round ∷ []) backoff w
  unfolding run_from
  run_from-cancelled [] round rest backoff w cancelled =
      let (w', e) = run_round-cancelled round backoff w cancelled in rw (e, run_from) refl
  run_from-cancelled (first ∷ before) round rest backoff w cancelled =
      elim (Next-cases (run_round P resolve backoff_min backoff_max first backoff w)) [
        | inl (w', e) ↦ rw (e, run_from) refl
        | inr (backoff', w', e) ↦
            rw (e, run_from) (run_from-cancelled before round rest backoff' w' cancelled)
      ]

  -- A round that finds the watcher cancelled, while it watches or at its end, is the last one: what
  -- the rounds behind it would meet makes no difference to the watcher or to its backoff.
  pub run-cancelled :
      (before : List Round) (round : Round) (rest : List Round) (w : Watcher P)
      → IsCancelled round
      → run P resolve backoff_min backoff_max (before ++ round ∷ rest) w
        ≡ run P resolve backoff_min backoff_max (before ++ round ∷ []) w
  run-cancelled before round rest w cancelled =
      run_from-cancelled before round rest backoff_min w cancelled
