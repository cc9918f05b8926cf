-- ===== src/Startup/Shutdown.antt =====
-- orb8-agent/src/main.rs: the loop ends at the first signal, and the agent soon after it.
use Prim.Native.Nat.{max}
use orb.Prelude.{
  ℕ, ◌≤◌, ◌≡◌, ◌↔◌, refl, inl, inr, Option, none, some, List, [], ◌∷◌, ◌++◌, map, arith, leb,
  Bool-cases, All, Option-cases,
}
use orb.Prelude.Text.{Text}
use orb.Aggregator.{FlowKey, FlowStats}
use orb.PodCache.{PodMetadata}
use orb.Ring.{RingBuf}
use orb.Startup.{
  Occurrence, sigint, sigterm, Loop, main_loop, join_all, Outcome, before_deadline, shutdown,
}
use orb.System.{Move, State, run}
use orb.Table.{Table}

pub data IsSignal : Occurrence → Type 0 where
  interrupt : IsSignal sigint
  terminate : IsSignal sigterm

module _ (F : Table FlowKey FlowStats) (P : Table ℕ PodMetadata) (R : RingBuf)
    (resolve : Text → Text → Option ℕ) (grpc_port : ℕ) (local_ips : List ℕ)
    (max_batch_size : ℕ) where
  -- The loop ends at the first signal, of either kind. It has made the moves before the signal, in
  -- their order, and none of what occurs behind it.
  pub main_loop_lem :
      (ms : List Move) (signal : Occurrence) (rest : List Occurrence) (s : State F P R)
      → IsSignal signal
      → main_loop F P R resolve grpc_port local_ips max_batch_size
          (map Occurrence.act ms ++ signal ∷ rest)
          s
        ≡ Loop.cancelled (run F P R resolve grpc_port local_ips max_batch_size ms s) rest
  unfolding main_loop run
  main_loop_lem [] signal rest s interrupt = refl
  main_loop_lem [] signal rest s terminate = refl
  main_loop_lem (m ∷ ms) signal rest s e = main_loop_lem ms signal rest _ e

-- The task ends within the time.
abbrev pub IsDone : ℕ → Option ℕ → Type 0
IsDone deadline none = ⊥
IsDone deadline (some end) = end ≤ deadline

abbrev pub elapsed : Outcome → ℕ
elapsed (Outcome.clean t) = t
elapsed (Outcome.timed_out t) = t

abbrev pub IsClean : Outcome → Type 0
IsClean (Outcome.clean t) = Unit
IsClean (Outcome.timed_out t) = ⊥

-- Every task is done by `end`, and the wait took no longer than the last of them, or `now`.
join_all→done :
    (deadline now : ℕ) (ends : List (Option ℕ)) (end : ℕ)
    → join_all ends now ≡ some end
    → end ≤ deadline
    → (now ≤ deadline) × All (IsDone deadline) ends
unfolding join_all
join_all→done deadline now [] end e small = (ground arith, tt)
join_all→done deadline now (none ∷ ends) end e small = cc
join_all→done deadline now (some t ∷ ends) end e small =
    let (small', done) = join_all→done deadline (max now t) ends end e small in
    (omega (arith, small'), (omega (arith, small'), done))

done→join_all :
    (deadline now : ℕ) (ends : List (Option ℕ))
    → now ≤ deadline
    → All (IsDone deadline) ends
    → (end : ℕ) × (join_all ends now ≡ some end) × (end ≤ deadline)
unfolding join_all
done→join_all deadline now [] small done = (now, refl, small)
done→join_all deadline now (none ∷ ends) small (done, rest) = absurd done
done→join_all deadline now (some t ∷ ends) small (done, rest) =
    done→join_all deadline (max now t) ends (omega arith) rest

-- The wait for the tasks never takes longer than the deadline, even if a task never ends, and it
-- ends cleanly exactly if each task ends within the deadline.
pub shutdown_lem :
    (deadline : ℕ) (ends : List (Option ℕ))
    → (elapsed (shutdown deadline ends) ≤ deadline)
      × (IsClean (shutdown deadline ends) ↔ All (IsDone deadline) ends)
unfolding shutdown
shutdown_lem deadline ends = elim (Option-cases (join_all ends 0)) [
  | inl never ↦ rw never (
    omega arith,
    (
      (λ clean. absurd clean),
      λ done. let (end, e, small) = done→join_all deadline 0 ends (omega arith) done in cc,
    ),
  )
  | inr (end, e) ↦ elim (Bool-cases (leb end deadline)) [
    | inl small ↦
        rw (e, before_deadline, small)
          (
            ground arith,
            ((λ clean. (join_all→done deadline 0 ends end e (ground arith)).1), λ done. tt),
          )
    | inr late ↦
        rw (e, before_deadline, late)
          (
            omega arith,
            (
              (λ clean. absurd clean),
              λ done.
                  let (end', e', small) = done→join_all deadline 0 ends (omega arith) done in
                  ground arith,
            ),
          )
  ]
]
