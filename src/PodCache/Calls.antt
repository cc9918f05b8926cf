-- ===== src/PodCache/Calls.antt =====
-- orb8-agent/src/pod_cache.rs: the cache through every sequence of calls.
use orb.Prelude.{ℕ, ◌≡◌, false, List, [], ◌∷◌, arith}
use orb.Prelude.Text.{Text}
use orb.Health.{HealthState}
use orb.PodCache
use orb.PodCache.{PodMetadata, PodCache, new}
use orb.PodCache.Bounds.{
  IsValid, insert-IsValid, insert_by_ip-IsValid, remove-IsValid, remove_pod-IsValid,
}
use orb.Table.{Table}

-- The calls that change the cache.
pub data Call : Type 0 where
  insert : ℕ → PodMetadata → Call
  insert_by_ip : PodMetadata → Call
  remove : ℕ → Call
  remove_pod : Text → Call

module _ (T : Table ℕ PodMetadata) where
  unfoldable pub call : Call → PodCache T → HealthState → PodCache T × HealthState
  call (insert cgroup_id m) c h = PodCache.insert T cgroup_id m c h
  call (insert_by_ip m) c h = PodCache.insert_by_ip T m c h
  call (remove cgroup_id) c h = ((PodCache.remove T cgroup_id c).0, h)
  call (remove_pod uid) c h = PodCache.remove_pod T uid c h

  unfoldable pub run_calls : List Call → PodCache T → HealthState → PodCache T × HealthState
  unfolding call
  run_calls [] c h = (c, h)
  run_calls (x ∷ xs) c h = let (c', h') = call x c h in run_calls xs c' h'

  call-IsValid :
      (x : Call) (c : PodCache T) (h : HealthState)
      → IsValid T c h
      → IsValid T (call x c h).0 (call x c h).1
  unfolding call
  call-IsValid (insert cgroup_id m) c h valid = insert-IsValid T cgroup_id m c h valid
  call-IsValid (insert_by_ip m) c h valid = insert_by_ip-IsValid T m c h valid
  call-IsValid (remove cgroup_id) c h valid = remove-IsValid T cgroup_id c h valid
  call-IsValid (remove_pod uid) c h valid = remove_pod-IsValid T uid c h valid

  run_calls-IsValid :
      (xs : List Call) (c : PodCache T) (h : HealthState)
      → IsValid T c h
      → IsValid T (run_calls xs c h).0 (run_calls xs c h).1
  unfolding run_calls
  run_calls-IsValid [] c h valid = valid
  run_calls-IsValid (x ∷ xs) c h valid =
      run_calls-IsValid xs (call x c h).0 (call x c h).1 (call-IsValid x c h valid)

  -- Whatever calls are made, the map by address never outgrows its limit, each pod stands under its
  -- own address, and the health state reports a full cache only while the map is full, if it did not
  -- report one at the start.
  pub run_calls-new-IsValid :
      (xs : List Call) (max_entries : ℕ) (h : HealthState)
      → h.pod_cache_at_capacity ≡ false
      → IsValid T (run_calls xs (new T max_entries) h).0 (run_calls xs (new T max_entries) h).1
  unfolding new
  run_calls-new-IsValid xs max_entries h clear =
      run_calls-IsValid xs (new T max_entries) h (record {
        bounded = omega (arith, T.len-empty);
        keyed = λ ip v e. cc (T.get-empty ip);
        truthful = λ e. cc;
      })
