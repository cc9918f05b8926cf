-- ===== src/Examples/Pods.antt =====
-- Runs of orb8-agent/src/pod_cache.rs: a cache of one place, and two pods.
use orb.Prelude.{refl, List, [], ◌∷◌}
use orb.Prelude.Text.{codes}
use orb.Examples.{pod_table, web, db}
use orb.Health
use orb.Health.{HealthState, set_pod_cache_at_capacity, inc_pod_cache_evictions}
use orb.PodCache.{PodCache, new, insert_by_ip}
use orb.PodCache.Bounds.{IsValid}
use orb.PodCache.Calls.{Call, run_calls, run_calls-new-IsValid}

unfoldable one_pod : PodCache pod_table
one_pod = (insert_by_ip pod_table web (new pod_table 1) Health.new).0

abbrev calls : List Call
calls =
    Call.insert_by_ip web
    ∷ Call.insert_by_ip db
    ∷ Call.insert 7 db
    ∷ Call.remove_pod (codes "web")
    ∷ Call.insert_by_ip db
    ∷ Call.remove 7
    ∷ []

run_calls-new-IsValid_example :
    IsValid pod_table
      (run_calls pod_table calls (new pod_table 1) Health.new).0
      (run_calls pod_table calls (new pod_table 1) Health.new).1
run_calls-new-IsValid_example = run_calls-new-IsValid pod_table calls 1 Health.new refl
