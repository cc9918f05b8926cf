-- ===== src/Watcher/Safety.antt =====
-- orb8-agent/src/k8s_watcher.rs: the pod cache through everything that the watcher does.
use orb.Prelude.{ℕ, Bool, Option, List}
use orb.Prelude.Text.{Text}
use orb.Health.{set_k8s_watcher_connected}
use orb.PodCache.{PodMetadata}
use orb.PodCache.Bounds.{IsValid, insert-IsValid, insert_by_ip-IsValid, remove_pod-IsValid}
use orb.Table.{Table}
use orb.Watcher.{Pod, Event, Watcher, set_connected, handle_event, watch_pods, resync_all}
use orb.Watcher.Induction.{IsClosed, handle_event-Kept, watch_pods-Kept, resync_all-Kept}

-- The cache of the watcher meets the invariant of the cache.
abbrev pub IsSafe : (P : Table ℕ PodMetadata) → Watcher P → Type 0
IsSafe P w = IsValid P w.cache w.health

module _ (P : Table ℕ PodMetadata) (resolve : Text → Text → Option ℕ) where
  pub set_connected-IsSafe :
      (val : Bool) (w : Watcher P) → IsSafe P w → IsSafe P (set_connected P val w)
  unfolding set_k8s_watcher_connected
  set_connected-IsSafe val w safe = record {
    bounded = safe.bounded;
    keyed = safe.keyed;
    truthful = safe.truthful;
  }

  pub IsSafe-IsClosed : IsClosed P (IsSafe P)
  IsSafe-IsClosed = record {
    insert = λ cgroup_id m w. insert-IsValid P cgroup_id m w.cache w.health;
    insert_by_ip = λ m w. insert_by_ip-IsValid P m w.cache w.health;
    remove_pod = λ uid w. remove_pod-IsValid P uid w.cache w.health;
    set_connected = set_connected-IsSafe;
  }

  pub handle_event-IsSafe :
      (event : Event) (w : Watcher P) → IsSafe P w → IsSafe P (handle_event P resolve event w)
  handle_event-IsSafe = handle_event-Kept P resolve (IsSafe P) IsSafe-IsClosed

  pub watch_pods-IsSafe :
      (results : List (Option Event)) (w : Watcher P)
      → IsSafe P w
      → IsSafe P (watch_pods P resolve results w).1
  watch_pods-IsSafe = watch_pods-Kept P resolve (IsSafe P) IsSafe-IsClosed

  pub resync_all-IsSafe :
      (listed : Option (List Pod)) (w : Watcher P)
      → IsSafe P w
      → IsSafe P (resync_all P resolve listed w)
  resync_all-IsSafe = resync_all-Kept P resolve (IsSafe P) IsSafe-IsClosed
