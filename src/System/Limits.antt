-- ===== src/System/Limits.antt =====
-- orb8-agent/src/k8s_watcher.rs: the watcher does not change the limit of the pod cache.
use orb.Prelude.{ℕ, ◌≡◌, Option, none, some, arith}
use orb.Prelude.Text.{Text}
use orb.PodCache
use orb.PodCache.{PodMetadata, PodCache, insert_pod_ip, insert_ip}
use orb.Table.{Table}
use orb.Watcher.{with_cache, Watcher}
use orb.Watcher.Induction.{IsClosed}

-- The limit of the cache.
abbrev pub Limited : (P : Table ℕ PodMetadata) → ℕ → Watcher P → Type 0
Limited P max_entries w = w.cache.max_entries ≡ max_entries

module _ (P : Table ℕ PodMetadata) (max_entries : ℕ) where
  insert_pod_ip-Limited :
      (ip : Option ℕ) (m : PodMetadata) (w : Watcher P)
      → Limited P max_entries w
      → Limited P max_entries (with_cache P (insert_pod_ip P ip m) w)
  unfolding insert_pod_ip insert_ip
  insert_pod_ip-Limited none m w e = e
  insert_pod_ip-Limited (some ip) m w e = ground arith

  insert-Limited :
      (cgroup_id : ℕ) (m : PodMetadata) (w : Watcher P)
      → Limited P max_entries w
      → Limited P max_entries (with_cache P (PodCache.insert P cgroup_id m) w)
  unfolding PodCache.insert
  insert-Limited cgroup_id m w e = insert_pod_ip-Limited m.pod_ip m w e

  insert_by_ip-Limited :
      (m : PodMetadata) (w : Watcher P)
      → Limited P max_entries w
      → Limited P max_entries (with_cache P (PodCache.insert_by_ip P m) w)
  unfolding PodCache.insert_by_ip
  insert_by_ip-Limited m w e = insert_pod_ip-Limited m.pod_ip m w e

  remove_pod-Limited :
      (uid : Text) (w : Watcher P)
      → Limited P max_entries w
      → Limited P max_entries (with_cache P (PodCache.remove_pod P uid) w)
  unfolding PodCache.remove_pod
  remove_pod-Limited uid w e = ground arith

  pub Limited-IsClosed : IsClosed P (Limited P max_entries)
  Limited-IsClosed = record {
    insert = insert-Limited;
    insert_by_ip = insert_by_ip-Limited;
    remove_pod = remove_pod-Limited;
    set_connected = λ val w e. e;
  }
