-- ===== src/Watcher/Induction.antt =====
-- orb8-agent/src/k8s_watcher.rs: what the watcher does is made of four changes; a property that each
-- of them keeps is kept by all of it.
use orb.Prelude.{
  ℕ, inl, inr, Bool, true, Option, none, some, List, [], ◌∷◌, Bool-cases, is_some, is_empty,
  unwrap_or,
}
use orb.Prelude.Text.{Text}
use orb.PodCache
use orb.PodCache.{PodMetadata, PodCache}
use orb.Table.{Table}
use orb.Watcher.{
  Pod, PodStatus, ContainerStatus, Event, apply, init_apply, delete, init, init_done, Watcher,
  with_cache, set_connected, insert_container, apply_container, apply_containers, apply_status,
  apply_if_status, handle_pod_apply, handle_pod_delete, handle_event, watch_pods, apply_all,
  resync_all, uid_of, ip_of, metadata,
}

-- The property is kept by the operations of the cache that the watcher calls, and by the flag.
pub record IsClosed (P : Table ℕ PodMetadata) (Q : Watcher P → Type 0) : Type 0 where
  pub insert :
      (cgroup_id : ℕ) (m : PodMetadata) (w : Watcher P)
      → Q w
      → Q (with_cache P (PodCache.insert P cgroup_id m) w)
  pub insert_by_ip :
      (m : PodMetadata) (w : Watcher P) → Q w → Q (with_cache P (PodCache.insert_by_ip P m) w)
  pub remove_pod :
      (uid : Text) (w : Watcher P) → Q w → Q (with_cache P (PodCache.remove_pod P uid) w)
  pub set_connected : (val : Bool) (w : Watcher P) → Q w → Q (set_connected P val w)

module _ (P : Table ℕ PodMetadata) (resolve : Text → Text → Option ℕ) (Q : Watcher P → Type 0)
    (closed : IsClosed P Q) where
  insert_container-Kept :
      (pod : Pod) (ip : Option ℕ) (name id : Text) (cgroup_id : Option ℕ) (w : Watcher P)
      → Q w
      → Q (insert_container P resolve pod ip name id cgroup_id w)
  unfolding insert_container
  insert_container-Kept pod ip name id none w kept = kept
  insert_container-Kept pod ip name id (some cgroup_id) w kept =
      closed.insert cgroup_id (metadata pod ip name id) w kept

  apply_container-Kept :
      (pod : Pod) (ip : Option ℕ) (name : Text) (id : Option Text) (w : Watcher P)
      → Q w
      → Q (apply_container P resolve pod ip name id w)
  unfolding apply_container
  apply_container-Kept pod ip name none w kept = kept
  apply_container-Kept pod ip name (some id) w kept =
      insert_container-Kept pod ip name id (resolve (uid_of pod) id) w kept

  apply_containers-Kept :
      (pod : Pod) (ip : Option ℕ) (css : List ContainerStatus) (w : Watcher P)
      → Q w
      → Q (apply_containers P resolve pod ip css w)
  unfolding apply_containers
  apply_containers-Kept pod ip [] w kept = kept
  apply_containers-Kept pod ip (cs ∷ css) w kept =
      apply_containers-Kept pod ip css (apply_container P resolve pod ip cs.name cs.container_id w)
        (apply_container-Kept pod ip cs.name cs.container_id w kept)

  apply_status-Kept :
      (pod : Pod) (status : PodStatus) (w : Watcher P)
      → Q w
      → Q (apply_status P resolve pod status w)
  unfolding apply_status
  apply_status-Kept pod status w kept = elim (Bool-cases (is_some (ip_of status))) [
    | inl e ↦ rw e (
        apply_containers-Kept pod (ip_of status) (unwrap_or status.container_statuses [])
          (with_cache P (PodCache.insert_by_ip P (metadata pod (ip_of status) [] [])) w)
          (closed.insert_by_ip (metadata pod (ip_of status) [] []) w kept))
    | inr e ↦
        rw e
          (apply_containers-Kept pod (ip_of status) (unwrap_or status.container_statuses []) w kept)
  ]

  apply_if_status-Kept :
      (pod : Pod) (status : Option PodStatus) (w : Watcher P)
      → Q w
      → Q (apply_if_status P resolve pod status w)
  unfolding apply_if_status
  apply_if_status-Kept pod none w kept = kept
  apply_if_status-Kept pod (some status) w kept = apply_status-Kept pod status w kept

  pub handle_pod_apply-Kept :
      (pod : Pod) (w : Watcher P) → Q w → Q (handle_pod_apply P resolve pod w)
  unfolding handle_pod_apply
  handle_pod_apply-Kept pod w kept = elim (Bool-cases (is_empty (uid_of pod))) [
    | inl e ↦ rw e kept
    | inr e ↦ rw e (apply_if_status-Kept pod pod.status w kept)
  ]

  handle_pod_delete-Kept : (pod : Pod) (w : Watcher P) → Q w → Q (handle_pod_delete P resolve pod w)
  unfolding handle_pod_delete
  handle_pod_delete-Kept pod w kept = elim (Bool-cases (is_empty (uid_of pod))) [
    | inl e ↦ rw e kept
    | inr e ↦ rw e (closed.remove_pod (uid_of pod) w kept)
  ]

  pub handle_event-Kept : (event : Event) (w : Watcher P) → Q w → Q (handle_event P resolve event w)
  unfolding handle_event
  handle_event-Kept (apply pod) w kept = handle_pod_apply-Kept pod w kept
  handle_event-Kept (init_apply pod) w kept = handle_pod_apply-Kept pod w kept
  handle_event-Kept (delete pod) w kept = handle_pod_delete-Kept pod w kept
  handle_event-Kept init w kept = kept
  handle_event-Kept init_done w kept = closed.set_connected true w kept

  pub watch_pods-Kept :
      (results : List (Option Event)) (w : Watcher P) → Q w → Q (watch_pods P resolve results w).1
  unfolding watch_pods
  watch_pods-Kept [] w kept = kept
  watch_pods-Kept (none ∷ results) w kept = kept
  watch_pods-Kept (some event ∷ results) w kept =
      watch_pods-Kept results (handle_event P resolve event w) (handle_event-Kept event w kept)

  apply_all-Kept : (pods : List Pod) (w : Watcher P) → Q w → Q (apply_all P resolve pods w)
  unfolding apply_all
  apply_all-Kept [] w kept = kept
  apply_all-Kept (pod ∷ pods) w kept =
      apply_all-Kept pods (handle_pod_apply P resolve pod w) (handle_pod_apply-Kept pod w kept)

  pub resync_all-Kept :
      (listed : Option (List Pod)) (w : Watcher P) → Q w → Q (resync_all P resolve listed w)
  unfolding resync_all
  resync_all-Kept none w kept = kept
  resync_all-Kept (some pods) w kept =
      closed.set_connected true (apply_all P resolve pods w) (apply_all-Kept pods w kept)
