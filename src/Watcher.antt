-- ===== src/Watcher.antt =====
-- orb8-agent/src/k8s_watcher.rs: the watcher that keeps the pod cache in step with Kubernetes. The
-- stream of events and the listing of pods come from the crate `kube`; they are arguments, and so is
-- the resolver of cgroups.
pub mod Apply
pub mod Induction
pub mod Safety
pub mod Rounds
pub mod Backoff
use Prim.Native.Nat.{min}
use orb.Prelude.{
  ℕ, zero, suc, ◌+◌, ◌*◌, ◌/◌, ◌%◌, Bool, true, false, Option, none, some, ◌>>=◌, List, [], ◌∷◌,
  if◌then◌else◌, ◌==◌, is_empty, is_some, unwrap_or,
}
use orb.Prelude.Text.{Text, codes}
use orb.Health
use orb.Health.{HealthState}
use orb.Net.{parse_ipv4}
use orb.PodCache
use orb.PodCache.{PodMetadata, PodCache}
use orb.Table.{Table}

-- What the watcher reads of the API's objects.
pub record ContainerStatus : Type 0 where
  pub name : Text
  pub container_id : Option Text

pub record PodStatus : Type 0 where
  pub pod_ip : Option Text
  pub container_statuses : Option (List ContainerStatus)

pub record Pod : Type 0 where
  pub namespace : Option Text
  pub name : Option Text
  pub uid : Option Text
  pub status : Option PodStatus

-- `watcher::Event`
pub data Event : Type 0 where
  apply : Pod → Event
  init_apply : Pod → Event
  delete : Pod → Event
  init : Event
  init_done : Event

abbrev pub namespace_of : Pod → Text
namespace_of pod = unwrap_or pod.namespace (codes "default")

abbrev pub name_of : Pod → Text
name_of pod = unwrap_or pod.name (codes "unknown")

abbrev pub uid_of : Pod → Text
uid_of pod = unwrap_or pod.uid []

abbrev pub ip_of : PodStatus → Option ℕ
ip_of status = do ip ← status.pod_ip; parse_ipv4 ip

-- The metadata of a container, or of the pod as a whole where both texts are empty.
abbrev pub metadata : Pod → Option ℕ → Text → Text → PodMetadata
metadata pod pod_ip container_name container_id = record {
  namespace = namespace_of pod;
  pod_name = name_of pod;
  pod_uid = uid_of pod;
  container_name = container_name;
  container_id = container_id;
  pod_ip = pod_ip;
}

-- `jitter_millis`: a part of a quarter of the backoff, from the nanoseconds of the clock. Durations
-- are in nanoseconds.
unfoldable pub jitter_millis : ℕ → ℕ → ℕ
jitter_millis nanos backoff =
    let max_jitter = backoff / 1000000 / 4 in if max_jitter == 0 then 0 else nanos % max_jitter

-- The time for which the watcher sleeps after an error.
abbrev pub sleep_duration : ℕ → ℕ → ℕ
sleep_duration nanos backoff = backoff + jitter_millis nanos backoff * 1000000

-- `std::cmp::min(backoff * 2, self.backoff_max)`
abbrev pub next_backoff : ℕ → ℕ → ℕ
next_backoff backoff_max backoff = min (backoff * 2) backoff_max

-- What one round of the loop in `run` meets: the results of the stream up to its end or to an error
-- (`none`), or up to the cancellation; whether the watcher is cancelled at the three places where it
-- looks; the nanoseconds of the clock, and the answer to the listing of pods.
pub record Round : Type 0 where
  pub results : List (Option Event)
  pub cancelled_watching : Bool
  pub cancelled_asleep : Bool
  pub cancelled_after : Bool
  pub nanos : ℕ
  pub listed : Option (List Pod)

module _ (P : Table ℕ PodMetadata) where
  pub record Watcher : Type 0 where
    pub cache : PodCache P
    pub health : HealthState

  -- A change of the cache by one of its operations.
  abbrev pub with_cache : (PodCache P → HealthState → PodCache P × HealthState) → Watcher → Watcher
  with_cache change w =
      let (cache, health) = change w.cache w.health in record { cache = cache; health = health }

  abbrev pub set_connected : Bool → Watcher → Watcher
  set_connected val w = record w { health = Health.set_k8s_watcher_connected val w.health }

  -- How a round ends: the watcher stops, or goes on with the backoff.
  pub data Next : Type 0 where
    stop : Watcher → Next
    continue : ℕ → Watcher → Next

  -- `cgroup_resolver.resolve`
  module _ (resolve : Text → Text → Option ℕ) where
    -- A container with the id and the cgroup that were found.
    unfoldable pub insert_container : Pod → Option ℕ → Text → Text → Option ℕ → Watcher → Watcher
    insert_container pod pod_ip name container_id none w = w
    insert_container pod pod_ip name container_id (some cgroup_id) w =
        with_cache (PodCache.insert P cgroup_id (metadata pod pod_ip name container_id)) w

    unfoldable pub apply_container : Pod → Option ℕ → Text → Option Text → Watcher → Watcher
    apply_container pod pod_ip name none w = w
    apply_container pod pod_ip name (some container_id) w =
        insert_container pod pod_ip name container_id (resolve (uid_of pod) container_id) w

    -- `for cs in container_statuses`
    unfoldable pub apply_containers : Pod → Option ℕ → List ContainerStatus → Watcher → Watcher
    apply_containers pod pod_ip [] w = w
    apply_containers pod pod_ip (cs ∷ css) w =
        apply_containers pod pod_ip css (apply_container pod pod_ip cs.name cs.container_id w)

    -- `handle_pod_apply`, for a pod with a status
    unfoldable pub apply_status : Pod → PodStatus → Watcher → Watcher
    apply_status pod status w =
        apply_containers pod (ip_of status) (unwrap_or status.container_statuses []) (
          if is_some (ip_of status)
          then with_cache (PodCache.insert_by_ip P (metadata pod (ip_of status) [] [])) w
          else w)

    unfoldable pub apply_if_status : Pod → Option PodStatus → Watcher → Watcher
    apply_if_status pod none w = w
    apply_if_status pod (some status) w = apply_status pod status w

    unfoldable pub handle_pod_apply : Pod → Watcher → Watcher
    handle_pod_apply pod w = if is_empty (uid_of pod) then w else apply_if_status pod pod.status w

    unfoldable pub handle_pod_delete : Pod → Watcher → Watcher
    handle_pod_delete pod w =
        if is_empty (uid_of pod) then w else with_cache (PodCache.remove_pod P (uid_of pod)) w

    -- `match event`
    unfoldable pub handle_event : Event → Watcher → Watcher
    handle_event (apply pod) w = handle_pod_apply pod w
    handle_event (init_apply pod) w = handle_pod_apply pod w
    handle_event (delete pod) w = handle_pod_delete pod w
    handle_event init w = w
    handle_event init_done w = set_connected true w

    -- The result is `true` if the stream ended, and `false` if it failed.
    unfoldable pub watch_pods : List (Option Event) → Watcher → Bool × Watcher
    watch_pods [] w = (true, w)
    watch_pods (none ∷ results) w = (false, w)
    watch_pods (some event ∷ results) w = watch_pods results (handle_event event w)

    unfoldable pub apply_all : List Pod → Watcher → Watcher
    apply_all [] w = w
    apply_all (pod ∷ pods) w = apply_all pods (handle_pod_apply pod w)

    unfoldable pub resync_all : Option (List Pod) → Watcher → Watcher
    resync_all none w = w
    resync_all (some pods) w = set_connected true (apply_all pods w)

    module _ (backoff_min backoff_max : ℕ) where
      -- From the check behind the watch on.
      unfoldable pub finish_round : Round → ℕ → Watcher → Next
      finish_round round backoff w =
          if round.cancelled_after
          then Next.stop w
          else Next.continue backoff (resync_all round.listed w)

      -- `match result`
      unfoldable pub after_watch : Round → ℕ → Bool → Watcher → Next
      after_watch round backoff true w = finish_round round backoff_min w
      after_watch round backoff false w =
          if round.cancelled_asleep
          then Next.stop (set_connected false w)
          else finish_round round (next_backoff backoff_max backoff) (set_connected false w)

      unfoldable pub run_round : Round → ℕ → Watcher → Next
      run_round round backoff w =
          let (ended, w') = watch_pods round.results w in
          if round.cancelled_watching then Next.stop w' else after_watch round backoff ended w'

      -- `run`, for the rounds that it makes.
      unfoldable pub run_from : List Round → ℕ → Watcher → ℕ × Watcher
      run_from [] backoff w = (backoff, w)
      run_from (round ∷ rounds) backoff w = elim (run_round round backoff w) [
        | stop w' ↦ (backoff, w')
        | continue backoff' w' ↦ run_from rounds backoff' w'
      ]

      abbrev pub run : List Round → Watcher → ℕ × Watcher
      run rounds w = run_from rounds backoff_min w
