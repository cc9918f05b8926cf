-- ===== src/Watcher/Apply.antt =====
-- orb8-agent/src/k8s_watcher.rs: what the cache holds of a pod that was applied or deleted.
use orb.Prelude.{
  sym, ℕ, ◌≡◌, refl, ap, ◌∙◌, inl, inr, true, false, Option, none, some, List, [], ◌∷◌, arith,
  Option-cases, is_empty, map_option, unwrap_or,
}
use orb.Prelude.Text.{Text}
use orb.Agent.{names_of}
use orb.Health.{HealthState}
use orb.PodCache
use orb.PodCache.{PodMetadata, PodCache, get_by_ip}
use orb.PodCache.Reads.{has_place, without, insert_by_ip_lem, remove_pod_lem}
use orb.Table.{Table}
use orb.Watcher.{
  Pod, PodStatus, ContainerStatus, Watcher, with_cache, insert_container, apply_container,
  apply_containers, apply_status, apply_if_status, handle_pod_apply, handle_pod_delete,
  namespace_of, name_of, uid_of, ip_of, metadata,
}

-- The pod that an entry belongs to.
abbrev pub owner : PodMetadata → (Text × Text) × Text
owner m = (names_of m, m.pod_uid)

abbrev pub owner_of : Pod → (Text × Text) × Text
owner_of pod = ((namespace_of pod, name_of pod), uid_of pod)

module _ (P : Table ℕ PodMetadata) (resolve : Text → Text → Option ℕ) where
  -- The pod that is found under an address.
  abbrev pub found_at : ℕ → Watcher P → Option ((Text × Text) × Text)
  found_at ip w = map_option owner (P.get w.cache.by_ip ip)

  insert_by_ip-found :
      (m : PodMetadata) (ip : ℕ) (c : PodCache P) (h : HealthState)
      → m.pod_ip ≡ some ip
      → has_place P c ip ≡ true
      → P.get (PodCache.insert_by_ip P m c h).0.by_ip ip ≡ some m
  insert_by_ip-found m ip c h own place = ground (arith, (insert_by_ip_lem P m ip c h ip own).0)

  insert-by_ip :
      (cgroup_id : ℕ) (m : PodMetadata) (c : PodCache P) (h : HealthState)
      → (PodCache.insert P cgroup_id m c h).0.by_ip ≡ (PodCache.insert_by_ip P m c h).0.by_ip
  unfolding PodCache.insert PodCache.insert_by_ip
  insert-by_ip cgroup_id m c h = refl

  -- An address under which something is found has a place.
  found-has_place :
      (ip : ℕ) (w : Watcher P) (o : (Text × Text) × Text)
      → found_at ip w ≡ some o
      → has_place P w.cache ip ≡ true
  found-has_place ip w o e = elim (Option-cases (P.get w.cache.by_ip ip)) [
    | inl miss ↦ absurd (cc)
    | inr (v, hit) ↦ rw hit
  ]

  module _ (pod : Pod) (ip : ℕ) where
    insert_container-found :
        (name id : Text) (cgroup_id : Option ℕ) (w : Watcher P)
        → found_at ip w ≡ some (owner_of pod)
        → found_at ip (insert_container P resolve pod (some ip) name id cgroup_id w)
          ≡ some (owner_of pod)
    unfolding insert_container
    insert_container-found name id none w e = e
    insert_container-found name id (some cgroup_id) w e = ap (map_option owner) (
        ap (λ m. P.get m ip)
          (insert-by_ip cgroup_id (metadata pod (some ip) name id) w.cache w.health)
        ∙ insert_by_ip-found (metadata pod (some ip) name id) ip w.cache w.health refl
            (found-has_place ip w (owner_of pod) e))

    apply_container-found :
        (name : Text) (id : Option Text) (w : Watcher P)
        → found_at ip w ≡ some (owner_of pod)
        → found_at ip (apply_container P resolve pod (some ip) name id w) ≡ some (owner_of pod)
    unfolding apply_container
    apply_container-found name none w e = e
    apply_container-found name (some id) w e =
        insert_container-found name id (resolve (uid_of pod) id) w e

    apply_containers-found :
        (css : List ContainerStatus) (w : Watcher P)
        → found_at ip w ≡ some (owner_of pod)
        → found_at ip (apply_containers P resolve pod (some ip) css w) ≡ some (owner_of pod)
    unfolding apply_containers
    apply_containers-found [] w e = e
    apply_containers-found (cs ∷ css) w e =
        apply_containers-found css
          (apply_container P resolve pod (some ip) cs.name cs.container_id w)
          (apply_container-found cs.name cs.container_id w e)

    apply_status-found :
        (status : PodStatus) (w : Watcher P)
        → ip_of status ≡ some ip
        → has_place P w.cache ip ≡ true
        → found_at ip (apply_status P resolve pod status w) ≡ some (owner_of pod)
    unfolding apply_status
    apply_status-found status w at place = rw at (
        apply_containers-found (unwrap_or status.container_statuses [])
          (with_cache P (PodCache.insert_by_ip P (metadata pod (some ip) [] [])) w)
          (ap (map_option owner)
            (insert_by_ip-found (metadata pod (some ip) [] []) ip w.cache w.health refl place)))

    -- A pod with a uid and an address that is applied, and has a place in the cache, is found under
    -- its address from then on, however many of its containers are put into the cache behind it.
    pub handle_pod_apply-found :
        (status : PodStatus) (w : Watcher P)
        → is_empty (uid_of pod) ≡ false
        → pod.status ≡ some status
        → ip_of status ≡ some ip
        → has_place P w.cache ip ≡ true
        → found_at ip (handle_pod_apply P resolve pod w) ≡ some (owner_of pod)
    unfolding handle_pod_apply apply_if_status
    handle_pod_apply-found status w named there at place = rw named (
        ap (λ o. found_at ip (apply_if_status P resolve pod o w)) there
        ∙ apply_status-found status w at place)

  -- So the cache gives an entry with the pod's names.
  pub get_by_ip-applied :
      (pod : Pod) (ip : ℕ) (status : PodStatus) (w : Watcher P)
      → is_empty (uid_of pod) ≡ false
      → pod.status ≡ some status
      → ip_of status ≡ some ip
      → has_place P w.cache ip ≡ true
      → (m : PodMetadata) × (get_by_ip P ip (handle_pod_apply P resolve pod w).cache ≡ some m)
        × (names_of m ≡ (namespace_of pod, name_of pod))
  get_by_ip-applied pod ip status w named there at place =
      let w' = handle_pod_apply P resolve pod w in
      let found = handle_pod_apply-found pod ip status w named there at place in
      elim (Option-cases (P.get w'.cache.by_ip ip)) [
        | inl miss ↦ absurd (cc)
        | inr (m, hit) ↦
            let same : some (owner m) ≡ some (owner_of pod) =
              ap (map_option owner) (sym hit) ∙ found in
            (m, hit, ap (λ (o : Option ((Text × Text) × Text)). (unwrap_or o (owner m)).0) same)
      ]

  without-own :
      (uid : Text) (o : Option PodMetadata) (n : Text × Text)
      → map_option owner o ≡ some (n, uid)
      → without P uid o ≡ none
  without-own uid none n e = refl
  without-own uid (some v) n e = ground arith

  handle_pod_delete-by_ip :
      (pod : Pod) (w : Watcher P) (k : ℕ)
      → is_empty (uid_of pod) ≡ false
      → P.get (handle_pod_delete P resolve pod w).cache.by_ip k
        ≡ without P (uid_of pod) (P.get w.cache.by_ip k)
  unfolding handle_pod_delete
  handle_pod_delete-by_ip pod w k named =
      rw named (remove_pod_lem P (uid_of pod) w.cache w.health k).0

  -- A pod that is applied and then deleted leaves nothing under its address, so that no packet is
  -- attributed to it any more. The pod has a uid, an address, and a place in the cache.
  pub apply_then_delete :
      (pod : Pod) (ip : ℕ) (status : PodStatus) (w : Watcher P)
      → is_empty (uid_of pod) ≡ false
      → pod.status ≡ some status
      → ip_of status ≡ some ip
      → has_place P w.cache ip ≡ true
      → P.get (handle_pod_delete P resolve pod (handle_pod_apply P resolve pod w)).cache.by_ip ip
        ≡ none
  apply_then_delete pod ip status w named there at place =
      handle_pod_delete-by_ip pod (handle_pod_apply P resolve pod w) ip named
      ∙ without-own (uid_of pod) _ (namespace_of pod, name_of pod)
          (handle_pod_apply-found pod ip status w named there at place)
