-- ===== src/PodCache/Reads.antt =====
-- orb8-agent/src/pod_cache.rs: what can be read after a call, and what the health state records.
use orb.Prelude.{
  ℕ, suc, ◌≡◌, refl, inl, inr, Bool, true, ◌||◌, Option, none, some, arith, is_some, ltb,
  Option-cases, if◌then◌else◌, ite,
}
use orb.Prelude.Text.{Text, Text-discrete}
use orb.Health.{HealthState, inc_pod_cache_evictions, set_pod_cache_at_capacity}
use orb.PodCache.{
  PodMetadata, PodCache, insert_ip, insert_pod_ip, insert_by_ip, insert, remove_pod, is_other,
}
use orb.Table.{Table}

module _ (T : Table ℕ PodMetadata) where
  -- There is a place for the address: it is known already, or the map is not full.
  abbrev pub has_place : PodCache T → ℕ → Bool
  has_place c ip = is_some (T.get c.by_ip ip) || ltb (T.len c.by_ip) c.max_entries

  -- A pod with an address that has a place is found under it from then on, every other address
  -- gives what it gave before, and the health state is as before. With no place each address gives
  -- what it gave before, and the health state reports a full cache and one eviction more.
  pub insert_by_ip_lem :
      (m : PodMetadata) (ip : ℕ) (c : PodCache T) (h : HealthState) (j : ℕ)
      → m.pod_ip ≡ some ip
      → (T.get (insert_by_ip T m c h).0.by_ip j ≡ (
          if has_place c ip then ite (T.dec ip j) (some m) (T.get c.by_ip j) else T.get c.by_ip j))
        × ((insert_by_ip T m c h).1 ≡ (
            if has_place c ip
            then h
            else inc_pod_cache_evictions (set_pod_cache_at_capacity true h)))
  unfolding insert_by_ip insert_pod_ip insert_ip
  insert_by_ip_lem m ip c h j own =
      rw own (ground (arith, T.get-insert c.by_ip ip m j), ground arith)

  -- What is left of an entry when the pod of the uid is deleted.
  abbrev pub without : Text → Option PodMetadata → Option PodMetadata
  without uid none = none
  without uid (some v) = ite (Text-discrete v.pod_uid uid) none (some v)

  get-retain_other :
      (uid : Text) (map : T.Map) (k : ℕ)
      → T.get (T.retain map (is_other T uid)) k ≡ without uid (T.get map k)
  get-retain_other uid map k = elim (Option-cases (T.get map k)) [
    | inl miss ↦ rw miss (T.get-retain_none map (is_other T uid) k miss)
    | inr (v, hit) ↦ rw hit (ground (arith, T.get-retain_some map (is_other T uid) k v hit))
  ]

  -- After the deletion of a pod neither map has an entry with its uid, and every entry of another
  -- pod is found as before.
  pub remove_pod_lem :
      (uid : Text) (c : PodCache T) (h : HealthState) (k : ℕ)
      → (T.get (remove_pod T uid c h).0.by_ip k ≡ without uid (T.get c.by_ip k))
        × (T.get (remove_pod T uid c h).0.by_cgroup k ≡ without uid (T.get c.by_cgroup k))
  unfolding remove_pod
  remove_pod_lem uid c h k = (get-retain_other uid c.by_ip k, get-retain_other uid c.by_cgroup k)

  insert_ip-by_cgroup :
      (ip : ℕ) (m : PodMetadata) (c : PodCache T) (h : HealthState)
      → (insert_ip T ip m c h).0.by_cgroup ≡ c.by_cgroup
  unfolding insert_ip
  insert_ip-by_cgroup ip m c h = ground arith

  insert_pod_ip-by_cgroup :
      (ip : Option ℕ) (m : PodMetadata) (c : PodCache T) (h : HealthState)
      → (insert_pod_ip T ip m c h).0.by_cgroup ≡ c.by_cgroup
  unfolding insert_pod_ip
  insert_pod_ip-by_cgroup none m c h = refl
  insert_pod_ip-by_cgroup (some ip) m c h = insert_ip-by_cgroup ip m c h

  -- The limit does not bound the map by cgroup: a container with a new cgroup always enlarges it,
  -- and is found there, whether or not its address was refused.
  pub insert-by_cgroup :
      (cgroup_id : ℕ) (m : PodMetadata) (c : PodCache T) (h : HealthState)
      → T.get c.by_cgroup cgroup_id ≡ none
      → (T.len (insert T cgroup_id m c h).0.by_cgroup ≡ suc (T.len c.by_cgroup))
        × (T.get (insert T cgroup_id m c h).0.by_cgroup cgroup_id ≡ some m)
  unfolding insert
  insert-by_cgroup cgroup_id m c h fresh =
      let same : (insert_pod_ip T m.pod_ip m c h).0.by_cgroup ≡ c.by_cgroup =
        insert_pod_ip-by_cgroup m.pod_ip m c h in
      rw same (
        T.len-insert_new c.by_cgroup cgroup_id m fresh,
        ground (arith, T.get-insert c.by_cgroup cgroup_id m cgroup_id),
      )
