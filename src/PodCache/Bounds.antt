-- ===== src/PodCache/Bounds.antt =====
-- orb8-agent/src/pod_cache.rs: the invariant of the cache, through every sequence of calls.
use orb.Prelude.{
  ℕ, ◌≤◌, ◌≡◌, refl, inl, inr, Bool, true, Option, none, some, arith, leb, Bool-cases, Option-cases,
}
use orb.Prelude.Text.{Text}
use orb.Health.{HealthState, set_pod_cache_at_capacity}
use orb.PodCache.{
  PodMetadata, PodCache, insert_ip, insert_pod_ip, insert_by_ip, insert, remove, remove_pod,
  is_other,
}
use orb.Table.{Table}

module _ (T : Table ℕ PodMetadata) where
  -- The map by address holds at most `max_entries` pods, each under its own address, and the health
  -- state reports a full cache only while it is full.
  pub record IsValid (c : PodCache T) (h : HealthState) : Type 0 where
    pub bounded : T.len c.by_ip ≤ c.max_entries
    pub keyed : (ip : ℕ) (v : PodMetadata) → T.get c.by_ip ip ≡ some v → v.pod_ip ≡ some ip
    pub truthful : h.pod_cache_at_capacity ≡ true → c.max_entries ≤ T.len c.by_ip

  abbrev Keyed : T.Map → Type 0
  Keyed m = (ip : ℕ) (v : PodMetadata) → T.get m ip ≡ some v → v.pod_ip ≡ some ip

  insert-Keyed :
      (map : T.Map) (ip : ℕ) (m : PodMetadata)
      → m.pod_ip ≡ some ip
      → Keyed map
      → Keyed (T.insert map ip m)
  insert-Keyed map ip m own keyed j v e = ground (arith, T.get-insert map ip m j, keyed j v)

  retain-Keyed : (map : T.Map) (p : ℕ → PodMetadata → Bool) → Keyed map → Keyed (T.retain map p)
  retain-Keyed map p keyed j v e = elim (Option-cases (T.get map j)) [
    | inl miss ↦ cc (T.get-retain_none map p j miss)
    | inr (w, hit) ↦ ground (arith, T.get-retain_some map p j w hit, keyed j w hit)
  ]

  insert_ip-IsValid :
      (ip : ℕ) (m : PodMetadata) (c : PodCache T) (h : HealthState)
      → m.pod_ip ≡ some ip
      → IsValid c h
      → IsValid (insert_ip T ip m c h).0 (insert_ip T ip m c h).1
  unfolding insert_ip
  insert_ip-IsValid ip m c h own valid = elim (Option-cases (T.get c.by_ip ip)) [
    | inr (v, hit) ↦ rw hit (record {
      bounded = omega (arith, T.len-insert_old c.by_ip ip m v hit, valid.bounded);
      keyed = insert-Keyed c.by_ip ip m own valid.keyed;
      truthful = λ e. omega (arith, T.len-insert_old c.by_ip ip m v hit, valid.truthful e);
    })
    | inl miss ↦ elim (Bool-cases (leb c.max_entries (T.len c.by_ip))) [
      | inl full ↦
          rw (miss, full)
            (record { bounded = valid.bounded; keyed = valid.keyed; truthful = λ _. ground arith })
      | inr room ↦
          rw (miss, room)
            (record {
              bounded = ground (arith, T.len-insert_new c.by_ip ip m miss);
              keyed = insert-Keyed c.by_ip ip m own valid.keyed;
              truthful = λ e. ground (arith, T.len-insert_new c.by_ip ip m miss, valid.truthful e);
            })
    ]
  ]

  insert_pod_ip-IsValid :
      (ip : Option ℕ) (m : PodMetadata) (c : PodCache T) (h : HealthState)
      → m.pod_ip ≡ ip
      → IsValid c h
      → IsValid (insert_pod_ip T ip m c h).0 (insert_pod_ip T ip m c h).1
  unfolding insert_pod_ip
  insert_pod_ip-IsValid none m c h own valid = valid
  insert_pod_ip-IsValid (some ip) m c h own valid = insert_ip-IsValid ip m c h own valid

  pub insert_by_ip-IsValid :
      (m : PodMetadata) (c : PodCache T) (h : HealthState)
      → IsValid c h
      → IsValid (insert_by_ip T m c h).0 (insert_by_ip T m c h).1
  unfolding insert_by_ip
  insert_by_ip-IsValid m c h valid = insert_pod_ip-IsValid m.pod_ip m c h refl valid

  pub insert-IsValid :
      (cgroup_id : ℕ) (m : PodMetadata) (c : PodCache T) (h : HealthState)
      → IsValid c h
      → IsValid (insert T cgroup_id m c h).0 (insert T cgroup_id m c h).1
  unfolding insert
  insert-IsValid cgroup_id m c h valid =
      let v = insert_pod_ip-IsValid m.pod_ip m c h refl valid in
      record { bounded = v.bounded; keyed = v.keyed; truthful = v.truthful }

  pub remove-IsValid :
      (cgroup_id : ℕ) (c : PodCache T) (h : HealthState)
      → IsValid c h
      → IsValid (remove T cgroup_id c).0 h
  unfolding remove
  remove-IsValid cgroup_id c h valid = record {
    bounded = valid.bounded;
    keyed = valid.keyed;
    truthful = valid.truthful;
  }

  pub remove_pod-IsValid :
      (uid : Text) (c : PodCache T) (h : HealthState)
      → IsValid c h
      → IsValid (remove_pod T uid c h).0 (remove_pod T uid c h).1
  unfolding remove_pod set_pod_cache_at_capacity
  remove_pod-IsValid uid c h valid = record {
    bounded = omega (arith, T.len-retain-le c.by_ip (is_other T uid), valid.bounded);
    keyed = retain-Keyed c.by_ip (is_other T uid) valid.keyed;
    truthful = ground arith;
  }
