-- ===== src/PodCache.antt =====
-- orb8-agent/src/pod_cache.rs: the pods that the agent knows, by cgroup and by address. The two maps
-- are a parameter, and the health state that the program shares is passed in and out.
pub mod Bounds
pub mod Calls
pub mod Reads
use orb.Prelude.{
  ℕ, Bool, true, false, not, Option, none, some, List, if◌then◌else◌, leb, ltb, is_some, ite,
}
use orb.Prelude.Text.{Text, Text-discrete}
use orb.Health
use orb.Health.{HealthState}
use orb.Table.{Table}

pub record PodMetadata : Type 0 where
  pub namespace : Text
  pub pod_name : Text
  pub pod_uid : Text
  pub container_name : Text
  pub container_id : Text
  pub pod_ip : Option ℕ

pub record PodCache (T : Table ℕ PodMetadata) : Type 0 where
  pub by_cgroup : T.Map
  pub by_ip : T.Map
  pub max_entries : ℕ

module _ (T : Table ℕ PodMetadata) where
  open T use {dec}

  unfoldable pub new : ℕ → PodCache T
  new max_entries = record { by_cgroup = T.empty; by_ip = T.empty; max_entries = max_entries }

  -- An address that is not known yet is refused while the map is full.
  unfoldable pub insert_ip : ℕ → PodMetadata → PodCache T → HealthState → PodCache T × HealthState
  insert_ip ip metadata c health =
      if is_some (T.get c.by_ip ip)
      then (record c { by_ip = T.insert c.by_ip ip metadata }, health)
      else if leb c.max_entries (T.len c.by_ip)
      then (c, Health.inc_pod_cache_evictions (Health.set_pod_cache_at_capacity true health))
      else (record c { by_ip = T.insert c.by_ip ip metadata }, health)

  -- `if let Some(ip) = metadata.pod_ip { self.insert_ip(ip, metadata) }`
  unfoldable pub insert_pod_ip :
      Option ℕ → PodMetadata → PodCache T → HealthState → PodCache T × HealthState
  insert_pod_ip none metadata c health = (c, health)
  insert_pod_ip (some ip) metadata c health = insert_ip ip metadata c health

  unfoldable pub insert_by_ip : PodMetadata → PodCache T → HealthState → PodCache T × HealthState
  insert_by_ip metadata = insert_pod_ip metadata.pod_ip metadata

  unfoldable pub insert : ℕ → PodMetadata → PodCache T → HealthState → PodCache T × HealthState
  insert cgroup_id metadata c health =
      let (c', health') = insert_pod_ip metadata.pod_ip metadata c health in
      (record c' { by_cgroup = T.insert c'.by_cgroup cgroup_id metadata }, health')

  abbrev pub get : ℕ → PodCache T → Option PodMetadata
  get cgroup_id c = T.get c.by_cgroup cgroup_id

  abbrev pub get_by_ip : ℕ → PodCache T → Option PodMetadata
  get_by_ip ip c = T.get c.by_ip ip

  unfoldable pub remove : ℕ → PodCache T → PodCache T × Option PodMetadata
  remove cgroup_id c =
      (record c { by_cgroup = T.remove c.by_cgroup cgroup_id }, T.get c.by_cgroup cgroup_id)

  -- `|_, v| v.pod_uid != pod_uid`
  abbrev pub is_other : Text → ℕ → PodMetadata → Bool
  is_other pod_uid _ v = ite (Text-discrete v.pod_uid pod_uid) false true

  unfoldable pub remove_pod : Text → PodCache T → HealthState → PodCache T × HealthState
  remove_pod pod_uid c health =
      let by_cgroup = T.retain c.by_cgroup (is_other pod_uid) in
      let by_ip = T.retain c.by_ip (is_other pod_uid) in
      (
        record c { by_cgroup = by_cgroup; by_ip = by_ip },
        if ltb (T.len by_ip) c.max_entries
            then Health.set_pod_cache_at_capacity false health
            else health,
      )

  abbrev pub ip_entries_count : PodCache T → ℕ
  ip_entries_count c = T.len c.by_ip

  abbrev pub len : PodCache T → ℕ
  len c = T.len c.by_cgroup

  abbrev pub entries : PodCache T → List (ℕ × PodMetadata)
  entries c = T.entries c.by_cgroup
