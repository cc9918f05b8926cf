-- ===== src/System/Frames.antt =====
-- What the parts of orb8-agent/src/ leave alone of the state that they share.
use orb.Prelude.{ℕ, ◌≤◌, ◌≡◌, refl, ◌∙◌, Bool, Option, none, some, arith}
use orb.Prelude.Text.{Text}
use orb.Aggregator.{
  FlowKey, FlowStats, FlowAggregator, process_event, record_event, make_room, update_capacity_flag,
  evict_oldest_flows, flow_key, is_fresh,
}
use orb.Agent.{AgentState}
use orb.Aggregator.Tasks.{Expirer}
use orb.Ring.{RingBuf}
use orb.System.{expire_step}
use orb.Common.{NetworkFlowEvent}
use orb.Health.{
  HealthState, inc_flow_evictions, inc_pod_cache_evictions, set_flow_table_at_capacity,
  set_pod_cache_at_capacity, set_k8s_watcher_connected,
}
use orb.PodCache
use orb.PodCache.{PodMetadata, PodCache, insert_pod_ip, insert_ip, insert_by_ip, insert, remove_pod}
use orb.Table.{Table}
use orb.Watcher.{Watcher, set_connected, with_cache}
use orb.Watcher.Induction.{IsClosed}

-- What the watcher does not change of the health state.
abbrev pub Untouched : (P : Table ℕ PodMetadata) → HealthState → Watcher P → Type 0
Untouched P h w =
    (w.health.flow_table_at_capacity ≡ h.flow_table_at_capacity)
    × (w.health.broadcast_drops ≡ h.broadcast_drops)

module _ (P : Table ℕ PodMetadata) where
  insert_pod_ip-Untouched :
      (h : HealthState) (ip : Option ℕ) (m : PodMetadata) (w : Watcher P)
      → Untouched P h w
      → Untouched P h (with_cache P (insert_pod_ip P ip m) w)
  unfolding insert_pod_ip insert_ip inc_pod_cache_evictions set_pod_cache_at_capacity
  insert_pod_ip-Untouched h none m w same = same
  insert_pod_ip-Untouched h (some ip) m w same = ground arith

  insert-Untouched :
      (h : HealthState) (cgroup_id : ℕ) (m : PodMetadata) (w : Watcher P)
      → Untouched P h w
      → Untouched P h (with_cache P (PodCache.insert P cgroup_id m) w)
  unfolding insert
  insert-Untouched h cgroup_id m w same = insert_pod_ip-Untouched h m.pod_ip m w same

  insert_by_ip-Untouched :
      (h : HealthState) (m : PodMetadata) (w : Watcher P)
      → Untouched P h w
      → Untouched P h (with_cache P (PodCache.insert_by_ip P m) w)
  unfolding insert_by_ip
  insert_by_ip-Untouched h m w same = insert_pod_ip-Untouched h m.pod_ip m w same

  remove_pod-Untouched :
      (h : HealthState) (uid : Text) (w : Watcher P)
      → Untouched P h w
      → Untouched P h (with_cache P (PodCache.remove_pod P uid) w)
  unfolding remove_pod set_pod_cache_at_capacity
  remove_pod-Untouched h uid w same = ground arith

  set_connected-Untouched :
      (h : HealthState) (val : Bool) (w : Watcher P)
      → Untouched P h w
      → Untouched P h (set_connected P val w)
  unfolding set_k8s_watcher_connected
  set_connected-Untouched h val w same = same

  pub Untouched-IsClosed : (h : HealthState) → IsClosed P (Untouched P h)
  Untouched-IsClosed h = record {
    insert = insert-Untouched h;
    insert_by_ip = insert_by_ip-Untouched h;
    remove_pod = remove_pod-Untouched h;
    set_connected = set_connected-Untouched h;
  }

module _ (F : Table FlowKey FlowStats) where
  make_room-pod_flag :
      (a : FlowAggregator F) (h : HealthState)
      → (make_room F a h).1.pod_cache_at_capacity ≡ h.pod_cache_at_capacity
  unfolding make_room evict_oldest_flows inc_flow_evictions
  make_room-pod_flag a h = ground arith

  update_capacity_flag-pod_flag :
      (a : FlowAggregator F) (h : HealthState)
      → (update_capacity_flag F a h).pod_cache_at_capacity ≡ h.pod_cache_at_capacity
  unfolding update_capacity_flag set_flow_table_at_capacity
  update_capacity_flag-pod_flag a h = ground arith

  record_event-pod_flag :
      (now : ℕ) (event : NetworkFlowEvent) (key : FlowKey) (o : Option FlowStats)
      (a : FlowAggregator F) (h : HealthState)
      → (record_event F now event key o a h).1.pod_cache_at_capacity ≡ h.pod_cache_at_capacity
  unfolding record_event
  record_event-pod_flag now event key (some s) a h = update_capacity_flag-pod_flag _ h
  record_event-pod_flag now event key none a h =
      update_capacity_flag-pod_flag _ (make_room F a h).1 ∙ make_room-pod_flag a h

  pub process_event-pod_flag :
      (now : ℕ) (event : NetworkFlowEvent) (namespace pod_name : Text) (a : FlowAggregator F)
      (h : HealthState)
      → (process_event F now event namespace pod_name a h).1.pod_cache_at_capacity
        ≡ h.pod_cache_at_capacity
  unfolding process_event
  process_event-pod_flag now event namespace pod_name a h =
      record_event-pod_flag now event (flow_key event namespace pod_name) _ _ h

  -- A step of an expiration drops flows or takes the flag down, and nothing else.
  pub expire_step-frame :
      (P : Table ℕ PodMetadata) (R : RingBuf) (x : Expirer) (s : AgentState F P)
      → let t = expire_step F P R x s in
        (t.aggregator.events_processed ≡ s.aggregator.events_processed)
        × (t.health.broadcast_drops ≡ s.health.broadcast_drops)
        × (t.health.pod_cache_at_capacity ≡ s.health.pod_cache_at_capacity)
        × (t.sent ≡ s.sent)
        × (t.pod_cache ≡ s.pod_cache)
        × (t.aggregator.max_flows ≡ s.aggregator.max_flows)
        × (F.len t.aggregator.flows ≤ F.len s.aggregator.flows)
  unfolding expire_step set_flow_table_at_capacity
  expire_step-frame P R Expirer.idle s = (refl, refl, refl, refl, refl, refl, omega arith)
  expire_step-frame P R (Expirer.started now before) s = (
    refl,
    refl,
    refl,
    refl,
    refl,
    refl,
    F.len-retain-le s.aggregator.flows (is_fresh F now s.aggregator.flow_timeout),
  )
  expire_step-frame P R (Expirer.retained before) s =
      (refl, refl, refl, refl, refl, refl, omega arith)
  expire_step-frame P R (Expirer.counted before after) s =
      (refl, refl, refl, refl, refl, refl, omega arith)
  expire_step-frame P R (Expirer.lowering len) s =
      (refl, ground arith, ground arith, refl, refl, refl, omega arith)
