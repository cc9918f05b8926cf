-- ===== src/Aggregator.antt =====
-- orb8-agent/src/aggregator.rs: the table of flows. The concurrent map is a parameter, the current
-- time is an argument of the operations that read the clock, in nanoseconds, and the health state
-- that the program shares is passed in and out.
pub mod Candidates
pub mod Eviction
pub mod Bounds
pub mod Recording
pub mod Expiry
pub mod Refinement
pub mod Tasks
use orb.Prelude.{
  ℕ, zero, suc, ◌+◌, ◌-◌, ◌/◌, ◌<◌, ◌≡◌, Bool, true, false, ◌||◌, Option, none, some, List, [], ◌∷◌,
  map, if◌then◌else◌, leb, ltb, is_some, is_empty, contains, take, filter, add_u64, mul_u64,
}
use Prim.Native.Nat.{max}
use orb.Prelude.Sort.{sort_by}
use orb.Prelude.Text.{Text, Text-discrete}
use orb.Common.{NetworkFlowEvent}
use orb.Health
use orb.Health.{HealthState}
use orb.Table.{Table}

pub record FlowKey : Type 0 where
  pub namespace : Text
  pub pod_name : Text
  pub src_ip : ℕ
  pub dst_ip : ℕ
  pub src_port : ℕ
  pub dst_port : ℕ
  pub protocol : ℕ
  pub direction : ℕ

pub record FlowStats : Type 0 where
  pub bytes : ℕ
  pub packets : ℕ
  pub first_seen : ℕ
  pub last_seen : ℕ
  pub first_seen_ns : ℕ
  pub last_seen_ns : ℕ

-- `FlowStats::new`, at the time `now`
unfoldable pub new_stats : ℕ → ℕ → ℕ → FlowStats
new_stats now timestamp_ns bytes = record {
  bytes = bytes;
  packets = 1;
  first_seen = now;
  last_seen = now;
  first_seen_ns = timestamp_ns;
  last_seen_ns = timestamp_ns;
}

-- `FlowStats::update`, at the time `now`
unfoldable pub update : ℕ → ℕ → ℕ → FlowStats → FlowStats
update now timestamp_ns bytes s = record s {
  bytes = add_u64 s.bytes bytes;
  packets = add_u64 s.packets 1;
  last_seen = now;
  last_seen_ns = timestamp_ns;
}

abbrev pub capacity_high_watermark : ℕ
capacity_high_watermark = 95

abbrev pub capacity_low_watermark : ℕ
capacity_low_watermark = 80

abbrev pub eviction_percent : ℕ
eviction_percent = 1

pub record FlowAggregator (T : Table FlowKey FlowStats) : Type 0 where
  pub flows : T.Map
  pub events_processed : ℕ
  pub flow_timeout : ℕ
  pub max_flows : ℕ

-- The key of an event that is attributed to a pod.
abbrev pub flow_key : NetworkFlowEvent → Text → Text → FlowKey
flow_key event namespace pod_name = record {
  namespace = namespace;
  pod_name = pod_name;
  src_ip = event.src_ip;
  dst_ip = event.dst_ip;
  src_port = event.src_port;
  dst_port = event.dst_port;
  protocol = event.protocol;
  direction = event.direction;
}

-- `|(_, last_seen)| *last_seen`, as an order
abbrev pub older : FlowKey × ℕ → FlowKey × ℕ → Bool
older a b = leb a.1 b.1

-- `entry.key().clone()` with the time at which the flow was last seen
abbrev pub last_seen_of : FlowKey × FlowStats → FlowKey × ℕ
last_seen_of e = (e.0, e.1.last_seen)

-- `max_flows * percent / 100`, in a `usize` of 64 bits
abbrev pub percent_of : ℕ → ℕ → ℕ
percent_of max_flows percent = mul_u64 max_flows percent / 100

module _ (T : Table FlowKey FlowStats) where
  unfoldable pub new : ℕ → ℕ → FlowAggregator T
  new max_flows flow_timeout = record {
    flows = T.empty;
    events_processed = 0;
    flow_timeout = flow_timeout;
    max_flows = max_flows;
  }

  -- `filter(|(key, _)| self.flows.remove(key).is_some()).count()`: the map that is left, and the
  -- number of keys that were there.
  unfoldable pub remove_all : List (FlowKey × ℕ) → T.Map → T.Map × ℕ
  remove_all [] flows = (flows, 0)
  remove_all (e ∷ es) flows =
      let (left, count) = remove_all es (T.remove flows e.0) in
      (left, if is_some (T.get flows e.0) then suc count else count)

  -- The flows in the order in which they were last seen.
  unfoldable pub candidates : T.Map → List (FlowKey × ℕ)
  candidates flows = sort_by older (map last_seen_of (T.entries flows))

  unfoldable pub evict_count : ℕ → ℕ
  evict_count max_flows = max (percent_of max_flows eviction_percent) 1

  unfoldable pub evict_oldest_flows :
      FlowAggregator T → HealthState → FlowAggregator T × HealthState
  evict_oldest_flows a health =
      let (left, evicted) =
        remove_all (take (evict_count a.max_flows) (candidates a.flows)) a.flows in
      (
        record a { flows = left },
        if ltb 0 evicted then Health.inc_flow_evictions evicted health else health,
      )

  unfoldable pub update_capacity_flag : FlowAggregator T → HealthState → HealthState
  update_capacity_flag a health =
      if leb (percent_of a.max_flows capacity_high_watermark) (T.len a.flows)
      then Health.set_flow_table_at_capacity true health
      else health

  -- `entry(key).and_modify(..).or_insert_with(..)`
  unfoldable pub modify_or_insert :
      ℕ → NetworkFlowEvent → FlowKey → FlowAggregator T → FlowAggregator T
  modify_or_insert now event key a = elim (T.get a.flows key) [
    | none ↦ record a {
      flows = T.insert a.flows key (new_stats now event.timestamp_ns event.packet_len);
    }
    | some s ↦ record a {
      flows = T.insert a.flows key (update now event.timestamp_ns event.packet_len s);
    }
  ]

  -- `if self.flows.len() >= self.max_flows { self.evict_oldest_flows() }`
  unfoldable pub make_room : FlowAggregator T → HealthState → FlowAggregator T × HealthState
  make_room a health =
      if leb a.max_flows (T.len a.flows) then evict_oldest_flows a health else (a, health)

  -- `process_event`, with the key and what the first lookup found
  unfoldable pub record_event :
      ℕ
      → NetworkFlowEvent
      → FlowKey
      → Option FlowStats
      → FlowAggregator T
      → HealthState
      → FlowAggregator T × HealthState
  record_event now event key (some s) a health =
      let a' : FlowAggregator T = record a {
        flows = T.insert a.flows key (update now event.timestamp_ns event.packet_len s);
      } in
      (a', update_capacity_flag a' health)
  record_event now event key none a health =
      let (a', health') = make_room a health in
      let a'' = modify_or_insert now event key a' in (a'', update_capacity_flag a'' health')

  unfoldable pub process_event :
      ℕ
      → NetworkFlowEvent
      → Text
      → Text
      → FlowAggregator T
      → HealthState
      → FlowAggregator T × HealthState
  process_event now event namespace pod_name a health =
      let key = flow_key event namespace pod_name in
      record_event now event key (T.get a.flows key)
        (record a { events_processed = add_u64 a.events_processed 1 }) health

  unfoldable pub get_flows : List Text → FlowAggregator T → List (FlowKey × FlowStats)
  get_flows namespaces a =
      filter (λ e. is_empty namespaces || contains Text-discrete namespaces (e.0).namespace)
        (T.entries a.flows)

  abbrev pub active_flow_count : FlowAggregator T → ℕ
  active_flow_count a = T.len a.flows

  -- `stats.last_seen > cutoff` with `cutoff = now - flow_timeout`. An `Instant` may lie before the
  -- start of the clock, so the difference is one of integers, and the test is this one.
  abbrev pub is_fresh : ℕ → ℕ → FlowKey → FlowStats → Bool
  is_fresh now flow_timeout _ s = ltb now (s.last_seen + flow_timeout)

  -- The result is the number of flows that were dropped.
  unfoldable pub expire_old_flows :
      ℕ → FlowAggregator T → HealthState → FlowAggregator T × HealthState × ℕ
  expire_old_flows now a health =
      let flows = T.retain a.flows (is_fresh now a.flow_timeout) in
      (
        record a { flows = flows },
        if ltb (T.len flows) (percent_of a.max_flows capacity_low_watermark)
            then Health.set_flow_table_at_capacity false health
            else health,
        T.len a.flows - T.len flows,
      )
