-- ===== src/Aggregator/Tasks.antt =====
-- orb8-agent/src/aggregator.rs as two tasks run it: the main loop records events, and the expiration
-- task of orb8-agent/src/main.rs expires flows. Each call of the map, of a counter or of a flag is one
-- step, and the steps of the two tasks interleave in any order.
pub mod Bounds
pub mod Atomic
pub mod Exact
use orb.Prelude.{
  ℕ, suc, ◌≡◌, Bool, true, false, Option, none, some, List, [], ◌∷◌, if◌then◌else◌, ltb, leb, take,
  is_some, add_u64,
}
use orb.Common.{NetworkFlowEvent}
use orb.Health
use orb.Health.{HealthState}
use orb.Aggregator.{
  FlowKey, FlowStats, FlowAggregator, new, update, percent_of, capacity_high_watermark,
  capacity_low_watermark, candidates, evict_count, modify_or_insert, is_fresh,
}
use orb.Table.{Table}

-- An event that is recorded, with its key and the time.
pub record Packet : Type 0 where
  pub now : ℕ
  pub event : NetworkFlowEvent
  pub key : FlowKey

-- Where `process_event` stands.
pub data Recorder : Type 0 where
  idle : Recorder
  looking checking collecting : Packet → Recorder
  -- the candidates that are left, and how many of them were there so far
  evicting : Packet → List (FlowKey × ℕ) → ℕ → Recorder
  inserting : Packet → Recorder
  measuring : Recorder
  raising : ℕ → Recorder

-- Where `expire_old_flows` stands, with the lengths that it has read.
pub data Expirer : Type 0 where
  idle : Expirer
  started : ℕ → ℕ → Expirer
  retained : ℕ → Expirer
  counted : ℕ → ℕ → Expirer
  lowering : ℕ → Expirer

module _ (T : Table FlowKey FlowStats) where
  pub record Shared : Type 0 where
    pub aggregator : FlowAggregator T
    pub health : HealthState
    pub recorder : Recorder
    pub expirer : Expirer

  -- No event is recorded yet, and no expiration runs.
  abbrev pub initial : ℕ → ℕ → HealthState → Shared
  initial max_flows flow_timeout h = record {
    aggregator = new T max_flows flow_timeout;
    health = h;
    recorder = Recorder.idle;
    expirer = Expirer.idle;
  }

  abbrev pub with_flows : T.Map → FlowAggregator T → FlowAggregator T
  with_flows flows a = record a { flows = flows }

  abbrev pub raised : ℕ → FlowAggregator T → HealthState → HealthState
  raised len a h =
      if leb (percent_of a.max_flows capacity_high_watermark) len
      then Health.set_flow_table_at_capacity true h
      else h

  abbrev pub lowered : ℕ → FlowAggregator T → HealthState → HealthState
  lowered len a h =
      if ltb len (percent_of a.max_flows capacity_low_watermark)
      then Health.set_flow_table_at_capacity false h
      else h

  pub data Step (s : Shared) : Shared → Type 0 where
    -- the main loop
    begin :
        (p : Packet)
        → s.recorder ≡ Recorder.idle
        → Step s (record s {
          aggregator = record s.aggregator {
            events_processed = add_u64 s.aggregator.events_processed 1;
          };
          recorder = Recorder.looking p;
        })
    hit :
        (p : Packet) (v : FlowStats)
        → s.recorder ≡ Recorder.looking p
        → T.get s.aggregator.flows p.key ≡ some v
        → Step s (record s {
          aggregator =
              with_flows
                (T.insert s.aggregator.flows p.key
                  (update p.now p.event.timestamp_ns p.event.packet_len v))
                s.aggregator;
          recorder = Recorder.measuring;
        })
    miss :
        (p : Packet)
        → s.recorder ≡ Recorder.looking p
        → T.get s.aggregator.flows p.key ≡ none
        → Step s (record s { recorder = Recorder.checking p })
    full :
        (p : Packet)
        → s.recorder ≡ Recorder.checking p
        → leb s.aggregator.max_flows (T.len s.aggregator.flows) ≡ true
        → Step s (record s { recorder = Recorder.collecting p })
    room :
        (p : Packet)
        → s.recorder ≡ Recorder.checking p
        → leb s.aggregator.max_flows (T.len s.aggregator.flows) ≡ false
        → Step s (record s { recorder = Recorder.inserting p })
    collect :
        (p : Packet)
        → s.recorder ≡ Recorder.collecting p
        → Step s (record s {
          recorder =
              Recorder.evicting p
                (take (evict_count T s.aggregator.max_flows) (candidates T s.aggregator.flows))
                0;
        })
    evict :
        (p : Packet) (e : FlowKey × ℕ) (es : List (FlowKey × ℕ)) (n : ℕ)
        → s.recorder ≡ Recorder.evicting p (e ∷ es) n
        → Step s (record s {
          aggregator = with_flows (T.remove s.aggregator.flows e.0) s.aggregator;
          recorder =
              Recorder.evicting p es (if is_some (T.get s.aggregator.flows e.0) then suc n else n);
        })
    evicted :
        (p : Packet) (n : ℕ)
        → s.recorder ≡ Recorder.evicting p [] n
        → Step s (record s {
          health = if ltb 0 n then Health.inc_flow_evictions n s.health else s.health;
          recorder = Recorder.inserting p;
        })
    insert :
        (p : Packet)
        → s.recorder ≡ Recorder.inserting p
        → Step s (record s {
          aggregator = modify_or_insert T p.now p.event p.key s.aggregator;
          recorder = Recorder.measuring;
        })
    measure :
        s.recorder ≡ Recorder.measuring
        → Step s (record s { recorder = Recorder.raising (T.len s.aggregator.flows) })
    raise :
        (len : ℕ)
        → s.recorder ≡ Recorder.raising len
        → Step s (record s { health = raised len s.aggregator s.health; recorder = Recorder.idle })
    -- the expiration task
    expire :
        (now : ℕ)
        → s.expirer ≡ Expirer.idle
        → Step s (record s { expirer = Expirer.started now (T.len s.aggregator.flows) })
    retain :
        (now before : ℕ)
        → s.expirer ≡ Expirer.started now before
        → Step s (record s {
          aggregator =
              with_flows
                (T.retain s.aggregator.flows (is_fresh T now s.aggregator.flow_timeout))
                s.aggregator;
          expirer = Expirer.retained before;
        })
    count :
        (before : ℕ)
        → s.expirer ≡ Expirer.retained before
        → Step s (record s { expirer = Expirer.counted before (T.len s.aggregator.flows) })
    remeasure :
        (before after : ℕ)
        → s.expirer ≡ Expirer.counted before after
        → Step s (record s { expirer = Expirer.lowering (T.len s.aggregator.flows) })
    lower :
        (len : ℕ)
        → s.expirer ≡ Expirer.lowering len
        → Step s (record s { health = lowered len s.aggregator s.health; expirer = Expirer.idle })

  pub data Reach (s : Shared) : Shared → Type 0 where
    here : Reach s s
    next : {t u : Shared} → Reach s t → Step t u → Reach s u
