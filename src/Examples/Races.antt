-- ===== src/Examples/Races.antt =====
-- Runs of orb8-agent/src/aggregator.rs by two tasks whose steps interleave, on a table of at most two
-- flows.
use Prim.Native.Nat.{max}
use orb.Prelude.{◌≡◌, ◌≤◌, refl, false, ℕ_discrete, mul_u64}
use orb.Prelude.Text.{codes, Text-discrete}
use orb.Aggregator.{flow_key, new, modify_or_insert, percent_of, capacity_high_watermark}
use orb.Aggregator.Tasks.{
  Packet, Expirer, Shared, initial, Reach, here, next, begin, miss, room, insert, measure, raise,
  expire, retain, count, remeasure, lower,
}
use orb.Aggregator.Tasks.Bounds.{Reach-len}
use orb.Examples.{flow_table, FlowKey-discrete, request}
use orb.Health
use orb.Health.{set_flow_table_at_capacity}
use orb.Table.Assoc.{assoc}

abbrev packet : Packet
packet = record { now = 10; event = request; key = flow_key request (codes "prod") (codes "web") }

abbrev begun : Shared flow_table
begun = initial flow_table 2 40 Health.new

-- The expiration reads the length before the loop records the first flow, and again behind it: it
-- takes the length 1 from the length 0.
negative : (s : Shared flow_table) × Reach flow_table begun s × (s.expirer ≡ Expirer.counted 0 1)
unfolding new modify_or_insert assoc FlowKey-discrete Text-discrete ℕ_discrete
negative = (
  _,
  next
      (next
        (next
          (next (next (next (next here (expire 5 refl)) (retain 5 0 refl)) (begin packet refl))
            (miss packet refl refl))
          (room packet refl refl))
        (insert packet refl))
      (count 0 refl),
  refl,
)

-- The expiration reads the length before the loop records the first flow and raises the flag, and
-- takes the flag down behind it: the table has reached its high watermark and nothing reports it.
stale :
    (s : Shared flow_table) × Reach flow_table begun s
    × (s.health.flow_table_at_capacity ≡ false)
    × (flow_table.len s.aggregator.flows ≡ 1)
    × (percent_of 2 capacity_high_watermark ≡ 1)
unfolding new modify_or_insert assoc FlowKey-discrete Text-discrete ℕ_discrete mul_u64
    set_flow_table_at_capacity
stale = (
  _,
  next
      (next
        (next
          (next
            (next
              (next
                (next
                  (next (next (next (next here (expire 5 refl)) (retain 5 0 refl)) (count 0 refl))
                    (remeasure 0 0 refl))
                  (begin packet refl))
                (miss packet refl refl))
              (room packet refl refl))
            (insert packet refl))
          (measure refl))
        (raise 1 refl))
      (lower 0 refl),
  refl,
  refl,
  refl,
)

Reach-len_example : flow_table.len (negative.0).aggregator.flows ≤ max 2 1
Reach-len_example = Reach-len flow_table 2 40 Health.new (negative.0) (negative.1)
