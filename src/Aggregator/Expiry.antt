-- ===== src/Aggregator/Expiry.antt =====
-- orb8-agent/src/aggregator.rs: `expire_old_flows` and `get_flows`.
use orb.Prelude.{ℕ, ◌+◌, ◌<◌, ◌≡◌, ◌↔◌, inl, inr, some, arith, Option-cases}
use orb.Health.{HealthState}
use orb.Aggregator.{FlowKey, FlowStats, FlowAggregator, expire_old_flows, is_fresh}
use orb.Table.{Table}

module _ (T : Table FlowKey FlowStats) (now : ℕ) (a : FlowAggregator T) (h : HealthState) where
  kept→seen :
      (k : FlowKey) (v : FlowStats)
      → T.get (expire_old_flows T now a h).0.flows k ≡ some v
      → (T.get a.flows k ≡ some v) × (now < v.last_seen + a.flow_timeout)
  unfolding expire_old_flows
  kept→seen k v e = elim (Option-cases (T.get a.flows k)) [
    | inl miss ↦
        absurd (ground (arith, T.get-retain_none a.flows (is_fresh T now a.flow_timeout) k miss))
    | inr (w, hit) ↦
        ground (arith, T.get-retain_some a.flows (is_fresh T now a.flow_timeout) k w hit)
  ]

  -- A flow is there after an expiry exactly if it was there before, with the same statistics, and
  -- was last seen less than the timeout ago. The result counts the flows that are gone.
  pub expire_old_flows_lem :
      (k : FlowKey) (v : FlowStats)
      → ((T.get (expire_old_flows T now a h).0.flows k ≡ some v)
          ↔ ((T.get a.flows k ≡ some v) × (now < v.last_seen + a.flow_timeout)))
        × (T.len (expire_old_flows T now a h).0.flows + (expire_old_flows T now a h).2
            ≡ T.len a.flows)
  unfolding expire_old_flows
  expire_old_flows_lem k v = (
    (
      kept→seen k v,
      λ (hit, fresh).
          ground (arith, T.get-retain_some a.flows (is_fresh T now a.flow_timeout) k v hit),
    ),
    omega (arith, T.len-retain-le a.flows (is_fresh T now a.flow_timeout)),
  )
