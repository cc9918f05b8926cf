-- ===== src/Aggregator/Refinement.antt =====
-- orb8-agent/src/aggregator.rs: the table against the list of the packets that it was given.
use orb.Prelude.{
  ℕ, ◌+◌, ◌≤◌, ◌<◌, ◌≡◌, refl, sym, ap, ◌∙◌, inl, inr, Option, none, some, List, [], ◌∷◌, arith,
  ite, if_pos, if_neg, u64_mod, add_u64_exact, length, Bool-cases, ltb, ltb→lt, is_some,
}
use orb.Prelude.Text.{Text}
use orb.Common.{NetworkFlowEvent}
use orb.Health.{HealthState}
use orb.Aggregator.{
  FlowKey, FlowStats, FlowAggregator, flow_key, new_stats, update, process_event, new,
}
use orb.Aggregator.Bounds.{process_event-max_flows, process_event-len}
use orb.Aggregator.Recording.{count_packet, process_event-get_self, process_event-get_ne}
use orb.Table.{Table}

-- A packet that is attributed to a pod, with the time at which the agent records it.
pub record Packet : Type 0 where
  pub now : ℕ
  pub event : NetworkFlowEvent
  pub namespace : Text
  pub pod_name : Text

abbrev pub key_of : Packet → FlowKey
key_of p = flow_key p.event p.namespace p.pod_name

-- What a lookup found of a flow.
abbrev pub packets_in : Option FlowStats → ℕ
packets_in none = 0
packets_in (some s) = s.packets

abbrev pub bytes_in : Option FlowStats → ℕ
bytes_in none = 0
bytes_in (some s) = s.bytes

module _ (T : Table FlowKey FlowStats) where
  unfoldable pub record_all :
      List Packet → FlowAggregator T → HealthState → FlowAggregator T × HealthState
  record_all [] a h = (a, h)
  record_all (p ∷ ps) a h =
      let (a', h') = process_event T p.now p.event p.namespace p.pod_name a h in record_all ps a' h'

  -- The statistics of one flow after a list of packets, by itself.
  tally : FlowKey → List Packet → Option FlowStats → Option FlowStats
  tally k [] o = o
  tally k (p ∷ ps) o = tally k ps (ite (T.dec (key_of p) k) (some (count_packet p.now p.event o)) o)

  -- The bytes and the number of the packets of one flow.
  abbrev pub bytes_of : FlowKey → List Packet → ℕ
  bytes_of k [] = 0
  bytes_of k (p ∷ ps) = ite (T.dec (key_of p) k) p.event.packet_len 0 + bytes_of k ps

  abbrev pub packets_of : FlowKey → List Packet → ℕ
  packets_of k [] = 0
  packets_of k (p ∷ ps) = ite (T.dec (key_of p) k) 1 0 + packets_of k ps

  process_event-get :
      (p : Packet) (a : FlowAggregator T) (h : HealthState) (k : FlowKey)
      → T.len a.flows < a.max_flows
      → T.get (process_event T p.now p.event p.namespace p.pod_name a h).0.flows k
        ≡ ite
            (T.dec (key_of p) k)
            (some (count_packet p.now p.event (T.get a.flows k)))
            (T.get a.flows k)
  process_event-get p a h k room = elim (T.dec (key_of p) k) [
    | yes e ↦
        rw (if_pos _ e)
          (rw (← e) (process_event-get_self T p.now p.event p.namespace p.pod_name a h))
    | no n ↦
        rw (if_neg _ n) (process_event-get_ne T p.now p.event p.namespace p.pod_name a h k n room)
  ]

  record_all-get :
      (ps : List Packet) (a : FlowAggregator T) (h : HealthState) (k : FlowKey)
      → T.len a.flows + length ps ≤ a.max_flows
      → T.get (record_all ps a h).0.flows k ≡ tally k ps (T.get a.flows k)
  unfolding record_all tally
  record_all-get [] a h k room = refl
  record_all-get (p ∷ ps) a h k room =
      let b : FlowAggregator T = (process_event T p.now p.event p.namespace p.pod_name a h).0 in
      let h' : HealthState = (process_event T p.now p.event p.namespace p.pod_name a h).1 in
      record_all-get ps b h' k (
        omega (
          arith,
          process_event-len T p.now p.event p.namespace p.pod_name a h,
          process_event-max_flows T p.now p.event p.namespace p.pod_name a h,
        ))
      ∙ ap (tally k ps) (process_event-get p a h k (omega arith))

  tally-some :
      (k : FlowKey) (ps : List Packet) (s : FlowStats)
      → s.bytes + bytes_of k ps < u64_mod
      → s.packets + packets_of k ps < u64_mod
      → (r : FlowStats) × (tally k ps (some s) ≡ some r)
        × (r.bytes ≡ s.bytes + bytes_of k ps)
        × (r.packets ≡ s.packets + packets_of k ps)
        × (r.first_seen_ns ≡ s.first_seen_ns)
  unfolding tally update
  tally-some k [] s small few = (s, refl, omega arith, omega arith, refl)
  tally-some k (p ∷ ps) s small few = elim (T.dec (key_of p) k) [
    | yes e ↦
        let s' : FlowStats = update p.now p.event.timestamp_ns p.event.packet_len s in
        let more : s'.bytes ≡ s.bytes + p.event.packet_len =
          add_u64_exact s.bytes p.event.packet_len (ground arith) in
        let one : s'.packets ≡ s.packets + 1 = add_u64_exact s.packets 1 (ground arith) in
        let (r, same, bytes, packets, first) = tally-some k ps s' (ground arith) (ground arith) in
        (r, rw (if_pos _ e) same, ground arith, ground arith, first)
    | no n ↦
        let (r, same, bytes, packets, first) = tally-some k ps s (ground arith) (ground arith) in
        (r, rw (if_neg _ n) same, ground arith, ground arith, first)
  ]

  tally-none :
      (k : FlowKey) (ps : List Packet)
      → bytes_of k ps < u64_mod
      → packets_of k ps < u64_mod
      → 0 < packets_of k ps
      → (r : FlowStats) × (tally k ps none ≡ some r)
        × (r.bytes ≡ bytes_of k ps)
        × (r.packets ≡ packets_of k ps)
  unfolding tally new_stats
  tally-none k [] small few seen = absurd (omega arith)
  tally-none k (p ∷ ps) small few seen = elim (T.dec (key_of p) k) [
    | yes e ↦
        let s' : FlowStats = new_stats p.now p.event.timestamp_ns p.event.packet_len in
        let (r, same, bytes, packets, first) = tally-some k ps s' (ground arith) (ground arith) in
        (r, rw (if_pos _ e) same, ground arith, ground arith)
    | no n ↦
        let (r, same, bytes, packets) =
          tally-none k ps (ground arith) (ground arith) (ground arith) in
        (r, rw (if_neg _ n) same, ground arith, ground arith)
  ]

  tally_unseen : (k : FlowKey) (ps : List Packet) → packets_of k ps ≡ 0 → tally k ps none ≡ none
  unfolding tally
  tally_unseen k [] unseen = refl
  tally_unseen k (p ∷ ps) unseen = elim (T.dec (key_of p) k) [
    | yes e ↦ absurd (ground arith)
    | no n ↦ rw (if_neg _ n) (tally_unseen k ps (ground arith))
  ]

  bytes_of_unseen : (k : FlowKey) (ps : List Packet) → packets_of k ps ≡ 0 → bytes_of k ps ≡ 0
  bytes_of_unseen k [] unseen = refl
  bytes_of_unseen k (p ∷ ps) unseen = elim (T.dec (key_of p) k) [
    | yes e ↦ absurd (ground arith)
    | no n ↦ ground (arith, bytes_of_unseen k ps)
  ]

  -- As long as no more packets are recorded than the table has places, the table is a faithful tally:
  -- a flow is there exactly if a packet of it was recorded, and holds the bytes and the number of its
  -- own packets. The totals have to fit 64 bits.
  pub record_all_lem :
      (ps : List Packet) (max_flows flow_timeout : ℕ) (h : HealthState) (k : FlowKey)
      → length ps ≤ max_flows
      → bytes_of k ps < u64_mod
      → packets_of k ps < u64_mod
      → let found = T.get (record_all ps (new T max_flows flow_timeout) h).0.flows k in
        (is_some found ≡ ltb 0 (packets_of k ps))
        × (packets_in found ≡ packets_of k ps)
        × (bytes_in found ≡ bytes_of k ps)
  unfolding new
  record_all_lem ps max_flows flow_timeout h k room small few =
      let from_empty : T.get (record_all ps (new T max_flows flow_timeout) h).0.flows k
          ≡ tally k ps none =
        record_all-get ps (new T max_flows flow_timeout) h k (omega (arith, T.len-empty))
        ∙ ap (tally k ps) (T.get-empty k) in
      elim (Bool-cases (ltb 0 (packets_of k ps))) [
        | inl seen ↦
            let (r, same, bytes, packets) = tally-none k ps small few (ltb→lt _ _ seen) in
            rw (from_empty, same, seen) (refl, packets, bytes)
        | inr unseen ↦
            let no_packet : packets_of k ps ≡ 0 = ground arith in
            rw (from_empty, tally_unseen k ps no_packet, unseen)
              (refl, sym no_packet, sym (bytes_of_unseen k ps no_packet))
      ]
