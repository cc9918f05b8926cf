-- ===== src/Grpc/Queries.antt =====
-- orb8-agent/src/grpc_server.rs: what `query_flows` answers.
use mathlib.Core.Logic.{∥∥₁_elim, ∥∥₁_map}
use Prim.Native.Nat.{min}
use orb.Prelude.{
  All-imp, leb→le, ℕ, zero, suc, ◌≤◌, ◌≡◌, refl, ap, sym, subst, ◌∙◌, ◌↔◌, ◌⊎◌, true, List, [], ◌∷◌,
  ◌++◌, arith, Mem, Perm, All, length, length-take, take, drop, take-append-drop, mem-filter, some,
  mem-map_of_mem, exists_of_mem-map, contains, contains_iff, is_empty, ◌||◌, inl, inr, Bool-set,
  Mem-prop,
}
use orb.Prelude.Sort.{
  sort_by, sort_by-perm, sort_by-IsSorted, length-sort_by, IsSorted, IsSorted-split,
}
use orb.Prelude.Text.{Text, Text-discrete}
use orb.Aggregator.{FlowKey, FlowStats, FlowAggregator, get_flows}
use orb.Grpc.{
  QueryFlowsRequest, NetworkFlow, effective_limit, network_flow, by_bytes, wants_pod,
  selected_flows, query_flows,
}
use orb.PodCache.{PodMetadata}
use orb.Table.{Table}

-- The limit in force is never above the server's.
effective_limit-le :
    (max_query_limit limit : ℕ) → effective_limit max_query_limit limit ≤ max_query_limit
effective_limit-le max_query_limit limit = ground arith

-- How many flows may be returned: as many as the client asks for, but not more than the server
-- grants; a client that asks for none asks for all.
abbrev pub granted : ℕ → ℕ → ℕ
granted max_query_limit zero = max_query_limit
granted max_query_limit (suc n) = min (suc n) max_query_limit

effective_limit-granted :
    (max_query_limit limit : ℕ)
    → effective_limit max_query_limit limit ≡ granted max_query_limit limit
effective_limit-granted max_query_limit zero = refl
effective_limit-granted max_query_limit (suc n) = ground arith

-- The filter of the request, as a property of a name.
abbrev pub Wanted : List Text → Text → Type 0
Wanted wanted name = (wanted ≡ []) ⊎ Mem name wanted

Wanted-of_test :
    (wanted : List Text) (name : Text)
    → ((is_empty wanted || contains Text-discrete wanted name) ≡ true)
    → ∥ Wanted wanted name ∥₁
Wanted-of_test [] name e = ∣ inl refl ∣₁
Wanted-of_test (w ∷ ws) name e = ∣ inr ((contains_iff Text-discrete (w ∷ ws) name).0 e) ∣₁

Wanted-test :
    (wanted : List Text) (name : Text)
    → Wanted wanted name
    → (is_empty wanted || contains Text-discrete wanted name) ≡ true
Wanted-test [] name _ = refl
Wanted-test (w ∷ ws) name (inl e) = cc
Wanted-test (w ∷ ws) name (inr m) = (contains_iff Text-discrete (w ∷ ws) name).1 m

Wanted-iff :
    (wanted : List Text) (name : Text)
    → ((is_empty wanted || contains Text-discrete wanted name) ≡ true) ↔ ∥ Wanted wanted name ∥₁
Wanted-iff wanted name =
    (Wanted-of_test wanted name, λ w. ∥∥₁_elim w (Bool-set _ _) (Wanted-test wanted name))

module _ (F : Table FlowKey FlowStats) (P : Table ℕ PodMetadata) where
  module _ (max_query_limit : ℕ) (req : QueryFlowsRequest) (a : FlowAggregator F) where
    limit : ℕ
    limit = effective_limit max_query_limit req.limit

    sorted : List NetworkFlow
    sorted = sort_by by_bytes (selected_flows F P req a)

    sorted-IsSorted : IsSorted by_bytes sorted
    unfolding sorted
    sorted-IsSorted =
        sort_by-IsSorted by_bytes (λ x y z p q. ground arith) (λ x y p. ground arith)
          (selected_flows F P req a)

    -- The answer holds the largest of the selected flows: with the flows that are left out it is a
    -- permutation of all that were selected, no flow that is left out has more bytes than one that is
    -- returned, and as many are returned as there are, up to the limit of the request (0 asks for
    -- all) and the server's own.
    pub query_flows_lem :
        (left_out : List NetworkFlow) × Perm
          (query_flows F P max_query_limit req a ++ left_out)
          (selected_flows F P req a)
        × All (λ x. All (λ y. y.bytes ≤ x.bytes) left_out) (query_flows F P max_query_limit req a)
        × (length (query_flows F P max_query_limit req a)
            ≡ min (granted max_query_limit req.limit) (length (selected_flows F P req a)))
        × (length (query_flows F P max_query_limit req a) ≤ max_query_limit)
    unfolding query_flows sorted limit
    query_flows_lem =
        let whole : take limit sorted ++ drop limit sorted ≡ sorted =
          take-append-drop limit sorted in
        let size : length (take limit sorted) ≡ min limit (length (selected_flows F P req a)) =
          length-take limit sorted
          ∙ ap (min limit) (length-sort_by by_bytes (selected_flows F P req a)) in
        (
          drop limit sorted,
          subst (λ l. Perm l (selected_flows F P req a)) (sym whole)
              (sort_by-perm by_bytes (selected_flows F P req a)),
          All-imp (take limit sorted)
              (λ x. All-imp (drop limit sorted) (λ y. leb→le y.bytes x.bytes))
              (IsSorted-split by_bytes (take limit sorted) (drop limit sorted)
                (subst (IsSorted by_bytes) (sym whole) sorted-IsSorted)),
          size
              ∙ ap (λ n. min n (length (selected_flows F P req a)))
                  (effective_limit-granted max_query_limit req.limit),
          omega (arith, size, effective_limit-le max_query_limit req.limit),
        )

  -- A message is selected exactly if it is the message of a flow of the table that the request asks
  -- for, by namespace and by pod. An empty filter asks for all.
  pub selected_flows_lem :
      (req : QueryFlowsRequest) (a : FlowAggregator F) (x : NetworkFlow)
      → Mem x (selected_flows F P req a)
        ↔ ∥ (
            (k : FlowKey) × (v : FlowStats) × (F.get a.flows k ≡ some v)
            × ∥ Wanted req.namespaces k.namespace ∥₁
            × ∥ Wanted req.pod_names k.pod_name ∥₁
            × (network_flow (k, v) ≡ x)) ∥₁
  unfolding selected_flows get_flows
  selected_flows_lem req a x = (
    λ m. ∥∥₁_map (exists_of_mem-map m) (λ (e, there, same).
        let (listed, pod) = (mem-filter (wants_pod req) _ e).0 there in
        let (entry, ns) = (mem-filter _ (F.entries a.flows) e).0 listed in
        (
          e.0,
          e.1,
          (F.mem-entries_iff a.flows e.0 e.1).0 entry,
          (Wanted-iff req.namespaces (e.0).namespace).0 ns,
          (Wanted-iff req.pod_names (e.0).pod_name).0 pod,
          same,
        )),
    λ flow. ∥∥₁_elim flow Mem-prop (λ (k, v, found, ns, pod, same).
        subst (λ y. Mem y (selected_flows F P req a)) same
          (mem-map_of_mem network_flow (
            (mem-filter (wants_pod req) _ (k, v)).1 (
              (mem-filter _ (F.entries a.flows) (k, v)).1 (
                (F.mem-entries_iff a.flows k v).1 found,
                (Wanted-iff req.namespaces k.namespace).1 ns,
              ),
              (Wanted-iff req.pod_names k.pod_name).1 pod,
            )))),
  )
