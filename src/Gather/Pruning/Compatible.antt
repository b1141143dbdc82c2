-- ===== src/Gather/Pruning/Compatible.antt =====
-- What is left of a candidate tree that has been pruned.
use ctaps.Prelude.{
  ℕ, ◌≡◌, sym, ap, subst, ◌∙◌, Bool, not, ◌||◌, List, ◌++◌, map, arith, leb, length, keep, All,
}
use ctaps.Gather.Tree.{
  EndpointNode, ProtocolNode, PathNode, Tree, flat, path_nodes, protocol_nodes, endpoint_nodes,
  path_compatible, protocol_compatible, endpoint_compatible, undesirable_nodes,
  prune_candidate_tree,
}
use ctaps.Gather.Pruning.Filtering.{
  All-keep, keep_same, map_same, All-both, All-append, All-flat, All-imp,
}
use ctaps.Gather.Pruning.Unlinking.{mem, strip, below, removed, remove_nodes_from_tree-removed}
use ctaps.Gather.Pruning.Traversal.{bad_endpoint, bad_protocol, removes_path}
use ctaps.Gather.Pruning.Marking.{
  bad_ids, DistinctIds, marked, rows, All-rows, node_ids, all_rows, ids-all_rows, bad_ids-all_rows,
}

-- The tree without its incompatible nodes, written as a filter of every level.
unfoldable pub compatible_endpoints : ProtocolNode → ProtocolNode
compatible_endpoints q = record q { endpoints = keep endpoint_compatible q.endpoints }

unfoldable pub compatible_protocols : Tree → PathNode → PathNode
compatible_protocols t p = record p {
  protocols = map compatible_endpoints (keep (protocol_compatible t) p.protocols);
}

unfoldable pub compatible_tree : Tree → Tree
compatible_tree t = record t {
  paths =
      map (compatible_protocols t)
        (keep (λ p. path_compatible t p || leb (length p.protocols) 0) t.paths);
}

-- The marks that the list of undesirable nodes puts on a tree with ids of its own.
record Marks (t : Tree) (is : List ℕ) : Type 0 where
  endpoints : All (λ e. mem e.id is ≡ bad_endpoint e) (endpoint_nodes t)
  protocols : All (λ q. mem q.id is ≡ bad_protocol t q) (protocol_nodes t)
  paths : All (λ p. mem p.id is ≡ removes_path t p) (path_nodes t)

undesirable_nodes-Marks : (t : Tree) → DistinctIds (node_ids t) → Marks t (undesirable_nodes t)
undesirable_nodes-Marks t d =
    let P = λ (r : ℕ × Bool). mem r.0 (bad_ids (all_rows t)) ≡ r.1 in
    let all = marked (all_rows t) (subst DistinctIds (sym (ids-all_rows t)) d) in
    let es = rows (λ (e : EndpointNode). e.id) bad_endpoint (endpoint_nodes t) in
    let qs = rows (λ (q : ProtocolNode). q.id) (bad_protocol t) (protocol_nodes t) in
    let ps = rows (λ (p : PathNode). p.id) (removes_path t) (path_nodes t) in
    let upper = All-append P es (qs ++ ps) all in
    let lower = All-append P qs ps upper.1 in
    subst (Marks t) (bad_ids-all_rows t) (record {
      endpoints = All-rows (λ e. e.id) bad_endpoint P (endpoint_nodes t) upper.0;
      protocols = All-rows (λ q. q.id) (bad_protocol t) P (protocol_nodes t) lower.0;
      paths = All-rows (λ p. p.id) (removes_path t) P (path_nodes t) lower.1;
    })

module _ (t : Tree) (is : List ℕ) where
  abbrev MarksEndpoint : EndpointNode → Type 0
  MarksEndpoint e = mem e.id is ≡ bad_endpoint e

  abbrev MarksProtocol : ProtocolNode → Type 0
  MarksProtocol q = mem q.id is ≡ bad_protocol t q

  strip-compatible :
      (q : ProtocolNode) → All MarksEndpoint q.endpoints → strip is q ≡ compatible_endpoints q
  unfolding compatible_endpoints
  strip-compatible q h =
      ap (λ es. record q { endpoints = es })
        (keep_same (λ e. not (mem e.id is)) endpoint_compatible q.endpoints
          (All-imp MarksEndpoint (λ e. not (mem e.id is) ≡ endpoint_compatible e) q.endpoints
            (λ e k. ground (arith, k)) h))

  below-compatible :
      (p : PathNode)
      → All MarksProtocol p.protocols
      → All (λ q. All MarksEndpoint q.endpoints) p.protocols
      → below is p ≡ compatible_protocols t p
  unfolding compatible_protocols
  below-compatible p h k =
      let left = λ (q : ProtocolNode). not (mem q.id is) in
      let Same = λ (q : ProtocolNode). strip is q ≡ compatible_endpoints q in
      ap (λ qs. record p { protocols = qs })
        (map_same (strip is) compatible_endpoints (keep left p.protocols) (
            All-keep Same left p.protocols
              (All-imp (λ q. All MarksEndpoint q.endpoints) Same p.protocols strip-compatible k))
          ∙ ap (map compatible_endpoints) (
              keep_same left (protocol_compatible t) p.protocols (
                All-imp MarksProtocol (λ q. left q ≡ protocol_compatible t q) p.protocols
                  (λ q l. ground (arith, l)) h)))

  removed-compatible : Marks t is → removed is t ≡ compatible_tree t
  unfolding compatible_tree
  removed-compatible m =
      let left = λ (p : PathNode). not (mem p.id is) in
      let kept = λ (p : PathNode). path_compatible t p || leb (length p.protocols) 0 in
      let Same = λ (p : PathNode). below is p ≡ compatible_protocols t p in
      let Protocols = λ (p : PathNode). All MarksProtocol p.protocols in
      let Endpoints = λ (p : PathNode). All MarksEndpoint (flat (λ q. q.endpoints) p.protocols) in
      let protocols = All-flat MarksProtocol (λ p. p.protocols) t.paths m.protocols in
      let endpoints =
        All-flat MarksEndpoint (λ p. flat (λ q. q.endpoints) p.protocols) t.paths m.endpoints in
      let same =
        All-both Protocols Endpoints Same t.paths
          (λ p h k. below-compatible p h (All-flat MarksEndpoint (λ q. q.endpoints) p.protocols k))
          protocols endpoints in
      ap (λ ps. record t { paths = ps })
        (map_same (below is) (compatible_protocols t) (keep left t.paths)
            (All-keep Same left t.paths same)
          ∙ ap (map (compatible_protocols t)) (
              keep_same left kept t.paths (
                All-imp (λ p. mem p.id is ≡ removes_path t p) (λ p. left p ≡ kept p) t.paths
                  (λ p l. ground (arith, l)) m.paths)))

-- Pruning leaves of a tree exactly the nodes that are compatible and whose ancestors are left, in
-- their order, but keeps a path whose interface is incompatible if it has no protocols, where no id
-- stands for two nodes.
pub prune_candidate_tree-compatible_tree :
    (t : Tree) → DistinctIds (node_ids t) → prune_candidate_tree t ≡ compatible_tree t
unfolding prune_candidate_tree
prune_candidate_tree-compatible_tree t d =
    remove_nodes_from_tree-removed (undesirable_nodes t) t
    ∙ removed-compatible t (undesirable_nodes t) (undesirable_nodes-Marks t d)
