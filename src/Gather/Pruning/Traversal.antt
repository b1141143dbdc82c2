-- ===== src/Gather/Pruning/Traversal.antt =====
-- What the three traversals of a pruning collect.
use ctaps.Prelude.{
  ℕ, ◌≡◌, refl, sym, ap, ◌∙◌, inl, inr, Bool, true, false, not, ◌&&◌, List, [], ◌∷◌, ◌++◌, map, leb,
  if◌then◌else◌, Bool-cases, if_cases, length, keep, append-nil, append_assoc,
}
use ctaps.Gather.Tree.{
  EndpointNode, ProtocolNode, PathNode, Tree, Node, path, protocol, endpoint, path_nodes,
  protocol_nodes, endpoint_nodes, level_order, Visit, traverse, path_compatible,
  protocol_compatible, endpoint_compatible, gather_incompatible_path_nodes,
  gather_incompatible_endpoint_nodes, gather_incompatible_protocol_nodes, has_children,
  undesirable_nodes,
}
use ctaps.Gather.Pruning.Filtering.{keep-keep, keep-append, keep_none, keep-map}

-- The traversals collect the ids of the bad nodes of one kind.
module _ {A : Type 0} (node : A → Node) (id_of : A → ℕ) (bad : A → Bool) (visit : Visit)
    (collects : (a : A) (found : List ℕ)
      → visit (node a) found ≡ (false, (if bad a then found ++ (id_of a ∷ []) else found))) where
  traverse-collects :
      (xs : List A) (rest : List Node) (found : List ℕ)
      → traverse visit (map node xs ++ rest) found
        ≡ traverse visit rest (found ++ map id_of (keep bad xs))
  unfolding traverse
  traverse-collects [] rest found = rw (append-nil found)
  traverse-collects (x ∷ xs) rest found = elim (Bool-cases (bad x)) [
    | inl p ↦
        rw (collects x found, p)
          (traverse-collects xs rest (found ++ (id_of x ∷ []))
            ∙ ap (traverse visit rest)
                (append_assoc found (id_of x ∷ []) (map id_of (keep bad xs))))
    | inr p ↦ rw (collects x found, p) (traverse-collects xs rest found)
  ]

module _ {A : Type 0} (node : A → Node) (visit : Visit) where
  traverse-ignores :
      ((a : A) (found : List ℕ) → visit (node a) found ≡ (false, found))
      → (xs : List A) (rest : List Node) (found : List ℕ)
      → traverse visit (map node xs ++ rest) found ≡ traverse visit rest found
  unfolding traverse
  traverse-ignores h [] rest found = refl
  traverse-ignores h (x ∷ xs) rest found = rw (h x found) (traverse-ignores h xs rest found)

  traverse-stops :
      ((a : A) (found : List ℕ) → visit (node a) found ≡ (true, found))
      → (xs : List A) (found : List ℕ) → traverse visit (map node xs) found ≡ found
  unfolding traverse
  traverse-stops h [] found = refl
  traverse-stops h (x ∷ xs) found = rw (h x found)

-- The tests of the three traversals.
abbrev pub bad_endpoint : EndpointNode → Bool
bad_endpoint e = not (endpoint_compatible e)

abbrev pub bad_protocol : Tree → ProtocolNode → Bool
bad_protocol t q = not (protocol_compatible t q)

abbrev bad_path : Tree → PathNode → Bool
bad_path t p = not (path_compatible t p)

abbrev has_protocols : PathNode → Bool
has_protocols p = not (leb (length p.protocols) 0)

endpoints-found :
    (t : Tree)
    → traverse gather_incompatible_endpoint_nodes (level_order t) []
      ≡ map (λ e. e.id) (keep bad_endpoint (endpoint_nodes t))
unfolding traverse level_order gather_incompatible_endpoint_nodes
endpoints-found t =
    let visit = gather_incompatible_endpoint_nodes in
    traverse-ignores path visit (λ a f. refl) (path_nodes t) _ []
    ∙ traverse-ignores protocol visit (λ a f. refl) (protocol_nodes t) _ []
    ∙ ap (λ ns. traverse visit ns []) (sym (append-nil (map endpoint (endpoint_nodes t))))
    ∙ traverse-collects endpoint (λ e. e.id) bad_endpoint visit (λ a f. refl) (endpoint_nodes t) []
        []

protocols-found :
    (t : Tree) (found : List ℕ)
    → traverse (gather_incompatible_protocol_nodes t) (level_order t) found
      ≡ found ++ map (λ q. q.id) (keep (bad_protocol t) (protocol_nodes t))
unfolding traverse level_order gather_incompatible_protocol_nodes
protocols-found t found =
    let visit = gather_incompatible_protocol_nodes t in
    traverse-ignores path visit (λ a f. refl) (path_nodes t) _ found
    ∙ traverse-collects protocol (λ q. q.id) (bad_protocol t) visit (λ a f. refl) (protocol_nodes t)
        (map endpoint (endpoint_nodes t)) found
    ∙ traverse-stops endpoint visit (λ a f. refl) (endpoint_nodes t) _

abbrev has_endpoints : ProtocolNode → Bool
has_endpoints q = not (leb (length q.endpoints) 0)

keep-has_children :
    (t : Tree)
    → keep (has_children t) (
        map path (path_nodes t)
        ++ (map protocol (protocol_nodes t) ++ map endpoint (endpoint_nodes t)))
      ≡ map path (keep has_protocols (path_nodes t))
        ++ map protocol (keep has_endpoints (protocol_nodes t))
unfolding has_children
keep-has_children t =
    let has = has_children t in
    rw (
      keep-append has (map path (path_nodes t))
          (map protocol (protocol_nodes t) ++ map endpoint (endpoint_nodes t)),
      keep-append has (map protocol (protocol_nodes t)) (map endpoint (endpoint_nodes t)),
      keep-map has has_protocols path (path_nodes t) (λ p. refl),
      keep-map has has_endpoints protocol (protocol_nodes t) (λ q. refl),
      keep-map has (λ e. false) endpoint (endpoint_nodes t) (λ e. refl),
      keep_none (λ e. false) (endpoint_nodes t) (λ e. refl),
      append-nil (map protocol (keep has_endpoints (protocol_nodes t))),
    )

paths-found :
    (t : Tree) (found : List ℕ)
    → traverse (gather_incompatible_path_nodes t) (keep (has_children t) (level_order t)) found
      ≡ found ++ map (λ p. p.id) (keep (bad_path t) (keep has_protocols (path_nodes t)))
unfolding traverse level_order gather_incompatible_path_nodes has_children
paths-found t found =
    let visit = gather_incompatible_path_nodes t in
    let below_root : traverse visit
          (keep (has_children t) (
            map path (path_nodes t)
            ++ (map protocol (protocol_nodes t) ++ map endpoint (endpoint_nodes t))))
          found
        ≡ found ++ map (λ p. p.id) (keep (bad_path t) (keep has_protocols (path_nodes t))) =
      ap (λ ns. traverse visit ns found) (keep-has_children t)
      ∙ traverse-collects path (λ p. p.id) (bad_path t) visit (λ a f. refl)
          (keep has_protocols (path_nodes t)) (map protocol (keep has_endpoints (protocol_nodes t)))
          found
      ∙ traverse-stops protocol visit (λ a f. refl) (keep has_endpoints (protocol_nodes t)) _ in
    if_cases
      (λ ns.
        traverse visit ns found
        ≡ found ++ map (λ p. p.id) (keep (bad_path t) (keep has_protocols (path_nodes t))))
      (not (leb (length t.paths) 0)) (λ _. below_root) (λ _. below_root)

-- A path is removed if its interface is incompatible, unless it has no protocols: then the traversal
-- of the nodes with children does not come by.
abbrev pub removes_path : Tree → PathNode → Bool
removes_path t p = has_protocols p && bad_path t p

pub undesirable_nodes_lem :
    (t : Tree)
    → undesirable_nodes t
      ≡ map (λ e. e.id) (keep bad_endpoint (endpoint_nodes t))
        ++ (map (λ q. q.id) (keep (bad_protocol t) (protocol_nodes t))
            ++ map (λ p. p.id) (keep (removes_path t) (path_nodes t)))
unfolding undesirable_nodes
undesirable_nodes_lem t =
    let es = map (λ e. e.id) (keep bad_endpoint (endpoint_nodes t)) in
    let qs = map (λ q. q.id) (keep (bad_protocol t) (protocol_nodes t)) in
    let ps = map (λ p. p.id) (keep (removes_path t) (path_nodes t)) in
    ap
      (λ found.
        traverse (gather_incompatible_path_nodes t) (keep (has_children t) (level_order t))
          (traverse (gather_incompatible_protocol_nodes t) (level_order t) found))
      (endpoints-found t)
    ∙ ap (traverse (gather_incompatible_path_nodes t) (keep (has_children t) (level_order t)))
        (protocols-found t es)
    ∙ paths-found t (es ++ qs)
    ∙ ap (λ xs. (es ++ qs) ++ map (λ p. p.id) xs)
        (keep-keep (bad_path t) has_protocols (removes_path t) (path_nodes t) (λ p. refl))
    ∙ append_assoc es qs ps
