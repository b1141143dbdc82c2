-- ===== src/Gather/Pruning/Unlinking.antt =====
-- The nodes of a list are unlinked one after the other, or all at once.
use ctaps.Prelude.{
  ℕ, ◌≡◌, refl, sym, ap, ◌∙◌, Bool, true, false, not, ◌||◌, List, [], ◌∷◌, map, arith, ◌==◌, keep,
}
use ctaps.Gather.Tree.{
  ProtocolNode, PathNode, Tree, remove_endpoint, remove_below, remove_node, remove_nodes_from_tree,
}
use ctaps.Gather.Pruning.Filtering.{keep-keep, keep_every, map-map, All-of, keep-map}

abbrev pub mem : ℕ → List ℕ → Bool
mem i [] = false
mem i (j ∷ js) = i == j || mem i js

-- All the nodes of a list are unlinked at once.
abbrev pub strip : List ℕ → ProtocolNode → ProtocolNode
strip is q = record q { endpoints = keep (λ e. not (mem e.id is)) q.endpoints }

abbrev pub below : List ℕ → PathNode → PathNode
below is p = record p { protocols = map (strip is) (keep (λ q. not (mem q.id is)) p.protocols) }

abbrev pub removed : List ℕ → Tree → Tree
removed is t = record t { paths = map (below is) (keep (λ p. not (mem p.id is)) t.paths) }

strip-cons :
    (i : ℕ) (is : List ℕ) (q : ProtocolNode) → strip is (remove_endpoint i q) ≡ strip (i ∷ is) q
strip-cons i is q =
    ap (λ es. record q { endpoints = es }) (keep-keep _ _ _ q.endpoints (λ e. ground arith))

below-cons : (i : ℕ) (is : List ℕ) (p : PathNode) → below is (remove_below i p) ≡ below (i ∷ is) p
below-cons i is p =
    let out = λ (js : List ℕ) (q : ProtocolNode). not (mem q.id js) in
    let other = λ (q : ProtocolNode). not (q.id == i) in
    ap (λ qs. record p { protocols = qs })
      (ap (map (strip is))
          (keep-map (out is) (out is) (remove_endpoint i) (keep other p.protocols) (λ q. refl))
        ∙ map-map (strip is) (remove_endpoint i) (strip (i ∷ is))
            (keep (out is) (keep other p.protocols)) (strip-cons i is)
        ∙ ap (map (strip (i ∷ is)))
            (keep-keep (out is) other (out (i ∷ is)) p.protocols (λ q. ground arith)))

removed-cons : (i : ℕ) (is : List ℕ) (t : Tree) → removed is (remove_node i t) ≡ removed (i ∷ is) t
unfolding remove_node
removed-cons i is t =
    let out = λ (js : List ℕ) (p : PathNode). not (mem p.id js) in
    let other = λ (p : PathNode). not (p.id == i) in
    ap (λ ps. record t { paths = ps })
      (ap (map (below is))
          (keep-map (out is) (out is) (remove_below i) (keep other t.paths) (λ p. refl))
        ∙ map-map (below is) (remove_below i) (below (i ∷ is)) (keep (out is) (keep other t.paths))
            (below-cons i is)
        ∙ ap (map (below (i ∷ is)))
            (keep-keep (out is) other (out (i ∷ is)) t.paths (λ p. ground arith)))

map-id {ℓ} : {A : Type ℓ} (f : A → A) (xs : List A) → ((x : A) → f x ≡ x) → map f xs ≡ xs
map-id f [] h = refl
map-id f (x ∷ xs) h = ground (arith, h x, map-id f xs h)

removed-nil : (t : Tree) → removed [] t ≡ t
removed-nil t =
    let no_endpoint = λ (q : ProtocolNode).
      ap (λ es. record q { endpoints = es })
        (keep_every (λ e. true) q.endpoints (All-of q.endpoints (λ e. refl))) in
    let no_protocol = λ (p : PathNode).
      ap (λ qs. record p { protocols = qs })
        (map-id (strip []) (keep (λ q. true) p.protocols) no_endpoint
          ∙ keep_every (λ q. true) p.protocols (All-of p.protocols (λ q. refl))) in
    ap (λ ps. record t { paths = ps })
      (map-id (below []) (keep (λ p. true) t.paths) no_protocol
        ∙ keep_every (λ p. true) t.paths (All-of t.paths (λ p. refl)))

pub remove_nodes_from_tree-removed :
    (is : List ℕ) (t : Tree) → remove_nodes_from_tree is t ≡ removed is t
unfolding remove_nodes_from_tree
remove_nodes_from_tree-removed [] t = sym (removed-nil t)
remove_nodes_from_tree-removed (i ∷ is) t =
    remove_nodes_from_tree-removed is (remove_node i t) ∙ removed-cons i is t
