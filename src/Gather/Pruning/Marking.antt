-- ===== src/Gather/Pruning/Marking.antt =====
-- Where no id stands twice, the collected ids pick out the nodes that failed the tests.
use ctaps.Prelude.{
  ℕ, ◌≡◌, refl, sym, ap, Bool, false, List, [], ◌∷◌, ◌++◌, map, arith, ◌==◌, if◌then◌else◌, keep,
  All,
}
use ctaps.Gather.Tree.{
  EndpointNode, ProtocolNode, PathNode, Tree, path_nodes, protocol_nodes, endpoint_nodes,
  undesirable_nodes,
}
use ctaps.Gather.Pruning.Filtering.{All-both}
use ctaps.Gather.Pruning.Unlinking.{mem}
use ctaps.Gather.Pruning.Traversal.{bad_endpoint, bad_protocol, removes_path, undesirable_nodes_lem}

-- Rows of ids with the mark that the node is bad.
abbrev Rows : Type 0
Rows = List (ℕ × Bool)

abbrev pub ids : Rows → List ℕ
ids [] = []
ids (r ∷ rs) = r.0 ∷ ids rs

abbrev pub bad_ids : Rows → List ℕ
bad_ids [] = []
bad_ids (r ∷ rs) = let rest = bad_ids rs in if r.1 then r.0 ∷ rest else rest

abbrev pub DistinctIds : List ℕ → Type 0
DistinctIds [] = Unit
DistinctIds (i ∷ is) = (mem i is ≡ false) × DistinctIds is

mem-bad_ids : (i : ℕ) (rs : Rows) → mem i (ids rs) ≡ false → mem i (bad_ids rs) ≡ false
mem-bad_ids i [] h = refl
mem-bad_ids i (r ∷ rs) h = ground (arith, h, mem-bad_ids i rs)

others_differ : (i : ℕ) (rs : Rows) → mem i (ids rs) ≡ false → All (λ r. (r.0 == i) ≡ false) rs
others_differ i [] h = tt
others_differ i (r ∷ rs) h = (ground (arith, h), others_differ i rs (ground (arith, h)))

-- Where no id stands twice, the ids of the bad nodes pick out just the bad nodes.
pub marked : (rs : Rows) → DistinctIds (ids rs) → All (λ r. mem r.0 (bad_ids rs) ≡ r.1) rs
marked [] d = tt
marked (r ∷ rs) d = (
  ground (arith, mem-bad_ids r.0 rs d.0),
  All-both (λ s. mem s.0 (bad_ids rs) ≡ s.1) (λ s. (s.0 == r.0) ≡ false)
      (λ s. mem s.0 (bad_ids (r ∷ rs)) ≡ s.1) rs (λ s h k. ground (arith, h, k)) (marked rs d.1)
      (others_differ r.0 rs d.0),
)

ids-append : (xs ys : Rows) → ids (xs ++ ys) ≡ ids xs ++ ids ys
ids-append [] ys = refl
ids-append (x ∷ xs) ys = ap (◌∷◌ (x.0)) (ids-append xs ys)

bad_ids-append : (xs ys : Rows) → bad_ids (xs ++ ys) ≡ bad_ids xs ++ bad_ids ys
bad_ids-append [] ys = refl
bad_ids-append (x ∷ xs) ys = ground (arith, bad_ids-append xs ys)

module _ {A : Type 0} (id_of : A → ℕ) (bad : A → Bool) where
  abbrev pub rows : List A → Rows
  rows [] = []
  rows (x ∷ xs) = (id_of x, bad x) ∷ rows xs

  ids-rows : (xs : List A) → ids (rows xs) ≡ map id_of xs
  ids-rows [] = refl
  ids-rows (x ∷ xs) = ap (◌∷◌ (id_of x)) (ids-rows xs)

  bad_ids-rows : (xs : List A) → bad_ids (rows xs) ≡ map id_of (keep bad xs)
  bad_ids-rows [] = refl
  bad_ids-rows (x ∷ xs) = ground (arith, bad_ids-rows xs)

  pub All-rows {κ} :
      (P : ℕ × Bool → Type κ) (xs : List A) → All P (rows xs) → All (λ x. P (id_of x, bad x)) xs
  All-rows P [] h = tt
  All-rows P (x ∷ xs) h = (h.0, All-rows P xs h.1)

-- The ids of a tree's nodes below the root.
abbrev pub node_ids : Tree → List ℕ
node_ids t =
    map (λ e. e.id) (endpoint_nodes t)
    ++ (map (λ q. q.id) (protocol_nodes t) ++ map (λ p. p.id) (path_nodes t))

abbrev pub all_rows : Tree → Rows
all_rows t =
    rows (λ e. e.id) bad_endpoint (endpoint_nodes t)
    ++ (rows (λ q. q.id) (bad_protocol t) (protocol_nodes t)
        ++ rows (λ p. p.id) (removes_path t) (path_nodes t))

pub ids-all_rows : (t : Tree) → ids (all_rows t) ≡ node_ids t
ids-all_rows t =
    let es = rows (λ (e : EndpointNode). e.id) bad_endpoint (endpoint_nodes t) in
    let qs = rows (λ (q : ProtocolNode). q.id) (bad_protocol t) (protocol_nodes t) in
    let ps = rows (λ (p : PathNode). p.id) (removes_path t) (path_nodes t) in
    rw (
      ids-append es (qs ++ ps),
      ids-append qs ps,
      ids-rows (λ (e : EndpointNode). e.id) bad_endpoint (endpoint_nodes t),
      ids-rows (λ (q : ProtocolNode). q.id) (bad_protocol t) (protocol_nodes t),
      ids-rows (λ (p : PathNode). p.id) (removes_path t) (path_nodes t),
    )

pub bad_ids-all_rows : (t : Tree) → bad_ids (all_rows t) ≡ undesirable_nodes t
bad_ids-all_rows t =
    let es = rows (λ (e : EndpointNode). e.id) bad_endpoint (endpoint_nodes t) in
    let qs = rows (λ (q : ProtocolNode). q.id) (bad_protocol t) (protocol_nodes t) in
    let ps = rows (λ (p : PathNode). p.id) (removes_path t) (path_nodes t) in
    rw
      (
        bad_ids-append es (qs ++ ps),
        bad_ids-append qs ps,
        bad_ids-rows (λ (e : EndpointNode). e.id) bad_endpoint (endpoint_nodes t),
        bad_ids-rows (λ (q : ProtocolNode). q.id) (bad_protocol t) (protocol_nodes t),
        bad_ids-rows (λ (p : PathNode). p.id) (removes_path t) (path_nodes t),
      )
      (sym (undesirable_nodes_lem t))
