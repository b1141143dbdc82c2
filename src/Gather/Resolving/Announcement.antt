-- ===== src/Gather/Resolving/Announcement.antt =====
-- When the candidates are announced, and what is announced.
use ctaps.Prelude.{
  ℕ, ◌+◌, ◌-◌, ◌*◌, ◌≤◌, ◌<◌, ◌≡◌, refl, ap, ◌⊎◌, inl, inr, true, false, none, some, List, [], ◌∷◌,
  ◌++◌, map, arith, leb, ◌==◌, Bool-cases, is_some, u64, length, All, ok,
}
use ctaps.Gather.Tree.{Tree, protocol_nodes, endpoint_nodes, prune_candidate_tree}
use ctaps.Gather.Resolving.{
  Candidate, Preconnection, Env, GatherContext, Gathering, of_endpoint, leaf_nodes, candidates,
  tree_is_complete, conclude_resolution, Job, jobs_of, local_tree, new_context, branch_remotes,
  build_candidate_tree, free_on_error, get_ordered_candidate_nodes,
}
use ctaps.Gather.Resolving.Success.{
  arrive, IsStarted, awaited, awaited-le-length, started, answered, size_mod, conclude-open,
  start-open, started-pending, arrive-open, answered-pending, Found, found_at_once, with_endpoints,
  Grown, grown, with_endpoints-desired, length-jobs_of,
}

-- The resolutions that a gathering starts on a tree.
abbrev pub jobs : Env → Preconnection → Tree × ℕ → List Job
jobs env pre t = jobs_of env (protocol_nodes t.0) pre.remote_endpoints

-- There are paths, protocols and remote endpoints, not too many for a `size_t`, and every resolution
-- can be started.
pub record CanStart (env : Env) (pre : Preconnection) (t : Tree × ℕ) : Type 0 where
  pub has_path : 0 < length t.0.paths
  pub has_remote : 0 < length pre.remote_endpoints
  pub has_leaf : 0 < length (protocol_nodes t.0)
  pub fits : length (protocol_nodes t.0) * length pre.remote_endpoints < size_mod
  pub all_started : All IsStarted (jobs env pre t)

-- The candidates of the tree with all endpoints that were found, pruned and sorted.
unfoldable pub all_candidates : Env → Tree × ℕ → Found → List Candidate
all_candidates env t fs =
    env.sort t.0.desired
      (map of_endpoint (endpoint_nodes (prune_candidate_tree (with_endpoints fs t.1 t.0))))

-- The gathering when as many answers have come in: nothing is announced and the context is there, or
-- the candidates have been announced, once, and the context is freed.
unfoldable pub Progress : Env → Preconnection → Tree × ℕ → Found → Gathering → Type 0
Progress env pre t rs g =
    (length rs < awaited (jobs env pre t)) × (g.announced ≡ []) × (is_some g.context ≡ true)
    ⊎ (length rs ≡ awaited (jobs env pre t))
      × (g.announced ≡ some (all_candidates env t (found_at_once (jobs env pre t) ++ rs)) ∷ [])
      × (g.context ≡ none)

module _ (env : Env) (pre : Preconnection) (t : Tree × ℕ) (can : CanStart env pre t) where
  abbrev first : GatherContext
  first = new_context t false false (length (jobs env pre t))

  product : length (jobs env pre t) ≡ length (protocol_nodes t.0) * length pre.remote_endpoints
  product = length-jobs_of env (protocol_nodes t.0) pre.remote_endpoints

  first-positive : 0 < length (jobs env pre t)
  first-positive = rw product (grind (arith, can.has_leaf, can.has_remote))

  counter :
      u64 (length (protocol_nodes t.0) * length pre.remote_endpoints) ≡ length (jobs env pre t)
  counter = rw product (grind (arith, can.fits))

  first-open : conclude_resolution env first [] ≡ record { context = some first; announced = [] }
  first-open = conclude-open env first (length (jobs env pre t) - 1) (omega (arith, first-positive))

  branch_remotes-started :
      branch_remotes env pre false t
      ≡ some (ok tt, conclude_resolution env (started (jobs env pre t) first) [])
  unfolding branch_remotes
  branch_remotes-started =
      let paths : leb (length t.0.paths) 0 ≡ false = ground (arith, can.has_path) in
      let remotes : leb (length pre.remote_endpoints) 0 ≡ false = ground (arith, can.has_remote) in
      let leaves : leb (length (protocol_nodes t.0)) 0 ≡ false = ground (arith, can.has_leaf) in
      rw (paths, remotes, leaves, counter)
        (rw (← first-open) (
          start-open env (jobs env pre t) first 0 can.all_started (omega arith)
            (omega (arith, product, can.fits))))

  fits_once : length (jobs env pre t) + 0 < size_mod
  fits_once = omega (arith, product, can.fits)

  module _ (rs : Found) (enough : length rs ≤ awaited (jobs env pre t)) where
    abbrev left : ℕ
    left = awaited (jobs env pre t) - length rs

    abbrev last : GatherContext
    last = answered rs (started (jobs env pre t) first)

    pending_then : (started (jobs env pre t) first).pending_resolutions ≡ length rs + left
    pending_then = omega (
      arith,
      started-pending (jobs env pre t) first 0 can.all_started (omega arith) fits_once,
      enough,
    )

    small : length rs + left < size_mod
    small = omega (arith, fits_once, enough, awaited-le-length (jobs env pre t))

    last-pending : last.pending_resolutions ≡ left
    last-pending = answered-pending env left rs (started (jobs env pre t) first) pending_then small

    last-candidates :
        candidates env last ≡ some (all_candidates env t (found_at_once (jobs env pre t) ++ rs))
    unfolding candidates all_candidates leaf_nodes
    last-candidates =
        let fs = found_at_once (jobs env pre t) ++ rs in
        let g : Grown fs first last = grown (jobs env pre t) rs first can.all_started in
        let nodes = endpoint_nodes (prune_candidate_tree (with_endpoints fs t.1 t.0)) in
        rw (g.1, g.2, g.0)
          (ap (λ d. some (env.sort d (map of_endpoint nodes))) (with_endpoints-desired fs t.1 t.0))

    last-Progress : Progress env pre t rs (conclude_resolution env last [])
    unfolding Progress conclude_resolution tree_is_complete
    last-Progress = elim (Bool-cases (left == 0)) [
      | inl p ↦
          rw (last-pending, p)
            (inr (ground (arith, p, enough), ap (λ x. x ∷ []) last-candidates, refl))
      | inr p ↦ rw (last-pending, p) (inl (ground (arith, p, enough), refl, refl))
    ]

-- If there are paths, protocols and remote endpoints, and every resolution can be started, the
-- gathering starts without an error, and takes any answers, up to those that it awaits, without a
-- fault. Until the last of them has come in nothing is announced; then the candidates are announced
-- exactly once, and they are those of the tree with the endpoints that were found, pruned and
-- sorted.
pub gathering-Progress :
    (env : Env) (pre : Preconnection) (rs : Found)
    → CanStart env pre (local_tree env pre)
    → length rs ≤ awaited (jobs env pre (local_tree env pre))
    → (g : Gathering) × (get_ordered_candidate_nodes env pre ≡ some (ok tt, g))
      × (h : Gathering) × (arrive env rs g ≡ some h)
      × Progress env pre (local_tree env pre) rs h
unfolding get_ordered_candidate_nodes build_candidate_tree
gathering-Progress env pre rs can enough =
    let t = local_tree env pre in
    let s = started (jobs env pre t) (first env pre t can) in
    (
      conclude_resolution env s [],
      ap free_on_error (branch_remotes-started env pre t can),
      conclude_resolution env (answered rs s) [],
      arrive-open env (left env pre t can rs enough) rs s (pending_then env pre t can rs enough)
          (small env pre t can rs enough),
      last-Progress env pre t can rs enough,
    )
