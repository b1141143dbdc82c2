-- ===== src/Gather/Resolving/Failure.antt =====
-- A gathering in which a resolution cannot be started.
use ctaps.Prelude.{
  ℕ, zero, suc, ◌+◌, ◌*◌, ◌<◌, ◌≡◌, refl, sym, ap, ◌∙◌, ◌⊎◌, inl, inr, false, none, some, List, [],
  ◌∷◌, ◌++◌, arith, leb, ◌==◌, ==_iff, Bool-cases, u64, length, All, length-append, err,
}
use ctaps.Endpoint.Address.{SockAddr}
use ctaps.Gather.Tree.{Tree, protocol_nodes}
use ctaps.Gather.Resolving.{
  at_once, later, refused, Preconnection, Env, GatherContext, Gathering, tree_is_complete, resolved,
  conclude_resolution, resolve_cb, begin, give_up, Job, start_resolutions, local_tree, new_context,
  branch_remotes, build_candidate_tree, free_on_error, get_ordered_candidate_nodes,
}
use ctaps.Gather.Resolving.Success.{
  IsStarted, awaited, awaited-le-length, started, size_mod, conclude-open, start-prefix,
  started-pending, length-jobs_of,
}
use ctaps.Gather.Resolving.Announcement.{jobs}

started-num_in_flight :
    (js : List Job) (c : GatherContext)
    → All IsStarted js
    → c.num_in_flight + length js < size_mod
    → (started js c).num_in_flight ≡ c.num_in_flight + awaited js
unfolding started awaited resolved
started-num_in_flight [] c s l = omega arith
started-num_in_flight ((parent, at_once found) ∷ js) c s l =
    let e : (resolved parent found (begin c)).num_in_flight ≡ c.num_in_flight = omega (arith, l) in
    omega (
      arith,
      e,
      started-num_in_flight js (resolved parent found (begin c)) s.1 (omega (arith, e, l)),
    )
started-num_in_flight ((parent, later) ∷ js) c s l =
    let e : (begin c).num_in_flight ≡ c.num_in_flight + 1 = omega (arith, l) in
    omega (arith, e, started-num_in_flight js (begin c) s.1 (omega (arith, e, l)))
started-num_in_flight ((parent, refused e) ∷ js) c s l = absurd s.0

factors_pos : (a b n : ℕ) → a * b ≡ suc n → (leb a 0 ≡ false) × (leb b 0 ≡ false)
factors_pos zero b n h = absurd (omega (arith, h))
factors_pos (suc a) zero n h = absurd (omega (arith, h))
factors_pos (suc a) (suc b) n h = ground arith

-- The gathering gets as far as a resolution that cannot be started.
pub record Refused (env : Env) (pre : Preconnection) (t : Tree × ℕ) (before : List Job) (parent : ℕ)
    (code : ℕ) (after : List Job) : Type 0 where
  pub has_path : 0 < length t.0.paths
  pub fits : length (protocol_nodes t.0) * length pre.remote_endpoints < size_mod
  pub started_before : All IsStarted before
  pub order : jobs env pre t ≡ before ++ ((parent, refused code) ∷ after)

module _ (env : Env) (pre : Preconnection) (t : Tree × ℕ) (before : List Job) (parent code : ℕ)
    (after : List Job) (r : Refused env pre t before parent code after) where
  abbrev first : GatherContext
  first = new_context t false false (length (jobs env pre t))

  count_all :
      length (protocol_nodes t.0) * length pre.remote_endpoints ≡ length before + suc (length after)
  count_all =
      sym (length-jobs_of env (protocol_nodes t.0) pre.remote_endpoints)
      ∙ ap length r.order
      ∙ length-append before ((parent, refused code) ∷ after)

  abbrev here : GatherContext
  here = started before first

  count_jobs : length (jobs env pre t) ≡ length before + suc (length after)
  count_jobs = ap length r.order ∙ length-append before ((parent, refused code) ∷ after)

  all_fit : length before + suc (length after) < size_mod
  all_fit = omega (arith, count_all, r.fits)

  here-open : conclude_resolution env here [] ≡ record { context = some here; announced = [] }
  here-open = conclude-open env here (awaited before + length after) (
      omega (
        arith,
        started-pending before first (suc (length after)) r.started_before count_jobs all_fit,
      ))

  given_up : (give_up (begin here)).pending_resolutions ≡ awaited before
  unfolding give_up
  given_up =
      let e = started-num_in_flight before first r.started_before (omega (arith, all_fit)) in
      let b = awaited-le-length before in omega (arith, e, b, all_fit)

  branch_remotes-refused :
      branch_remotes env pre false t
      ≡ some (err code, conclude_resolution env (give_up (begin here)) [])
  unfolding branch_remotes
  branch_remotes-refused =
      let paths : leb (length t.0.paths) 0 ≡ false = ground (arith, r.has_path) in
      let p =
        factors_pos (length (protocol_nodes t.0)) (length pre.remote_endpoints)
          (length before + length after) (omega (arith, count_all)) in
      rw (paths, p.1, p.0, counter) (rw (← first-open) at_refusal)
    where
      counter :
          u64 (length (protocol_nodes t.0) * length pre.remote_endpoints) ≡ length (jobs env pre t)
      counter = omega (arith, count_all, count_jobs, all_fit)

      first-open :
          conclude_resolution env first [] ≡ record { context = some first; announced = [] }
      first-open =
          conclude-open env first (length before + length after) (omega (arith, count_jobs))

      at_refusal :
          start_resolutions env (jobs env pre t) (conclude_resolution env first [])
          ≡ some (err code, conclude_resolution env (give_up (begin here)) [])
      at_refusal =
          ap (λ js. start_resolutions env js (conclude_resolution env first [])) r.order
          ∙ start-prefix env before ((parent, refused code) ∷ after) first (suc (length after))
              r.started_before count_jobs all_fit
          ∙ refusal
        where
          refusal :
              start_resolutions env
                ((parent, refused code) ∷ after)
                (conclude_resolution env here [])
              ≡ some (err code, conclude_resolution env (give_up (begin here)) [])
          refusal = unfold start_resolutions in rw here-open

-- If a resolution cannot be started and no answer is awaited from those before it, the gathering
-- faults: the context is freed twice. If answers are awaited, the error is returned, nothing has
-- been announced, and the first answer to come in, whichever it is, faults: it uses the context,
-- which has been freed.
pub gathering-Refused :
    (env : Env) (pre : Preconnection) (before : List Job) (parent code : ℕ) (after : List Job)
    → Refused env pre (local_tree env pre) before parent code after
    → ((awaited before ≡ 0) × (get_ordered_candidate_nodes env pre ≡ none))
      ⊎ ((0 < awaited before)
          × (g : Gathering) × (get_ordered_candidate_nodes env pre ≡ some (err code, g))
          × (g.announced ≡ [])
          × ((node : ℕ) (found : List SockAddr) → resolve_cb env node found g ≡ none))
unfolding get_ordered_candidate_nodes build_candidate_tree conclude_resolution tree_is_complete
    resolve_cb
gathering-Refused env pre before parent code after r =
    let t = local_tree env pre in
    let e = ap free_on_error (branch_remotes-refused env pre t before parent code after r) in
    let p = given_up env pre t before parent code after r in
    elim (Bool-cases (awaited before == 0)) [
      | inl q ↦ inl ((==_iff _ _).0 q, e ∙ rw (p, q))
      | inr q ↦ inr (
        ground (arith, q),
        record { context = none; announced = [] },
        e ∙ rw (p, q),
        refl,
        λ node found. refl,
      )
    ]
