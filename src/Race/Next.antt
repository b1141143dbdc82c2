-- ===== src/Race/Next.antt =====
-- What follows a start in `initiate_next_attempt`.
use ctaps.Prelude.{
  ℕ, zero, suc, ◌≤◌, ◌<◌, ◌≡◌, refl, sym, ap, subst, ◌∙◌, ◌⊎◌, inl, inr, false, Option, none, some,
  arith, if_cases, length, get_elem?, lt_of_get_elem?,
}
use ctaps.Race.State.{Attempt, Context, Env, quiet}
use ctaps.Race.Handlers.{all_attempts_failed, register_failed_attempt}
use ctaps.Race.Counting.{open_attempts, all_attempts_failed_lem}
use ctaps.Race.Conclusion.{register_failed_lem}
use ctaps.Race.Invariant.{Inv}
use ctaps.Race.Start.{
  start_next, start_connection_attempt, schedule_next, conclude_start, initiate_next_attempt,
}
use ctaps.Race.Callbacks.{drop-Inv}
use ctaps.Race.Launch.{Same, Same-Inv}
use ctaps.Race.Initiate.{SamePlace, Waits, start-Inv, start-Waits}

-- `schedule_next` after attempt `n`.
schedule_next-Same : (c : Context) → Same c (schedule_next c)
unfolding schedule_next
schedule_next-Same c = ground arith

schedule_next-next :
    (c : Context)
    → c.next_attempt_index < 18446744073709551615
    → (schedule_next c).next_attempt_index ≡ suc c.next_attempt_index
unfolding schedule_next
schedule_next-next c h = ground arith

schedule-Inv :
    (n : ℕ) (c : Context)
    → c.next_attempt_index ≡ n
    → Inv (suc n) c
    → n < length c.attempts
    → Inv (schedule_next c).next_attempt_index (schedule_next c)
schedule-Inv n c p v h =
    subst (λ k. Inv k (schedule_next c))
      (sym (schedule_next-next c (omega (arith, v.core.fits)) ∙ ap suc p))
      (Same-Inv (schedule_next-Same c) v)

module _ (c : Context) (inside : c.next_attempt_index < length c.attempts) where
  failed_start-Inv :
      (d : Context)
      → Waits c.next_attempt_index c d
      → 2 ≤ open_attempts c.attempts
      → (rc : ℕ)
      → let e = conclude_start c.next_attempt_index (d, suc rc) in Inv e.next_attempt_index e
  unfolding conclude_start
  failed_start-Inv d w h rc =
      let drops =
        register_failed_lem d w.inv.core c.next_attempt_index w.active.found w.active.active in
      let e = register_failed_attempt c.next_attempt_index d in
      let v : Inv (suc c.next_attempt_index) e = drop-Inv w.inv w.active drops refl refl in
      let same : e.next_attempt_index ≡ c.next_attempt_index =
        drops.registers.frame.next ∙ w.place.next in
      let going : all_attempts_failed e.attempts ≡ false =
        all_attempts_failed_lem e.attempts ∙ ground (arith, drops.registers.fewer, w.opens) in
      rw going (
        schedule-Inv c.next_attempt_index e same v
          (omega (arith, drops.registers.frame.size, w.place.size)))

  conclude-Inv :
      (r : Context × ℕ)
      → Inv (suc c.next_attempt_index) r.0
      → SamePlace c r.0
      → (r.1 ≡ 0) ⊎ (Waits c.next_attempt_index c r.0 × (2 ≤ open_attempts c.attempts))
      → let e = conclude_start c.next_attempt_index r in Inv e.next_attempt_index e
  unfolding conclude_start
  conclude-Inv (d, zero) v p h =
      schedule-Inv c.next_attempt_index d p.next v (omega (arith, p.size))
  conclude-Inv (d, suc rc) v p (inl h) = absurd (omega arith)
  conclude-Inv (d, suc rc) v p (inr h) = failed_start-Inv d h.0 h.1 rc

-- A start may fail, with no callback made, only while another attempt is open.
abbrev pub MayFail : Env → Context → Attempt → Type 0
MayFail env c a =
    ((start_connection_attempt env c.next_attempt_index a.candidate c).1 ≡ 0)
    ⊎ ((env.init_report c.next_attempt_index ≡ quiet) × (2 ≤ open_attempts c.attempts))

module _ (env : Env) (c : Context) (v : Inv c.next_attempt_index c)
    (may : (a : Attempt)
      → get_elem? c.attempts c.next_attempt_index ≡ some a
      → MayFail env c a) where
  started-Inv :
      c.race_complete ≡ false
      → (a : Attempt) (found : get_elem? c.attempts c.next_attempt_index ≡ some a)
      → let e =
          conclude_start c.next_attempt_index
            (start_connection_attempt env c.next_attempt_index a.candidate c) in
        Inv e.next_attempt_index e
  started-Inv ongoing a found =
      let n = c.next_attempt_index in
      let r = start_connection_attempt env n a.candidate c in
      let both = start-Inv env c n v ongoing found in
      conclude-Inv c (lt_of_get_elem? c.attempts n found) r both.0 both.1 (elim (may a found) [
        | inl z ↦ inl z
        | inr f ↦ inr (start-Waits env c n v ongoing found f.0, f.1)
      ])

  started_next-Inv :
      c.race_complete ≡ false
      → (o : Option Attempt) → get_elem? c.attempts c.next_attempt_index ≡ o
      → let e = start_next env o c in Inv e.next_attempt_index e
  unfolding start_next
  started_next-Inv ongoing none p = v
  started_next-Inv ongoing (some a) p = started-Inv ongoing a p

  pub initiate_next_attempt-Inv : let e = initiate_next_attempt env c in Inv e.next_attempt_index e
  unfolding initiate_next_attempt
  initiate_next_attempt-Inv =
      if_cases (λ e. Inv e.next_attempt_index e) c.race_complete (λ _. v)
        (λ ongoing. started_next-Inv ongoing (get_elem? c.attempts c.next_attempt_index) refl)
