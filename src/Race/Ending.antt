-- ===== src/Race/Ending.antt =====
-- The end of a race: closing callbacks, and the failures that are counted twice.
use ctaps.Prelude.{
  ℕ, zero, suc, ◌+◌, ◌*◌, ◌≡◌, sym, ap, subst, ◌∙◌, true, false, some, List, [], ◌∷◌, map, arith,
  if◌then◌else◌, length, get_elem?,
}
use ctaps.Race.State.{failed, Attempt, Context, Env, quiet}
use ctaps.Race.Handlers.{
  all_attempts_failed, register_failed_attempt, handle_all_attempts_failed,
  raced_connection_close_cb,
}
use ctaps.Race.Counting.{open_attempts, won_attempts, bit, closes, errors, all_attempts_failed_lem}
use ctaps.Race.Conclusion.{Drops, register_failed_lem, register_canceled_lem}
use ctaps.Race.Start.{start_next, start_connection_attempt, conclude_start, initiate_next_attempt}
use ctaps.Race.Callbacks.{IsActive}
use ctaps.Race.Initiate.{Waits, start-Waits}
use ctaps.Race.Events.{connection_closed, handle, run, Allowed, Between, handle-Between}

close_cb-fewer :
    (c : Context) (i : ℕ)
    → Between c
    → IsActive i c
    → suc (open_attempts (raced_connection_close_cb i c).attempts) ≡ open_attempts c.attempts
unfolding raced_connection_close_cb
close_cb-fewer c i v b = (register_canceled_lem c v.core i b.found b.active).registers.fewer

-- Once every attempt that is open in a race between two events has reported its close, the context
-- has been closed exactly once.
pub closes-run :
    (env : Env) (is : List ℕ) (c : Context)
    → Between c
    → Allowed env (map connection_closed is) c
    → length is ≡ open_attempts c.attempts
    → closes (run env (map connection_closed is) c) ≡ 1
unfolding run handle
closes-run env [] c v m h = ground (arith, v.core.closed)
closes-run env (i ∷ is) c v m h =
    closes-run env is (raced_connection_close_cb i c)
      (handle-Between env (connection_closed i) c m.0 v) m.1
      (omega (arith, close_cb-fewer c i v m.0))

handle_all_attempts_failed_lem :
    (d : Context)
    → let e = handle_all_attempts_failed d in
      (closes e ≡ suc (closes d)) × (errors e ≡ errors d + bit d.has_error_callback)
unfolding handle_all_attempts_failed
handle_all_attempts_failed_lem d = ground arith

module _ (c d : Context) (n : ℕ) (w : Waits n c d) (alone : open_attempts c.attempts ≡ 1) where
  abbrev failure : Context
  failure = register_failed_attempt n d

  failure-Drops : Drops n failed d failure
  failure-Drops = register_failed_lem d w.inv.core n w.active.found w.active.active

  none_left : open_attempts failure.attempts + won_attempts failure.attempts ≡ 0
  none_left = omega (
    arith,
    failure-Drops.registers.fewer,
    failure-Drops.registers.won,
    w.opens,
    w.inv.ongoing w.ongoing,
  )

  failed_twice :
      (rc : ℕ)
      → let e = conclude_start n (d, suc rc) in
        (closes e ≡ 2) × (errors e ≡ 2 * bit c.has_error_callback)
  unfolding conclude_start
  failed_twice rc =
      let over : all_attempts_failed failure.attempts ≡ true =
        all_attempts_failed_lem failure.attempts ∙ ground (arith, none_left) in
      let (closed, errored) = handle_all_attempts_failed_lem failure in
      let core = failure-Drops.registers.core in
      let callback : failure.has_error_callback ≡ c.has_error_callback =
        failure-Drops.registers.frame.error_callback ∙ w.errs in
      rw over (
        closed ∙ ap suc core.closed ∙ ground (arith, none_left),
        errored ∙ ground (arith, core.errored, none_left, callback),
      )

abbrev pub Twice : Context → Context → Type 0
Twice c e = (closes e ≡ 2) × (errors e ≡ 2 * bit c.has_error_callback)

failed_start-Twice :
    (c : Context) (n rc : ℕ) (r : Context × ℕ)
    → r.1 ≡ suc rc
    → Waits n c r.0
    → open_attempts c.attempts ≡ 1
    → Twice c (conclude_start n r)
failed_start-Twice c n rc (d, zero) h w alone = absurd (omega arith)
failed_start-Twice c n rc (d, suc m) h w alone = failed_twice c d n w alone m

initiate_next_attempt_eq :
    (env : Env) (c : Context) {a : Attempt}
    → c.race_complete ≡ false
    → get_elem? c.attempts c.next_attempt_index ≡ some a
    → initiate_next_attempt env c
      ≡ conclude_start c.next_attempt_index
          (start_connection_attempt env c.next_attempt_index a.candidate c)
unfolding initiate_next_attempt start_next
initiate_next_attempt_eq env c ongoing found =
    ap (λ b. if b then c else start_next env (get_elem? c.attempts c.next_attempt_index) c) ongoing
    ∙ ap (λ o. start_next env o c) found

-- Where the race goes on and the only attempt still open fails to start, with no callback made, the
-- context is closed twice and the user hears twice of the one failure.
pub initiate_next_attempt-Twice :
    (env : Env) (c : Context) {a : Attempt} (rc : ℕ)
    → Between c
    → c.race_complete ≡ false
    → get_elem? c.attempts c.next_attempt_index ≡ some a
    → open_attempts c.attempts ≡ 1
    → env.init_report c.next_attempt_index ≡ quiet
    → (start_connection_attempt env c.next_attempt_index a.candidate c).1 ≡ suc rc
    → Twice c (initiate_next_attempt env c)
initiate_next_attempt-Twice env c {a} rc v ongoing found alone silent h =
    subst (Twice c) (sym (initiate_next_attempt_eq env c ongoing found)) (
      failed_start-Twice c c.next_attempt_index rc
        (start_connection_attempt env c.next_attempt_index a.candidate c) h
        (start-Waits env c c.next_attempt_index v ongoing found silent) alone)
