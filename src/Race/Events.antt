-- ===== src/Race/Events.antt =====
-- The race as a sequence of events: the stagger timer and the callbacks of the raced connections.
use ctaps.Prelude.{ℕ, ◌≡◌, refl, sym, subst, some, List, [], ◌∷◌, if_cases, get_elem?}
use ctaps.Race.State.{Attempt, Context, Env}
use ctaps.Race.Handlers.{
  raced_connection_close_cb, on_attempt_establishment_error, racing_on_attempt_ready,
}
use ctaps.Race.Conclusion.{register_failed_lem, register_canceled_lem}
use ctaps.Race.Invariant.{Inv, win_race_lem}
use ctaps.Race.Start.{on_stagger_timer}
use ctaps.Race.Callbacks.{IsActive, ready-Inv, establishment_error-Inv, close_cb-Inv}
use ctaps.Race.Next.{MayFail, initiate_next_attempt-Inv}

pub data Event : Type 0 where
  stagger_timer : Event
  attempt_ready attempt_error connection_closed : ℕ → Event

unfoldable pub handle : Env → Event → Context → Context
handle env stagger_timer c = on_stagger_timer env c
handle env (attempt_ready i) c = racing_on_attempt_ready env i c
handle env (attempt_error i) c = on_attempt_establishment_error i c
handle env (connection_closed i) c = raced_connection_close_cb i c

-- What the event loop may deliver: callbacks of connections that were started and have not
-- concluded, and a start that fails only while another attempt is open.
abbrev pub May : Env → Event → Context → Type 0
May env stagger_timer c =
    (a : Attempt) → get_elem? c.attempts c.next_attempt_index ≡ some a → MayFail env c a
May env (attempt_ready i) c = IsActive i c
May env (attempt_error i) c = IsActive i c
May env (connection_closed i) c = IsActive i c

unfoldable pub run : Env → List Event → Context → Context
run env [] c = c
run env (e ∷ es) c = run env es (handle env e c)

abbrev pub Allowed : Env → List Event → Context → Type 0
Allowed env [] c = Unit {0}
Allowed env (e ∷ es) c = May env e c × Allowed env es (handle env e c)

abbrev pub Between : Context → Type 0
Between c = Inv c.next_attempt_index c

-- A callback leaves `next_attempt_index` alone.
module _ (env : Env) (c : Context) (v : Between c) (i : ℕ) (b : IsActive i c) where
  ready-next : (racing_on_attempt_ready env i c).next_attempt_index ≡ c.next_attempt_index
  unfolding racing_on_attempt_ready
  ready-next =
      if_cases {A = Context} (λ d. d.next_attempt_index ≡ c.next_attempt_index) c.race_complete
        (λ _. refl) (λ p. (win_race_lem env c v i b.found p b.active).frame.next)

  error-next : (on_attempt_establishment_error i c).next_attempt_index ≡ c.next_attempt_index
  unfolding on_attempt_establishment_error
  error-next =
      if_cases {A = Context} (λ d. d.next_attempt_index ≡ c.next_attempt_index) c.race_complete
        (λ _. refl) (λ _. (register_failed_lem c v.core i b.found b.active).registers.frame.next)

  close-next : (raced_connection_close_cb i c).next_attempt_index ≡ c.next_attempt_index
  unfolding raced_connection_close_cb
  close-next = (register_canceled_lem c v.core i b.found b.active).registers.frame.next

between : {first : ℕ} (d : Context) → Inv first d → d.next_attempt_index ≡ first → Between d
between d v p = subst (λ k. Inv k d) (sym p) v

pub handle-Between :
    (env : Env) (e : Event) (c : Context) → May env e c → Between c → Between (handle env e c)
unfolding handle on_stagger_timer
handle-Between env stagger_timer c m v =
    if_cases Between c.race_complete (λ _. v) (λ _. initiate_next_attempt-Inv env c v m)
handle-Between env (attempt_ready i) c m v =
    between _ (ready-Inv c i c.next_attempt_index v m env) (ready-next env c v i m)
handle-Between env (attempt_error i) c m v =
    between _ (establishment_error-Inv c i c.next_attempt_index v m) (error-next env c v i m)
handle-Between env (connection_closed i) c m v =
    between _ (close_cb-Inv c i c.next_attempt_index v m) (close-next env c v i m)

-- Between any two events that the loop may deliver the invariant of the race holds.
pub run-Between :
    (env : Env) (es : List Event) (c : Context)
    → Allowed env es c
    → Between c
    → Between (run env es c)
unfolding run
run-Between env [] c m v = v
run-Between env (e ∷ es) c m v =
    run-Between env es (handle env e c) m.1 (handle-Between env e c m.0 v)
