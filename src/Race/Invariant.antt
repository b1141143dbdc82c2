-- ===== src/Race/Invariant.antt =====
-- The invariant of a race between two events of the event loop, and the callbacks of its connections.
use ctaps.Prelude.{
  ℕ, ◌+◌, ◌≤◌, ◌<◌, ◌≡◌, sym, ap, ◌∙◌, ◌≢◌, ◌⊎◌, inr, true, false, ◌&&◌, some, arith, ◌==◌, length,
  get_elem?, lt_of_get_elem?,
}
use ctaps.Race.State.{AttemptState, pending, Attempt, Context, Env}
use ctaps.Race.Handlers.{
  register_succesful_attempt, state_of, index_of, cancel_all_other_attempts, hand_to_user, win_race,
}
use ctaps.Race.Counting.{
  is_open, is_idle, open_attempts, won_attempts, bit, closes, errors, readies, index_of_eq,
}
use ctaps.Race.Conclusion.{Frame, Frame-trans, Core, register_succesful_lem}
use ctaps.Race.Cancel.{state_of-set_state, Won, cancel_all_other_attempts_lem}

-- The winner, and what became of the others.
pub record HasWinner (c : Context) : Type 0 where
  pub winner : ℕ
  pub inside : winner < length c.attempts
  pub recorded : c.winning_attempt_index ≡ some winner
  pub won : won_attempts c.attempts ≡ 1
  pub succeeded : state_of c.attempts winner ≡ AttemptState.succeeded
  pub others :
      (j : ℕ) → j < length c.attempts → j ≢ winner → is_idle (state_of c.attempts j) ≡ false

abbrev pub HasFailed : Context → Type 0
HasFailed c = (won_attempts c.attempts ≡ 0) × (open_attempts c.attempts ≡ 0)

-- The attempts from index `first` on have not been started; between two events `first` is
-- `next_attempt_index`.
pub record Inv (first : ℕ) (c : Context) : Type 0 where
  pub core : Core c
  pub indexed : (j : ℕ) → j < length c.attempts → index_of c.attempts j ≡ j
  pub ahead :
      c.race_complete ≡ false
      → (j : ℕ) → first ≤ j
      → j < length c.attempts
      → state_of c.attempts j ≡ pending
  pub ongoing :
      c.race_complete ≡ false → (won_attempts c.attempts ≡ 0) × (0 < open_attempts c.attempts)
  pub finished : c.race_complete ≡ true → HasWinner c ⊎ HasFailed c
  pub readied : readies c ≡ bit ((won_attempts c.attempts == 1) && c.has_ready_callback)

pub record Handed (c e : Context) : Type 0 where
  pub frame : Frame c e
  pub attempts : e.attempts ≡ c.attempts
  pub completed : e.completed_attempts ≡ c.completed_attempts
  pub winner : e.winning_attempt_index ≡ c.winning_attempt_index
  pub complete : e.race_complete ≡ c.race_complete
  pub closed : closes e ≡ closes c
  pub errored : errors e ≡ errors c
  pub readied : readies e ≡ readies c + bit c.has_ready_callback

pub hand_to_user_lem : (env : Env) (i : ℕ) (c : Context) → Handed c (hand_to_user env i c)
unfolding hand_to_user
hand_to_user_lem env i c = ground arith

Handed-Core : {c e : Context} → Handed c e → Core c → Core e
Handed-Core h v =
    ground (arith, ap length h.attempts, ap open_attempts h.attempts, ap won_attempts h.attempts)

-- What `racing_on_attempt_ready` leaves of a race that is not complete.
pub record Wins (i : ℕ) (c e : Context) : Type 0 where
  pub frame : Frame c e
  pub core : Core e
  pub complete : e.race_complete ≡ true
  pub won : won_attempts e.attempts ≡ 1
  pub recorded : e.winning_attempt_index ≡ some i
  pub succeeded : state_of e.attempts i ≡ AttemptState.succeeded
  pub others : (j : ℕ) → j < length e.attempts → j ≢ i → is_idle (state_of e.attempts j) ≡ false
  pub readied : readies e ≡ readies c + bit c.has_ready_callback

module _ (env : Env) {first : ℕ} (c : Context) (v : Inv first c) (i : ℕ) {a : Attempt}
    (found : get_elem? c.attempts i ≡ some a) (ongoing : c.race_complete ≡ false) where
  inside_race : i < length c.attempts
  inside_race = lt_of_get_elem? c.attempts i found

  pub win_race_lem : is_open a.state ≡ true → Wins i c (win_race env i c)
  unfolding win_race
  win_race_lem busy =
      let c1 = register_succesful_attempt i c in
      let (reg, complete, winner) = register_succesful_lem c v.core i found busy in
      let place : index_of c1.attempts i ≡ i =
        index_of_eq c1.attempts c.attempts i reg.frame.indexes ∙ v.indexed i inside_race in
      let won : Won c1 = record {
        core = reg.core;
        won = omega (arith, reg.won, v.ongoing ongoing);
        complete = complete;
      } in
      let c2 = cancel_all_other_attempts env (index_of c1.attempts i) c1 in
      let s = cancel_all_other_attempts_lem env (index_of c1.attempts i) c1 won in
      let h = hand_to_user_lem env i c2 in
      let at_i : state_of c1.attempts i ≡ AttemptState.succeeded =
        rw reg.attempts (state_of-set_state c.attempts i AttemptState.succeeded inside_race) in
      record {
        frame = Frame-trans (Frame-trans reg.frame s.cancels.frame) h.frame;
        core = Handed-Core h s.cancels.still.core;
        complete = h.complete ∙ s.cancels.still.complete;
        won = ap won_attempts h.attempts ∙ s.cancels.still.won;
        recorded = h.winner ∙ s.cancels.winner ∙ winner ∙ ap some place;
        succeeded = ap (λ xs. state_of xs i) h.attempts ∙ s.kept i (inr (sym place)) ∙ at_i;
        others = λ j k l.
            ap (λ xs. is_idle (state_of xs j)) h.attempts
            ∙ s.done j (omega arith) (omega (arith, h.frame.size, s.cancels.frame.size))
                (λ e. l (e ∙ place));
        readied = omega (
          arith,
          h.readied,
          s.cancels.readied,
          reg.readied,
          ap bit (s.cancels.frame.ready_callback ∙ reg.frame.ready_callback),
        );
      }
