-- ===== src/Race/Conclusion.antt =====
-- Conclusions of attempts: the count of completed attempts, the closing of the context and the
-- report of a failed race, as `handle_concluded_attempt` keeps them.
use ctaps.Prelude.{
  ℕ, suc, ◌+◌, ◌<◌, ◌≡◌, ◌∙◌, true, ◌&&◌, ◌||◌, some, arith, ◌==◌, u64, length, get_elem?, modify,
  length-modify,
}
use ctaps.Race.State.{AttemptState, succeeded, failed, canceled, Attempt, Context, set_state}
use ctaps.Race.Handlers.{
  handle_concluded_attempt, register_failed_attempt, register_canceled_attempt,
  register_succesful_attempt, index_of,
}
use ctaps.Race.Counting.{
  is_open, is_won, open_attempts, won_attempts, bit, closes, errors, readies, tally-set_state,
  all_attempts_concluded_lem, all_attempts_failed_lem, indices, indices-set_state,
}

-- What a callback leaves alone.
pub record Frame (c d : Context) : Type 0 where
  pub next : d.next_attempt_index ≡ c.next_attempt_index
  pub early : d.should_try_early_data ≡ c.should_try_early_data
  pub message : d.has_initial_message ≡ c.has_initial_message
  pub error_callback : d.has_error_callback ≡ c.has_error_callback
  pub ready_callback : d.has_ready_callback ≡ c.has_ready_callback
  pub size : length d.attempts ≡ length c.attempts
  pub indexes : indices d.attempts ≡ indices c.attempts

pub Frame-trans : {c d e : Context} → Frame c d → Frame d e → Frame c e
Frame-trans f g = record {
  next = g.next ∙ f.next;
  early = g.early ∙ f.early;
  message = g.message ∙ f.message;
  error_callback = g.error_callback ∙ f.error_callback;
  ready_callback = g.ready_callback ∙ f.ready_callback;
  size = g.size ∙ f.size;
  indexes = g.indexes ∙ f.indexes;
}

pub record Concludes (d e : Context) : Type 0 where
  pub frame : Frame d e
  pub attempts : e.attempts ≡ d.attempts
  pub completed : e.completed_attempts ≡ d.completed_attempts
  pub winner : e.winning_attempt_index ≡ d.winning_attempt_index
  pub closed : closes e ≡ closes d + bit (open_attempts d.attempts == 0)
  pub errored :
      errors e
      ≡ errors d
        + bit ((open_attempts d.attempts + won_attempts d.attempts == 0) && d.has_error_callback)
  pub readied : readies e ≡ readies d
  pub complete :
      e.race_complete
      ≡ (d.race_complete || (open_attempts d.attempts + won_attempts d.attempts == 0))

pub handle_concluded_lem : (d : Context) → Concludes d (handle_concluded_attempt d)
unfolding handle_concluded_attempt
handle_concluded_lem d =
    ground (arith, all_attempts_failed_lem d.attempts, all_attempts_concluded_lem d.attempts)

-- The context between two callbacks: no `size_t` wraps, `completed_attempts` counts the concluded
-- attempts, the context is closed once all are, and the user hears of a failure once all failed.
pub record Core (c : Context) : Type 0 where
  pub fits : length c.attempts < 18446744073709551616
  pub counted : c.completed_attempts + open_attempts c.attempts ≡ length c.attempts
  pub closed : closes c ≡ bit (open_attempts c.attempts == 0)
  pub errored :
      errors c
      ≡ bit ((open_attempts c.attempts + won_attempts c.attempts == 0) && c.has_error_callback)

-- A registration of attempt `i` as concluded in state `s`.
pub record Registers (i : ℕ) (s : AttemptState) (c e : Context) : Type 0 where
  pub frame : Frame c e
  pub attempts : e.attempts ≡ modify c.attempts i (λ b. record b { state = s })
  pub core : Core e
  pub readied : readies e ≡ readies c
  pub fewer : suc (open_attempts e.attempts) ≡ open_attempts c.attempts
  pub won : won_attempts e.attempts ≡ won_attempts c.attempts + bit (is_won s)

-- A conclusion other than the winner's.
pub record Drops (i : ℕ) (s : AttemptState) (c e : Context) : Type 0 where
  pub registers : Registers i s c e
  pub winner : e.winning_attempt_index ≡ c.winning_attempt_index
  pub complete :
      e.race_complete
      ≡ (c.race_complete || (open_attempts e.attempts + won_attempts e.attempts == 0))

abbrev pub concluded : ℕ → AttemptState → Context → Context
concluded i s c =
    let d = set_state i s c in record d { completed_attempts = u64 (d.completed_attempts + 1) }

module _ (c : Context) (v : Core c) (i : ℕ) {a : Attempt} (found : get_elem? c.attempts i ≡ some a)
    (busy : is_open a.state ≡ true) where
  pub register_failed_lem : Drops i failed c (register_failed_attempt i c)
  unfolding register_failed_attempt
  register_failed_lem = ground (
    arith,
    handle_concluded_lem (concluded i failed c),
    tally-set_state is_open c.attempts i failed found,
    tally-set_state is_won c.attempts i failed found,
    length-modify c.attempts i (λ b. record b { state = failed }),
    indices-set_state c.attempts i failed,
  )

  pub register_canceled_lem : Drops i canceled c (register_canceled_attempt i c)
  unfolding register_canceled_attempt
  register_canceled_lem = ground (
    arith,
    handle_concluded_lem (concluded i canceled c),
    tally-set_state is_open c.attempts i canceled found,
    tally-set_state is_won c.attempts i canceled found,
    length-modify c.attempts i (λ b. record b { state = canceled }),
    indices-set_state c.attempts i canceled,
  )

  pub register_succesful_lem :
      Registers i succeeded c (register_succesful_attempt i c)
      × ((register_succesful_attempt i c).race_complete ≡ true)
      × ((register_succesful_attempt i c).winning_attempt_index
          ≡ some (index_of (register_succesful_attempt i c).attempts i))
  unfolding register_succesful_attempt
  register_succesful_lem = ground (
    arith,
    handle_concluded_lem (record (concluded i succeeded c) {
      winning_attempt_index = some (index_of (concluded i succeeded c).attempts i);
      race_complete = true;
    }),
    tally-set_state is_open c.attempts i succeeded found,
    tally-set_state is_won c.attempts i succeeded found,
    length-modify c.attempts i (λ b. record b { state = succeeded }),
    indices-set_state c.attempts i succeeded,
  )
