-- ===== src/Race/Handlers.antt =====
-- The callbacks of a race: an attempt that concludes, wins, fails or is closed.
use ctaps.Prelude.{
  ℕ, zero, suc, ◌+◌, Bool, true, false, not, ◌&&◌, some, List, [], ◌∷◌, ◌==◌, if◌then◌else◌, u64,
  length,
}
use ctaps.Race.State.{
  AttemptState, pending, connecting, closing, succeeded, failed, canceled, Attempt, Effect, Context,
  Env, log_effect, set_state,
}

abbrev pub is_failed : AttemptState → Bool
is_failed failed = true
is_failed canceled = true
is_failed _ = false

abbrev pub is_concluded : AttemptState → Bool
is_concluded failed = true
is_concluded canceled = true
is_concluded succeeded = true
is_concluded _ = false

unfoldable pub all_attempts_failed : List Attempt → Bool
all_attempts_failed [] = true
all_attempts_failed (a ∷ rest) = if not (is_failed a.state) then false else all_attempts_failed rest

unfoldable pub all_attempts_concluded : List Attempt → Bool
all_attempts_concluded [] = true
all_attempts_concluded (a ∷ rest) =
    if not (is_concluded a.state) then false else all_attempts_concluded rest

unfoldable pub initiate_context_close : Context → Context
initiate_context_close c = log_effect Effect.timer_close (log_effect Effect.timer_stop c)

unfoldable pub handle_all_attempts_failed : Context → Context
unfolding initiate_context_close
handle_all_attempts_failed c =
    let d = record c { race_complete = true } in
    initiate_context_close
      (if d.has_error_callback then log_effect Effect.establishment_error d else d)

unfoldable pub handle_concluded_attempt : Context → Context
unfolding handle_all_attempts_failed initiate_context_close all_attempts_failed
    all_attempts_concluded
handle_concluded_attempt c =
    if all_attempts_failed c.attempts
    then handle_all_attempts_failed c
    else if all_attempts_concluded c.attempts
    then initiate_context_close c
    else c

unfoldable pub register_failed_attempt : ℕ → Context → Context
unfolding handle_concluded_attempt
register_failed_attempt i c =
    let d = set_state i failed c in
    handle_concluded_attempt (record d { completed_attempts = u64 (d.completed_attempts + 1) })

unfoldable pub register_canceled_attempt : ℕ → Context → Context
unfolding handle_concluded_attempt
register_canceled_attempt i c =
    let d = set_state i canceled c in
    handle_concluded_attempt (record d { completed_attempts = u64 (d.completed_attempts + 1) })

-- `attempts[i].state` and `attempts[i].attempt_index`, for an index within the array.
abbrev pub state_of : List Attempt → ℕ → AttemptState
state_of [] i = pending
state_of (a ∷ rest) zero = a.state
state_of (a ∷ rest) (suc i) = state_of rest i

abbrev pub index_of : List Attempt → ℕ → ℕ
index_of [] i = i
index_of (a ∷ rest) zero = a.attempt_index
index_of (a ∷ rest) (suc i) = index_of rest i

unfoldable pub register_succesful_attempt : ℕ → Context → Context
unfolding handle_concluded_attempt
register_succesful_attempt i c =
    let d = set_state i succeeded c in
    handle_concluded_attempt (record d {
      completed_attempts = u64 (d.completed_attempts + 1);
      winning_attempt_index = some (index_of d.attempts i);
      race_complete = true;
    })

-- The `closed` callback of a connection that lost the race.
unfoldable pub raced_connection_close_cb : ℕ → Context → Context
unfolding register_canceled_attempt
raced_connection_close_cb i c = register_canceled_attempt i c

unfoldable pub on_attempt_establishment_error : ℕ → Context → Context
on_attempt_establishment_error i c = if c.race_complete then c else register_failed_attempt i c

-- The body of the loop in `cancel_all_other_attempts`, past the test for the winner.
unfoldable pub cancel_attempt : Env → ℕ → AttemptState → Context → Context
unfolding register_canceled_attempt raced_connection_close_cb
cancel_attempt env i connecting c =
    let d = log_effect (Effect.close_group i) (set_state i closing c) in
    if env.closes_at_once i then raced_connection_close_cb i d else d
cancel_attempt env i pending c = register_canceled_attempt i c
cancel_attempt env i _ c = c

-- The loop over the indices from `i`, with `left` of them to go.
unfoldable pub cancel_from : Env → ℕ → ℕ → ℕ → Context → Context
unfolding cancel_attempt
cancel_from env zero i winner c = c
cancel_from env (suc left) i winner c =
    cancel_from env left (suc i) winner
      (if i == winner then c else cancel_attempt env i (state_of c.attempts i) c)

unfoldable pub cancel_all_other_attempts : Env → ℕ → Context → Context
unfolding cancel_from
cancel_all_other_attempts env winner c = cancel_from env (length c.attempts) 0 winner c

-- What `racing_on_attempt_ready` does once the other attempts are canceled.
unfoldable pub hand_to_user : Env → ℕ → Context → Context
hand_to_user env i c =
    let c1 = log_effect (Effect.restore_callbacks i) c in
    let c2 =
      if not c1.should_try_early_data && c1.has_initial_message
      then if env.send_rc i == 0
        then log_effect (Effect.send_message i) c1
        else log_effect (Effect.message_send_error i) (log_effect (Effect.send_message i) c1)
      else c1 in
    let c3 = if env.sent_early_data i then log_effect (Effect.message_sent i) c2 else c2 in
    if c3.has_ready_callback then log_effect (Effect.ready i) c3 else c3

-- What follows the test of `race_complete` in `racing_on_attempt_ready`.
unfoldable pub win_race : Env → ℕ → Context → Context
win_race env i c =
    let d = register_succesful_attempt i c in
    hand_to_user env i (cancel_all_other_attempts env (index_of d.attempts i) d)

unfoldable pub racing_on_attempt_ready : Env → ℕ → Context → Context
racing_on_attempt_ready env i c = if c.race_complete then c else win_race env i c
