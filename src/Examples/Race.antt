-- ===== src/Examples/Race.antt =====
-- Races of two candidates.
use ctaps.Prelude.{
  ℕ, ◌<◌, ◌≡◌, refl, subst, inl, true, false, Option, none, some, List, [], ◌∷◌, map, arith, length,
  get_elem?, bytes_eq, ok,
}
use ctaps.Endpoint.Address.{SockAddr, sockaddr_storage_equal, sockaddr_memcmp, sockaddr_equal}
use ctaps.Endpoint.Address.Equality.{sockaddr_equal-sockaddr_storage_equal}
use ctaps.Race.State.{
  Candidate, pending, RacedConnection, Context, Env, quiet, initial_attempts, racing_context_create,
}
use ctaps.Race.State.{
  pending, Context, Env, Candidate, RacedConnection, quiet, initial_attempts, racing_context_create,
}
use ctaps.Race.Handlers.{
  all_attempts_failed, all_attempts_concluded, initiate_context_close, handle_concluded_attempt,
  register_succesful_attempt, cancel_attempt, cancel_from, cancel_all_other_attempts, hand_to_user,
  win_race, racing_on_attempt_ready,
}
use ctaps.Race.Counting.{open_attempts, closes}
use ctaps.Race.Cancel.{Won, Settled, cancel_all_other_attempts_lem}
use ctaps.Race.Start.{
  build_connection, create_client, handle_report, start_next, init_attempt, after_connection,
  start_connection_attempt, schedule_next, conclude_start, initiate_next_attempt, on_stagger_timer,
  start_candidate_racing_on_nodes_ready, remotes, locals,
}
use ctaps.Race.Next.{MayFail}
use ctaps.Race.Endpoints.{unique_endpoints, active_index, add_endpoint}
use ctaps.Race.Events.{
  Event, stagger_timer, attempt_ready, connection_closed, handle, run, Allowed, Between,
  run-Between,
}
use ctaps.Race.Outcome.{fresh, fresh-Inv, start, FirstMayFail, launched-Between, Told, run-Told}
use ctaps.Race.Ending.{closes-run, Twice, initiate_next_attempt-Twice}
use ctaps.Race.Addresses.{Padded, Represents, build_connection-Represents}

abbrev address : ℕ → SockAddr
address n = record { family = 2; rest = 1 ∷ 187 ∷ 192 ∷ 0 ∷ 2 ∷ n ∷ 0 ∷ 0 ∷ [] }

-- Two protocols over the same two addresses.
abbrev candidate : ℕ → Candidate
candidate p = record {
  protocol = p;
  alpn = some p;
  local_endpoint = address 1;
  remote_endpoint = address 2;
}

-- Everything succeeds, but a start answers `rc`.
abbrev env : ℕ → Env
env rc = record {
  realloc_ok = λ _. true;
  copy_rc = λ _. 0;
  create_ok = λ _. true;
  parameters_copied = λ _. true;
  alpn_added = λ _. true;
  init_report = λ _. quiet;
  init_rc = λ _. rc;
  closes_at_once = λ _. false;
  send_rc = λ _. 0;
  sent_early_data = λ _. false;
}

abbrev alpns : Option (List ℕ)
alpns = some (0 ∷ 1 ∷ [])

abbrev two_fit : length (candidate 0 ∷ candidate 1 ∷ []) < 18446744073709551616
two_fit = omega arith

abbrev race : Context
race = start true true alpns true false (env 0) (candidate 0) (candidate 1 ∷ []) two_fit

some-cancel {ℓ} : {A : Type ℓ} (a b : A) → some a ≡ some b → a ≡ b
some-cancel a b h = cc

first_may_fail :
    FirstMayFail true true alpns true false (env 0) (candidate 0) (candidate 1 ∷ []) two_fit
unfolding start_connection_attempt build_connection unique_endpoints add_endpoint create_client
    after_connection init_attempt initial_attempts racing_context_create sockaddr_storage_equal
    sockaddr_memcmp bytes_eq active_index
first_may_fail a h =
    subst (MayFail (env 0) (fresh true true alpns true false (candidate 0 ∷ candidate 1 ∷ [])))
      (some-cancel _ a h) (inl refl)

-- The second attempt is started, becomes ready and wins; the first is closed.
abbrev history : List Event
history = stagger_timer ∷ attempt_ready 1 ∷ connection_closed 0 ∷ []

history-Allowed : Allowed (env 0) history race
unfolding start_connection_attempt build_connection unique_endpoints add_endpoint create_client
    after_connection init_attempt initial_attempts racing_context_create sockaddr_storage_equal
    sockaddr_memcmp bytes_eq active_index handle on_stagger_timer initiate_next_attempt start_next
    conclude_start schedule_next handle_report racing_on_attempt_ready win_race
    register_succesful_attempt handle_concluded_attempt all_attempts_failed all_attempts_concluded
    cancel_all_other_attempts cancel_from cancel_attempt hand_to_user
    start_candidate_racing_on_nodes_ready initiate_context_close
history-Allowed = (
  (λ a h. subst (MayFail (env 0) race) (some-cancel _ a h) (inl refl)),
  (
    record { attempt = _; found = refl; active = refl; started = λ e. cc },
    (record { attempt = _; found = refl; active = refl; started = λ e. cc }, tt),
  ),
)

run-Told_example : Told (run (env 0) history race)
run-Told_example =
    run-Told true true alpns true false (env 0) (candidate 0) (candidate 1 ∷ []) two_fit history
      first_may_fail history-Allowed

-- The moment at which the second attempt has won and the first has not yet reported its close.
abbrev won : Context
won = run (env 0) (stagger_timer ∷ attempt_ready 1 ∷ []) race

won-Between : Between won
won-Between =
    run-Between (env 0) (stagger_timer ∷ attempt_ready 1 ∷ []) race
      (history-Allowed.0, (history-Allowed.1.0, tt))
      (launched-Between true true alpns true false (env 0) (candidate 0) (candidate 1 ∷ []) two_fit
        first_may_fail)

close-Allowed : Allowed (env 0) (map connection_closed (0 ∷ [])) won
unfolding run
close-Allowed = (history-Allowed.1.1.0, tt)

one_open : length {A = ℕ} (0 ∷ []) ≡ open_attempts won.attempts
unfolding start_connection_attempt build_connection unique_endpoints add_endpoint create_client
    after_connection init_attempt initial_attempts racing_context_create sockaddr_storage_equal
    sockaddr_memcmp bytes_eq active_index handle on_stagger_timer initiate_next_attempt start_next
    conclude_start schedule_next handle_report racing_on_attempt_ready win_race
    register_succesful_attempt handle_concluded_attempt all_attempts_failed all_attempts_concluded
    cancel_all_other_attempts cancel_from cancel_attempt hand_to_user
    start_candidate_racing_on_nodes_ready initiate_context_close run
one_open = refl

closes-run_example : closes (run (env 0) (map connection_closed (0 ∷ [])) won) ≡ 1
closes-run_example = closes-run (env 0) (0 ∷ []) won won-Between close-Allowed one_open

-- A winner is registered in a race of two that has just begun.
abbrev begun : Context
begun = fresh true true alpns true false (candidate 0 ∷ candidate 1 ∷ [])

abbrev registered : Context
registered = register_succesful_attempt 1 begun

registered-Won : Won registered
unfolding register_succesful_attempt handle_concluded_attempt all_attempts_failed
    all_attempts_concluded initial_attempts racing_context_create initiate_context_close
registered-Won = record {
  core = record { fits = omega arith; counted = refl; closed = refl; errored = refl };
  won = refl;
  complete = refl;
}

cancel_all_other_attempts_lem_example :
    Settled 0 1 registered (cancel_all_other_attempts (env 0) 1 registered)
cancel_all_other_attempts_lem_example =
    cancel_all_other_attempts_lem (env 0) 1 registered registered-Won

abbrev raced : RacedConnection
raced = record {
  protocol = 0;
  local_endpoints = address 1 ∷ [];
  active_local = 0;
  remote_endpoints = address 2 ∷ [];
  active_remote = 0;
  alpns = some (0 ∷ []);
}

begun-first :
    get_elem? begun.attempts 0
    ≡ some
        (record { connection = none; candidate = candidate 0; state = pending; attempt_index = 0 })
unfolding initial_attempts
begun-first = refl

remote-Padded : Padded (address 2) (remotes begun.attempts)
unfolding initial_attempts sockaddr_memcmp bytes_eq
remote-Padded = ((λ _. refl), ((λ _. refl), tt))

local-Padded : Padded (address 1) (locals begun.attempts)
unfolding initial_attempts sockaddr_memcmp bytes_eq
local-Padded = ((λ _. refl), ((λ _. refl), tt))

begun-builds : build_connection (env 0) 0 (candidate 0) begun ≡ ok raced
unfolding build_connection unique_endpoints add_endpoint create_client initial_attempts
    racing_context_create sockaddr_storage_equal sockaddr_memcmp bytes_eq active_index
begun-builds = refl

build_connection-Represents_example : Represents (env 0) 0 alpns (candidate 0) raced
unfolding racing_context_create
build_connection-Represents_example =
    build_connection-Represents (env 0) begun 0 begun-first remote-Padded local-Padded raced
      begun-builds

-- The only candidate, whose protocol refuses to start.
abbrev only : Context
only = fresh true true alpns true false (candidate 0 ∷ [])

only-fails : (start_connection_attempt (env 5) 0 (candidate 0) only).1 ≡ 5
unfolding start_connection_attempt build_connection unique_endpoints add_endpoint create_client
    after_connection init_attempt initial_attempts racing_context_create sockaddr_storage_equal
    sockaddr_memcmp bytes_eq active_index
only-fails = refl

only-ongoing : only.race_complete ≡ false
unfolding racing_context_create
only-ongoing = refl

only-first :
    get_elem? only.attempts only.next_attempt_index
    ≡ some
        (record { connection = none; candidate = candidate 0; state = pending; attempt_index = 0 })
unfolding initial_attempts racing_context_create
only-first = refl

only-open : open_attempts only.attempts ≡ 1
unfolding initial_attempts
only-open = refl

only-Between : Between only
unfolding racing_context_create
only-Between = fresh-Inv true true alpns true false (candidate 0 ∷ []) (omega arith) (omega arith)

initiate_next_attempt-Twice_example : Twice only (initiate_next_attempt (env 5) only)
unfolding racing_context_create
initiate_next_attempt-Twice_example =
    initiate_next_attempt-Twice (env 5) only 4 only-Between only-ongoing only-first only-open refl
      only-fails

sockaddr_equal-sockaddr_storage_equal_example : sockaddr_equal (address 1) (address 1) ≡ true
unfolding sockaddr_storage_equal bytes_eq
sockaddr_equal-sockaddr_storage_equal_example =
    sockaddr_equal-sockaddr_storage_equal (address 1) (address 1) (inl refl) refl
