-- ===== src/Race/Start.antt =====
-- The start of connection attempts: `start_connection_attempt`, `initiate_next_attempt`, the stagger
-- timer and the entry points of the race.
use ctaps.Prelude.{
  ℕ, zero, suc, ◌+◌, not, ◌&&◌, Option, none, some, List, [], ◌∷◌, map, ltb, ◌==◌, if◌then◌else◌,
  u64, length, get_elem?, Result, ok, err, ◌>>=◌, enomem,
}
use ctaps.Endpoint.Address.{SockAddr, af_inet, af_inet6}
use ctaps.Race.State.{
  connecting, Candidate, RacedConnection, Attempt, Effect, Context, Env, Report, quiet,
  reports_ready, reports_error, log_effect, set_state, set_connection, initial_attempts,
}
use ctaps.Race.Endpoints.{unique_endpoints, active_index}
use ctaps.Race.Handlers.{
  all_attempts_failed, handle_all_attempts_failed, register_failed_attempt, racing_on_attempt_ready,
  on_attempt_establishment_error,
}

-- `context->attempts[i].candidate.remote_endpoint` and `local_endpoint` for every `i`.
abbrev pub remotes : List Attempt → List SockAddr
remotes = map λ a. a.candidate.remote_endpoint

abbrev pub locals : List Attempt → List SockAddr
locals = map λ a. a.candidate.local_endpoint

abbrev pub address_at : List SockAddr → ℕ → SockAddr
address_at [] i = record { family = 0; rest = [] }
address_at (a ∷ rest) zero = a
address_at (a ∷ rest) (suc i) = address_at rest i

-- The copy of the security parameters, by their ALPN strings, is not tested for the null pointer.
abbrev pub copied_alpns : Env → ℕ → Option (List ℕ) → Option (List ℕ)
copied_alpns env i none = none
copied_alpns env i (some all) = if env.parameters_copied i then some all else none

-- The guard of `ct_connection_create_client` on the active remote endpoint, and its allocations. The
-- connection is made with the copy of the given security parameters.
unfoldable pub create_client : Env → ℕ → RacedConnection → Result RacedConnection
create_client env i r =
    let family = (address_at r.remote_endpoints r.active_remote).family in
    if not (family == af_inet6) && not (family == af_inet)
    then err enomem
    else if env.create_ok i
    then ok (record r { alpns = copied_alpns env i r.alpns })
    else err enomem

-- The preconnection's ALPN strings give way to the one of the candidate. The return codes are not
-- looked at: without a copy both setters do nothing, and without memory no string is added.
abbrev pub candidate_alpns : Env → ℕ → Option ℕ → Option (List ℕ) → Option (List ℕ)
candidate_alpns env i alpn none = none
candidate_alpns env i none (some all) = some []
candidate_alpns env i (some alpn) (some all) =
    if env.alpn_added i then some (alpn ∷ []) else some []

unfoldable pub build_connection : Env → ℕ → Candidate → Context → Result RacedConnection
build_connection env i k c = do
  remote_endpoints ← unique_endpoints env.realloc_ok env.copy_rc [] (remotes c.attempts)
  local_endpoints ← unique_endpoints env.realloc_ok env.copy_rc [] (locals c.attempts)
  r ← create_client env i (record {
    protocol = k.protocol;
    local_endpoints = local_endpoints;
    active_local = active_index 0 k.local_endpoint local_endpoints;
    remote_endpoints = remote_endpoints;
    active_remote = active_index 0 k.remote_endpoint remote_endpoints;
    alpns = c.security_alpns;
  })
  ok (record r { alpns = candidate_alpns env i k.alpn r.alpns })

-- The protocol's `init` may call one of the attempt's callbacks before it returns.
unfoldable pub handle_report : Env → ℕ → Report → Context → Context
handle_report env i quiet c = c
handle_report env i reports_ready c = racing_on_attempt_ready env i c
handle_report env i reports_error c = on_attempt_establishment_error i c

unfoldable pub init_attempt : Env → ℕ → Context → Context × ℕ
init_attempt env i c =
    let d =
      if c.should_try_early_data
      then log_effect (Effect.protocol_init_with_send i) c
      else log_effect (Effect.protocol_init i) c in
    (handle_report env i (env.init_report i) d, env.init_rc i)

-- With a connection the protocol is asked to start; without one the attempt keeps none.
unfoldable pub after_connection : Env → ℕ → Result RacedConnection → Context → Context × ℕ
after_connection env i (err e) c = (c, e)
after_connection env i (ok r) c = init_attempt env i (set_connection i r c)

-- The return code is 0 or the negated errno.
unfoldable pub start_connection_attempt : Env → ℕ → Candidate → Context → Context × ℕ
start_connection_attempt env i k c =
    let d = set_state i connecting c in after_connection env i (build_connection env i k d) d

unfoldable pub schedule_next : Context → Context
schedule_next c =
    let d = record c { next_attempt_index = u64 (c.next_attempt_index + 1) } in
    if ltb d.next_attempt_index (length d.attempts)
    then log_effect (Effect.timer_start d.connection_attempt_delay_ms) d
    else d

unfoldable pub conclude_start : ℕ → Context × ℕ → Context
conclude_start i (c, zero) = schedule_next c
conclude_start i (c, suc rc) =
    let d = register_failed_attempt i c in
    if all_attempts_failed d.attempts then handle_all_attempts_failed d else schedule_next d

-- The attempt at `next_attempt_index`, if there is one left.
unfoldable pub start_next : Env → Option Attempt → Context → Context
start_next env none c = c
start_next env (some a) c =
    conclude_start c.next_attempt_index
      (start_connection_attempt env c.next_attempt_index a.candidate c)

unfoldable pub initiate_next_attempt : Env → Context → Context
initiate_next_attempt env c =
    if c.race_complete then c else start_next env (get_elem? c.attempts c.next_attempt_index) c

unfoldable pub on_stagger_timer : Env → Context → Context
on_stagger_timer env c = if c.race_complete then c else initiate_next_attempt env c

-- `racing_context_free`: unlike `initiate_context_close` it does not stop the timer.
unfoldable pub racing_context_free : Context → Context
racing_context_free c = log_effect Effect.timer_close c

-- `none` is the NULL array of a failed gathering.
unfoldable pub start_candidate_racing_on_nodes_ready :
    Env → Option (List Candidate) → Context → Context
start_candidate_racing_on_nodes_ready env none c =
    racing_context_free
      (if c.has_error_callback then log_effect Effect.establishment_error c else c)
start_candidate_racing_on_nodes_ready env (some []) c =
    racing_context_free
      (if c.has_error_callback then log_effect Effect.establishment_error c else c)
start_candidate_racing_on_nodes_ready env (some (k ∷ ks)) c =
    initiate_next_attempt env (record c { attempts = initial_attempts 0 (k ∷ ks) })
