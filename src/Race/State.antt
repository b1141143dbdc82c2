-- ===== src/Race/State.antt =====
-- The racing context and what it asks of its surroundings: the structures of
-- src/candidate_gathering/candidate_racing.h.
use ctaps.Prelude.{ℕ, suc, Bool, false, Option, none, some, List, [], ◌∷◌, modify}
use ctaps.Endpoint.Address.{SockAddr}

pub data AttemptState : Type 0 where
  pending connecting closing succeeded failed canceled : AttemptState

-- A candidate: the protocol by its place in `ct_supported_protocols`, an ALPN string by its code,
-- and the resolved addresses of its endpoints.
pub record Candidate : Type 0 where
  pub protocol : ℕ
  pub alpn : Option ℕ
  pub local_endpoint : SockAddr
  pub remote_endpoint : SockAddr

-- The connection of an attempt, as `ct_connection_create_client` was asked for it.
pub record RacedConnection : Type 0 where
  pub protocol : ℕ
  pub local_endpoints : List SockAddr
  pub active_local : ℕ
  pub remote_endpoints : List SockAddr
  pub active_remote : ℕ
  pub alpns : Option (List ℕ)

pub record Attempt : Type 0 where
  pub connection : Option RacedConnection
  pub candidate : Candidate
  pub state : AttemptState
  pub attempt_index : ℕ

-- What the race does to the world, one constructor for each call that leaves it.
pub data Effect : Type 0 where
  establishment_error : Effect  -- user_callbacks.establishment_error(NULL)
  ready : ℕ → Effect  -- the user's ready callback, with the connection of an attempt
  timer_start : ℕ → Effect
  timer_stop timer_close : Effect
  close_group : ℕ → Effect  -- ct_connection_close_group on the connection of an attempt
  protocol_init protocol_init_with_send : ℕ → Effect
  restore_callbacks : ℕ → Effect
  send_message : ℕ → Effect  -- ct_send_message_full with the initial message
  message_send_error message_sent : ℕ → Effect

pub record Context : Type 0 where
  pub attempts : List Attempt
  pub next_attempt_index : ℕ  -- size_t
  pub should_try_early_data : Bool
  pub has_initial_message : Bool
  pub has_error_callback : Bool  -- user_callbacks.establishment_error
  pub has_ready_callback : Bool  -- user_callbacks.ready
  pub race_complete : Bool
  pub winning_attempt_index : Option ℕ  -- an int that nothing reads; -1 is none
  pub connection_attempt_delay_ms : ℕ
  pub security_alpns : Option (List ℕ)  -- of the preconnection; none without security parameters
  pub completed_attempts : ℕ  -- size_t
  pub log : List Effect  -- newest first

-- What a protocol's `init` calls back before it returns.
pub data Report : Type 0 where
  quiet reports_ready reports_error : Report

-- The answers of the allocator, of the protocols and of the rest of the library. A return code is
-- 0 or the negated errno.
pub record Env : Type 0 where
  pub realloc_ok : ℕ → Bool
  pub copy_rc : SockAddr → ℕ
  pub create_ok : ℕ → Bool
  pub parameters_copied : ℕ → Bool  -- ct_security_parameters_deep_copy makes the copy
  pub alpn_added : ℕ → Bool  -- ct_security_parameters_add_alpn has the memory
  pub init_report : ℕ → Report
  pub init_rc : ℕ → ℕ
  pub closes_at_once : ℕ → Bool  -- ct_connection_close_group calls `closed` before it returns
  pub send_rc : ℕ → ℕ
  pub sent_early_data : ℕ → Bool

abbrev pub default_connection_attempt_delay_ms : ℕ
default_connection_attempt_delay_ms = 250

abbrev pub log_effect : Effect → Context → Context
log_effect e c = record c { log = e ∷ c.log }

abbrev pub set_state : ℕ → AttemptState → Context → Context
set_state i s c = record c { attempts = modify c.attempts i (λ a. record a { state = s }) }

abbrev pub set_connection : ℕ → RacedConnection → Context → Context
set_connection i r c = record c {
  attempts = modify c.attempts i (λ a. record a { connection = some r });
}

-- `racing_context_create`.
unfoldable pub racing_context_create : Bool → Bool → Option (List ℕ) → Bool → Bool → Context
racing_context_create error_callback ready_callback alpns initial_message early = record {
  attempts = [];
  next_attempt_index = 0;
  should_try_early_data = early;
  has_initial_message = initial_message;
  has_error_callback = error_callback;
  has_ready_callback = ready_callback;
  race_complete = false;
  winning_attempt_index = none;
  connection_attempt_delay_ms = default_connection_attempt_delay_ms;
  security_alpns = alpns;
  completed_attempts = 0;
  log = [];
}

-- The loop of `racing_context_initialize_attempt_array`, from index `i`.
unfoldable pub initial_attempts : ℕ → List Candidate → List Attempt
initial_attempts i [] = []
initial_attempts i (k ∷ ks) =
    record { connection = none; candidate = k; state = pending; attempt_index = i }
    ∷ initial_attempts (suc i) ks
