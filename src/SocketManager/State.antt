-- ===== src/SocketManager/State.antt =====
-- A socket manager with its connections and its listener: the structures of src/ctaps_internal.h,
-- the state queries of src/connection/connection.c and src/connection/listener.c.
use ctaps.Prelude.{
  ℕ, ◌+◌, Bool, true, false, not, Option, none, some, List, [], ◌∷◌, ◌==◌, if◌then◌else◌, count,
}

pub data ConnectionState : Type 0 where
  establishing established closing closed : ConnectionState

pub data ListenerState : Type 0 where
  establishing listening closed : ListenerState

pub data CloseReason : Type 0 where
  graceful establishment_failed connection_failed : CloseReason

-- A connection by its UUID, with the properties that the manager reads and which of the user's
-- callbacks are set.
pub record Connection : Type 0 where
  pub uuid : ℕ
  pub state : ConnectionState
  pub can_send : Bool
  pub can_receive : Bool
  pub on_ready : Bool
  pub on_closed : Bool
  pub on_connection_error : Bool
  pub on_establishment_error : Bool

pub record Listener : Type 0 where
  pub state : ListenerState
  pub on_ready : Bool
  pub on_closed : Bool
  pub on_establishment_error : Bool
  pub on_connection_received : Bool

-- The calls that leave the manager: those of the user's callbacks, and of the protocol.
pub data Call : Type 0 where
  connection_ready connection_closed connection_error establishment_error : ℕ → Call
  listener_ready listener_closed listener_establishment_error : Call
  connection_received : ℕ → Call
  close_socket : Call

pub record Manager : Type 0 where
  pub ref_count : ℕ
  pub all_connections : List Connection
  pub listener : Option Listener
  pub close_reason : CloseReason
  pub calls : List Call  -- newest first

abbrev pub call : Call → Manager → Manager
call k m = record m { calls = k ∷ m.calls }

abbrev pub call_if : Bool → Call → Manager → Manager
call_if b k m = if b then call k m else m

abbrev pub is_closed : Connection → Bool
is_closed c = elim c.state [ ConnectionState.closed ↦ true | _ ↦ false ]

abbrev pub is_establishing : Connection → Bool
is_establishing c = elim c.state [ ConnectionState.establishing ↦ true | _ ↦ false ]

abbrev pub listener_is_open : Option Listener → Bool
listener_is_open none = false
listener_is_open (some l) = elim l.state [ ListenerState.closed ↦ false | _ ↦ true ]

-- A connection is reached by pointer: here, by its UUID.
unfoldable pub find_connection : ℕ → List Connection → Option Connection
find_connection u [] = none
find_connection u (c ∷ cs) = if c.uuid == u then some c else find_connection u cs

unfoldable pub change_connection : ℕ → (Connection → Connection) → List Connection → List Connection
change_connection u f [] = []
change_connection u f (c ∷ cs) =
    let rest = change_connection u f cs in if c.uuid == u then f c ∷ cs else c ∷ rest

unfoldable pub mark_as_closed : ℕ → Manager → Manager
mark_as_closed u m = record m {
  all_connections =
      change_connection u (λ c. record c { state = ConnectionState.closed }) m.all_connections;
}

unfoldable pub mark_as_established : ℕ → Manager → Manager
mark_as_established u m = record m {
  all_connections =
      change_connection u
        (λ c. record c { state = ConnectionState.established; can_send = true; can_receive = true })
        m.all_connections;
}

unfoldable pub listener_mark_as_closed : Option Listener → Option Listener
listener_mark_as_closed none = none
listener_mark_as_closed (some l) = some (record l { state = ListenerState.closed })

abbrev pub open_connections : List Connection → ℕ
open_connections = count λ c. not (is_closed c)

unfoldable pub get_num_open_dependents : Manager → ℕ
get_num_open_dependents m =
    (if listener_is_open m.listener then 1 else 0) + open_connections m.all_connections

unfoldable pub get_last_open_connection : List Connection → Option Connection
get_last_open_connection [] = none
get_last_open_connection (c ∷ cs) =
    if not (is_closed c) then some c else get_last_open_connection cs

unfoldable pub add_connection : Connection → Manager → Manager
add_connection c m = record m {
  all_connections = c ∷ m.all_connections;
  ref_count = m.ref_count + 1;
}
