-- ===== src/SocketManager/Callbacks.antt =====
-- What the protocols call back: src/connection/socket_manager/socket_manager.c. A callback on a
-- connection is given the connection as it stands in `all_connections`.
use ctaps.Prelude.{ℕ, zero, suc, Bool, false, Option, none, some, ◌==◌, if◌then◌else◌}
use ctaps.SocketManager.State.{
  CloseReason, graceful, establishment_failed, connection_failed, Connection, Listener,
  connection_ready, connection_closed, connection_error, establishment_error, listener_ready,
  listener_closed, listener_establishment_error, connection_received, close_socket, Manager, call,
  call_if, is_establishing, mark_as_closed, mark_as_established, listener_mark_as_closed,
  get_num_open_dependents, get_last_open_connection,
}

unfoldable pub notify_of_connection_close : Connection → Manager → Manager
notify_of_connection_close c m = elim m.close_reason [
  | graceful ↦ call_if c.on_closed (connection_closed c.uuid) m
  | connection_failed ↦ call_if c.on_connection_error (connection_error c.uuid) m
  | establishment_failed ↦ call_if c.on_establishment_error (establishment_error c.uuid) m
]

unfoldable pub notify_of_listener_close : Option Listener → Manager → Manager
notify_of_listener_close none m = m
notify_of_listener_close (some l) m = elim m.close_reason [
  | establishment_failed ↦ call_if l.on_establishment_error listener_establishment_error m
  | _ ↦ call_if l.on_closed listener_closed m
]

-- The body of the callback, by the connection that is still open.
unfoldable pub socket_closed : Option Connection → Manager → Manager
socket_closed (some c) m = notify_of_connection_close c (mark_as_closed c.uuid m)
socket_closed none m =
    let l = listener_mark_as_closed m.listener in
    notify_of_listener_close l (record m { listener = l })

unfoldable pub closed_socket_cb : Manager → Manager
closed_socket_cb m = socket_closed (get_last_open_connection m.all_connections) m

-- The last open dependent takes the socket along, and hears of it when the socket is closed.
unfoldable pub close_with_reason : CloseReason → Manager → Manager
close_with_reason r m = call close_socket (record m { close_reason = r })

unfoldable pub closed_connection_cb : Connection → Manager → Manager
closed_connection_cb c m =
    if get_num_open_dependents m == 1
    then close_with_reason graceful m
    else call_if c.on_closed (connection_closed c.uuid) (mark_as_closed c.uuid m)

unfoldable pub establishment_error_cb : Connection → Manager → Manager
establishment_error_cb c m =
    if get_num_open_dependents m == 1
    then close_with_reason establishment_failed m
    else call_if c.on_establishment_error (establishment_error c.uuid) (mark_as_closed c.uuid m)

unfoldable pub aborted_connection_cb : Connection → Manager → Manager
aborted_connection_cb c m =
    if get_num_open_dependents m == 1
    then close_with_reason (if is_establishing c then establishment_failed else connection_failed) m
    else let d = mark_as_closed c.uuid m in
      if is_establishing c
      then call_if c.on_establishment_error (establishment_error c.uuid) d
      else call_if c.on_connection_error (connection_error c.uuid) d

unfoldable pub connection_ready_cb : Connection → Manager → Manager
connection_ready_cb c m =
    call_if c.on_ready (connection_ready c.uuid) (mark_as_established c.uuid m)

abbrev on_received : Option Listener → Bool
on_received none = false
on_received (some l) = l.on_connection_received

unfoldable pub connection_received_cb : Connection → Manager → Manager
connection_received_cb c m =
    call_if (on_received m.listener) (connection_received c.uuid) (mark_as_established c.uuid m)

unfoldable pub listener_closed_cb : Manager → Manager
listener_closed_cb m =
    if get_num_open_dependents m == 1
    then close_with_reason graceful m
    else let l = listener_mark_as_closed m.listener in
      notify_of_listener_close l (record m { listener = l })

-- `rc` is what the protocol's `listen` returns.
unfoldable pub listen : ℕ → Listener → Manager → Manager
listen zero l m = call_if l.on_ready listener_ready m
listen (suc rc) l m = call_if l.on_establishment_error listener_establishment_error m
