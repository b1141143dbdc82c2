-- ===== src/Quic/Groups.antt =====
-- The end of a whole QUIC connection, which ends every connection of its group:
-- handle_closed_picoquic_connection and handle_aborted_picoquic_connection_group in
-- src/protocol/quic/quic.c, over the callbacks of the socket manager.
use ctaps.Prelude.{
  ℕ, zero, suc, ◌+◌, ◌-◌, ◌*◌, ◌%◌, ◌^◌, ◌≤◌, ◌<◌, ◌≡◌, refl, sym, ap, subst, ◌∙◌, ◌≢◌, ◌↔◌, ◌⊎◌,
  inl, inr, Bool, true, false, not, ◌&&◌, ◌||◌, Option, none, some, List, [], ◌∷◌, ◌++◌, map, arith,
  ltb, leb, ◌==◌, if◌then◌else◌, ==_iff, Bool-cases, if_cases, Option-cases, is_some, u64, length,
  get_elem?, modify, take, drop, count, any, keep, All, length-append, append-nil, append_assoc,
  length-modify, get_elem?-modify, get_elem?-modify_ne, lt_of_get_elem?, count-append,
  count-modify_eq, count-modify_drop, bytes_eq, bytes_eq_sound, bytes_eq_refl, Result, ok, err,
  ◌>>=◌, Result-cases, enoent, eio, enomem, eexist, einval, epipe, enotsup,
}
use ctaps.SocketManager.State.{
  ConnectionState, Connection, Call, close_socket, Manager, is_closed, find_connection,
  change_connection, mark_as_closed, get_num_open_dependents, connection_closed, connection_error,
  establishment_error, open_connections, is_establishing,
}
use ctaps.SocketManager.Callbacks.{
  closed_socket_cb, close_with_reason, closed_connection_cb, aborted_connection_cb,
  establishment_error_cb,
}
use ctaps.SocketManager.Closing.{
  IsOpenIn, Ending, was_closed, was_aborted, was_not_established, ended, settle, told, socket_calls,
  ended-told, ended-get_num_open_dependents,
}
pub mod One
pub mod Runs

-- The loop over `connections_to_notify`.
unfoldable pub notify_all : Ending → List Connection → Manager → Manager
notify_all e [] m = m
notify_all e (c ∷ cs) m = notify_all e cs (ended e c m)

-- The group's connections stand in the order of the hash table; none is freed meanwhile.
unfoldable pub handle_ended_group : Ending → List Connection → Manager → Manager
handle_ended_group e group m = notify_all e (keep (λ c. not (is_closed c)) group) m

abbrev pub is_close_socket : Call → Bool
is_close_socket k = elim k [ close_socket ↦ true | _ ↦ false ]

abbrev pub for_user : Call → Bool
for_user k = not (is_close_socket k)

abbrev pub closes : Manager → Bool
closes m = any is_close_socket m.calls

-- Once libuv has closed the socket, if that was asked for.
unfoldable pub settled : Manager → Manager
settled m = if closes m then closed_socket_cb m else m

abbrev pub told_all : Ending → List Connection → List Call
told_all e [] = []
told_all e (c ∷ cs) = told_all e cs ++ told e c

abbrev pub mark_all : List Connection → Manager → Manager
mark_all [] m = m
mark_all (c ∷ cs) m = mark_all cs (mark_as_closed c.uuid m)

abbrev pub Distinct : List Connection → Type 0
Distinct [] = Unit
Distinct (c ∷ cs) = All (λ d. (c.uuid == d.uuid) ≡ false) cs × Distinct cs

-- After the socket has been closed, if it is.
pub record Ended (e : Ending) (cs : List Connection) (m d : Manager) : Type 0 where
  pub marked : d.all_connections ≡ (mark_all cs m).all_connections
  pub same_listener : d.listener ≡ m.listener
  pub user_told : keep for_user d.calls ≡ told_all e cs ++ keep for_user m.calls
  pub socket_closes : closes d ≡ (get_num_open_dependents m == length cs)

abbrev pub opens : List Connection → List Connection
opens group = keep (λ c. not (is_closed c)) group

abbrev pub close : Connection → Connection
close c = record c { state = ConnectionState.closed }
