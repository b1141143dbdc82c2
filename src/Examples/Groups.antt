-- ===== src/Examples/Groups.antt =====
-- The theorem on the end of a group of QUIC connections, at a concrete input.
use ctaps.Prelude.{ℕ, refl, true, none, List, [], ◌∷◌, arith}
use ctaps.SocketManager.State.{ConnectionState, Connection, Manager, graceful, find_connection}
use ctaps.SocketManager.Closing.{was_closed}
use ctaps.Quic.Groups.{Ended, opens, settled, handle_ended_group}
use ctaps.Quic.Groups.Runs.{handle_ended_group-Ended}

abbrev connection : ℕ → ConnectionState → Connection
connection u s = record {
  uuid = u;
  state = s;
  can_send = true;
  can_receive = true;
  on_ready = true;
  on_closed = true;
  on_connection_error = true;
  on_establishment_error = true;
}

abbrev group : List Connection
group =
    connection 1 ConnectionState.established
    ∷ connection 2 ConnectionState.closed
    ∷ connection 3 ConnectionState.established
    ∷ []

abbrev manager : Manager
manager = record {
  ref_count = 3;
  all_connections = group;
  listener = none;
  close_reason = graceful;
  calls = [];
}

handle_ended_group-Ended_example :
    Ended was_closed (opens group) manager (settled (handle_ended_group was_closed group manager))
unfolding find_connection
handle_ended_group-Ended_example =
    handle_ended_group-Ended was_closed group manager ((refl, (refl, tt)), ((refl, tt), (tt, tt)))
      (refl, (refl, (refl, tt))) (omega arith) refl
