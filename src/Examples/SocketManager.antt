-- ===== src/Examples/SocketManager.antt =====
-- A socket with a listener and connections.
use ctaps.Prelude.{ℕ, ◌+◌, ◌≡◌, refl, ◌⊎◌, true, none, some, [], ◌∷◌, ◌++◌, ok, err, eexist, einval}
use ctaps.Endpoint.Address.{SockAddr, sockaddr_equal}
use ctaps.SocketManager.State.{
  ConnectionState, graceful, Connection, Manager, mark_as_closed, find_connection,
  get_num_open_dependents,
}
use ctaps.SocketManager.Closing.{
  IsOpenIn, was_closed, was_aborted, ended, settle, told, socket_calls, ended-told,
  ended-get_num_open_dependents,
}
use ctaps.SocketManager.Demux.{
  addr_bytes, get_from_demux_table, insert_demuxed_connection, HasBytes,
  insert_demuxed_connection_lem,
}
use ctaps.SocketManager.Demux.Others.{insert_demuxed_connection-sockaddr_equal}

abbrev connection : ℕ → ConnectionState → Connection
connection u s = record {
  uuid = u;
  state = s;
  can_send = true;
  can_receive = true;
  on_ready = true;
  on_closed = true;
  on_connection_error = true;
  on_establishment_error = true;
}

abbrev second : Connection
second = connection 2 ConnectionState.established

-- The second connection is the last one open.
abbrev manager : Manager
manager = record {
  ref_count = 2;
  all_connections = connection 1 ConnectionState.closed ∷ second ∷ [];
  listener = none;
  close_reason = graceful;
  calls = [];
}

second-IsOpenIn : IsOpenIn second manager
unfolding find_connection
second-IsOpenIn = (refl, refl)

ended-told_example :
    ((settle manager (ended was_aborted second manager)).all_connections
      ≡ (mark_as_closed 2 manager).all_connections)
    × ((settle manager (ended was_aborted second manager)).listener ≡ none)
    × ((settle manager (ended was_aborted second manager)).calls
        ≡ told was_aborted second ++ (socket_calls manager ++ []))
ended-told_example = ended-told was_aborted second manager second-IsOpenIn

ended-get_num_open_dependents_example :
    get_num_open_dependents (settle manager (ended was_closed second manager)) + 1
    ≡ get_num_open_dependents manager
ended-get_num_open_dependents_example =
    ended-get_num_open_dependents was_closed second manager second-IsOpenIn

abbrev address : ℕ → SockAddr
address n = record { family = 2; rest = 1 ∷ 187 ∷ 192 ∷ 0 ∷ 2 ∷ n ∷ 0 ∷ 0 ∷ [] }

insert_demuxed_connection_lem_example :
    ((insert_demuxed_connection [] (address 1) 4).0 ≡ ok tt)
      × HasBytes (address 1)
      × (get_from_demux_table [] (address 1) ≡ none)
      × (get_from_demux_table (insert_demuxed_connection [] (address 1) 4).1 (address 1) ≡ some 4)
    ⊎ (((insert_demuxed_connection [] (address 1) 4).1 ≡ [])
        × (((insert_demuxed_connection [] (address 1) 4).0 ≡ err einval)
              × (addr_bytes (address 1) ≡ none)
            ⊎ ((insert_demuxed_connection [] (address 1) 4).0 ≡ err eexist)
              × ((d : ℕ) × (get_from_demux_table [] (address 1) ≡ some d))))
insert_demuxed_connection_lem_example = insert_demuxed_connection_lem [] (address 1) 4

insert_demuxed_connection-sockaddr_equal_example :
    (get_from_demux_table (insert_demuxed_connection [] (address 1) 4).1 (address 2)
      ≡ get_from_demux_table [] (address 2))
    ⊎ ((get_from_demux_table [] (address 2) ≡ none)
        × (get_from_demux_table (insert_demuxed_connection [] (address 1) 4).1 (address 2) ≡ some 4)
        × (sockaddr_equal (address 1) (address 2) ≡ true))
insert_demuxed_connection-sockaddr_equal_example =
    insert_demuxed_connection-sockaddr_equal [] (address 1) (address 2) 4
