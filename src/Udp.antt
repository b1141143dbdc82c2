-- ===== src/Udp.antt =====
-- The receiving side of the UDP adapter: src/protocol/udp/udp.c. libuv calls back with what it has
-- read; a connection stands by its number, in the order of their creation.
use ctaps.Prelude.{
  ℕ, zero, suc, ◌+◌, ◌-◌, ◌*◌, ◌%◌, ◌^◌, ◌≤◌, ◌<◌, ◌≡◌, refl, sym, ap, subst, ◌∙◌, ◌≢◌, ◌↔◌, ◌⊎◌,
  inl, inr, Bool, true, false, not, ◌&&◌, ◌||◌, Option, none, some, List, [], ◌∷◌, ◌++◌, map, arith,
  ltb, leb, ◌==◌, if◌then◌else◌, ==_iff, Bool-cases, if_cases, Option-cases, is_some, u64, length,
  get_elem?, modify, take, drop, count, any, keep, All, length-append, append-nil, append_assoc,
  length-modify, get_elem?-modify, get_elem?-modify_ne, lt_of_get_elem?, count-append,
  count-modify_eq, count-modify_drop, bytes_eq, bytes_eq_sound, bytes_eq_refl, Result, ok, err,
  ◌>>=◌, Result-cases, enoent, eio, enomem, eexist, einval, epipe, enotsup,
}
use ctaps.Endpoint.Address.{SockAddr}
use ctaps.SocketManager.Demux.{
  AddrBytes, DemuxTable, get_from_demux_table, insert_demuxed_connection,
}
pub mod Views
pub mod Routing
pub mod Refinement
pub mod Clients

-- A read that failed, a read without an address, or a datagram with its sender and its bytes, and
-- whether a connection can be created for it should it need one.
pub data Read : Type 0 where
  failed empty : Read
  datagram : SockAddr → List ℕ → Bool → Read

-- What happens on a listening socket.
pub data Event : Type 0 where
  reads : Read → Event
  listener_closes : Event

-- A socket manager with UDP below it. `received` are the messages handed to the connections, and
-- `announced` the connections of which the listener has been told, oldest first.
pub record Socket : Type 0 where
  pub demux_table : DemuxTable
  pub listener_open : Bool
  pub created : ℕ
  pub announced : List ℕ
  pub received : List (ℕ × List ℕ)
  pub handle_closing : Bool

abbrev pub on_protocol_receive : ℕ → List ℕ → Socket → Socket
on_protocol_receive c m s = record s { received = s.received ++ ((c, m) ∷ []) }

-- The new connection is entered and announced, whatever the insertion returns.
abbrev pub accept : SockAddr → Socket → Socket
accept a s = record s {
  demux_table = (insert_demuxed_connection s.demux_table a s.created).1;
  created = s.created + 1;
  announced = s.announced ++ (s.created ∷ []);
}

abbrev pub to_connection : Option ℕ → SockAddr → List ℕ → Bool → Socket → Socket
to_connection (some c) a m made s = on_protocol_receive c m s
to_connection none a m made s =
    if not s.listener_open
    then s
    else if not made
    then s
    else on_protocol_receive s.created m (accept a s)

unfoldable pub multiplex_received_message : SockAddr → List ℕ → Bool → Socket → Socket
multiplex_received_message a m made s =
    to_connection (get_from_demux_table s.demux_table a) a m made s

unfoldable pub socket_listen_callback : Read → Socket → Socket
unfolding multiplex_received_message
socket_listen_callback failed s = s
socket_listen_callback empty s = s
socket_listen_callback (datagram a m made) s = multiplex_received_message a m made s

abbrev pub to_known : Option ℕ → List ℕ → Socket → Socket
to_known (some c) m s = on_protocol_receive c m s
to_known none m s = s

-- The callback of a socket that no listener has.
unfoldable pub on_read : Read → Socket → Socket
on_read failed s = record s { handle_closing = true }
on_read empty s = s
on_read (datagram a m made) s = to_known (get_from_demux_table s.demux_table a) m s

unfoldable pub step : Event → Socket → Socket
unfolding socket_listen_callback
step (reads r) s = socket_listen_callback r s
step listener_closes s = record s { listener_open = false }

unfoldable pub run : List Event → Socket → Socket
run [] s = s
run (e ∷ es) s = run es (step e s)

-- A socket on which a listener has just begun to listen.
abbrev pub listening : Socket
listening = record {
  demux_table = [];
  listener_open = true;
  created = 0;
  announced = [];
  received = [];
  handle_closing = false;
}
