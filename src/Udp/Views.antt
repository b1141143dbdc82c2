-- ===== src/Udp/Views.antt =====
-- What the sender at one address sees of a listening socket, without the others.
use ctaps.Prelude.{
  ℕ, Bool, true, false, ◌&&◌, ◌||◌, Option, none, some, List, [], ◌∷◌, ◌++◌, ◌==◌, if◌then◌else◌,
  is_some,
}
use ctaps.SocketManager.Demux.{AddrBytes, addr_bytes, key_eq, lookup}
use ctaps.Udp.{failed, empty, datagram, Event, reads, listener_closes, Socket}

-- Whether it has a connection, whether the listener is open, and the messages that its connection
-- has received.
pub record View : Type 0 where
  pub connected : Bool
  pub listener_open : Bool
  pub received : List (List ℕ)

abbrev pub is_from : AddrBytes → Option AddrBytes → Bool
is_from k none = false
is_from k (some l) = key_eq l k

abbrev pub hear : List ℕ → Bool → View → View
hear m made v =
    if v.connected || (v.listener_open && made)
    then record v { connected = true; received = v.received ++ (m ∷ []) }
    else v

-- A message of its own is received if there is a connection or one can be made; all else passes it
-- by.
unfoldable pub view_step : AddrBytes → Event → View → View
view_step k (reads failed) v = v
view_step k (reads empty) v = v
view_step k (reads (datagram a m made)) v = if is_from k (addr_bytes a) then hear m made v else v
view_step k listener_closes v = record v { listener_open = false }

unfoldable pub view_run : AddrBytes → List Event → View → View
view_run k [] v = v
view_run k (e ∷ es) v = view_run k es (view_step k e v)

abbrev pub unseen : View
unseen = record { connected = false; listener_open = true; received = [] }

-- The messages that a connection has received.
unfoldable pub messages_of : ℕ → List (ℕ × List ℕ) → List (List ℕ)
messages_of c [] = []
messages_of c (r ∷ rs) = let rest = messages_of c rs in if r.0 == c then r.1 ∷ rest else rest

abbrev pub messages_for : Option ℕ → List (ℕ × List ℕ) → List (List ℕ)
messages_for none rs = []
messages_for (some c) rs = messages_of c rs

-- The view of a socket.
unfoldable pub view : AddrBytes → Socket → View
view k s = record {
  connected = is_some (lookup k s.demux_table);
  listener_open = s.listener_open;
  received = messages_for (lookup k s.demux_table) s.received;
}
