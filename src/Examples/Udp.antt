-- ===== src/Examples/Udp.antt =====
-- The theorems on UDP sockets, at concrete inputs.
use ctaps.Prelude.{ℕ, ◌≡◌, refl, true, false, List, [], ◌∷◌, map}
use ctaps.Endpoint.Address.{SockAddr}
use ctaps.SocketManager.Demux.{AddrBytes}
use ctaps.Udp.{Read, empty, datagram, Event, reads, listener_closes, Socket, run, listening}
use ctaps.Udp.Views.{view, view_run, unseen}
use ctaps.Udp.Refinement.{run-view_run}
use ctaps.Udp.Clients.{run_client, run_client-run}

abbrev sender : ℕ → SockAddr
sender n = record { family = 2; rest = 1 ∷ 187 ∷ 192 ∷ 0 ∷ 2 ∷ n ∷ [] }

abbrev key : AddrBytes
key = record { family = 2; bytes = 1 ∷ 187 ∷ 192 ∷ 0 ∷ 2 ∷ 1 ∷ [] }

abbrev events : List Event
events =
    reads (datagram (sender 1) (7 ∷ []) true)
    ∷ reads (datagram (sender 2) (8 ∷ []) true)
    ∷ reads empty
    ∷ listener_closes
    ∷ reads (datagram (sender 3) [] true)
    ∷ reads (datagram (sender 1) (9 ∷ []) true)
    ∷ []

run-view_run_example : view key (run events listening) ≡ view_run key events unseen
run-view_run_example = run-view_run key events

-- A client that has been given one connection.
abbrev client : Socket
client = record {
  demux_table = (key, 0) ∷ [];
  listener_open = false;
  created = 1;
  announced = [];
  received = [];
  handle_closing = false;
}

abbrev client_reads : List Read
client_reads = datagram (sender 1) (7 ∷ []) true ∷ datagram (sender 2) (8 ∷ []) true ∷ empty ∷ []

run_client-run_example : run_client client_reads client ≡ run (map reads client_reads) client
run_client-run_example = run_client-run client_reads client (tt, (tt, (tt, tt))) refl
