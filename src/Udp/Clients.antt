-- ===== src/Udp/Clients.antt =====
-- A socket without a listener.
use ctaps.Prelude.{
  ℕ, ◌≡◌, refl, ap, ◌∙◌, inl, inr, Bool, false, Option, none, some, List, [], ◌∷◌, map,
  Option-cases, All,
}
use ctaps.Endpoint.Address.{SockAddr}
use ctaps.SocketManager.Demux.{get_from_demux_table}
use ctaps.Udp.{
  Read, failed, empty, datagram, reads, Socket, to_connection, to_known, multiplex_received_message,
  socket_listen_callback, on_read, step, run,
}

unfoldable pub run_client : List Read → Socket → Socket
run_client [] s = s
run_client (r ∷ rs) s = run_client rs (on_read r s)

abbrev pub Succeeded : Read → Type 0
Succeeded failed = ⊥
Succeeded empty = Unit {0}
Succeeded (datagram a m made) = Unit {0}

to_known-to_connection :
    (c : Option ℕ) (a : SockAddr) (m : List ℕ) (made : Bool) (s : Socket)
    → s.listener_open ≡ false
    → to_known c m s ≡ to_connection c a m made s
to_known-to_connection (some c) a m made s h = refl
to_known-to_connection none a m made s h = simp h

on_read-closed :
    (r : Read) (s : Socket) → s.listener_open ≡ false → (on_read r s).listener_open ≡ false
unfolding on_read
on_read-closed failed s h = h
on_read-closed empty s h = h
on_read-closed (datagram a m made) s h =
    elim (Option-cases (get_from_demux_table s.demux_table a)) [
      | inl p ↦ rw p h
      | inr (c, p) ↦ rw p h
    ]

-- Where no read fails, the callback of a client's socket does with any sequence of reads what that
-- of a listening socket does whose listener is closed: a datagram of a known address reaches its
-- connection, any other is dropped.
pub run_client-run :
    (rs : List Read) (s : Socket)
    → All Succeeded rs
    → s.listener_open ≡ false
    → run_client rs s ≡ run (map reads rs) s
unfolding run_client run step on_read socket_listen_callback multiplex_received_message
run_client-run [] s h o = refl
run_client-run (failed ∷ rs) s h o = absurd h.0
run_client-run (empty ∷ rs) s h o = run_client-run rs s h.1 o
run_client-run (datagram a m made ∷ rs) s h o =
    run_client-run rs (on_read (datagram a m made) s) h.1 (on_read-closed (datagram a m made) s o)
    ∙ ap (run (map reads rs))
        (to_known-to_connection (get_from_demux_table s.demux_table a) a m made s o)
