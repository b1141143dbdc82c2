-- ===== src/SocketManager/Closing.antt =====
-- Who is told of a close, how often, and with which callback.
use ctaps.Prelude.{
  ℕ, ◌+◌, ◌≤◌, ◌≡◌, refl, sym, subst, inl, inr, Bool, true, false, Option, some, List, [], ◌∷◌,
  ◌++◌, arith, ◌==◌, if◌then◌else◌, ==_iff, Bool-cases,
}
use ctaps.SocketManager.State.{
  ConnectionState, CloseReason, graceful, establishment_failed, connection_failed, Connection,
  Listener, Call, connection_closed, connection_error, establishment_error, close_socket, Manager,
  call_if, is_closed, is_establishing, open_connections, find_connection, change_connection,
  mark_as_closed, get_num_open_dependents, get_last_open_connection,
}
use ctaps.SocketManager.Callbacks.{
  notify_of_connection_close, socket_closed, closed_socket_cb, close_with_reason,
  closed_connection_cb, establishment_error_cb, aborted_connection_cb,
}

-- The connection is in the manager, and open.
abbrev pub IsOpenIn : Connection → Manager → Type 0
IsOpenIn c m = (find_connection c.uuid m.all_connections ≡ some c) × (is_closed c ≡ false)

found-open :
    (u : ℕ) (cs : List Connection) (c : Connection)
    → find_connection u cs ≡ some c
    → is_closed c ≡ false
    → 1 ≤ open_connections cs
unfolding find_connection
found-open u [] c h o = cc
found-open u (x ∷ cs) c h o = elim (Bool-cases (x.uuid == u)) [
  | inl p ↦ ground (arith, h, p, o)
  | inr p ↦ ground (arith, found-open u cs c (ground (arith, h, p)) o)
]

-- If the connection is the only one open, it is the one that the search finds.
only-open :
    (u : ℕ) (cs : List Connection) (c : Connection)
    → find_connection u cs ≡ some c
    → is_closed c ≡ false
    → open_connections cs ≡ 1
    → get_last_open_connection cs ≡ some c
unfolding find_connection get_last_open_connection
only-open u [] c h o e = cc
only-open u (x ∷ cs) c h o e = elim (Bool-cases (x.uuid == u)) [
  | inl p ↦ ground (arith, h, p, o)
  | inr p ↦
      let rest : find_connection u cs ≡ some c = ground (arith, h, p) in
      ground (arith, found-open u cs c rest o, only-open u cs c rest o)
]

-- The ways in which a protocol says that a connection is over.
pub data Ending : Type 0 where
  was_closed was_aborted was_not_established : Ending

-- The manager's callback for each, and the close of the socket that it asks for, when it does.
unfoldable pub ended : Ending → Connection → Manager → Manager
ended was_closed c m = closed_connection_cb c m
ended was_aborted c m = aborted_connection_cb c m
ended was_not_established c m = establishment_error_cb c m

unfoldable pub settle : Manager → Manager → Manager
settle before after = if get_num_open_dependents before == 1 then closed_socket_cb after else after

abbrev call_list : Bool → Call → List Call
call_list b k = if b then k ∷ [] else []

-- What the user has to hear of the connection's end.
unfoldable pub told : Ending → Connection → List Call
told was_closed c = call_list c.on_closed (connection_closed c.uuid)
told was_aborted c =
    if is_establishing c
    then call_list c.on_establishment_error (establishment_error c.uuid)
    else call_list c.on_connection_error (connection_error c.uuid)
told was_not_established c = call_list c.on_establishment_error (establishment_error c.uuid)

unfoldable pub socket_calls : Manager → List Call
socket_calls m = if get_num_open_dependents m == 1 then close_socket ∷ [] else []

call_if-calls :
    (b : Bool) (k : Call) (m : Manager) → (call_if b k m).calls ≡ call_list b k ++ m.calls
call_if-calls true k m = refl
call_if-calls false k m = refl

call_if-connections :
    (b : Bool) (k : Call) (m : Manager) → (call_if b k m).all_connections ≡ m.all_connections
call_if-connections true k m = refl
call_if-connections false k m = refl

call_if-listener : (b : Bool) (k : Call) (m : Manager) → (call_if b k m).listener ≡ m.listener
call_if-listener true k m = refl
call_if-listener false k m = refl

open-one :
    (c : Connection) (m : Manager)
    → IsOpenIn c m
    → get_num_open_dependents m ≡ 1
    → get_last_open_connection m.all_connections ≡ some c
unfolding get_num_open_dependents
open-one c m (h, o) e =
    let more : 1 ≤ open_connections m.all_connections = found-open c.uuid m.all_connections c h o in
    only-open c.uuid m.all_connections c h o (ground (arith, e, more))

-- The final close, through the socket.
through-socket :
    (r : CloseReason) (c : Connection) (m : Manager)
    → IsOpenIn c m
    → get_num_open_dependents m ≡ 1
    → closed_socket_cb (close_with_reason r m)
      ≡ notify_of_connection_close c (mark_as_closed c.uuid (close_with_reason r m))
unfolding closed_socket_cb close_with_reason socket_closed
through-socket r c m h e = rw (open-one c m h e)

-- A manager after a step: its connections, its listener and its calls.
abbrev After : List Connection → Option Listener → List Call → Manager → Type 0
After cs l ks m = (m.all_connections ≡ cs) × (m.listener ≡ l) × (m.calls ≡ ks)

call_if-After :
    (b : Bool) (k : Call) (m : Manager)
    → After m.all_connections m.listener (call_list b k ++ m.calls) (call_if b k m)
call_if-After true k m = (refl, refl, refl)
call_if-After false k m = (refl, refl, refl)

abbrev told_as : CloseReason → Connection → List Call
told_as graceful c = call_list c.on_closed (connection_closed c.uuid)
told_as connection_failed c = call_list c.on_connection_error (connection_error c.uuid)
told_as establishment_failed c = call_list c.on_establishment_error (establishment_error c.uuid)

-- The end of the last connection, for the reason that is kept till the socket is closed.
last-After :
    (r : CloseReason) (c : Connection) (m : Manager)
    → IsOpenIn c m
    → get_num_open_dependents m ≡ 1
    → After
        (mark_as_closed c.uuid m).all_connections
        m.listener
        (told_as r c ++ (close_socket ∷ m.calls))
        (closed_socket_cb (close_with_reason r m))
unfolding close_with_reason mark_as_closed notify_of_connection_close
last-After r c m h e =
    subst
      (After (mark_as_closed c.uuid m).all_connections m.listener
        (told_as r c ++ (close_socket ∷ m.calls)))
      (sym (through-socket r c m h e)) (by_reason r)
  where
    by_reason :
        (q : CloseReason)
        → After
            (mark_as_closed c.uuid m).all_connections
            m.listener
            (told_as q c ++ (close_socket ∷ m.calls))
            (notify_of_connection_close c (mark_as_closed c.uuid (close_with_reason q m)))
    by_reason graceful = call_if-After _ _ _
    by_reason connection_failed = call_if-After _ _ _
    by_reason establishment_failed = call_if-After _ _ _

-- What an end of the connection leaves, with the socket's own.
abbrev Told : Ending → Connection → Manager → Type 0
Told e c m =
    After (mark_as_closed c.uuid m).all_connections m.listener
      (told e c ++ (socket_calls m ++ m.calls)) (settle m (ended e c m))

last-Told :
    (e : Ending) (c : Connection) (m : Manager)
    → IsOpenIn c m
    → (get_num_open_dependents m == 1) ≡ true
    → Told e c m
unfolding settle ended told socket_calls closed_connection_cb aborted_connection_cb
    establishment_error_cb
last-Told was_closed c m h p = rw p (last-After graceful c m h ((==_iff _ _).0 p))
last-Told was_not_established c m h p =
    rw p (last-After establishment_failed c m h ((==_iff _ _).0 p))
last-Told was_aborted c m h p = elim (Bool-cases (is_establishing c)) [
  | inl q ↦ rw (p, q) (last-After establishment_failed c m h ((==_iff _ _).0 p))
  | inr q ↦ rw (p, q) (last-After connection_failed c m h ((==_iff _ _).0 p))
]

others-Told :
    (e : Ending) (c : Connection) (m : Manager)
    → (get_num_open_dependents m == 1) ≡ false
    → Told e c m
unfolding settle ended told socket_calls closed_connection_cb aborted_connection_cb
    establishment_error_cb mark_as_closed
others-Told was_closed c m p = rw p (call_if-After _ _ _)
others-Told was_not_established c m p = rw p (call_if-After _ _ _)
others-Told was_aborted c m p = elim (Bool-cases (is_establishing c)) [
  | inl q ↦ rw (p, q) (call_if-After _ _ _)
  | inr q ↦ rw (p, q) (call_if-After _ _ _)
]

-- However a protocol says that an open connection is over, and whether or not it was the last
-- dependent of the socket, once the socket that is closed with the last one has been closed,
-- exactly that connection is marked closed, the listener is as it was, and the user has been
-- called exactly once, with the callback of that end if it is set; and the socket was closed, before
-- that call, exactly if the connection was the last.
pub ended-told :
    (e : Ending) (c : Connection) (m : Manager)
    → IsOpenIn c m
    → ((settle m (ended e c m)).all_connections ≡ (mark_as_closed c.uuid m).all_connections)
      × ((settle m (ended e c m)).listener ≡ m.listener)
      × ((settle m (ended e c m)).calls ≡ told e c ++ (socket_calls m ++ m.calls))
ended-told e c m h = elim (Bool-cases (get_num_open_dependents m == 1)) [
  | inl p ↦ last-Told e c m h p
  | inr p ↦ others-Told e c m p
]

change-count :
    (u : ℕ) (cs : List Connection) (c : Connection)
    → find_connection u cs ≡ some c
    → is_closed c ≡ false
    → open_connections (change_connection u (λ x. record x { state = ConnectionState.closed }) cs)
        + 1
      ≡ open_connections cs
unfolding find_connection change_connection
change-count u [] c h o = cc
change-count u (x ∷ cs) c h o = elim (Bool-cases (x.uuid == u)) [
  | inl p ↦ ground (arith, h, p, o)
  | inr p ↦ ground (arith, h, p, change-count u cs c (ground (arith, h, p)) o)
]

-- The end of an open connection leaves one open dependent less.
pub ended-get_num_open_dependents :
    (e : Ending) (c : Connection) (m : Manager)
    → IsOpenIn c m
    → get_num_open_dependents (settle m (ended e c m)) + 1 ≡ get_num_open_dependents m
unfolding get_num_open_dependents mark_as_closed
ended-get_num_open_dependents e c m h =
    let t = ended-told e c m h in
    rw (t.0, t.1) (omega (arith, change-count c.uuid m.all_connections c h.0 h.1))
