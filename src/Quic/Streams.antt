-- ===== src/Quic/Streams.antt =====
-- The streams of a QUIC connection, each of which is a connection of a group, and how they end:
-- src/protocol/quic/quic.c. picoquic's answers are arguments.
use ctaps.Prelude.{
  ℕ, Bool, true, false, not, ◌||◌, Option, none, some, List, [], ◌∷◌, ltb, ◌==◌, if◌then◌else◌,
  is_some, count, Result, ok, err, eio,
}

pub record Stream : Type 0 where
  pub uuid : ℕ
  pub can_send : Bool
  pub can_receive : Bool
  pub stream_id : Option ℕ

-- The calls of picoquic, and of the socket manager's callback for a closed connection.
pub data Call : Type 0 where
  send_fin : ℕ → Call
  close_quic : Call
  closed_connection : ℕ → Call

-- `calls` has the newest first.
pub record Quic : Type 0 where
  pub streams : List Stream
  pub calls : List Call

abbrev pub call : Call → Quic → Quic
call k q = record q { calls = k ∷ q.calls }

abbrev pub is_active : Stream → Bool
is_active s = s.can_send || s.can_receive

abbrev pub num_active : Quic → ℕ
num_active q = count is_active q.streams

-- A stream is reached by pointer: here, by its UUID.
unfoldable pub find_stream : ℕ → List Stream → Option Stream
find_stream u [] = none
find_stream u (s ∷ ss) = let rest = find_stream u ss in if s.uuid == u then some s else rest

unfoldable pub change_stream : ℕ → (Stream → Stream) → List Stream → List Stream
change_stream u f [] = []
change_stream u f (s ∷ ss) =
    let rest = change_stream u f ss in if s.uuid == u then f s ∷ ss else s ∷ rest

abbrev pub stop_receiving : ℕ → Quic → Quic
stop_receiving u q = record q {
  streams = change_stream u (λ s. record s { can_receive = false }) q.streams;
}

abbrev pub stop_sending : ℕ → Quic → Quic
stop_sending u q = record q {
  streams = change_stream u (λ s. record s { can_send = false }) q.streams;
}

abbrev pub sends : Option Stream → Bool
sends none = false
sends (some s) = s.can_send

-- The peer has sent its last byte.
unfoldable pub handle_stream_fin : ℕ → Quic → Quic
handle_stream_fin u q =
    let r = stop_receiving u q in
    if num_active r == 0
    then call close_quic r
    else if not (sends (find_stream u r.streams))
    then call (closed_connection u) r
    else r

-- The stream's number, if it has one.
abbrev pub number_of : Option Stream → Option ℕ
number_of none = none
number_of (some s) = s.stream_id

abbrev pub send_last : Option ℕ → Quic → Quic
send_last none q = q
send_last (some id) q = call (send_fin id) q

abbrev pub asked_picoquic : Option ℕ → Bool
asked_picoquic id = is_some id

abbrev pub code : Bool → Result (Unit {0})
code true = ok tt
code false = err eio

-- The user closes the connection; `accepts` is whether picoquic takes what it is asked.
unfoldable pub close_connection : Bool → ℕ → Quic → Result (Unit {0}) × Quic
close_connection accepts u q =
    let r = stop_sending u q in
    let id = number_of (find_stream u r.streams) in
    if ltb 0 (num_active r)
    then (code (not (asked_picoquic id) || accepts), send_last id r)
    else (code accepts, call close_quic r)

pub data Event : Type 0 where
  peer_fin : ℕ → Event
  user_close : Bool → ℕ → Event

unfoldable pub step : Event → Quic → Quic
unfolding handle_stream_fin close_connection
step (peer_fin u) q = handle_stream_fin u q
step (user_close accepts u) q = (close_connection accepts u q).1

unfoldable pub run : List Event → Quic → Quic
run [] q = q
run (e ∷ es) q = run es (step e q)
