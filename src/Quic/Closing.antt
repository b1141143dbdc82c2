-- ===== src/Quic/Closing.antt =====
-- When the whole QUIC connection is closed, and which streams are reported as closed.
use ctaps.Prelude.{
  ℕ, ◌≤◌, ◌<◌, ◌≡◌, refl, sym, ap, ◌∙◌, inl, inr, Bool, true, false, not, Option, none, some, List,
  [], ◌∷◌, arith, ltb, ◌==◌, Bool-cases, if_cases, count, any, Result,
}
use ctaps.Quic.Streams.{
  Stream, Call, send_fin, close_quic, closed_connection, Quic, is_active, num_active, find_stream,
  change_stream, stop_receiving, stop_sending, sends, handle_stream_fin, number_of, send_last,
  close_connection, Event, peer_fin, user_close, step, run,
}

abbrev pub is_close : Call → Bool
is_close close_quic = true
is_close (send_fin id) = false
is_close (closed_connection u) = false

change-le :
    (u : ℕ) (f : Stream → Stream) (ss : List Stream)
    → ((s : Stream) → is_active s ≡ false → is_active (f s) ≡ false)
    → count is_active (change_stream u f ss) ≤ count is_active ss
unfolding change_stream
change-le u f [] h = omega arith
change-le u f (s ∷ ss) h = elim (Bool-cases (s.uuid == u)) [
  | inl p ↦ elim (Bool-cases (is_active s)) [
    | inl q ↦ rw (p, q) (ground arith)
    | inr q ↦ rw (p, q, h s q) (omega arith)
  ]
  | inr p ↦ rw p (ground (arith, change-le u f ss h))
]

-- picoquic has been asked to close the QUIC connection.
abbrev pub asked : Quic → Bool
asked q = any is_close q.calls

-- Asked for exactly if no stream is active.
abbrev AsksRightly : Quic → Type 0
AsksRightly q = asked q ≡ (num_active q == 0)

send_last-asked : (id : Option ℕ) (q : Quic) → asked (send_last id q) ≡ asked q
send_last-asked none q = refl
send_last-asked (some id) q = refl

send_last-streams : (id : Option ℕ) (q : Quic) → (send_last id q).streams ≡ q.streams
send_last-streams none q = refl
send_last-streams (some id) q = refl

-- Where some stream is still active, none has been asked for before.
not_asked : (n m : ℕ) (b : Bool) → b ≡ (n == 0) → m ≤ n → (m == 0) ≡ false → b ≡ (m == 0)
not_asked n m b h l e = ground (arith, h, l, e)

fin-AsksRightly : (u : ℕ) (q : Quic) → AsksRightly q → AsksRightly (handle_stream_fin u q)
unfolding handle_stream_fin
fin-AsksRightly u q h =
    let r = stop_receiving u q in
    let l : num_active r ≤ num_active q =
      change-le u (λ s. record s { can_receive = false }) q.streams (λ s e. ground (arith, e)) in
    if_cases AsksRightly (num_active r == 0) (λ p. sym p)
      (λ p.
        let k = not_asked (num_active q) (num_active r) (asked q) h l p in
        if_cases AsksRightly (not (sends (find_stream u r.streams))) (λ o. k) (λ o. k))

close-AsksRightly :
    (accepts : Bool) (u : ℕ) (q : Quic)
    → AsksRightly q
    → AsksRightly (close_connection accepts u q).1
unfolding close_connection
close-AsksRightly accepts u q h =
    let r = stop_sending u q in
    let id = number_of (find_stream u r.streams) in
    let l : num_active r ≤ num_active q =
      change-le u (λ s. record s { can_send = false }) q.streams (λ s e. ground (arith, e)) in
    if_cases (λ (x : Result (Unit {0}) × Quic). AsksRightly x.1) (ltb 0 (num_active r))
      (λ p.
        send_last-asked id r
        ∙ not_asked (num_active q) (num_active r) (asked q) h l (ground (arith, p))
        ∙ ap (λ (ss : List Stream). count is_active ss == 0) (sym (send_last-streams id r)))
      (λ p. ground (arith, p))

run-AsksRightly : (es : List Event) (q : Quic) → AsksRightly q → AsksRightly (run es q)
unfolding run step
run-AsksRightly [] q h = h
run-AsksRightly (peer_fin u ∷ es) q h =
    run-AsksRightly es (handle_stream_fin u q) (fin-AsksRightly u q h)
run-AsksRightly (user_close accepts u ∷ es) q h =
    run-AsksRightly es (close_connection accepts u q).1 (close-AsksRightly accepts u q h)

abbrev pub opened : List Stream → Quic
opened ss = record { streams = ss; calls = [] }

-- However the peer ends streams and the user closes connections, from a group with an active stream
-- picoquic has been asked to close the whole QUIC connection exactly if no stream of the group can
-- send or receive any more.
pub run-asked :
    (es : List Event) (ss : List Stream)
    → 0 < count is_active ss
    → asked (run es (opened ss)) ≡ (num_active (run es (opened ss)) == 0)
run-asked es ss h = run-AsksRightly es (opened ss) (ground (arith, h))
