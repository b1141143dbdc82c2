-- ===== src/Quic/Order.antt =====
-- The order in which the two directions of a stream end.
use ctaps.Prelude.{
  ℕ, suc, ◌+◌, ◌<◌, ◌≡◌, refl, sym, ap, subst, ◌∙◌, inl, inr, Bool, true, false, not, ◌||◌, Option,
  none, some, List, [], ◌∷◌, arith, ltb, ◌==◌, if◌then◌else◌, Bool-cases, if_cases, count, any,
  Result,
}
use ctaps.Quic.Streams.{
  Stream, Call, send_fin, close_quic, closed_connection, Quic, call, is_active, num_active,
  find_stream, change_stream, stop_receiving, stop_sending, sends, handle_stream_fin, number_of,
  send_last, close_connection, peer_fin, user_close, step, run,
}
use ctaps.Quic.Closing.{opened}

abbrev pub reports : ℕ → Call → Bool
reports u (closed_connection v) = v == u
reports u (send_fin id) = false
reports u close_quic = false

find-change :
    (u : ℕ) (f : Stream → Stream) (ss : List Stream) (s : Stream)
    → ((x : Stream) → (f x).uuid ≡ x.uuid)
    → find_stream u ss ≡ some s
    → find_stream u (change_stream u f ss) ≡ some (f s)
unfolding find_stream change_stream
find-change u f [] s k h = cc
find-change u f (x ∷ ss) s k h = elim (Bool-cases (x.uuid == u)) [
  | inl p ↦ rw p (if_eq (ground (arith, p, k x)) (ap f (ground (arith, h, p))))
  | inr p ↦ rw p (rw p (find-change u f ss s k (ground (arith, h, p))))
]
  where
    if_eq :
        ((f x).uuid == u) ≡ true
        → f x ≡ f s
        → (if (f x).uuid == u then some (f x) else find_stream u ss) ≡ some (f s)
    if_eq q e = rw q (ap some e)

abbrev one : Bool → ℕ
one b = if b then 1 else 0

count-change :
    (u : ℕ) (f : Stream → Stream) (ss : List Stream) (s : Stream)
    → find_stream u ss ≡ some s
    → count is_active (change_stream u f ss) + one (is_active s)
      ≡ count is_active ss + one (is_active (f s))
unfolding find_stream change_stream
count-change u f [] s h = cc
count-change u f (x ∷ ss) s h = elim (Bool-cases (x.uuid == u)) [
  | inl p ↦
      let e : x ≡ s = ground (arith, h, p) in
      rw p (
        subst
          (λ y.
            count is_active (f x ∷ ss) + one (is_active y)
            ≡ count is_active (x ∷ ss) + one (is_active (f y)))
          e (either (is_active x) (is_active (f x)) (count is_active ss)))
  | inr p ↦ rw p (shift (is_active x) _ _ _ _ (count-change u f ss s (ground (arith, h, p))))
]
  where
    either :
        (a b : Bool) (n : ℕ) → (if b then suc n else n) + one a ≡ (if a then suc n else n) + one b
    either a b n = ground arith

    shift :
        (a : Bool) (m n i j : ℕ)
        → m + i ≡ n + j
        → (if a then suc m else m) + i ≡ (if a then suc n else n) + j
    shift a m n i j e = ground (arith, e)

abbrev no_receive : Stream → Stream
no_receive s = record s { can_receive = false }

abbrev no_send : Stream → Stream
no_send s = record s { can_send = false }

change-change :
    (u : ℕ) (ss : List Stream)
    → change_stream u no_receive (change_stream u no_send ss)
      ≡ change_stream u no_send (change_stream u no_receive ss)
unfolding change_stream
change-change u [] = refl
change-change u (x ∷ ss) = elim (Bool-cases (x.uuid == u)) [
  | inl p ↦ rw p (rw p refl)
  | inr p ↦ rw p (rw p (ap (λ l. x ∷ l) (change-change u ss)))
]

-- A stream that is open in both directions, beside another one that is active.
pub record Beside (u : ℕ) (ss : List Stream) (s : Stream) : Type 0 where
  pub found : find_stream u ss ≡ some s
  pub can_send : s.can_send ≡ true
  pub can_receive : s.can_receive ≡ true
  pub others : 1 < count is_active ss

send_last-reports :
    (u : ℕ) (id : Option ℕ) (q : Quic)
    → any (reports u) (send_last id q).calls ≡ any (reports u) q.calls
send_last-reports u none q = refl
send_last-reports u (some id) q = refl

send_last-same : (id : Option ℕ) (q : Quic) → (send_last id q).streams ≡ q.streams
send_last-same none q = refl
send_last-same (some id) q = refl

close_others :
    (accepts : Bool) (u : ℕ) (q : Quic)
    → 0 < num_active (stop_sending u q)
    → (close_connection accepts u q).1
      ≡ send_last (number_of (find_stream u (stop_sending u q).streams)) (stop_sending u q)
unfolding close_connection
close_others accepts u q h =
    if_cases
      (λ (x : Result (Unit {0}) × Quic).
        x.1 ≡ send_last (number_of (find_stream u (stop_sending u q).streams)) (stop_sending u q))
      (ltb 0 (num_active (stop_sending u q))) (λ p. refl) (λ p. ground (arith, p, h))

fin_others :
    (u : ℕ) (q : Quic)
    → 0 < num_active (stop_receiving u q)
    → handle_stream_fin u q ≡ (
        if not (sends (find_stream u (stop_receiving u q).streams))
        then call (closed_connection u) (stop_receiving u q)
        else stop_receiving u q)
unfolding handle_stream_fin
fin_others u q h = rw (positive h) refl
  where
    positive : {n : ℕ} → 0 < n → (n == 0) ≡ false
    positive l = ground (arith, l)

module _ (u : ℕ) (ss : List Stream) (s : Stream) (b : Beside u ss s) where
  active : is_active s ≡ true
  active = ground (arith, b.can_send)

  -- After one direction has ended the stream is active.
  one_ended :
      (f : Stream → Stream)
      → is_active (f s) ≡ true
      → count is_active (change_stream u f ss) ≡ count is_active ss
  one_ended f h = ground (arith, active, h, count-change u f ss s b.found)

  both_ended :
      (f g : Stream → Stream)
      → ((x : Stream) → (f x).uuid ≡ x.uuid)
      → is_active (f s) ≡ true
      → is_active (g (f s)) ≡ false
      → 0 < count is_active (change_stream u g (change_stream u f ss))
  both_ended f g k h i =
      let e = count-change u g (change_stream u f ss) (f s) (find-change u f ss s k b.found) in
      ground (arith, e, h, i, one_ended f h, b.others)

  receiving_closed : is_active (no_receive s) ≡ true
  receiving_closed = rw b.can_send refl

  sending_closed : is_active (no_send s) ≡ true
  sending_closed = rw b.can_receive refl

  -- The peer's FIN comes first: it is only noted.
  fin_first : handle_stream_fin u (opened ss) ≡ stop_receiving u (opened ss)
  fin_first =
      fin_others u (opened ss) (ground (arith, one_ended no_receive receiving_closed, b.others))
      ∙ rw (find-change u no_receive ss s (λ x. refl) b.found) (rw b.can_send refl)

  close_after_fin :
      (accepts : Bool)
      → (run (peer_fin u ∷ user_close accepts u ∷ []) (opened ss))
        ≡ send_last
            (number_of (find_stream u (stop_sending u (stop_receiving u (opened ss))).streams))
            (stop_sending u (stop_receiving u (opened ss)))
  unfolding run step
  close_after_fin accepts =
      ap (λ q. (close_connection accepts u q).1) fin_first
      ∙ close_others accepts u (stop_receiving u (opened ss))
          (both_ended no_receive no_send (λ x. refl) receiving_closed refl)

  -- The user's close comes first: the FIN then finds both directions closed.
  fin_reports :
      (cs : List Call)
      → let q : Quic = record { streams = change_stream u no_send ss; calls = cs } in
        handle_stream_fin u q ≡ call (closed_connection u) (stop_receiving u q)
  fin_reports cs =
      fin_others u _ (both_ended no_send no_receive (λ x. refl) sending_closed refl)
      ∙ rw
          (find-change u no_receive (change_stream u no_send ss) (no_send s) (λ x. refl)
            (find-change u no_send ss s (λ x. refl) b.found))
          refl

  fin_sent :
      (id : Option ℕ)
      → handle_stream_fin u (send_last id (stop_sending u (opened ss)))
        ≡ call (closed_connection u) (stop_receiving u (send_last id (stop_sending u (opened ss))))
  fin_sent none = fin_reports []
  fin_sent (some id) = fin_reports (send_fin id ∷ [])

  fin_after_close :
      (accepts : Bool)
      → run (user_close accepts u ∷ peer_fin u ∷ []) (opened ss)
        ≡ call (closed_connection u) (
            stop_receiving u (
              send_last
                (number_of (find_stream u (stop_sending u (opened ss)).streams))
                (stop_sending u (opened ss))))
  unfolding run step
  fin_after_close accepts =
      ap (handle_stream_fin u) (
        close_others accepts u (opened ss)
          (ground (arith, one_ended no_send sending_closed, b.others)))
      ∙ fin_sent _

-- For a stream that is open in both directions while another one is active, both orders of the peer's
-- FIN and the user's close lead to the same streams, with this one closed in both directions, but the
-- connection is reported as closed only if the user closes it first.
pub run-orders :
    (u : ℕ) (ss : List Stream) (s : Stream) (accepts : Bool)
    → Beside u ss s
    → let close_first = run (user_close accepts u ∷ peer_fin u ∷ []) (opened ss) in
      let fin_first = run (peer_fin u ∷ user_close accepts u ∷ []) (opened ss) in
      (close_first.streams ≡ fin_first.streams)
      × (find_stream u fin_first.streams
          ≡ some (record s { can_send = false; can_receive = false }))
      × (any (reports u) close_first.calls ≡ true)
      × (any (reports u) fin_first.calls ≡ false)
run-orders u ss s accepts b =
    let reported = fin_after_close u ss s b accepts in
    let silent = close_after_fin u ss s b accepts in
    let found = find-change u no_receive ss s (λ x. refl) b.found in
    (
      ap (λ (q : Quic). q.streams) reported
          ∙ ap (change_stream u no_receive) (send_last-same _ (stop_sending u (opened ss)))
          ∙ change-change u ss
          ∙ sym (send_last-same _ (stop_sending u (stop_receiving u (opened ss))))
          ∙ sym (ap (λ (q : Quic). q.streams) silent),
      ap (λ (q : Quic). find_stream u q.streams) silent
          ∙ ap (find_stream u) (send_last-same _ (stop_sending u (stop_receiving u (opened ss))))
          ∙ find-change u no_send (change_stream u no_receive ss) (no_receive s) (λ x. refl) found,
      ap (λ (q : Quic). any (reports u) q.calls) reported ∙ same u _,
      ap (λ (q : Quic). any (reports u) q.calls) silent
          ∙ send_last-reports u _ (stop_sending u (stop_receiving u (opened ss))),
    )
  where
    same : (n : ℕ) (b : Bool) → ((n == n) || b) ≡ true
    same n b = ground arith
