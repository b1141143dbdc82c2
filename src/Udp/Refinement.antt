-- ===== src/Udp/Refinement.antt =====
-- A listening socket is, for each address, the view of that address.
use ctaps.Prelude.{
  ℕ, ◌≡◌, refl, ap, subst, ◌∙◌, ◌⊎◌, inl, inr, Bool, true, false, not, ◌&&◌, none, some, List, [],
  ◌∷◌, arith, if◌then◌else◌, Bool-cases, if_cases, Option-cases,
}
use ctaps.Endpoint.Address.{SockAddr}
use ctaps.SocketManager.Demux.{
  AddrBytes, addr_bytes, key_eq, key_eq_sound, lookup, lookup_bytes, insert_bytes,
  get_from_demux_table, insert_demuxed_connection,
}
use ctaps.Udp.{
  failed, empty, datagram, Event, reads, listener_closes, Socket, on_protocol_receive, accept,
  to_connection, multiplex_received_message, socket_listen_callback, step, run, listening,
}
use ctaps.Udp.Views.{View, hear, view_step, view_run, unseen, view}
use ctaps.Udp.Routing.{
  IsValid, on_protocol_receive-IsValid, with_message, receive-view, enter, pass, enter-view,
  pass-view, pass-IsValid, enter-IsValid,
}

-- A step on a valid socket leaves a valid one, and is the step of the view.
abbrev Follows : AddrBytes → View → Socket → Type 0
Follows k w s = IsValid s × (view k s ≡ w)

-- An address that has a connection.
known-Follows :
    (k l : AddrBytes) (c : ℕ) (m : List ℕ) (made : Bool) (s : Socket)
    → IsValid s
    → lookup l s.demux_table ≡ some c
    → Follows k
        (if key_eq l k then hear m made (view k s) else view k s)
        (on_protocol_receive c m s)
known-Follows k l c m made s v h = (
  on_protocol_receive-IsValid c m s (v.known l c h) v,
  receive-view k l c m s v h ∙ heard (Bool-cases (key_eq l k)),
)
  where
    heard :
        (key_eq l k ≡ true) ⊎ (key_eq l k ≡ false)
        → (if key_eq l k then with_message m (view k s) else view k s)
          ≡ (if key_eq l k then hear m made (view k s) else view k s)
    heard (inr p) = rw p
    heard (inl p) =
        let e : lookup k s.demux_table ≡ some c =
          subst (λ j. lookup j s.demux_table ≡ some c) (key_eq_sound l k p) h in
        unfold view in rw (p, e)

-- One that has none, where the listener is open and a connection can be made.
enter-Follows :
    (k l : AddrBytes) (m : List ℕ) (made : Bool) (s : Socket)
    → IsValid s
    → lookup l s.demux_table ≡ none
    → s.listener_open ≡ true
    → made ≡ true
    → Follows k
        (if key_eq l k then hear m made (view k s) else view k s)
        (on_protocol_receive s.created m (enter l s))
enter-Follows k l m made s v h o n = (
  on_protocol_receive-IsValid s.created m (enter l s) (omega arith) (enter-IsValid l s v),
  enter-view k l m s v h ∙ heard (Bool-cases (key_eq l k)),
)
  where
    heard :
        (key_eq l k ≡ true) ⊎ (key_eq l k ≡ false)
        → (if key_eq l k then with_message m (view k s) else view k s)
          ≡ (if key_eq l k then hear m made (view k s) else view k s)
    heard (inr p) = rw p
    heard (inl p) =
        let e : lookup k s.demux_table ≡ none =
          subst (λ j. lookup j s.demux_table ≡ none) (key_eq_sound l k p) h in
        unfold view in rw (p, e, o, n)

-- One that has none, and cannot have one.
silent :
    (k l : AddrBytes) (m : List ℕ) (made : Bool) (s : Socket)
    → lookup l s.demux_table ≡ none
    → (s.listener_open && made) ≡ false
    → view k s ≡ (if key_eq l k then hear m made (view k s) else view k s)
silent k l m made s h o = elim (Bool-cases (key_eq l k)) [
  | inr p ↦ rw p
  | inl p ↦
      let e : lookup k s.demux_table ≡ none =
        subst (λ j. lookup j s.demux_table ≡ none) (key_eq_sound l k p) h in
      unfold view in rw (p, e, o)
]

pass-Follows :
    (k : AddrBytes) (m : List ℕ) (s : Socket)
    → IsValid s
    → Follows k (view k s) (on_protocol_receive s.created m (pass s))
pass-Follows k m s v = (
  on_protocol_receive-IsValid s.created m (pass s) (omega arith) (pass-IsValid s v),
  pass-view k m s v,
)

accept-pass : (a : SockAddr) (s : Socket) → addr_bytes a ≡ none → pass s ≡ accept a s
unfolding insert_demuxed_connection insert_bytes
accept-pass a s h = rw h

accept-enter :
    (a : SockAddr) (l : AddrBytes) (s : Socket)
    → addr_bytes a ≡ some l
    → lookup l s.demux_table ≡ none
    → enter l s ≡ accept a s
unfolding insert_demuxed_connection insert_bytes
accept-enter a l s h q = rw (h, q)

is_false : (b : Bool) → not b ≡ true → b ≡ false
is_false b h = ground (arith, h)

is_true : (b : Bool) → not b ≡ false → b ≡ true
is_true b h = ground (arith, h)

-- A datagram that no connection takes.
unknown-Follows :
    (k : AddrBytes) (w : View) (a : SockAddr) (m : List ℕ) (made : Bool) (s : Socket)
    → IsValid s
    → ((s.listener_open && made) ≡ false → view k s ≡ w)
    → (s.listener_open ≡ true
        → made ≡ true
        → Follows k w (on_protocol_receive s.created m (accept a s)))
    → Follows k w (to_connection none a m made s)
unknown-Follows k w a m made s v silence go =
    if_cases (Follows k w) (not s.listener_open)
      (λ p. (v, silence (ground (arith, is_false s.listener_open p))))
      (λ p.
        if_cases (Follows k w) (not made)
          (λ q. (v, silence (ground (arith, is_true s.listener_open p, is_false made q))))
          (λ q. go (is_true s.listener_open p) (is_true made q)))

datagram-Follows :
    (k : AddrBytes) (a : SockAddr) (m : List ℕ) (made : Bool) (s : Socket)
    → IsValid s
    → Follows k
        (view_step k (reads (datagram a m made)) (view k s))
        (multiplex_received_message a m made s)
unfolding view_step multiplex_received_message get_from_demux_table lookup_bytes
datagram-Follows k a m made s v = elim (Option-cases (addr_bytes a)) [
  | inl p ↦
      let w = view k s in
      rw p (
        unknown-Follows k w a m made s v (λ o. refl)
          (λ o n.
            subst (λ x. Follows k w (on_protocol_receive s.created m x)) (accept-pass a s p)
              (pass-Follows k m s v)))
  | inr (l, p) ↦ elim (Option-cases (lookup l s.demux_table)) [
    | inr (c, q) ↦ rw (p, q) (known-Follows k l c m made s v q)
    | inl q ↦
        let w = if key_eq l k then hear m made (view k s) else view k s in
        rw (p, q)
          (unknown-Follows k w a m made s v (silent k l m made s q) (λ o n.
            subst (λ x. Follows k w (on_protocol_receive s.created m x)) (accept-enter a l s p q)
              (enter-Follows k l m made s v q o n)))
  ]
]

step-Follows :
    (k : AddrBytes) (e : Event) (s : Socket)
    → IsValid s
    → Follows k (view_step k e (view k s)) (step e s)
unfolding step socket_listen_callback view_step
step-Follows k (reads failed) s v = (v, refl)
step-Follows k (reads empty) s v = (v, refl)
step-Follows k (reads (datagram a m made)) s v = datagram-Follows k a m made s v
step-Follows k listener_closes s v =
    (record { known = v.known; own = v.own; heard = v.heard }, unfold view in refl)

run-view :
    (k : AddrBytes) (es : List Event) (s : Socket)
    → IsValid s
    → view k (run es s) ≡ view_run k es (view k s)
unfolding run view_run
run-view k [] s v = refl
run-view k (e ∷ es) s v =
    let (v', h) = step-Follows k e s v in run-view k es (step e s) v' ∙ ap (view_run k es) h

listening-IsValid : IsValid listening
unfolding lookup
listening-IsValid = record {
  known = λ k c h. absurd (cc h);
  own = λ k l c h g. absurd (cc h);
  heard = tt;
}

-- Whatever a listening socket reads, from whatever addresses and in whatever order, and whenever the
-- listener is closed, each address sees what it would see alone: its connection, which is made for
-- the first datagram that finds the listener open and memory for it, has received exactly its own
-- datagrams from then on, in order.
pub run-view_run :
    (k : AddrBytes) (es : List Event) → view k (run es listening) ≡ view_run k es unseen
run-view_run k es = run-view k es listening listening-IsValid ∙ ap (view_run k es) first
  where
    first : view k listening ≡ unseen
    first = unfold view lookup in refl
