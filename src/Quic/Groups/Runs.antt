-- ===== src/Quic/Groups/Runs.antt =====
-- The end of all connections of a group.
use ctaps.Prelude.{
  ℕ, suc, ◌+◌, ◌<◌, ◌≡◌, refl, sym, ap, subst, ◌∙◌, inl, inr, Bool, false, not, some, List, [], ◌∷◌,
  ◌++◌, arith, ◌==◌, Bool-cases, if_cases, length, count, keep, All, append_assoc,
}
use ctaps.SocketManager.State.{
  Connection, Manager, is_closed, find_connection, change_connection, mark_as_closed,
  get_num_open_dependents,
}
use ctaps.SocketManager.Closing.{
  IsOpenIn, Ending, was_closed, ended, settle, told, ended-told, ended-get_num_open_dependents,
}
use ctaps.Quic.Groups.{
  notify_all, handle_ended_group, for_user, closes, settled, told_all, mark_all, Distinct, Ended,
  opens, close,
}
use ctaps.Quic.Groups.One.{
  mark_as_closed-IsOpenIn, remaining_open, settle-among, ended-closes, ended-for_user,
  settled-settle,
}

-- All connections of the list are open, and another one is.
two-open :
    (c d : Connection) (m : Manager)
    → (c.uuid == d.uuid) ≡ false
    → IsOpenIn c m
    → IsOpenIn d m
    → (get_num_open_dependents m == 1) ≡ false
two-open c d m h o p =
    let n : Manager = settle m (ended was_closed c m) in
    let q : IsOpenIn d n = mark_as_closed-IsOpenIn c d m n (ended-told was_closed c m o).0 h p in
    above (get_num_open_dependents m) (get_num_open_dependents n) _
      (ended-get_num_open_dependents was_closed c m o)
      (ended-get_num_open_dependents was_closed d n q)
  where
    above : (a b c : ℕ) → b + 1 ≡ a → c + 1 ≡ b → (a == 1) ≡ false
    above a b c e f = ground (arith, e, f)

mark_all-connections :
    (cs : List Connection) (m n : Manager)
    → m.all_connections ≡ n.all_connections
    → (mark_all cs m).all_connections ≡ (mark_all cs n).all_connections
unfolding mark_as_closed
mark_all-connections [] m n e = e
mark_all-connections (c ∷ cs) m n e =
    mark_all-connections cs (mark_as_closed c.uuid m) (mark_as_closed c.uuid n)
      (ap (change_connection c.uuid close) e)

notify_all-Ended :
    (e : Ending) (c : Connection) (cs : List Connection) (m : Manager)
    → Distinct (c ∷ cs)
    → All (λ d. IsOpenIn d m) (c ∷ cs)
    → closes m ≡ false
    → Ended e (c ∷ cs) m (settled (notify_all e (c ∷ cs) m))
unfolding notify_all
notify_all-Ended e c [] m h (o, os) n =
    let t = ended-told e c m o in
    subst (Ended e (c ∷ []) m) (sym (settled-settle e c m o n)) (record {
      marked = t.0;
      same_listener = t.1;
      user_told = ended-for_user e c m o;
      socket_closes = ended-closes e c m o n;
    })
notify_all-Ended e c (d ∷ ds) m (h, hs) (o, os) n =
    let p = two-open c d m h.0 o os.0 in
    let m2 : Manager = ended e c m in
    let q : settle m m2 ≡ m2 = settle-among m m2 p in
    let same : m2.all_connections ≡ (mark_as_closed c.uuid m).all_connections =
      ap (λ (x : Manager). x.all_connections) (sym q) ∙ (ended-told e c m o).0 in
    let none_yet : closes m2 ≡ false = ap closes (sym q) ∙ ended-closes e c m o n ∙ p in
    let r = notify_all-Ended e d ds m2 hs (remaining_open c (d ∷ ds) m m2 same h os) none_yet in
    record {
      marked = r.marked ∙ mark_all-connections (d ∷ ds) m2 (mark_as_closed c.uuid m) same;
      same_listener =
          r.same_listener ∙ ap (λ (x : Manager). x.listener) (sym q) ∙ (ended-told e c m o).1;
      user_told =
          r.user_told
          ∙ ap (λ ks. told_all e (d ∷ ds) ++ ks)
              (ap (λ (x : Manager). keep for_user x.calls) (sym q) ∙ ended-for_user e c m o)
          ∙ sym (append_assoc (told_all e (d ∷ ds)) (told e c) (keep for_user m.calls));
      socket_closes =
          r.socket_closes
          ∙ one_less _ _ (length (d ∷ ds)) (
              ap (λ x. get_num_open_dependents x + 1) (sym q)
              ∙ ended-get_num_open_dependents e c m o);
    }
  where
    one_less : (a b n : ℕ) → a + 1 ≡ b → (a == n) ≡ (b == suc n)
    one_less a b n e = ground (arith, e)

opens-IsOpenIn :
    (group : List Connection) (m : Manager)
    → All (λ c. find_connection c.uuid m.all_connections ≡ some c) group
    → All (λ c. IsOpenIn c m) (opens group)
opens-IsOpenIn [] m h = tt
opens-IsOpenIn (c ∷ cs) m (h, hs) =
    let rest = opens-IsOpenIn cs m hs in
    if_cases (All (λ d. IsOpenIn d m)) (not (is_closed c)) (λ p. ((h, ground (arith, p)), rest))
      (λ p. rest)

keep-All :
    (P : Connection → Type 0) (p : Connection → Bool) (cs : List Connection)
    → All P cs
    → All P (keep p cs)
keep-All P p [] h = tt
keep-All P p (c ∷ cs) (h, hs) =
    let rest = keep-All P p cs hs in if_cases (All P) (p c) (λ q. (h, rest)) (λ q. rest)

keep-Distinct : (p : Connection → Bool) (cs : List Connection) → Distinct cs → Distinct (keep p cs)
keep-Distinct p [] h = tt
keep-Distinct p (c ∷ cs) (h, hs) =
    let rest = keep-Distinct p cs hs in
    if_cases Distinct (p c) (λ q. (keep-All (λ d. (c.uuid == d.uuid) ≡ false) p cs h, rest))
      (λ q. rest)

length-keep : (p : Connection → Bool) (cs : List Connection) → length (keep p cs) ≡ count p cs
length-keep p [] = refl
length-keep p (c ∷ cs) = elim (Bool-cases (p c)) [
  | inl q ↦ rw q (ap suc (length-keep p cs))
  | inr q ↦ rw q (length-keep p cs)
]

-- When picoquic says that a QUIC connection is over, closed or aborted, and a connection of its group
-- is still open, then, once the socket has been closed if that was asked for: exactly the group's
-- open connections have been marked closed, in order, the listener is as it was, the user has been
-- called exactly once for each of them, with the callback of that end if it is set, and the socket has
-- been closed exactly if they were all the open dependents. The group's connections have different
-- UUIDs and are in the manager, whose socket had not been closed.
pub handle_ended_group-Ended :
    (e : Ending) (group : List Connection) (m : Manager)
    → Distinct group
    → All (λ c. find_connection c.uuid m.all_connections ≡ some c) group
    → 0 < count (λ c. not (is_closed c)) group
    → closes m ≡ false
    → Ended e (opens group) m (settled (handle_ended_group e group m))
unfolding handle_ended_group
handle_ended_group-Ended e group m h f o n =
    some_open (opens group) (omega (arith, o, length-keep (λ c. not (is_closed c)) group))
      (keep-Distinct _ group h) (opens-IsOpenIn group m f)
  where
    some_open :
        (cs : List Connection)
        → 0 < length cs
        → Distinct cs
        → All (λ c. IsOpenIn c m) cs
        → Ended e cs m (settled (notify_all e cs m))
    some_open [] l g k = ground (arith, l)
    some_open (c ∷ cs) l g k = notify_all-Ended e c cs m g k n
