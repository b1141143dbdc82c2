-- ===== src/Quic/Groups/One.antt =====
-- The end of one connection, in a group of which others may follow.
use ctaps.Prelude.{
  ℕ, ◌≡◌, refl, sym, ap, ◌∙◌, inl, inr, Bool, true, false, ◌||◌, some, List, [], ◌∷◌, ◌++◌, arith,
  ◌==◌, if◌then◌else◌, Bool-cases, if_cases, any, keep, All,
}
use ctaps.SocketManager.State.{
  Connection, Call, close_socket, Manager, find_connection, change_connection, mark_as_closed,
  get_num_open_dependents, is_establishing,
}
use ctaps.SocketManager.Callbacks.{
  closed_socket_cb, close_with_reason, closed_connection_cb, aborted_connection_cb,
  establishment_error_cb,
}
use ctaps.SocketManager.Closing.{
  IsOpenIn, Ending, was_closed, was_aborted, was_not_established, ended, settle, told, socket_calls,
  ended-told,
}
use ctaps.Quic.Groups.{is_close_socket, for_user, closes, settled, close}

any-append :
    {A : Type 0} (p : A → Bool) (xs ys : List A) → any p (xs ++ ys) ≡ (any p xs || any p ys)
any-append p [] ys = refl
any-append p (x ∷ xs) ys = ground (arith, any-append p xs ys)

keep-append :
    {A : Type 0} (p : A → Bool) (xs ys : List A) → keep p (xs ++ ys) ≡ keep p xs ++ keep p ys
keep-append p [] ys = refl
keep-append p (x ∷ xs) ys = elim (Bool-cases (p x)) [
  | inl q ↦ rw (q, keep-append p xs ys) refl
  | inr q ↦ rw (q, keep-append p xs ys) refl
]

told-for_user : (e : Ending) (c : Connection) → any is_close_socket (told e c) ≡ false
unfolding told
told-for_user was_closed c =
    if_cases (λ ks. any is_close_socket ks ≡ false) c.on_closed (λ p. refl) (λ p. refl)
told-for_user was_not_established c =
    if_cases (λ ks. any is_close_socket ks ≡ false) c.on_establishment_error (λ p. refl) (λ p. refl)
told-for_user was_aborted c =
    if_cases (λ ks. any is_close_socket ks ≡ false) (is_establishing c)
      (λ q.
        if_cases (λ ks. any is_close_socket ks ≡ false) c.on_establishment_error (λ p. refl)
          (λ p. refl))
      (λ q.
        if_cases (λ ks. any is_close_socket ks ≡ false) c.on_connection_error (λ p. refl)
          (λ p. refl))

keep_all : (ks : List Call) → any is_close_socket ks ≡ false → keep for_user ks ≡ ks
keep_all [] h = refl
keep_all (k ∷ ks) h =
    let o : (is_close_socket k ≡ false) × (any is_close_socket ks ≡ false) = both _ _ h in
    rw o.0 (ap (λ l. k ∷ l) (keep_all ks o.1))
  where
    both : (b c : Bool) → (b || c) ≡ false → (b ≡ false) × (c ≡ false)
    both true c e = cc
    both false c e = (refl, e)

find-others :
    (u v : ℕ) (cs : List Connection)
    → (u == v) ≡ false
    → find_connection v (change_connection u close cs) ≡ find_connection v cs
unfolding find_connection change_connection
find-others u v [] h = refl
find-others u v (c ∷ cs) h = elim (Bool-cases (c.uuid == u)) [
  | inl p ↦ let q : (c.uuid == v) ≡ false = ground (arith, h, p) in rw p (rw q refl)
  | inr p ↦ rw p (ap (λ r. if c.uuid == v then some c else r) (find-others u v cs h))
]

-- The end of one connection leaves the others open.
pub mark_as_closed-IsOpenIn :
    (c d : Connection) (m n : Manager)
    → n.all_connections ≡ (mark_as_closed c.uuid m).all_connections
    → (c.uuid == d.uuid) ≡ false
    → IsOpenIn d m
    → IsOpenIn d n
unfolding mark_as_closed
mark_as_closed-IsOpenIn c d m n e h (f, o) =
    (ap (find_connection d.uuid) e ∙ find-others c.uuid d.uuid m.all_connections h ∙ f, o)

pub remaining_open :
    (c : Connection) (cs : List Connection) (m n : Manager)
    → n.all_connections ≡ (mark_as_closed c.uuid m).all_connections
    → All (λ d. (c.uuid == d.uuid) ≡ false) cs
    → All (λ d. IsOpenIn d m) cs
    → All (λ d. IsOpenIn d n) cs
remaining_open c [] m n e h o = tt
remaining_open c (d ∷ ds) m n e (h, hs) (o, os) =
    (mark_as_closed-IsOpenIn c d m n e h o, remaining_open c ds m n e hs os)

ended-asks :
    (e : Ending) (c : Connection) (m : Manager)
    → (get_num_open_dependents m == 1) ≡ true
    → closes (ended e c m) ≡ true
unfolding ended closed_connection_cb aborted_connection_cb establishment_error_cb close_with_reason
ended-asks was_closed c m p = rw p refl
ended-asks was_aborted c m p = rw p refl
ended-asks was_not_established c m p = rw p refl

told-closes :
    (e : Ending) (c : Connection) (ks : List Call)
    → any is_close_socket (told e c ++ ks) ≡ any is_close_socket ks
told-closes e c ks =
    any-append is_close_socket (told e c) ks
    ∙ ap (λ b. b || any is_close_socket ks) (told-for_user e c)

pub settle-among : (m d : Manager) → (get_num_open_dependents m == 1) ≡ false → settle m d ≡ d
unfolding settle
settle-among m d p = rw p refl

socket_calls-closes :
    (m : Manager) → any is_close_socket (socket_calls m) ≡ (get_num_open_dependents m == 1)
unfolding socket_calls
socket_calls-closes m = by_number (get_num_open_dependents m == 1)
  where
    by_number : (b : Bool) → any is_close_socket (if b then close_socket ∷ [] else []) ≡ b
    by_number true = refl
    by_number false = refl

socket_calls-for_user : (m : Manager) → keep for_user (socket_calls m) ≡ []
unfolding socket_calls
socket_calls-for_user m =
    if_cases (λ ks. keep for_user ks ≡ []) (get_num_open_dependents m == 1) (λ p. refl) (λ p. refl)

-- What has been called when a connection ends.
pub ended-closes :
    (e : Ending) (c : Connection) (m : Manager)
    → IsOpenIn c m
    → closes m ≡ false
    → closes (settle m (ended e c m)) ≡ (get_num_open_dependents m == 1)
ended-closes e c m h o =
    ap (any is_close_socket) (ended-told e c m h).2
    ∙ told-closes e c (socket_calls m ++ m.calls)
    ∙ any-append is_close_socket (socket_calls m) m.calls
    ∙ ap (λ b. any is_close_socket (socket_calls m) || b) o
    ∙ or_false (any is_close_socket (socket_calls m))
    ∙ socket_calls-closes m
  where
    or_false : (b : Bool) → (b || false) ≡ b
    or_false b = ground arith

pub ended-for_user :
    (e : Ending) (c : Connection) (m : Manager)
    → IsOpenIn c m
    → keep for_user (settle m (ended e c m)).calls ≡ told e c ++ keep for_user m.calls
ended-for_user e c m h =
    ap (keep for_user) (ended-told e c m h).2
    ∙ keep-append for_user (told e c) (socket_calls m ++ m.calls)
    ∙ ap (λ ks. ks ++ keep for_user (socket_calls m ++ m.calls))
        (keep_all (told e c) (told-for_user e c))
    ∙ ap (λ ks. told e c ++ ks)
        (keep-append for_user (socket_calls m) m.calls
          ∙ ap (λ ks. ks ++ keep for_user m.calls) (socket_calls-for_user m))

pub settled-settle :
    (e : Ending) (c : Connection) (m : Manager)
    → IsOpenIn c m
    → closes m ≡ false
    → settled (ended e c m) ≡ settle m (ended e c m)
unfolding settled settle
settled-settle e c m h o =
    ap (λ b. if b then closed_socket_cb (ended e c m) else ended e c m) (by_number _ refl)
  where
    by_number :
        (b : Bool)
        → (get_num_open_dependents m == 1) ≡ b
        → closes (ended e c m) ≡ (get_num_open_dependents m == 1)
    by_number true p = ended-asks e c m p ∙ sym p
    by_number false p = sym (ap closes (settle-among m (ended e c m) p)) ∙ ended-closes e c m h o
