-- ===== src/Lifetime.antt =====
-- How long connections, their groups and socket managers, and listeners live: the making and freeing
-- in src/connection/connection.c, and the reference counts of src/connection/connection_group.c and
-- src/connection/socket_manager/socket_manager.c. Allocations succeed here; an address is a number.
use ctaps.Prelude.{
  ℕ, zero, suc, ◌+◌, ◌-◌, ◌*◌, ◌%◌, ◌^◌, ◌≤◌, ◌<◌, ◌≡◌, refl, sym, ap, subst, ◌∙◌, ◌≢◌, ◌↔◌, ◌⊎◌,
  inl, inr, Bool, true, false, not, ◌&&◌, ◌||◌, Option, none, some, List, [], ◌∷◌, ◌++◌, map, arith,
  ltb, leb, ◌==◌, if◌then◌else◌, ==_iff, Bool-cases, if_cases, Option-cases, is_some, u64, length,
  get_elem?, modify, take, drop, count, any, keep, All, length-append, append-nil, append_assoc,
  length-modify, get_elem?-modify, get_elem?-modify_ne, lt_of_get_elem?, count-append,
  count-modify_eq, count-modify_drop, bytes_eq, bytes_eq_sound, bytes_eq_refl, Result, ok, err,
  ◌>>=◌, Result-cases, enoent, eio, enomem, eexist, einval, epipe, enotsup,
}
pub mod Counts
pub mod Safety
pub mod Freeing
pub mod Runs

-- A group with the UUIDs of its hash table; `allocated` is false before its `malloc` and after its
-- `free`.
pub record Group : Type 0 where
  pub ref_count : ℕ
  pub connections : List ℕ
  pub allocated : Bool

pub record Manager : Type 0 where
  pub ref_count : ℕ
  pub all_connections : List ℕ
  pub has_listener : Bool
  pub allocated : Bool

-- `none` is a null pointer to the group.
pub record Connection : Type 0 where
  pub uuid : ℕ
  pub group : Option ℕ
  pub manager : ℕ

-- The connections are those that are allocated.
pub record Heap : Type 0 where
  pub groups : ℕ → Group
  pub managers : ℕ → Manager
  pub connections : List Connection

abbrev pub update {ℓ} : {A : Type ℓ} → (ℕ → A) → ℕ → A → ℕ → A
update f i v j = if j == i then v else f j

-- `none` is a fault, the use of memory that is not allocated.
abbrev pub Run : Type 0
Run = Option Heap

abbrev pub then_run : Run → (Heap → Run) → Run
then_run none f = none
then_run (some s) f = f s

-- `--` of a counter, and what it leaves of zero: the largest value of a `size_t`, and -1, by its 32
-- bits, of an `int`.
abbrev pub decrement : ℕ → ℕ → ℕ
decrement below zero = below
decrement below (suc n) = n

abbrev pub size_max : ℕ
size_max = 18446744073709551615

abbrev pub minus_one : ℕ
minus_one = 4294967295

-- The manager's count is an `int`, whose overflow is a fault.
abbrev pub int_max : ℕ
int_max = 2147483647

abbrev pub can_refer : Manager → Bool
can_refer x = x.allocated && ltb x.ref_count int_max

abbrev pub set_group : ℕ → Group → Heap → Heap
set_group i g s = record s { groups = update s.groups i g }

abbrev pub set_manager : ℕ → Manager → Heap → Heap
set_manager m x s = record s { managers = update s.managers m x }

unfoldable pub group_new : ℕ → Heap → Heap
group_new i = set_group i (record { ref_count = 0; connections = []; allocated = true })

unfoldable pub manager_new : ℕ → Bool → Heap → Heap
manager_new m listener =
    set_manager m
      (record { ref_count = 0; all_connections = []; has_listener = listener; allocated = true })

unfoldable pub manager_ref : ℕ → Heap → Run
manager_ref m s =
    let x = s.managers m in
    if can_refer x then some (set_manager m (record x { ref_count = x.ref_count + 1 }) s) else none

unfoldable pub manager_add_connection : ℕ → ℕ → Heap → Run
manager_add_connection m u s =
    let x = s.managers m in
    if can_refer x
    then some (
        set_manager m
          (record x { all_connections = u ∷ x.all_connections; ref_count = x.ref_count + 1 }) s)
    else none

-- The last reference frees the manager.
unfoldable pub manager_unref : ℕ → Heap → Run
manager_unref m s =
    let x = s.managers m in
    let n = decrement minus_one x.ref_count in
    if x.allocated
    then some (set_manager m (record x { ref_count = n; allocated = not (n == 0) }) s)
    else none

abbrev pub has : ℕ → List ℕ → Bool
has u us = any (λ v. v == u) us

-- A connection is made a member of a group. A UUID that the group has already leaves the
-- connection without a group.
unfoldable pub group_add_connection : ℕ → ℕ → ℕ → Heap → Run
group_add_connection i u m s =
    let g = s.groups i in
    if not g.allocated
    then none
    else if has u g.connections
    then some
        (record s { connections = record { uuid = u; group = none; manager = m } ∷ s.connections })
    else some
        (record (set_group i
          (record g { connections = u ∷ g.connections; ref_count = u64 (g.ref_count + 1) }) s) {
            connections = record { uuid = u; group = some i; manager = m } ∷ s.connections;
          })

-- With the last reference the protocol frees its state, through the manager, and the group goes.
abbrev pub left_group : ℕ → Group → Group
left_group u g = record g {
  connections = keep (λ v. not (v == u)) g.connections;
  ref_count = decrement size_max g.ref_count;
  allocated = not (decrement size_max g.ref_count == 0);
}

unfoldable pub group_unref : Option ℕ → Connection → Heap → Run
group_unref none c s = some s
group_unref (some i) c s =
    let g = s.groups i in
    if not g.allocated
    then none
    else if decrement size_max g.ref_count == 0 && not (s.managers c.manager).allocated
    then none
    else some (set_group i (left_group c.uuid g) s)

abbrev pub leave_manager : Connection → Heap → Heap
leave_manager c s =
    let x = s.managers c.manager in
    set_manager c.manager
      (record x { all_connections = keep (λ v. not (v == c.uuid)) x.all_connections }) s

unfoldable pub find : ℕ → List Connection → Option Connection
find u [] = none
find u (c ∷ cs) = let rest = find u cs in if c.uuid == u then some c else rest

unfoldable pub without : ℕ → List Connection → List Connection
without u [] = []
without u (c ∷ cs) = let rest = without u cs in if c.uuid == u then cs else c ∷ rest

abbrev pub drop_connection : Connection → Heap → Heap
drop_connection c s = record s { connections = without c.uuid s.connections }

unfoldable pub connection_free : Connection → Heap → Run
unfolding without
connection_free c s =
    then_run (group_unref c.group c s) (λ t.
      then_run (manager_unref c.manager (leave_manager c t)) (λ v. some (drop_connection c v)))

-- ct_connection_create_client, ct_connection_create_server_connection and
-- ct_connection_create_clone, where the clone takes the manager of its source.
unfoldable pub create_client : ℕ → ℕ → ℕ → Heap → Run
unfolding manager_new group_new group_add_connection manager_add_connection
create_client u i m s =
    then_run (group_add_connection i u m (group_new i (manager_new m false s)))
      (manager_add_connection m u)

unfoldable pub create_server_connection : ℕ → ℕ → ℕ → Heap → Run
unfolding group_new group_add_connection manager_add_connection
create_server_connection u i m s =
    then_run (group_add_connection i u m (group_new i s)) (manager_add_connection m u)

unfoldable pub create_clone : Connection → ℕ → Heap → Run
unfolding group_add_connection manager_add_connection
create_clone c u s =
    then_run (manager_add_connection c.manager u s)
      (λ t. elim c.group [ none ↦ none | some i ↦ group_add_connection i u c.manager t ])

unfoldable pub listener_new : ℕ → Heap → Run
unfolding manager_new
listener_new m s = manager_ref m (manager_new m true s)

unfoldable pub listener_free : ℕ → Heap → Run
listener_free m s =
    let x = s.managers m in
    if not x.has_listener
    then none
    else manager_unref m (set_manager m (record x { has_listener = false }) s)

-- What the users and the peers do.
pub data Op : Type 0 where
  client server : ℕ → ℕ → ℕ → Op
  clone : Connection → ℕ → Op
  free : Connection → Op
  listen unlisten : ℕ → Op

unfoldable pub apply : Op → Heap → Run
apply (client u i m) s = create_client u i m s
apply (server u i m) s = create_server_connection u i m s
apply (clone c u) s = create_clone c u s
apply (free c) s = connection_free c s
apply (listen m) s = listener_new m s
apply (unlisten m) s = listener_free m s
