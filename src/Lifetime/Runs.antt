-- ===== src/Lifetime/Runs.antt =====
-- Sequences of what users and peers do.
use ctaps.Prelude.{
  ℕ, ◌+◌, ◌<◌, ◌≡◌, refl, ap, subst, ◌∙◌, ◌↔◌, inr, Bool, true, false, none, some, List, [], ◌∷◌,
  arith, count,
}
use ctaps.Lifetime.{
  Group, Manager, Connection, Heap, Run, then_run, size_max, int_max, has, find, Op, client, server,
  clone, free, listen, unlisten, apply,
}
use ctaps.Lifetime.Counts.{
  in_group, uses, one, IsCounted, count-without, allocated_of_pos, refs_of_allocated,
}
use ctaps.Lifetime.Safety.{Ends, eq_self, client-Ends, server-Ends, clone-Ends}
use ctaps.Lifetime.Freeing.{free-Ends, listen-Ends, unlisten-Ends}

-- What is asked of a step: new memory is not allocated already, a peer's connection comes through a
-- listener, and a connection that is cloned or freed is there; a clone's UUID is new to its group;
-- and the counts that go up have room, of an `int` for the manager and of a `size_t` for the group.
abbrev pub Permitted : Op → Heap → Type 0
Permitted (client u i m) s = ((s.groups i).allocated ≡ false) × ((s.managers m).allocated ≡ false)
Permitted (server u i m) s =
    ((s.groups i).allocated ≡ false)
    × ((s.managers m).has_listener ≡ true)
    × ((s.managers m).ref_count < int_max)
Permitted (clone c u) s =
    (find c.uuid s.connections ≡ some c)
    × (i : ℕ) × (c.group ≡ some i)
    × (has u (s.groups i).connections ≡ false)
    × ((s.groups i).ref_count < size_max)
    × ((s.managers c.manager).ref_count < int_max)
Permitted (free c) s = find c.uuid s.connections ≡ some c
Permitted (listen m) s = (s.managers m).allocated ≡ false
Permitted (unlisten m) s = (s.managers m).has_listener ≡ true

unfoldable pub apply_all : List Op → Heap → Run
apply_all [] s = some s
apply_all (o ∷ os) s = then_run (apply o s) (apply_all os)

abbrev pub After : Run → (Heap → Type 0) → Type 0
After none P = Unit {0}
After (some t) P = P t

abbrev pub AllPermitted : List Op → Heap → Type 0
AllPermitted [] s = Unit {0}
AllPermitted (o ∷ os) s = Permitted o s × After (apply o s) (AllPermitted os)

count_pos :
    (p : Connection → Bool) (s : Heap) (c : Connection)
    → find c.uuid s.connections ≡ some c
    → p c ≡ true
    → 0 < count p s.connections
count_pos p s c f h = ground (arith, h, count-without p c.uuid s.connections c f)

apply-Ends : (o : Op) (s : Heap) → IsCounted s → Permitted o s → Ends (apply o s)
unfolding apply
apply-Ends (client u i m) s v p = client-Ends s v u i m p.0 p.1
apply-Ends (server u i m) s v p =
    server-Ends s v u i m p.0 (allocated_of_pos (v.managers m) (ground (arith, p.1))) p.2
apply-Ends (clone c u) s v (f, i, g, n, k, l) =
    clone-Ends s v u i c f g n
      (allocated_of_pos (v.groups i) (count_pos (in_group i) s c f (rw g (eq_self i))))
      (allocated_of_pos (v.managers c.manager)
        (ground (arith, count_pos (uses c.manager) s c f (eq_self c.manager))))
      k l
apply-Ends (free c) s v p = free-Ends s v c p
apply-Ends (listen m) s v p = listen-Ends s v m p
apply-Ends (unlisten m) s v p = unlisten-Ends s v m p

apply_all-Ends : (os : List Op) (s : Heap) → IsCounted s → AllPermitted os s → Ends (apply_all os s)
unfolding apply_all
apply_all-Ends [] s v p = (s, refl, v)
apply_all-Ends (o ∷ os) s v p =
    let (t, e, w) = apply-Ends o s v p.0 in
    let (r, f, x) = apply_all-Ends os t w (subst (λ y. After y (AllPermitted os)) e p.1) in
    (r, ap (λ y. then_run y (apply_all os)) e ∙ f, x)

abbrev pub no_group : Group
no_group = record { ref_count = 0; connections = []; allocated = false }

abbrev pub no_manager : Manager
no_manager = record { ref_count = 0; all_connections = []; has_listener = false; allocated = false }

abbrev pub nothing : Heap
nothing = record { groups = λ i. no_group; managers = λ m. no_manager; connections = [] }

nothing-IsCounted : IsCounted nothing
nothing-IsCounted = record {
  groups = λ i. inr (refl, refl);
  managers = λ m. inr (refl, omega arith);
}

-- Any sequence of making, cloning and freeing connections and of making and freeing listeners runs
-- without the use of memory that is not allocated: from nothing allocated, with addresses that are
-- free for what is made, UUIDs that are new to their groups, counts that have room (fewer than
-- 2 ^ 31 - 1 references to a socket manager), and each connection and listener freed
-- at most once and not used after that. At its end exactly those groups are allocated that a
-- connection belongs to, and exactly those socket managers that a connection or a listener uses.
pub apply_all-allocated :
    (os : List Op)
    → AllPermitted os nothing
    → (t : Heap) × (apply_all os nothing ≡ some t)
      × ((i : ℕ) → ((t.groups i).allocated ≡ true) ↔ (0 < count (in_group i) t.connections))
      × ((m : ℕ)
          → ((t.managers m).allocated ≡ true)
            ↔ (0 < count (uses m) t.connections + one (t.managers m).has_listener))
apply_all-allocated os p =
    let (t, e, v) = apply_all-Ends os nothing nothing-IsCounted p in
    (
      t,
      e,
      λ i. ((λ a. (refs_of_allocated (v.groups i) a).1), allocated_of_pos (v.groups i)),
      λ m. ((λ a. (refs_of_allocated (v.managers m) a).1), allocated_of_pos (v.managers m)),
    )
