-- ===== src/Examples/Lifetime.antt =====
-- The theorem on lifetimes, at a concrete input.
use ctaps.Prelude.{arith, ℕ, ◌+◌, ◌<◌, ◌≡◌, refl, ◌↔◌, true, some, List, [], ◌∷◌, count}
use ctaps.Lifetime.{
  Connection, Heap, Op, server, clone, free, listen, unlisten, apply, create_server_connection,
  create_clone, connection_free, listener_new, listener_free, group_new, manager_new, manager_ref,
  manager_unref, manager_add_connection, group_add_connection, group_unref, find, without,
}
use ctaps.Lifetime.Counts.{in_group, uses, one}
use ctaps.Lifetime.Runs.{AllPermitted, apply_all, nothing, apply_all-allocated}

abbrev first : Connection
first = record { uuid = 7; group = some 1; manager = 0 }

abbrev second : Connection
second = record { uuid = 8; group = some 1; manager = 0 }

-- A listener takes a connection, which is cloned; then all but the clone is freed.
abbrev ops : List Op
ops = listen 0 ∷ server 7 1 0 ∷ clone first 8 ∷ free first ∷ unlisten 0 ∷ []

ops-AllPermitted : AllPermitted ops nothing
unfolding apply listener_new manager_new manager_ref create_server_connection group_new
    group_add_connection manager_add_connection create_clone connection_free group_unref
    manager_unref listener_free find without
ops-AllPermitted = (
  refl,
  (
    (refl, refl, omega arith),
    ((refl, 1, refl, refl, omega arith, omega arith), (refl, (refl, tt))),
  ),
)

apply_all-allocated_example :
    (t : Heap) × (apply_all ops nothing ≡ some t)
    × ((i : ℕ) → ((t.groups i).allocated ≡ true) ↔ (0 < count (in_group i) t.connections))
    × ((m : ℕ)
        → ((t.managers m).allocated ≡ true)
          ↔ (0 < count (uses m) t.connections + one (t.managers m).has_listener))
apply_all-allocated_example = apply_all-allocated ops ops-AllPermitted
