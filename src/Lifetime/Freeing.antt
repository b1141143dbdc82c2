-- ===== src/Lifetime/Freeing.antt =====
-- The freeing of a connection and of a listener.
use ctaps.Prelude.{
  ℕ, ◌+◌, ◌<◌, ◌≡◌, refl, ap, subst, ◌∙◌, inl, Bool, true, false, not, ◌&&◌, Option, none, some,
  List, [], arith, ◌==◌, count,
}
use ctaps.Lifetime.{
  Group, Manager, Connection, Heap, update, Run, then_run, decrement, size_max, minus_one,
  set_group, set_manager, manager_new, manager_ref, manager_unref, left_group, group_unref,
  leave_manager, find, without, drop_connection, connection_free, listener_new, listener_free,
}
use ctaps.Lifetime.Counts.{
  in_group, uses, one, Counts, IsCounted, count-without, zero_of_free, refs_of_allocated,
  allocated_of_pos, decrement-Counts, GroupCounts, ManagerCounts, update-GroupCounts,
  update-ManagerCounts,
}
use ctaps.Lifetime.Safety.{Ends, if_false, eq_self, manager_unref-runs}

abbrev unreferred : Manager → Manager
unreferred x = record x {
  ref_count = decrement minus_one x.ref_count;
  allocated = not (decrement minus_one x.ref_count == 0);
}

group_unref-runs :
    (i : ℕ) (c : Connection) (s : Heap)
    → (s.groups i).allocated ≡ true
    → (s.managers c.manager).allocated ≡ true
    → group_unref (some i) c s ≡ some (set_group i (left_group c.uuid (s.groups i)) s)
unfolding group_unref
group_unref-runs i c s a b =
    if_false (not (s.groups i).allocated) _ _ (ground (arith, a))
    ∙ if_false
        (decrement size_max (s.groups i).ref_count == 0 && not (s.managers c.manager).allocated) _ _
        (ground (arith, b))

module _ (s : Heap) (v : IsCounted s) (c : Connection)
    (f : find c.uuid s.connections ≡ some c) where
  abbrev fewer : List Connection
  fewer = without c.uuid s.connections

  user : 0 < count (uses c.manager) s.connections
  user =
      let e = count-without (uses c.manager) c.uuid s.connections c f in
      ground (arith, e, eq_self c.manager)

  manager_allocated : (s.managers c.manager).allocated ≡ true
  manager_allocated = allocated_of_pos (v.managers c.manager) (omega (arith, user))

  in_it : (i : ℕ) → c.group ≡ some i → in_group i c ≡ true
  in_it i g = rw g (eq_self i)

  member_allocated : (i : ℕ) → c.group ≡ some i → (s.groups i).allocated ≡ true
  member_allocated i g =
      let e = count-without (in_group i) c.uuid s.connections c f in
      allocated_of_pos (v.groups i) (ground (arith, e, in_it i g))

  -- The groups after the connection has left its own.
  abbrev groups_after : Option ℕ → ℕ → Group
  groups_after none = s.groups
  groups_after (some i) = update s.groups i (left_group c.uuid (s.groups i))

  outside : (p : Connection → Bool) → p c ≡ false → count p s.connections ≡ count p fewer
  outside p h = ground (arith, h, count-without p c.uuid s.connections c f)

  inside : (p : Connection → Bool) → p c ≡ true → count p fewer + 1 ≡ count p s.connections
  inside p h = ground (arith, h, count-without p c.uuid s.connections c f)

  left-GroupCounts : (o : Option ℕ) → c.group ≡ o → (j : ℕ) → GroupCounts (groups_after o) fewer j
  left-GroupCounts none g j =
      subst (Counts (s.groups j).allocated (s.groups j).ref_count)
        (outside (in_group j) (in_none j)) (v.groups j)
    where
      in_none : (k : ℕ) → in_group k c ≡ false
      in_none k = rw g
  left-GroupCounts (some i) g j =
      update-GroupCounts fewer s.groups (left_group c.uuid (s.groups i)) i
        (decrement-Counts size_max (s.groups i).ref_count (count (in_group i) s.connections)
          (count (in_group i) fewer) (refs_of_allocated (v.groups i) (member_allocated i g)).0
          (inside (in_group i) (in_it i g)))
        (λ k p.
          subst (Counts (s.groups k).allocated (s.groups k).ref_count)
            (outside (in_group k) (in_other k p)) (v.groups k))
        j
    where
      in_other : (k : ℕ) → (k == i) ≡ false → in_group k c ≡ false
      in_other k p = rw g (ground (arith, p))

  -- The heap after the connection has left its group, and the manager after it has left.
  abbrev left : Option ℕ → Heap
  left o = leave_manager c (record s { groups = groups_after o })

  abbrev manager_after : Option ℕ → Manager
  manager_after o = unreferred ((left o).managers c.manager)

  group_left :
      (o : Option ℕ) → c.group ≡ o → group_unref o c s ≡ some (record s { groups = groups_after o })
  group_left none g = unfold group_unref in refl
  group_left (some i) g = group_unref-runs i c s (member_allocated i g) manager_allocated

  left-ManagerCounts :
      (o : Option ℕ) (j : ℕ)
      → ManagerCounts (update (left o).managers c.manager (manager_after o)) fewer j
  left-ManagerCounts o =
      update-ManagerCounts fewer (left o).managers (manager_after o) c.manager
        (rw (eq_self c.manager) (
          decrement-Counts minus_one (s.managers c.manager).ref_count
            (count (uses c.manager) s.connections + one (s.managers c.manager).has_listener)
            (count (uses c.manager) fewer + one (s.managers c.manager).has_listener)
            (refs_of_allocated (v.managers c.manager) manager_allocated).0
            (omega (arith, inside (uses c.manager) (eq_self c.manager)))))
        (λ k p. rw p (
          subst
            (λ n.
              Counts (s.managers k).allocated (s.managers k).ref_count
                (n + one (s.managers k).has_listener))
            (outside (uses k) (ground (arith, p))) (v.managers k)))

  pub free-Ends : Ends (connection_free c s)
  unfolding connection_free
  free-Ends = go c.group refl
    where
      last :
          (o : Option ℕ)
          → manager_unref c.manager (left o)
            ≡ some (set_manager c.manager (manager_after o) (left o))
      last o = manager_unref-runs c.manager (left o) (rw (eq_self c.manager) manager_allocated)

      rest : Heap → Run
      rest t =
          then_run (manager_unref c.manager (leave_manager c t)) (λ w. some (drop_connection c w))

      go : (o : Option ℕ) → c.group ≡ o → Ends (connection_free c s)
      go o g = (
        drop_connection c (set_manager c.manager (manager_after o) (left o)),
        ap (λ r. then_run r rest) (ap (λ x. group_unref x c s) g ∙ group_left o g)
            ∙ ap (λ r. then_run r (λ w. some (drop_connection c w))) (last o),
        record { groups = left-GroupCounts o g; managers = left-ManagerCounts o },
      )

module _ (s : Heap) (v : IsCounted s) (m : ℕ) where
  abbrev new_manager : Manager
  new_manager = record {
    ref_count = 0;
    all_connections = [];
    has_listener = true;
    allocated = true;
  }

  abbrev kept_manager : Manager
  kept_manager = record {
    ref_count = 1;
    all_connections = [];
    has_listener = true;
    allocated = true;
  }

  pub listen-Ends : (s.managers m).allocated ≡ false → Ends (listener_new m s)
  unfolding listener_new manager_new manager_ref
  listen-Ends a =
      let zero_users = zero_of_free (v.managers m) a in
      (
        record s { managers = update (update s.managers m new_manager) m kept_manager },
        rw (eq_self m),
        record {
          groups = v.groups;
          managers =
              update-ManagerCounts s.connections (update s.managers m new_manager) kept_manager m
                (inl (refl, omega (arith, zero_users), omega arith)) (λ j p. rw p (v.managers j));
        },
      )

  abbrev unheard : Manager
  unheard = record (s.managers m) { has_listener = false }

  abbrev without_listener : Heap
  without_listener = set_manager m unheard s

  pub unlisten-Ends : (s.managers m).has_listener ≡ true → Ends (listener_free m s)
  unfolding listener_free
  unlisten-Ends l =
      let n = count (uses m) s.connections in
      let a = allocated_of_pos (v.managers m) (ground (arith, l)) in
      let r = refs_of_allocated (v.managers m) a in
      (
        set_manager m (unreferred (without_listener.managers m)) without_listener,
        if_false (not (s.managers m).has_listener) _ _ (ground (arith, l))
            ∙ manager_unref-runs m without_listener (rw (eq_self m) a),
        record {
          groups = v.groups;
          managers =
              update-ManagerCounts s.connections without_listener.managers
                (unreferred (without_listener.managers m)) m
                (rw (eq_self m) (
                  decrement-Counts minus_one (s.managers m).ref_count (n + 1) (n + 0)
                    (ground (arith, r.0, l)) (omega arith)))
                (λ j p. rw p (v.managers j));
        },
      )
