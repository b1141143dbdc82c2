-- ===== src/Lifetime/Safety.antt =====
-- No memory is used that is not allocated, and none is left that nobody refers to.
use ctaps.Prelude.{
  ◌<◌, ℕ, ◌+◌, ◌≡◌, refl, ap, ◌∙◌, Bool, true, false, not, none, some, [], ◌∷◌, arith, ◌==◌, u64,
  if◌then◌else◌,
}
use ctaps.Lifetime.{
  Group, Manager, Connection, Heap, update, Run, then_run, decrement, size_max, minus_one, int_max,
  can_refer, set_manager, group_new, manager_new, manager_add_connection, manager_unref, has,
  group_add_connection, find, create_client, create_server_connection, create_clone,
}
use ctaps.Lifetime.Counts.{IsCounted, zero_of_free, refs_of_allocated, join-group, join-manager}

pub eq_self : (n : ℕ) → (n == n) ≡ true
eq_self n = ground arith

-- A run that ends, in a heap whose counts are right.
abbrev pub Ends : Run → Type 0
Ends r = (t : Heap) × (r ≡ some t) × IsCounted t

pub if_true {ℓ} : {A : Type ℓ} (b : Bool) (x y : A) → b ≡ true → (if b then x else y) ≡ x
if_true b x y h = rw h

pub if_false {ℓ} : {A : Type ℓ} (b : Bool) (x y : A) → b ≡ false → (if b then x else y) ≡ y
if_false b x y h = rw h

-- What the parts do where the memory that they use is allocated.
abbrev referred : ℕ → Manager → Manager
referred u x = record x { all_connections = u ∷ x.all_connections; ref_count = x.ref_count + 1 }

manager_add-runs :
    (m u : ℕ) (s : Heap)
    → (s.managers m).allocated ≡ true
    → (s.managers m).ref_count < int_max
    → manager_add_connection m u s ≡ some (set_manager m (referred u (s.managers m)) s)
unfolding manager_add_connection
manager_add-runs m u s h l = if_true (can_refer (s.managers m)) _ _ (ground (arith, h, l))

abbrev joined : ℕ → Group → Group
joined u g = record g { connections = u ∷ g.connections; ref_count = u64 (g.ref_count + 1) }

abbrev with_member : ℕ → ℕ → ℕ → Heap → Heap
with_member i u m s = record s {
  groups = update s.groups i (joined u (s.groups i));
  connections = record { uuid = u; group = some i; manager = m } ∷ s.connections;
}

group_add-runs :
    (i u m : ℕ) (s : Heap)
    → (s.groups i).allocated ≡ true
    → has u (s.groups i).connections ≡ false
    → group_add_connection i u m s ≡ some (with_member i u m s)
unfolding group_add_connection
group_add-runs i u m s h g =
    if_false (not (s.groups i).allocated) _ _ (ground (arith, h))
    ∙ if_false (has u (s.groups i).connections) _ _ g

pub manager_unref-runs :
    (m : ℕ) (s : Heap)
    → (s.managers m).allocated ≡ true
    → manager_unref m s
      ≡ some (
          set_manager m
            (record (s.managers m) {
              ref_count = decrement minus_one (s.managers m).ref_count;
              allocated = not (decrement minus_one (s.managers m).ref_count == 0);
            })
            s)
unfolding manager_unref
manager_unref-runs m s h = if_true (s.managers m).allocated _ _ h

module _ (s : Heap) (v : IsCounted s) where
  pub client-Ends :
      (u i m : ℕ)
      → (s.groups i).allocated ≡ false
      → (s.managers m).allocated ≡ false
      → Ends (create_client u i m s)
  unfolding create_client group_new manager_new group_add_connection manager_add_connection
  client-Ends u i m g x =
      let c : Connection = record { uuid = u; group = some i; manager = m } in
      let zero_members = zero_of_free (v.groups i) g in
      let zero_users = zero_of_free (v.managers m) x in
      let g0 : Group = record { ref_count = 0; connections = []; allocated = true } in
      let g1 : Group = record { ref_count = 1; connections = u ∷ []; allocated = true } in
      let x0 : Manager = record {
        ref_count = 0;
        all_connections = [];
        has_listener = false;
        allocated = true;
      } in
      let x1 : Manager = record {
        ref_count = 1;
        all_connections = u ∷ [];
        has_listener = false;
        allocated = true;
      } in
      (
        record {
          groups = update (update s.groups i g0) i g1;
          managers = update (update s.managers m x0) m x1;
          connections = c ∷ s.connections;
        },
        rw (eq_self i, eq_self m),
        record {
          groups =
              join-group (update s.groups i g0) g1 i u m s.connections refl
                (omega (arith, zero_members)) (λ j p. rw p (v.groups j));
          managers =
              join-manager (update s.managers m x0) x1 u m (some i) s.connections refl
                (omega (arith, zero_users)) (λ j p. rw p (v.managers j));
        },
      )

  pub server-Ends :
      (u i m : ℕ)
      → (s.groups i).allocated ≡ false
      → (s.managers m).allocated ≡ true
      → (s.managers m).ref_count < int_max
      → Ends (create_server_connection u i m s)
  unfolding create_server_connection group_new group_add_connection
  server-Ends u i m g x l =
      let c : Connection = record { uuid = u; group = some i; manager = m } in
      let zero_members = zero_of_free (v.groups i) g in
      let r = refs_of_allocated (v.managers m) x in
      let g0 : Group = record { ref_count = 0; connections = []; allocated = true } in
      let g1 : Group = record { ref_count = 1; connections = u ∷ []; allocated = true } in
      let y = s.managers m in
      let y1 : Manager = record y {
        all_connections = u ∷ y.all_connections;
        ref_count = y.ref_count + 1;
      } in
      let t1 : Heap = record {
        groups = update (update s.groups i g0) i g1;
        managers = s.managers;
        connections = c ∷ s.connections;
      } in
      let first : group_add_connection i u m (group_new i s) ≡ some t1 = rw (eq_self i) in
      (
        record {
          groups = update (update s.groups i g0) i g1;
          managers = update s.managers m y1;
          connections = c ∷ s.connections;
        },
        ap (λ r. then_run r (manager_add_connection m u)) first ∙ manager_add-runs m u t1 x l,
        record {
          groups =
              join-group (update s.groups i g0) g1 i u m s.connections refl
                (omega (arith, zero_members)) (λ j p. rw p (v.groups j));
          managers =
              join-manager s.managers y1 u m (some i) s.connections x (omega (arith, r.0))
                (λ j p. v.managers j);
        },
      )

  pub clone-Ends :
      (u i : ℕ) (c : Connection)
      → find c.uuid s.connections ≡ some c
      → c.group ≡ some i
      → has u (s.groups i).connections ≡ false
      → (s.groups i).allocated ≡ true
      → (s.managers c.manager).allocated ≡ true
      → (s.groups i).ref_count < size_max
      → (s.managers c.manager).ref_count < int_max
      → Ends (create_clone c u s)
  unfolding create_clone
  clone-Ends u i c f g n a x k l =
      let rg = refs_of_allocated (v.groups i) a in
      let rm = refs_of_allocated (v.managers c.manager) x in
      let t = set_manager c.manager (referred u (s.managers c.manager)) s in
      (
        with_member i u c.manager t,
        ap
              (λ r.
                then_run r (λ w. elim c.group [
                  | none ↦ none
                  | some k ↦ group_add_connection k u c.manager w
                ]))
              (manager_add-runs c.manager u s x l)
            ∙ in_its_group t
            ∙ group_add-runs i u c.manager t a n,
        record {
          groups =
              join-group s.groups (joined u (s.groups i)) i u c.manager s.connections a
                (counted (s.groups i).ref_count _ rg.0 k) (λ j p. v.groups j);
          managers =
              join-manager s.managers (referred u (s.managers c.manager)) u c.manager (some i)
                s.connections x (omega (arith, rm.0)) (λ j p. v.managers j);
        },
      )
    where
      in_its_group :
          (w : Heap)
          → (elim c.group [ none ↦ none | some k ↦ group_add_connection k u c.manager w ])
            ≡ group_add_connection i u c.manager w
      in_its_group w = rw g

      counted : (r n : ℕ) → r ≡ n → r < size_max → u64 (r + 1) ≡ n + 1
      counted r n e l = omega (arith, e, l)
