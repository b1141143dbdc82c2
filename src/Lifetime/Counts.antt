-- ===== src/Lifetime/Counts.antt =====
-- The reference counts are the numbers of those that refer.
use ctaps.Prelude.{
  ℕ, zero, suc, ◌+◌, ◌<◌, ◌≡◌, refl, sym, subst, ◌⊎◌, inl, inr, Bool, true, false, not, Option,
  none, some, List, [], ◌∷◌, arith, ◌==◌, if◌then◌else◌, ==_iff, Bool-cases, count,
}
use ctaps.Lifetime.{Group, Manager, Connection, Heap, update, decrement, find, without}

abbrev pub in_group : ℕ → Connection → Bool
in_group i c = elim c.group [ none ↦ false | some j ↦ j == i ]

abbrev pub uses : ℕ → Connection → Bool
uses m c = c.manager == m

abbrev pub one : Bool → ℕ
one b = if b then 1 else 0

-- Allocated with a count of all that refer to it, at least one; or not, and nothing refers to it.
abbrev pub Counts : Bool → ℕ → ℕ → Type 0
Counts allocated refs n =
    ((allocated ≡ true) × (refs ≡ n) × (0 < n)) ⊎ ((allocated ≡ false) × (n ≡ 0))

pub record IsCounted (s : Heap) : Type 0 where
  pub groups :
      (i : ℕ)
      → Counts (s.groups i).allocated (s.groups i).ref_count (count (in_group i) s.connections)
  pub managers :
      (m : ℕ)
      → Counts
          (s.managers m).allocated
          (s.managers m).ref_count
          (count (uses m) s.connections + one (s.managers m).has_listener)

pub count-without :
    (p : Connection → Bool) (u : ℕ) (cs : List Connection) (c : Connection)
    → find u cs ≡ some c
    → count p (without u cs) + one (p c) ≡ count p cs
unfolding find without
count-without p u [] c h = cc
count-without p u (x ∷ cs) c h = elim (Bool-cases (x.uuid == u)) [
  | inl e ↦ ground (arith, h, e)
  | inr e ↦ ground (arith, e, count-without p u cs c (ground (arith, h, e)))
]

module _ {a : Bool} {r n : ℕ} (k : Counts a r n) where
  pub zero_of_free : a ≡ false → n ≡ 0
  zero_of_free h = elim k [ inl x ↦ absurd (cc (h, x.0)) | inr x ↦ x.1 ]

  pub refs_of_allocated : a ≡ true → (r ≡ n) × (0 < n)
  refs_of_allocated h = elim k [ inl x ↦ (x.1, x.2) | inr x ↦ absurd (cc (h, x.0)) ]

  pub allocated_of_pos : 0 < n → a ≡ true
  allocated_of_pos h = elim k [ inl x ↦ x.0 | inr x ↦ absurd (omega (arith, h, x.1)) ]

-- One reference less.
pub decrement-Counts :
    (below r n n' : ℕ)
    → r ≡ n
    → n' + 1 ≡ n
    → Counts (not (decrement below r == 0)) (decrement below r) n'
decrement-Counts below zero n n' e f = absurd (omega (arith, e, f))
decrement-Counts below (suc r) n n' e f = elim (Bool-cases (r == 0)) [
  | inl p ↦ rw p (inr (refl, ground (arith, e, f, p)))
  | inr p ↦ rw p (inl (refl, omega (arith, e, f), ground (arith, e, f, p)))
]

abbrev pub GroupCounts : (ℕ → Group) → List Connection → ℕ → Type 0
GroupCounts f cs j = Counts (f j).allocated (f j).ref_count (count (in_group j) cs)

abbrev pub ManagerCounts : (ℕ → Manager) → List Connection → ℕ → Type 0
ManagerCounts f cs j =
    Counts (f j).allocated (f j).ref_count (count (uses j) cs + one (f j).has_listener)

-- A new member of the group `i`.
pub join-group :
    (f : ℕ → Group) (g : Group) (i u m : ℕ) (cs : List Connection)
    → g.allocated ≡ true
    → g.ref_count ≡ count (in_group i) cs + 1
    → ((j : ℕ) → (j == i) ≡ false → GroupCounts f cs j)
    → (j : ℕ) → GroupCounts (update f i g) (record { uuid = u; group = some i; manager = m } ∷ cs) j
join-group f g i u m cs a r h j = elim (Bool-cases (j == i)) [
  | inl p ↦
      let e : j ≡ i = (==_iff j i).0 p in
      let self : (i == i) ≡ true = ground arith in
      subst
        (λ k. GroupCounts (update f i g) (record { uuid = u; group = some i; manager = m } ∷ cs) k)
        (sym e) (rw self (inl (a, omega (arith, r), omega arith)))
  | inr p ↦ let q : (i == j) ≡ false = ground (arith, p) in rw (p, q) (h j p)
]

-- A new user of the manager `m`.
pub join-manager :
    (f : ℕ → Manager) (x : Manager) (u m : ℕ) (g : Option ℕ) (cs : List Connection)
    → x.allocated ≡ true
    → x.ref_count ≡ count (uses m) cs + one x.has_listener + 1
    → ((j : ℕ) → (j == m) ≡ false → ManagerCounts f cs j)
    → (j : ℕ) → ManagerCounts (update f m x) (record { uuid = u; group = g; manager = m } ∷ cs) j
join-manager f x u m g cs a r h j = elim (Bool-cases (j == m)) [
  | inl p ↦
      let e : j ≡ m = (==_iff j m).0 p in
      let self : (m == m) ≡ true = ground arith in
      subst (λ k. ManagerCounts (update f m x) (record { uuid = u; group = g; manager = m } ∷ cs) k)
        (sym e) (rw self (inl (a, omega (arith, r), omega arith)))
  | inr p ↦ let q : (m == j) ≡ false = ground (arith, p) in rw (p, q) (h j p)
]

module _ (cs : List Connection) where
  pub update-GroupCounts :
      (f : ℕ → Group) (g : Group) (i : ℕ)
      → Counts g.allocated g.ref_count (count (in_group i) cs)
      → ((j : ℕ) → (j == i) ≡ false → GroupCounts f cs j)
      → (j : ℕ) → GroupCounts (update f i g) cs j
  update-GroupCounts f g i k h j = elim (Bool-cases (j == i)) [
    | inl p ↦
        let self : (i == i) ≡ true = ground arith in
        subst (λ n. GroupCounts (update f i g) cs n) (sym ((==_iff j i).0 p)) (rw self k)
    | inr p ↦ rw p (h j p)
  ]

  pub update-ManagerCounts :
      (f : ℕ → Manager) (x : Manager) (m : ℕ)
      → Counts x.allocated x.ref_count (count (uses m) cs + one x.has_listener)
      → ((j : ℕ) → (j == m) ≡ false → ManagerCounts f cs j)
      → (j : ℕ) → ManagerCounts (update f m x) cs j
  update-ManagerCounts f x m k h j = elim (Bool-cases (j == m)) [
    | inl p ↦
        let self : (m == m) ≡ true = ground arith in
        subst (λ n. ManagerCounts (update f m x) cs n) (sym ((==_iff j m).0 p)) (rw self k)
    | inr p ↦ rw p (h j p)
  ]
