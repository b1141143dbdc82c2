-- ===== src/Udp/Routing.antt =====
-- The datagrams of every sender reach its own connection, as if it were alone.
use ctaps.Prelude.{
  ℕ, ◌+◌, ◌<◌, ◌≡◌, refl, sym, ap, subst, ◌∙◌, ◌≢◌, inl, inr, true, false, none, some, List, [],
  ◌∷◌, ◌++◌, arith, if◌then◌else◌, Bool-cases, Option-cases, All, append-nil,
}
use ctaps.SocketManager.Demux.{AddrBytes, key_eq, key_eq_self, key_eq_sound, lookup}
use ctaps.Udp.{Socket, on_protocol_receive}
use ctaps.Udp.Views.{View, messages_of, view}

-- The connections of the table and of the messages have been created, and no two keys of the table
-- share one.
pub record IsValid (s : Socket) : Type 0 where
  pub known : (k : AddrBytes) (c : ℕ) → lookup k s.demux_table ≡ some c → c < s.created
  pub own :
      (k l : AddrBytes) (c : ℕ)
      → lookup k s.demux_table ≡ some c
      → lookup l s.demux_table ≡ some c
      → k ≡ l
  pub heard : All (λ r. r.0 < s.created) s.received

messages_of-append :
    (c : ℕ) (xs ys : List (ℕ × List ℕ))
    → messages_of c (xs ++ ys) ≡ messages_of c xs ++ messages_of c ys
unfolding messages_of
messages_of-append c [] ys = refl
messages_of-append c (x ∷ xs) ys = ground (arith, messages_of-append c xs ys)

-- A connection that has not been created has received nothing.
messages_of-new : (n : ℕ) (xs : List (ℕ × List ℕ)) → All (λ r. r.0 < n) xs → messages_of n xs ≡ []
unfolding messages_of
messages_of-new n [] h = refl
messages_of-new n (x ∷ xs) h = ground (arith, h.0, messages_of-new n xs h.1)

All-append {ℓ κ} :
    {A : Type ℓ} (P : A → Type κ) (xs ys : List A) → All P xs → All P ys → All P (xs ++ ys)
All-append P [] ys h g = g
All-append P (x ∷ xs) ys h g = (h.0, All-append P xs ys h.1 g)

All-later : (n : ℕ) (xs : List (ℕ × List ℕ)) → All (λ r. r.0 < n) xs → All (λ r. r.0 < n + 1) xs
All-later n [] h = tt
All-later n (x ∷ xs) h = (omega (arith, h.0), All-later n xs h.1)

-- A message to a connection that exists.
pub on_protocol_receive-IsValid :
    (c : ℕ) (m : List ℕ) (s : Socket)
    → c < s.created
    → IsValid s
    → IsValid (on_protocol_receive c m s)
on_protocol_receive-IsValid c m s h v = record {
  known = v.known;
  own = v.own;
  heard = All-append (λ r. r.0 < s.created) s.received ((c, m) ∷ []) v.heard (h, tt);
}

messages_of_self : (c : ℕ) (m : List ℕ) → messages_of c ((c, m) ∷ []) ≡ m ∷ []
unfolding messages_of
messages_of_self c m = ground arith

messages_of-other :
    (d c : ℕ) (m : List ℕ) (rs : List (ℕ × List ℕ))
    → d ≢ c
    → messages_of d (rs ++ ((c, m) ∷ [])) ≡ messages_of d rs
messages_of-other d c m rs n =
    messages_of-append d rs ((c, m) ∷ [])
    ∙ ap (λ l. messages_of d rs ++ l) none_here
    ∙ append-nil (messages_of d rs)
  where
    none_here : messages_of d ((c, m) ∷ []) ≡ []
    none_here = unfold messages_of in ground (arith, λ (e : c ≡ d). n (sym e))

abbrev pub with_message : List ℕ → View → View
with_message m v = record v { connected = true; received = v.received ++ (m ∷ []) }

-- The connection of the key `l` receives the message.
pub receive-view :
    (k l : AddrBytes) (c : ℕ) (m : List ℕ) (s : Socket)
    → IsValid s
    → lookup l s.demux_table ≡ some c
    → view k (on_protocol_receive c m s)
      ≡ (if key_eq l k then with_message m (view k s) else view k s)
unfolding view
receive-view k l c m s v h = elim (Bool-cases (key_eq l k)) [
  | inl p ↦
      let e : lookup k s.demux_table ≡ some c =
        subst (λ j. lookup j s.demux_table ≡ some c) (key_eq_sound l k p) h in
      rw (p, e, messages_of-append c s.received ((c, m) ∷ []), messages_of_self c m)
  | inr p ↦ elim (Option-cases (lookup k s.demux_table)) [
    | inl q ↦ rw (p, q)
    | inr (d, q) ↦ rw (p, q, messages_of-other d c m s.received (different d q p))
  ]
]
  where
    different : (d : ℕ) → lookup k s.demux_table ≡ some d → key_eq l k ≡ false → d ≢ c
    different d q p e =
        let same : l ≡ k = v.own l k c h (q ∙ ap some e) in
        absurd (cc (p, key_eq_self l, ap (key_eq l) same))

-- A first message, from an address with the key `l` that the table does not have.
abbrev pub enter : AddrBytes → Socket → Socket
enter l s = record s {
  demux_table = (l, s.created) ∷ s.demux_table;
  created = s.created + 1;
  announced = s.announced ++ (s.created ∷ []);
}

-- One from an address that cannot be entered.
abbrev pub pass : Socket → Socket
pass s = record s { created = s.created + 1; announced = s.announced ++ (s.created ∷ []) }

below_ne : (d n : ℕ) → d < n → d ≢ n
below_ne d n h e = absurd (omega (arith, h, e))

pub enter-view :
    (k l : AddrBytes) (m : List ℕ) (s : Socket)
    → IsValid s
    → lookup l s.demux_table ≡ none
    → view k (on_protocol_receive s.created m (enter l s))
      ≡ (if key_eq l k then with_message m (view k s) else view k s)
unfolding view lookup
enter-view k l m s v h = elim (Bool-cases (key_eq l k)) [
  | inl p ↦
      let e : lookup k s.demux_table ≡ none =
        subst (λ j. lookup j s.demux_table ≡ none) (key_eq_sound l k p) h in
      rw (
        p,
        e,
        messages_of-append s.created s.received ((s.created, m) ∷ []),
        messages_of-new s.created s.received v.heard,
        messages_of_self s.created m,
      )
  | inr p ↦ elim (Option-cases (lookup k s.demux_table)) [
    | inl q ↦ rw (p, q)
    | inr (d, q) ↦
        rw (p, q, messages_of-other d s.created m s.received (below_ne d s.created (v.known k d q)))
  ]
]

pub pass-view :
    (k : AddrBytes) (m : List ℕ) (s : Socket)
    → IsValid s
    → view k (on_protocol_receive s.created m (pass s)) ≡ view k s
unfolding view
pass-view k m s v = elim (Option-cases (lookup k s.demux_table)) [
  | inl q ↦ rw q
  | inr (d, q) ↦
      rw (q, messages_of-other d s.created m s.received (below_ne d s.created (v.known k d q)))
]

pub pass-IsValid : (s : Socket) → IsValid s → IsValid (pass s)
pass-IsValid s v = record {
  known = λ k c h. omega (arith, v.known k c h);
  own = v.own;
  heard = All-later s.created s.received v.heard;
}

pub enter-IsValid : (l : AddrBytes) (s : Socket) → IsValid s → IsValid (enter l s)
unfolding lookup
enter-IsValid l s v = record {
  known = known;
  own = own;
  heard = All-later s.created s.received v.heard;
}
  where
    known :
        (k : AddrBytes) (c : ℕ)
        → lookup k ((l, s.created) ∷ s.demux_table) ≡ some c
        → c < s.created + 1
    known k c h = elim (Bool-cases (key_eq l k)) [
      | inl p ↦ ground (arith, h, p)
      | inr p ↦ ground (arith, p, v.known k c (ground (arith, h, p)))
    ]

    own :
        (k j : AddrBytes) (c : ℕ)
        → lookup k ((l, s.created) ∷ s.demux_table) ≡ some c
        → lookup j ((l, s.created) ∷ s.demux_table) ≡ some c
        → k ≡ j
    own k j c h g = elim (Bool-cases (key_eq l k)) [
      | inl p ↦ elim (Bool-cases (key_eq l j)) [
        | inl q ↦ sym (key_eq_sound l k p) ∙ key_eq_sound l j q
        | inr q ↦ absurd (ground (arith, p, q, h, g, v.known j c (ground (arith, g, q))))
      ]
      | inr p ↦ elim (Bool-cases (key_eq l j)) [
        | inl q ↦ absurd (ground (arith, p, q, h, g, v.known k c (ground (arith, h, p))))
        | inr q ↦ v.own k j c (ground (arith, h, p)) (ground (arith, g, q))
      ]
    ]
