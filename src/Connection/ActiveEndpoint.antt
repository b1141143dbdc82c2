-- ===== src/Connection/ActiveEndpoint.antt =====
-- The active endpoint of a connection: ct_connection_set_active_remote_endpoint and its twin for the
-- local endpoint in src/connection/connection.c, and the setter over a group in
-- src/connection/connection_group.c. An endpoint stands by its resolved address, which is all that
-- the setters compare.
pub mod Group
use ctaps.Prelude.{
  ℕ, zero, suc, ◌+◌, ◌-◌, ◌*◌, ◌%◌, ◌^◌, ◌≤◌, ◌<◌, ◌≡◌, refl, sym, ap, subst, ◌∙◌, ◌≢◌, ◌↔◌, ◌⊎◌,
  inl, inr, Bool, true, false, not, ◌&&◌, ◌||◌, Option, none, some, List, [], ◌∷◌, ◌++◌, map, arith,
  ltb, leb, ◌==◌, if◌then◌else◌, ==_iff, Bool-cases, if_cases, Option-cases, is_some, u64, length,
  get_elem?, modify, take, drop, count, any, keep, All, length-append, append-nil, append_assoc,
  length-modify, get_elem?-modify, get_elem?-modify_ne, lt_of_get_elem?, count-append,
  count-modify_eq, count-modify_drop, bytes_eq, bytes_eq_sound, bytes_eq_refl, Result, ok, err,
  ◌>>=◌, Result-cases, enoent, eio, enomem, eexist, einval, epipe, enotsup,
}
use ctaps.Endpoint.Address.{SockAddr, af_inet, af_inet6, sockaddr_equal}

-- The twins differ in nothing but the type of the endpoints.
pub record Endpoints : Type 0 where
  pub all_endpoints : List SockAddr
  pub active_endpoint : ℕ

-- What the allocation and the copy of a new endpoint return.
pub record Copying : Type 0 where
  pub reallocated : Bool
  pub copied : Result (Unit {0})

-- The state, and the variable that the caller points `changed` to.
pub record Setting : Type 0 where
  pub endpoints : Endpoints
  pub changed : Bool

-- The loop over the endpoints, from an index on.
unfoldable pub find_endpoint : SockAddr → List SockAddr → ℕ → Option ℕ
find_endpoint e [] i = none
find_endpoint e (x ∷ xs) i =
    let rest = find_endpoint e xs (suc i) in if sockaddr_equal e x then some i else rest

unfoldable pub append_endpoint : Copying → SockAddr → Setting → Result (Unit {0}) × Setting
append_endpoint k e s = if not k.reallocated then (err enomem, s) else elim k.copied [
  | err rc ↦ (err rc, s)
  | ok _ ↦
      let all = s.endpoints.all_endpoints in
      (
        ok tt,
        record {
          endpoints = record { all_endpoints = all ++ (e ∷ []); active_endpoint = length all };
          changed = true;
        },
      )
]

unfoldable pub set_active_endpoint : Copying → SockAddr → Setting → Result (Unit {0}) × Setting
set_active_endpoint k e s = elim (find_endpoint e s.endpoints.all_endpoints 0) [
  | some i ↦ (
    ok tt,
    record {
      endpoints = record s.endpoints { active_endpoint = i };
      changed = not (i == s.endpoints.active_endpoint);
    },
  )
  | none ↦ append_endpoint k e s
]

-- The group's setter, over the connections in the order of the iteration: every connection writes to
-- the same `changed`, and the last error is returned.
unfoldable pub set_group_endpoint :
    Copying → SockAddr → Bool → List Endpoints → Result (Unit {0}) × (Bool × List Endpoints)
set_group_endpoint k e changed [] = (ok tt, (changed, []))
set_group_endpoint k e changed (c ∷ cs) =
    let one = set_active_endpoint k e (record { endpoints = c; changed = changed }) in
    let rest = set_group_endpoint k e one.1.changed cs in
    (elim rest.0 [ ok _ ↦ one.0 | err rc ↦ err rc ], (rest.1.0, one.1.endpoints ∷ rest.1.1))

unfoldable pub IsInet : SockAddr → Type 0
IsInet a = (a.family ≡ af_inet) ⊎ (a.family ≡ af_inet6)

sockaddr_equal_self : (a : SockAddr) → IsInet a → sockaddr_equal a a ≡ true
unfolding sockaddr_equal IsInet
sockaddr_equal_self a (inl h) =
    ground (arith, h, bytes_eq_refl (take 2 a.rest), bytes_eq_refl (take 4 (drop 2 a.rest)))
sockaddr_equal_self a (inr h) = ground (
  arith,
  h,
  bytes_eq_refl (take 2 a.rest),
  bytes_eq_refl (take 4 (drop 22 a.rest)),
  bytes_eq_refl (take 16 (drop 6 a.rest)),
)

-- The found index is in the list, counted from the start, and holds an equal address.
find_endpoint-found :
    (e : SockAddr) (xs : List SockAddr) (i j : ℕ)
    → find_endpoint e xs i ≡ some j
    → (n : ℕ) × (a : SockAddr) × (j ≡ i + n)
      × (get_elem? xs n ≡ some a)
      × (sockaddr_equal e a ≡ true)
unfolding find_endpoint
find_endpoint-found e [] i j h = cc
find_endpoint-found e (x ∷ xs) i j h = elim (Bool-cases (sockaddr_equal e x)) [
  | inl p ↦ (0, x, ground (arith, h, p), refl, p)
  | inr p ↦
      let (n, a, q, g, m) = find_endpoint-found e xs (suc i) j (ground (arith, h, p)) in
      (suc n, a, omega (arith, q), g, m)
]

-- No address equal to the wanted one is in the list.
find_endpoint-none :
    (e : SockAddr) (xs : List SockAddr) (i : ℕ)
    → find_endpoint e xs i ≡ none
    → any (sockaddr_equal e) xs ≡ false
unfolding find_endpoint
find_endpoint-none e [] i h = refl
find_endpoint-none e (x ∷ xs) i h = elim (Bool-cases (sockaddr_equal e x)) [
  | inl p ↦ ground (arith, h, p)
  | inr p ↦ ground (arith, h, p, find_endpoint-none e xs (suc i))
]

-- The endpoint is the active one.
pub ActiveIs : SockAddr → Endpoints → Type 0
ActiveIs e s =
    (a : SockAddr) × (get_elem? s.all_endpoints s.active_endpoint ≡ some a)
    × (sockaddr_equal e a ≡ true)

-- No known endpoint moves: an index into the old list still leads to the same endpoint.
pub Extends : Endpoints → Endpoints → Type 0
Extends s t =
    (i : ℕ) (a : SockAddr)
    → get_elem? s.all_endpoints i ≡ some a
    → get_elem? t.all_endpoints i ≡ some a

pub Succeeds : SockAddr → Setting → Result (Unit {0}) × Setting → Type 0
Succeeds e s r =
    (r.0 ≡ ok tt)
    × ActiveIs e r.1.endpoints
    × Extends s.endpoints r.1.endpoints
    × (r.1.changed ≡ not (r.1.endpoints.active_endpoint == s.endpoints.active_endpoint))

-- A failure leaves everything as it was, and only comes from the memory for an address that is not
-- yet known.
pub Fails : Copying → SockAddr → Setting → Result (Unit {0}) × Setting → Type 0
Fails k e s r =
    ((rc : ℕ) × (r.0 ≡ err rc))
    × (r.1 ≡ s)
    × (any (sockaddr_equal e) s.endpoints.all_endpoints ≡ false)
    × ((k.reallocated ≡ false) ⊎ ((rc : ℕ) × (k.copied ≡ err rc)))

get_elem?-append :
    (xs ys : List SockAddr) (i : ℕ) (a : SockAddr)
    → get_elem? xs i ≡ some a
    → get_elem? (xs ++ ys) i ≡ some a
get_elem?-append [] ys i a h = cc
get_elem?-append (x ∷ xs) ys zero a h = h
get_elem?-append (x ∷ xs) ys (suc i) a h = get_elem?-append xs ys i a h

get_elem?-last :
    (xs : List SockAddr) (a : SockAddr) → get_elem? (xs ++ (a ∷ [])) (length xs) ≡ some a
get_elem?-last [] a = refl
get_elem?-last (x ∷ xs) a = get_elem?-last xs a

append_endpoint_lem :
    (k : Copying) (e : SockAddr) (s : Setting)
    → IsInet e
    → s.endpoints.active_endpoint < length s.endpoints.all_endpoints
    → any (sockaddr_equal e) s.endpoints.all_endpoints ≡ false
    → Succeeds e s (append_endpoint k e s) ⊎ Fails k e s (append_endpoint k e s)
unfolding append_endpoint Succeeds Fails ActiveIs Extends
append_endpoint_lem k e s f l h = elim (Bool-cases k.reallocated) [
  | inr p ↦ rw p (inr ((enomem, refl), refl, h, inl refl))
  | inl p ↦ elim (Result-cases k.copied) [
    | inr (rc, q) ↦ rw (p, q) (inr ((rc, refl), refl, h, inr (rc, refl)))
    | inl (u, q) ↦
        rw (p, q)
          (inl (
            refl,
            (e, get_elem?-last s.endpoints.all_endpoints e, sockaddr_equal_self e f),
            (λ i a. get_elem?-append s.endpoints.all_endpoints (e ∷ []) i a),
            ground arith,
          ))
  ]
]

-- To set the active endpoint to an Internet address makes that the active endpoint, keeps every known
-- endpoint at its index, and tells in `changed` whether the active index moved, if the index was in
-- bounds before; otherwise it returns an error, changes nothing, and the address is a new one whose
-- allocation or copy failed.
pub set_active_endpoint_lem :
    (k : Copying) (e : SockAddr) (s : Setting)
    → IsInet e
    → s.endpoints.active_endpoint < length s.endpoints.all_endpoints
    → Succeeds e s (set_active_endpoint k e s) ⊎ Fails k e s (set_active_endpoint k e s)
unfolding set_active_endpoint Succeeds ActiveIs Extends
set_active_endpoint_lem k e s f l =
    elim (Option-cases (find_endpoint e s.endpoints.all_endpoints 0)) [
      | inl p ↦
          rw (p, set_active_endpoint)
            (append_endpoint_lem k e s f l (find_endpoint-none e s.endpoints.all_endpoints 0 p))
      | inr (j, p) ↦
          let (n, a, q, g, m) = find_endpoint-found e s.endpoints.all_endpoints 0 j p in
          let same : j ≡ n = omega (arith, q) in
          rw (p, set_active_endpoint) (inl (refl, (a, rw same g, m), (λ i b h. h), refl))
    ]
