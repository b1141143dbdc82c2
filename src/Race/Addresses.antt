-- ===== src/Race/Addresses.antt =====
-- The endpoints of an attempt's connection: deduplicated, with the candidate's own address active.
use ctaps.Prelude.{
  ℕ, none, zero, suc, ◌+◌, ◌≡◌, refl, subst, ◌∙◌, ◌⊎◌, inl, inr, Bool, true, false, ◌||◌, Option,
  some, List, [], ◌∷◌, ◌++◌, map, arith, Bool-cases, get_elem?, any, All, Result, ok, err, ◌>>=◌,
}
use ctaps.Endpoint.Address.{SockAddr, sockaddr_storage_equal, sockaddr_memcmp}
use ctaps.Endpoint.Address.Equality.{sockaddr_storage_equal_refl}
use ctaps.Race.State.{Candidate, RacedConnection, Attempt, Context, Env}
use ctaps.Race.Endpoints.{add_endpoint, unique_endpoints, active_index}
use ctaps.Race.Start.{
  address_at, remotes, locals, copied_alpns, candidate_alpns, create_client, build_connection,
}

-- A chain that ends well went well at its first step, and from there on.
>>=-ok_steps {ℓ κ} :
    {B : Type κ} {A : Type ℓ} (rc : Result A) (next : A → Result B) {last : B}
    (h : (rc >>= next) ≡ ok last)
    → (value : A) × (rc ≡ ok value) × (next value ≡ ok last)
>>=-ok_steps (err code) next h = cc
>>=-ok_steps (ok value) next h = (value, refl, h)

any-append :
    (p : SockAddr → Bool) (xs : List SockAddr) (a : SockAddr)
    → any p (xs ++ a ∷ []) ≡ (any p xs || p a)
any-append p [] a = ground arith
any-append p (x ∷ xs) a = ground (arith, any-append p xs a)

All-append_one :
    (P : SockAddr → Type 0) (xs : List SockAddr) (a : SockAddr)
    → All P xs
    → P a
    → All P (xs ++ a ∷ [])
All-append_one P [] a h p = (p, tt)
All-append_one P (x ∷ xs) a h p = (h.0, All-append_one P xs a h.1 p)

module _ (realloc_ok : ℕ → Bool) (copy_rc : SockAddr → ℕ) where
  -- What a step takes over from the addresses seen, and adds.
  add_endpoint_lem :
      (seen seen' : List SockAddr) (a : SockAddr)
      → add_endpoint realloc_ok copy_rc seen a ≡ ok seen'
      → (seen' ≡ seen) × (any (sockaddr_storage_equal a) seen ≡ true) ⊎ (seen' ≡ seen ++ a ∷ [])
  unfolding add_endpoint
  add_endpoint_lem seen seen' a h = ground arith

  covers :
      (p : SockAddr → Bool) (seen out : List SockAddr) (xs : List SockAddr)
      → unique_endpoints realloc_ok copy_rc seen xs ≡ ok out
      → any p seen ≡ true
      → any p out ≡ true
  unfolding unique_endpoints
  covers p seen out [] h q = ground (arith, q, h)
  covers p seen out (x ∷ xs) h q =
      let (seen', e, rest) =
        >>=-ok_steps (add_endpoint realloc_ok copy_rc seen x)
          (λ s. unique_endpoints realloc_ok copy_rc s xs) h in
      covers p seen' out xs rest (elim (add_endpoint_lem seen seen' x e) [
        | inl (same, _) ↦ rw same q
        | inr more ↦ rw more (any-append p seen x ∙ ground (arith, q))
      ])

  -- Every address has an equal in the list without duplicates.
  unique_endpoints-covers :
      (seen out xs : List SockAddr)
      → unique_endpoints realloc_ok copy_rc seen xs ≡ ok out
      → All (λ a. any (sockaddr_storage_equal a) out ≡ true) xs
  unfolding unique_endpoints
  unique_endpoints-covers seen out [] h = tt
  unique_endpoints-covers seen out (x ∷ xs) h =
      let (seen', e, rest) =
        >>=-ok_steps (add_endpoint realloc_ok copy_rc seen x)
          (λ s. unique_endpoints realloc_ok copy_rc s xs) h in
      (
        covers (sockaddr_storage_equal x) seen' out xs rest
            (elim (add_endpoint_lem seen seen' x e) [
              | inl (same, found) ↦ rw same found
              | inr more ↦ rw more (
                  any-append (sockaddr_storage_equal x) seen x
                  ∙ ground (arith, sockaddr_storage_equal_refl x))
            ]),
        unique_endpoints-covers seen' out xs rest,
      )

  -- Nothing else is in that list.
  unique_endpoints-All :
      (P : SockAddr → Type 0) (seen out xs : List SockAddr)
      → unique_endpoints realloc_ok copy_rc seen xs ≡ ok out
      → All P seen
      → All P xs
      → All P out
  unfolding unique_endpoints
  unique_endpoints-All P seen out [] h ps _ = subst (All P) (ground (arith, h)) ps
  unique_endpoints-All P seen out (x ∷ xs) h ps qs =
      let (seen', e, rest) =
        >>=-ok_steps (add_endpoint realloc_ok copy_rc seen x)
          (λ s. unique_endpoints realloc_ok copy_rc s xs) h in
      unique_endpoints-All P seen' out xs rest
        (elim (add_endpoint_lem seen seen' x e) [
          | inl (same, _) ↦ rw same ps
          | inr more ↦ rw more (All-append_one P seen x ps qs.0)
        ])
        qs.1

-- No two addresses of a list are equal in the eyes of the hash table.
abbrev pub IsUnique : List SockAddr → Type 0
IsUnique [] = Unit
IsUnique (a ∷ rest) = (any (λ b. sockaddr_storage_equal b a) rest ≡ false) × IsUnique rest

active_index_lem :
    (i : ℕ) (a : SockAddr) (out : List SockAddr)
    → any (λ b. sockaddr_memcmp b a) out ≡ true
    → (j : ℕ) × (active_index i a out ≡ i + j) × (sockaddr_memcmp (address_at out j) a ≡ true)
unfolding active_index
active_index_lem i a [] h = cc
active_index_lem i a (b ∷ rest) h = elim (Bool-cases (sockaddr_memcmp b a)) [
  | inl p ↦ (0, rw p (omega arith), p)
  | inr p ↦
      let (j, e, q) = active_index_lem (suc i) a rest (ground (arith, h, p)) in
      (suc j, rw p (omega (arith, e)), q)
]

any-All :
    (p q : SockAddr → Bool) (xs : List SockAddr)
    → All (λ b. p b ≡ true → q b ≡ true) xs
    → any p xs ≡ true
    → any q xs ≡ true
any-All p q [] h e = e
any-All p q (x ∷ xs) h e = elim (Bool-cases (p x)) [
  | inl t ↦ ground (arith, h.0 t)
  | inr f ↦ ground (arith, any-All p q xs h.1, f)
]

All-at :
    (P : SockAddr → Type 0) (f : Attempt → SockAddr) (xs : List Attempt) (i : ℕ) {a : Attempt}
    → All P (map f xs)
    → get_elem? xs i ≡ some a
    → P (f a)
All-at P f [] i h e = cc
All-at P f (x ∷ xs) zero h e = subst (λ y. P (f y)) (ground (arith, e)) h.0
All-at P f (x ∷ xs) (suc i) h e = All-at P f xs i h.1 e

IsUnique-append :
    (seen : List SockAddr) (x : SockAddr)
    → IsUnique seen
    → any (sockaddr_storage_equal x) seen ≡ false
    → IsUnique (seen ++ x ∷ [])
IsUnique-append [] x u h = (refl, tt)
IsUnique-append (a ∷ rest) x u h = (
  any-append (λ b. sockaddr_storage_equal b a) rest x ∙ ground (arith, h, u.0),
  IsUnique-append rest x u.1 (ground (arith, h)),
)

module _ (realloc_ok : ℕ → Bool) (copy_rc : SockAddr → ℕ) where
  add_endpoint-IsUnique :
      (seen seen' : List SockAddr) (a : SockAddr)
      → add_endpoint realloc_ok copy_rc seen a ≡ ok seen'
      → IsUnique seen
      → IsUnique seen'
  unfolding add_endpoint
  add_endpoint-IsUnique seen seen' a h u = elim (Bool-cases (any (sockaddr_storage_equal a) seen)) [
    | inl p ↦ subst IsUnique (ground (arith, p, h)) u
    | inr p ↦ subst IsUnique (ground (arith, p, h)) (IsUnique-append seen a u p)
  ]

  unique_endpoints-IsUnique :
      (seen out xs : List SockAddr)
      → unique_endpoints realloc_ok copy_rc seen xs ≡ ok out
      → IsUnique seen
      → IsUnique out
  unfolding unique_endpoints
  unique_endpoints-IsUnique seen out [] h u = subst IsUnique (ground (arith, h)) u
  unique_endpoints-IsUnique seen out (x ∷ xs) h u =
      let (seen', e, rest) =
        >>=-ok_steps (add_endpoint realloc_ok copy_rc seen x)
          (λ s. unique_endpoints realloc_ok copy_rc s xs) h in
      unique_endpoints-IsUnique seen' out xs rest (add_endpoint-IsUnique seen seen' x e u)

-- The bytes that the hash table does not compare are equal too, as in addresses whose padding is
-- zero.
abbrev pub Padded : SockAddr → List SockAddr → Type 0
Padded a = All λ b. sockaddr_storage_equal a b ≡ true → sockaddr_memcmp b a ≡ true

module _ (env : Env) (f : Attempt → SockAddr) (xs : List Attempt) (i : ℕ) {a : Attempt}
    (found : get_elem? xs i ≡ some a) (padded : Padded (f a) (map f xs)) where
  -- The candidate's address is in the list, at its active index.
  active-memcmp :
      (out : List SockAddr)
      → unique_endpoints env.realloc_ok env.copy_rc [] (map f xs) ≡ ok out
      → sockaddr_memcmp (address_at out (active_index 0 (f a) out)) (f a) ≡ true
  active-memcmp out h =
      let covered =
        All-at (λ b. any (sockaddr_storage_equal b) out ≡ true) f xs i
          (unique_endpoints-covers env.realloc_ok env.copy_rc [] out (map f xs) h) found in
      let same =
        unique_endpoints-All env.realloc_ok env.copy_rc
          (λ b. sockaddr_storage_equal (f a) b ≡ true → sockaddr_memcmp b (f a) ≡ true) [] out
          (map f xs) h tt padded in
      let (j, e, q) =
        active_index_lem 0 (f a) out (
          any-All (sockaddr_storage_equal (f a)) (λ b. sockaddr_memcmp b (f a)) out same covered) in
      let place : active_index 0 (f a) out ≡ j = omega (arith, e) in rw place q

-- The ALPN strings of a connection, by whether the preconnection's security parameters could be
-- copied and the string added, from the preconnection's and the candidate's.
pub data AlpnIs : Bool → Bool → Option (List ℕ) → Option ℕ → Option (List ℕ) → Type 0 where
  no_parameters : {copied added : Bool} {a : Option ℕ} → AlpnIs copied added none a none
  not_copied : {added : Bool} {all : List ℕ} {a : Option ℕ} → AlpnIs false added (some all) a none
  without_alpn : {added : Bool} {all : List ℕ} → AlpnIs true added (some all) none (some [])
  lost : {all : List ℕ} {a : ℕ} → AlpnIs true false (some all) (some a) (some [])
  carried : {all : List ℕ} {a : ℕ} → AlpnIs true true (some all) (some a) (some (a ∷ []))

AlpnIs-copied :
    (env : Env) (i : ℕ) (alpns : Option (List ℕ)) (a : Option ℕ)
    → AlpnIs
        (env.parameters_copied i)
        (env.alpn_added i)
        alpns
        a
        (candidate_alpns env i a (copied_alpns env i alpns))
AlpnIs-copied env i none a = no_parameters
AlpnIs-copied env i (some all) none = elim (Bool-cases (env.parameters_copied i)) [
  | inl p ↦ rw p without_alpn
  | inr p ↦ rw p not_copied
]
AlpnIs-copied env i (some all) (some a) = elim (Bool-cases (env.parameters_copied i)) [
  | inl p ↦ elim (Bool-cases (env.alpn_added i)) [
    | inl q ↦ rw (p, q) carried
    | inr q ↦ rw (p, q) lost
  ]
  | inr p ↦ rw p not_copied
]

-- What `start_connection_attempt` asks for on behalf of a candidate.
pub record Represents (env : Env) (i : ℕ) (alpns : Option (List ℕ)) (k : Candidate)
    (r : RacedConnection) : Type 0 where
  pub protocol : r.protocol ≡ k.protocol
  pub alpn : AlpnIs (env.parameters_copied i) (env.alpn_added i) alpns k.alpn r.alpns
  pub remote :
      sockaddr_memcmp (address_at r.remote_endpoints r.active_remote) k.remote_endpoint ≡ true
  pub local : sockaddr_memcmp (address_at r.local_endpoints r.active_local) k.local_endpoint ≡ true
  pub remotes_unique : IsUnique r.remote_endpoints
  pub locals_unique : IsUnique r.local_endpoints

create_client-eq-ok :
    (env : Env) (i : ℕ) (r s : RacedConnection)
    → create_client env i r ≡ ok s
    → s ≡ record r { alpns = copied_alpns env i r.alpns }
unfolding create_client
create_client-eq-ok env i r s h = ground (arith, h)

module _ (env : Env) (c : Context) (i : ℕ) {a : Attempt} (found : get_elem? c.attempts i ≡ some a)
    (remote_padded : Padded a.candidate.remote_endpoint (remotes c.attempts))
    (local_padded : Padded a.candidate.local_endpoint (locals c.attempts)) where
  -- A connection that is built for attempt `i` has the candidate's protocol. Where the preconnection
  -- has security parameters, its ALPN strings are the candidate's alone if there was memory to copy
  -- the parameters and to add the string; it has none if the string could not be added, and no
  -- parameters if they could not be copied. Its endpoint lists hold no address twice, and its active
  -- endpoints have the candidate's addresses, if the addresses of the candidates that the hash table
  -- takes for equal agree in every byte.
  pub build_connection-Represents :
      (r : RacedConnection)
      → build_connection env i a.candidate c ≡ ok r
      → Represents env i c.security_alpns a.candidate r
  unfolding build_connection
  build_connection-Represents r h =
      let k = a.candidate in
      let (rs, e, h1) =
        >>=-ok_steps (unique_endpoints env.realloc_ok env.copy_rc [] (remotes c.attempts)) _ h in
      let (ls, g, h2) =
        >>=-ok_steps (unique_endpoints env.realloc_ok env.copy_rc [] (locals c.attempts)) _ h1 in
      let (made, f, h3) = >>=-ok_steps (create_client env i _) _ h2 in
      let same = create_client-eq-ok env i _ made f in
      let last : r ≡ record made { alpns = candidate_alpns env i k.alpn made.alpns } = cc h3 in
      rw (last, same)
        (record {
          protocol = refl;
          alpn = AlpnIs-copied env i c.security_alpns k.alpn;
          remote =
              active-memcmp env (λ b. b.candidate.remote_endpoint) c.attempts i found remote_padded
                rs e;
          local =
              active-memcmp env (λ b. b.candidate.local_endpoint) c.attempts i found local_padded ls
                g;
          remotes_unique =
              unique_endpoints-IsUnique env.realloc_ok env.copy_rc [] rs (remotes c.attempts) e tt;
          locals_unique =
              unique_endpoints-IsUnique env.realloc_ok env.copy_rc [] ls (locals c.attempts) g tt;
        })
