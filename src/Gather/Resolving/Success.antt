-- ===== src/Gather/Resolving/Success.antt =====
-- A gathering in which every resolution can be started.
use ctaps.Prelude.{
  ℕ, suc, ◌+◌, ◌*◌, ◌≤◌, ◌<◌, ◌≡◌, refl, sym, ap, ◌∙◌, Option, some, List, [], ◌∷◌, ◌++◌, map,
  arith, length, All, length-append, append-nil, ok,
}
use ctaps.Endpoint.Address.{SockAddr}
use ctaps.Gather.Tree.{Tree, ProtocolNode}
use ctaps.Gather.Resolving.{
  at_once, later, refused, RemoteEndpoint, remote_endpoint_resolve, Env, GatherContext, Gathering,
  resolved, conclude_resolution, append_endpoints, with_context, resolve_cb, begin, Job,
  start_resolutions, jobs_of,
}

-- The answers that come in later, each for the node that it was asked for.
unfoldable pub arrive : Env → List (ℕ × List SockAddr) → Gathering → Option Gathering
unfolding resolve_cb
arrive env [] g = some g
arrive env ((parent, found) ∷ rs) g =
    with_context g.context
      (λ c. arrive env rs (conclude_resolution env (resolved parent found c) g.announced))

abbrev pub IsStarted : Job → Type 0
IsStarted (parent, at_once found) = Unit {0}
IsStarted (parent, later) = Unit {0}
IsStarted (parent, refused e) = ⊥

-- How many answers are still to come.
unfoldable pub awaited : List Job → ℕ
awaited [] = 0
awaited ((parent, at_once found) ∷ js) = awaited js
awaited ((parent, later) ∷ js) = suc (awaited js)
awaited ((parent, refused e) ∷ js) = awaited js

pub awaited-le-length : (js : List Job) → awaited js ≤ length js
unfolding awaited
awaited-le-length [] = omega arith
awaited-le-length ((parent, at_once found) ∷ js) = omega (arith, awaited-le-length js)
awaited-le-length ((parent, later) ∷ js) = omega (arith, awaited-le-length js)
awaited-le-length ((parent, refused e) ∷ js) = omega (arith, awaited-le-length js)

-- The context after the starts, and after the answers.
unfoldable pub started : List Job → GatherContext → GatherContext
started [] c = c
started ((parent, at_once found) ∷ js) c = started js (resolved parent found (begin c))
started ((parent, later) ∷ js) c = started js (begin c)
started ((parent, refused e) ∷ js) c = started js c

unfoldable pub answered : List (ℕ × List SockAddr) → GatherContext → GatherContext
answered [] c = c
answered ((parent, found) ∷ rs) c = answered rs (resolved parent found c)

abbrev pub size_mod : ℕ
size_mod = 18446744073709551616

resolved-pending :
    (parent : ℕ) (found : List SockAddr) (c : GatherContext) (n : ℕ)
    → c.pending_resolutions ≡ suc n
    → suc n < size_mod
    → (resolved parent found c).pending_resolutions ≡ n
unfolding resolved
resolved-pending parent found c n h l = omega (arith, h, l)

-- While answers are awaited the context stays, and nothing is announced.
pub conclude-open :
    (env : Env) (c : GatherContext) (n : ℕ)
    → c.pending_resolutions ≡ suc n
    → conclude_resolution env c [] ≡ record { context = some c; announced = [] }
unfolding conclude_resolution
conclude-open env c n h = ground (arith, h)

pub start-prefix :
    (env : Env) (js rest : List Job) (c : GatherContext) (k : ℕ)
    → All IsStarted js
    → c.pending_resolutions ≡ length js + k
    → length js + k < size_mod
    → start_resolutions env (js ++ rest) (conclude_resolution env c [])
      ≡ start_resolutions env rest (conclude_resolution env (started js c) [])
unfolding start_resolutions started
start-prefix env [] rest c k s h l = refl
start-prefix env ((parent, at_once found) ∷ js) rest c k s h l =
    rw (conclude-open env c (length js + k) (omega (arith, h))) (
      start-prefix env js rest (resolved parent found (begin c)) k s.1
        (resolved-pending parent found (begin c) (length js + k) (omega (arith, h))
          (omega (arith, l)))
        (omega (arith, l)))
start-prefix env ((parent, later) ∷ js) rest c k s h l =
    let e : c.pending_resolutions ≡ suc (length js + k) = omega (arith, h) in
    rw (conclude-open env c (length js + k) e) (
      rw (← conclude-open env (begin c) (length js + k) e)
        (start-prefix env js rest (begin c) (suc k) s.1 (omega (arith, h)) (omega (arith, l))))
start-prefix env ((parent, refused e) ∷ js) rest c k s h l = absurd s.0

pub start-open :
    (env : Env) (js : List Job) (c : GatherContext) (k : ℕ)
    → All IsStarted js
    → c.pending_resolutions ≡ length js + k
    → length js + k < size_mod
    → start_resolutions env js (conclude_resolution env c [])
      ≡ some (ok tt, conclude_resolution env (started js c) [])
unfolding start_resolutions
start-open env js c k s h l =
    ap (λ xs. start_resolutions env xs (conclude_resolution env c [])) (sym (append-nil js))
    ∙ start-prefix env js [] c k s h l

pub started-pending :
    (js : List Job) (c : GatherContext) (k : ℕ)
    → All IsStarted js
    → c.pending_resolutions ≡ length js + k
    → length js + k < size_mod
    → (started js c).pending_resolutions ≡ awaited js + k
unfolding started awaited
started-pending [] c k s h l = omega (arith, h)
started-pending ((parent, at_once found) ∷ js) c k s h l =
    started-pending js (resolved parent found (begin c)) k s.1
      (resolved-pending parent found (begin c) (length js + k) (omega (arith, h))
        (omega (arith, l)))
      (omega (arith, l))
started-pending ((parent, later) ∷ js) c k s h l =
    omega (arith, started-pending js (begin c) (suc k) s.1 (omega (arith, h)) (omega (arith, l)))
started-pending ((parent, refused e) ∷ js) c k s h l = absurd s.0

module _ (env : Env) (m : ℕ) where
  pub arrive-open :
      (rs : List (ℕ × List SockAddr)) (c : GatherContext)
      → c.pending_resolutions ≡ length rs + m
      → length rs + m < size_mod
      → arrive env rs (conclude_resolution env c [])
        ≡ some (conclude_resolution env (answered rs c) [])
  unfolding arrive answered
  arrive-open [] c h l = refl
  arrive-open ((parent, found) ∷ rs) c h l =
      rw (conclude-open env c (length rs + m) (omega (arith, h))) (
        arrive-open rs (resolved parent found c)
          (resolved-pending parent found c (length rs + m) (omega (arith, h)) (omega (arith, l)))
          (omega (arith, l)))

  pub answered-pending :
      (rs : List (ℕ × List SockAddr)) (c : GatherContext)
      → c.pending_resolutions ≡ length rs + m
      → length rs + m < size_mod
      → (answered rs c).pending_resolutions ≡ m
  unfolding answered
  answered-pending [] c h l = omega (arith, h)
  answered-pending ((parent, found) ∷ rs) c h l =
      answered-pending rs (resolved parent found c)
        (resolved-pending parent found c (length rs + m) (omega (arith, h)) (omega (arith, l)))
        (omega (arith, l))

-- The addresses that are found, in the order in which they are.
abbrev pub Found : Type 0
Found = List (ℕ × List SockAddr)

unfoldable pub found_at_once : List Job → Found
found_at_once [] = []
found_at_once ((parent, at_once found) ∷ js) = (parent, found) ∷ found_at_once js
found_at_once ((parent, later) ∷ js) = found_at_once js
found_at_once ((parent, refused e) ∷ js) = found_at_once js

-- The tree with all of them.
unfoldable pub with_endpoints : Found → ℕ → Tree → Tree
with_endpoints [] n t = t
with_endpoints ((parent, found) ∷ fs) n t =
    with_endpoints fs (n + length found) (append_endpoints parent found n t)

-- What the steps leave of a context besides its counters.
abbrev pub Grown : Found → GatherContext → GatherContext → Type 0
Grown fs c d =
    (d.tree ≡ with_endpoints fs c.next_id c.tree)
    × (d.failed ≡ c.failed)
    × (d.local_only ≡ c.local_only)

answered-Grown : (rs : Found) (c : GatherContext) → Grown rs c (answered rs c)
unfolding answered resolved with_endpoints
answered-Grown [] c = (refl, refl, refl)
answered-Grown ((parent, found) ∷ rs) c = answered-Grown rs (resolved parent found c)

pub grown :
    (js : List Job) (rs : Found) (c : GatherContext)
    → All IsStarted js
    → Grown (found_at_once js ++ rs) c (answered rs (started js c))
unfolding started resolved found_at_once with_endpoints
grown [] rs c s = answered-Grown rs c
grown ((parent, at_once found) ∷ js) rs c s = grown js rs (resolved parent found (begin c)) s.1
grown ((parent, later) ∷ js) rs c s = grown js rs (begin c) s.1
grown ((parent, refused e) ∷ js) rs c s = absurd s.0

pub with_endpoints-desired :
    (fs : Found) (n : ℕ) (t : Tree) → (with_endpoints fs n t).desired ≡ t.desired
unfolding with_endpoints append_endpoints
with_endpoints-desired [] n t = refl
with_endpoints-desired ((parent, found) ∷ fs) n t =
    with_endpoints-desired fs (n + length found) (append_endpoints parent found n t)

length-map {ℓ κ} :
    {A : Type ℓ} {B : Type κ} (f : A → B) (xs : List A) → length (map f xs) ≡ length xs
length-map f [] = refl
length-map f (x ∷ xs) = ap suc (length-map f xs)

pub length-jobs_of :
    (env : Env) (qs : List ProtocolNode) (rs : List RemoteEndpoint)
    → length (jobs_of env qs rs) ≡ length qs * length rs
unfolding jobs_of
length-jobs_of env [] rs = omega arith
length-jobs_of env (q ∷ qs) rs =
    let here : List Job = map (λ r. (q.id, remote_endpoint_resolve env q.id r)) rs in
    let l : length here ≡ length rs =
      length-map (λ r. (q.id, remote_endpoint_resolve env q.id r)) rs in
    let ih = length-jobs_of env qs rs in
    length-append here (jobs_of env qs rs) ∙ grind (arith, l, ih)
