-- ===== src/Gather/Resolving.antt =====
-- The gathering of candidates, from ct_get_ordered_candidate_nodes and
-- ct_get_ordered_local_candidate_nodes to the callback with the ordered candidates:
-- src/candidate_gathering/candidate_gathering.c. Allocations succeed here.
use ctaps.Prelude.{
  ℕ, zero, suc, ◌+◌, ◌-◌, ◌*◌, ◌%◌, ◌^◌, ◌≤◌, ◌<◌, ◌≡◌, refl, sym, ap, subst, ◌∙◌, ◌≢◌, ◌↔◌, ◌⊎◌,
  inl, inr, Bool, true, false, not, ◌&&◌, ◌||◌, Option, none, some, List, [], ◌∷◌, ◌++◌, map, arith,
  ltb, leb, ◌==◌, if◌then◌else◌, ==_iff, Bool-cases, if_cases, Option-cases, is_some, u64, length,
  get_elem?, modify, take, drop, count, any, keep, All, length-append, append-nil, append_assoc,
  length-modify, get_elem?-modify, get_elem?-modify_ne, lt_of_get_elem?, count-append,
  count-modify_eq, count-modify_drop, bytes_eq, bytes_eq_sound, bytes_eq_refl, Result, ok, err,
  ◌>>=◌, Result-cases, enoent, eio, enomem, eexist, einval, epipe, enotsup,
}
use Prim.Native.Nat.{◌/◌}
use ctaps.Endpoint.Address.{SockAddr, af_unspec, af_inet, af_inet6}
use ctaps.Gather.Selection.{Text, Combination, SelectionProperty, Protocol}
use ctaps.Gather.Tree.{
  LocalEndpoint, ProtocolCandidate, EndpointNode, ProtocolNode, PathNode, Tree, flat,
  protocol_nodes, endpoint_nodes, prune_candidate_tree,
}
use ctaps.Gather.Branching.{branch_by_protocol_options, branch_paths, branch_by_path}
pub mod Success
pub mod Announcement
pub mod Failure

-- What ct_remote_endpoint_resolve does: it calls back at once, or will call back when the DNS has
-- answered, or returns an error and never calls back.
pub data Resolving : Type 0 where
  at_once : List SockAddr → Resolving
  later : Resolving
  refused : ℕ → Resolving

-- A copied leaf; without a remote endpoint if the gathering is local.
pub record Candidate : Type 0 where
  pub local_endpoint : LocalEndpoint
  pub remote_endpoint : Option SockAddr
  pub protocol_candidate : ProtocolCandidate

pub record RemoteEndpoint : Type 0 where
  pub hostname : Option Text
  pub service : Option Text
  pub port : ℕ
  pub resolved_address : SockAddr

pub record Preconnection : Type 0 where
  pub local_endpoints : List LocalEndpoint
  pub remote_endpoints : List RemoteEndpoint
  pub alpns : List Text
  pub desired : List SelectionProperty
  pub interface_preferences : List Combination

-- What the gathering asks others for: the addresses of the host's interfaces, the supported
-- protocols, the port of a service, the lookup of a host name for a node, and
-- g_array_sort_with_data with the comparison of candidates.
pub record Env : Type 0 where
  pub resolve_local : LocalEndpoint → List LocalEndpoint
  pub protocols : List Protocol
  pub service_port : Text → Option ℕ
  pub dns_lookup : ℕ → Text → Option Text → Resolving
  pub sort : List SelectionProperty → List Candidate → List Candidate

abbrev u8 : ℕ → ℕ
u8 n = n % 256

-- The port of a remote endpoint; `none` is the port -1 of a service that is not known.
abbrev pub assigned_port : Env → RemoteEndpoint → Option ℕ
assigned_port env r = elim r.service [ none ↦ some r.port | some s ↦ env.service_port s ]

-- `htons` and the writing of `sin_port` or `sin6_port`.
unfoldable pub with_port : ℕ → SockAddr → SockAddr
with_port port a =
    if a.family == af_inet || a.family == af_inet6
    then record a { rest = (u8 (port / 256)) ∷ (u8 port) ∷ drop 2 a.rest }
    else a

-- The address is called back with at once.
abbrev pub resolve_to : ℕ → Env → ℕ → RemoteEndpoint → Resolving
unfolding with_port
resolve_to port env node r = elim r.hostname [
  | some name ↦ env.dns_lookup node name r.service
  | none ↦
      if not (r.resolved_address.family == af_unspec)
      then at_once (with_port port r.resolved_address ∷ [])
      else refused einval
]

unfoldable pub remote_endpoint_resolve : Env → ℕ → RemoteEndpoint → Resolving
unfolding with_port
remote_endpoint_resolve env node r = elim (assigned_port env r) [
  | none ↦ refused einval
  | some port ↦ resolve_to port env node r
]

pub record GatherContext : Type 0 where
  pub tree : Tree
  pub pending_resolutions : ℕ
  pub num_in_flight : ℕ
  pub failed : Bool
  pub local_only : Bool
  pub next_id : ℕ

-- The context, `none` once it has been freed, and the calls of candidate_node_array_ready_cb, newest
-- first, where `none` is the null pointer.
pub record Gathering : Type 0 where
  pub context : Option GatherContext
  pub announced : List (Option (List Candidate))

abbrev pub decrement : ℕ → ℕ
decrement n = u64 (n + 18446744073709551615)

abbrev pub of_endpoint : EndpointNode → Candidate
of_endpoint e = record {
  local_endpoint = e.local_endpoint;
  remote_endpoint = some e.remote_address;
  protocol_candidate = e.candidate;
}

abbrev pub of_protocol : ProtocolNode → Candidate
of_protocol q = record {
  local_endpoint = q.local_endpoint;
  remote_endpoint = none;
  protocol_candidate = q.candidate;
}

abbrev pub is_leaf : ProtocolNode → Bool
is_leaf q = leb (length q.endpoints) 0

-- The leaves of the bottom layer; the others are skipped.
unfoldable pub leaf_nodes : Bool → Tree → List Candidate
leaf_nodes local_only t =
    if local_only
    then map of_protocol (keep is_leaf (protocol_nodes t))
    else map of_endpoint (endpoint_nodes t)

-- What is announced of a tree that is complete.
unfoldable pub candidates : Env → GatherContext → Option (List Candidate)
unfolding leaf_nodes
candidates env c =
    if c.failed
    then none
    else some (env.sort c.tree.desired (leaf_nodes c.local_only (prune_candidate_tree c.tree)))

-- The callback is called, and the context freed.
unfoldable pub tree_is_complete : Env → GatherContext → List (Option (List Candidate)) → Gathering
unfolding candidates
tree_is_complete env c calls = record { context = none; announced = candidates env c ∷ calls }

-- The children for the resolved addresses.
unfoldable pub endpoint_children : ProtocolNode → List SockAddr → ℕ → List EndpointNode
endpoint_children q [] n = []
endpoint_children q (a ∷ more) n =
    record {
      id = n;
      local_endpoint = q.local_endpoint;
      candidate = q.candidate;
      remote_address = a;
    }
    ∷ endpoint_children q more (n + 1)

abbrev pub append_children : ℕ → List SockAddr → ℕ → ProtocolNode → ProtocolNode
append_children parent found n q =
    if q.id == parent
    then record q { endpoints = q.endpoints ++ endpoint_children q found n }
    else q

abbrev pub append_below : ℕ → List SockAddr → ℕ → PathNode → PathNode
append_below parent found n p = record p {
  protocols = map (append_children parent found n) p.protocols;
}

unfoldable pub append_endpoints : ℕ → List SockAddr → ℕ → Tree → Tree
append_endpoints parent found n t = record t { paths = map (append_below parent found n) t.paths }

-- The new leaves and the counters of ct_remote_endpoint_resolve_cb.
unfoldable pub resolved : ℕ → List SockAddr → GatherContext → GatherContext
resolved parent found c = record c {
  tree = append_endpoints parent found c.next_id c.tree;
  next_id = c.next_id + length found;
  num_in_flight = decrement c.num_in_flight;
  pending_resolutions = decrement c.pending_resolutions;
}

unfoldable pub conclude_resolution :
    Env → GatherContext → List (Option (List Candidate)) → Gathering
conclude_resolution env c calls =
    if c.pending_resolutions == 0
    then tree_is_complete env c calls
    else record { context = some c; announced = calls }

-- `none` is a fault, the use of the freed context.
abbrev pub with_context {ℓ} :
    {A : Type ℓ} → Option GatherContext → (GatherContext → Option A) → Option A
with_context none f = none
with_context (some c) f = f c

unfoldable pub resolve_cb : Env → ℕ → List SockAddr → Gathering → Option Gathering
resolve_cb env parent found g =
    with_context g.context
      (λ c. some (conclude_resolution env (resolved parent found c) g.announced))

abbrev pub begin : GatherContext → GatherContext
begin c = record c { num_in_flight = u64 (c.num_in_flight + 1) }

-- A resolution that cannot be started.
unfoldable pub give_up : GatherContext → GatherContext
give_up c = record c {
  failed = true;
  num_in_flight = decrement c.num_in_flight;
  pending_resolutions = decrement c.num_in_flight;
}

-- The two loops over leaves and remote endpoints, as one list of the nodes with what their
-- resolution does.
abbrev pub Job : Type 0
Job = ℕ × Resolving

abbrev pub Built : Type 0
Built = Option (Result (Unit {0}) × Gathering)

unfoldable pub start_resolutions : Env → List Job → Gathering → Built
start_resolutions env [] g = some (ok tt, g)
start_resolutions env ((parent, at_once found) ∷ js) g = with_context g.context (λ c.
    start_resolutions env js
      (conclude_resolution env (resolved parent found (begin c)) g.announced))
start_resolutions env ((parent, later) ∷ js) g =
    with_context g.context
      (λ c. start_resolutions env js (record { context = some (begin c); announced = g.announced }))
start_resolutions env ((parent, refused e) ∷ js) g =
    with_context g.context
      (λ c. some (err e, conclude_resolution env (give_up (begin c)) g.announced))

abbrev pub unspecified : SockAddr
unspecified = record { family = 0; rest = [] }

-- Without local endpoints one with no interface is resolved.
unfoldable pub local_paths : Env → Preconnection → List LocalEndpoint
local_paths env pre =
    if leb (length pre.local_endpoints) 0
    then env.resolve_local (record { interface_name = none; resolved_address = unspecified })
    else flat env.resolve_local pre.local_endpoints

unfoldable pub jobs_of : Env → List ProtocolNode → List RemoteEndpoint → List Job
jobs_of env qs rs = flat (λ q. map (λ r. (q.id, remote_endpoint_resolve env q.id r)) rs) qs

-- The tree before the remote endpoints, with the next id.
unfoldable pub local_tree : Env → Preconnection → Tree × ℕ
unfolding branch_by_path branch_paths local_paths
local_tree env pre =
    let ls = local_paths env pre in
    let (paths, n) = branch_paths env.protocols pre.alpns (branch_by_path ls 0) (length ls) in
    (
      record {
        paths = paths;
        desired = pre.desired;
        interface_preferences = pre.interface_preferences;
      },
      n,
    )

abbrev pub new_context : Tree × ℕ → Bool → Bool → ℕ → GatherContext
new_context t failed local_only pending = record {
  tree = t.0;
  pending_resolutions = pending;
  num_in_flight = 0;
  failed = failed;
  local_only = local_only;
  next_id = t.1;
}

-- What follows the branching by protocol. `none` is a fault: without a path or a protocol, an
-- assertion on the type of the leaves fails.
unfoldable pub branch_remotes : Env → Preconnection → Bool → Tree × ℕ → Built
branch_remotes env pre local_only t =
    let leaves = protocol_nodes t.0 in
    let remotes = pre.remote_endpoints in
    let pending = u64 (length leaves * length remotes) in
    if leb (length t.0.paths) 0
    then none
    else if local_only
    then some (ok tt, tree_is_complete env (new_context t false true 0) [])
    else if leb (length remotes) 0
    then some (ok tt, tree_is_complete env (new_context t true false 0) [])
    else if leb (length leaves) 0
    then none
    else start_resolutions env (jobs_of env leaves remotes)
        (record { context = some (new_context t false false pending); announced = [] })

unfoldable pub build_candidate_tree : Env → Preconnection → Bool → Built
unfolding branch_remotes start_resolutions jobs_of remote_endpoint_resolve local_tree
build_candidate_tree env pre local_only = branch_remotes env pre local_only (local_tree env pre)

-- After an error the context is freed; freeing it twice is a fault.
abbrev pub free_on_error : Built → Built
free_on_error none = none
free_on_error (some (ok u, g)) = some (ok u, g)
free_on_error (some (err e, g)) =
    with_context g.context (λ c. some (err e, record { context = none; announced = g.announced }))

unfoldable pub get_ordered_candidate_nodes : Env → Preconnection → Built
unfolding build_candidate_tree
get_ordered_candidate_nodes env pre = free_on_error (build_candidate_tree env pre false)

unfoldable pub get_ordered_local_candidate_nodes : Env → Preconnection → Built
unfolding build_candidate_tree
get_ordered_local_candidate_nodes env pre = free_on_error (build_candidate_tree env pre true)
