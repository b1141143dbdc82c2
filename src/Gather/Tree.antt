-- ===== src/Gather/Tree.antt =====
-- The candidate tree and its pruning:
-- src/candidate_gathering/candidate_gathering.c. Allocations succeed here.
use ctaps.Prelude.{
  ℕ, Bool, true, false, not, ◌&&◌, ◌||◌, Option, none, some, List, [], ◌∷◌, ◌++◌, map, leb, ◌==◌,
  if◌then◌else◌, length, keep,
}
use ctaps.Endpoint.Address.{SockAddr}
use ctaps.Endpoint.Scope.{address_is_wildcard, address_families_match, address_scope_match}
use ctaps.Gather.Selection.{
  Text, Combination, SelectionProperty, Protocol,
  protocol_implementation_supports_selection_properties, interface_is_compatible, any_interface,
}

pub record LocalEndpoint : Type 0 where
  pub interface_name : Option Text
  pub resolved_address : SockAddr

pub record ProtocolCandidate : Type 0 where
  pub protocol : Protocol
  pub alpn : Option Text

-- The nodes by their type. An `id` stands for the address of a `GNode`.
pub record EndpointNode : Type 0 where
  pub id : ℕ
  pub local_endpoint : LocalEndpoint
  pub candidate : ProtocolCandidate
  pub remote_address : SockAddr

pub record ProtocolNode : Type 0 where
  pub id : ℕ
  pub local_endpoint : LocalEndpoint
  pub candidate : ProtocolCandidate
  pub endpoints : List EndpointNode

pub record PathNode : Type 0 where
  pub id : ℕ
  pub local_endpoint : LocalEndpoint
  pub protocols : List ProtocolNode

-- The root's children, and the selection properties that every node points to.
pub record Tree : Type 0 where
  pub paths : List PathNode
  pub desired : List SelectionProperty
  pub interface_preferences : List Combination

pub data Node : Type 0 where
  root : Node
  path : PathNode → Node
  protocol : ProtocolNode → Node
  endpoint : EndpointNode → Node

abbrev pub flat {ℓ κ} : {A : Type ℓ} {B : Type κ} → (A → List B) → List A → List B
flat f [] = []
flat f (x ∷ xs) = f x ++ flat f xs

abbrev pub path_nodes : Tree → List PathNode
path_nodes t = t.paths

abbrev pub protocol_nodes : Tree → List ProtocolNode
protocol_nodes t = flat (λ p. p.protocols) t.paths

abbrev pub endpoint_nodes : Tree → List EndpointNode
endpoint_nodes t = flat (λ p. flat (λ q. q.endpoints) p.protocols) t.paths

-- The order of `G_LEVEL_ORDER`.
unfoldable pub level_order : Tree → List Node
level_order t =
    root
    ∷ (map path (path_nodes t)
        ++ (map protocol (protocol_nodes t) ++ map endpoint (endpoint_nodes t)))

-- A traversal function returns whether to stop, and the list of undesirable nodes.
abbrev pub Visit : Type 0
Visit = Node → List ℕ → Bool × List ℕ

unfoldable pub traverse : Visit → List Node → List ℕ → List ℕ
traverse visit [] found = found
traverse visit (n ∷ ns) found =
    let r = visit n found in let rest = traverse visit ns r.1 in if r.0 then r.1 else rest

abbrev interface_of : Option Text → Text
interface_of none = any_interface
interface_of (some name) = name

abbrev pub path_compatible : Tree → PathNode → Bool
path_compatible t p =
    interface_is_compatible (interface_of p.local_endpoint.interface_name) t.interface_preferences

abbrev pub protocol_compatible : Tree → ProtocolNode → Bool
protocol_compatible t q =
    protocol_implementation_supports_selection_properties q.candidate.protocol t.desired

abbrev pub endpoint_compatible : EndpointNode → Bool
endpoint_compatible e =
    let l = e.local_endpoint.resolved_address in
    address_families_match l e.remote_address
    && (address_is_wildcard l || address_scope_match l e.remote_address)

unfoldable pub gather_incompatible_path_nodes : Tree → Visit
gather_incompatible_path_nodes t root found = (false, found)
gather_incompatible_path_nodes t (path p) found =
    (false, if not (path_compatible t p) then found ++ p.id ∷ [] else found)
gather_incompatible_path_nodes t _ found = (true, found)

unfoldable pub gather_incompatible_endpoint_nodes : Visit
gather_incompatible_endpoint_nodes (endpoint e) found =
    (false, if not (endpoint_compatible e) then found ++ e.id ∷ [] else found)
gather_incompatible_endpoint_nodes _ found = (false, found)

unfoldable pub gather_incompatible_protocol_nodes : Tree → Visit
gather_incompatible_protocol_nodes t (endpoint e) found = (true, found)
gather_incompatible_protocol_nodes t (protocol q) found =
    (false, if not (protocol_compatible t q) then found ++ q.id ∷ [] else found)
gather_incompatible_protocol_nodes t _ found = (false, found)

-- `G_TRAVERSE_NON_LEAVES`.
unfoldable pub has_children : Tree → Node → Bool
has_children t root = not (leb (length t.paths) 0)
has_children t (path p) = not (leb (length p.protocols) 0)
has_children t (protocol q) = not (leb (length q.endpoints) 0)
has_children t (endpoint e) = false

-- Unlinking the node with an id, wherever it stands.
abbrev pub remove_endpoint : ℕ → ProtocolNode → ProtocolNode
remove_endpoint i q = record q { endpoints = keep (λ e. not (e.id == i)) q.endpoints }

abbrev pub remove_below : ℕ → PathNode → PathNode
remove_below i p = record p {
  protocols = map (remove_endpoint i) (keep (λ q. not (q.id == i)) p.protocols);
}

unfoldable pub remove_node : ℕ → Tree → Tree
remove_node i t = record t { paths = map (remove_below i) (keep (λ p. not (p.id == i)) t.paths) }

-- The number of removed nodes that the function also returns is not read by its caller.
unfoldable pub remove_nodes_from_tree : List ℕ → Tree → Tree
remove_nodes_from_tree [] t = t
remove_nodes_from_tree (i ∷ is) t = remove_nodes_from_tree is (remove_node i t)

unfoldable pub undesirable_nodes : Tree → List ℕ
undesirable_nodes t =
    let nodes = level_order t in
    let found = traverse gather_incompatible_endpoint_nodes nodes [] in
    let more = traverse (gather_incompatible_protocol_nodes t) nodes found in
    traverse (gather_incompatible_path_nodes t) (keep (has_children t) nodes) more

unfoldable pub prune_candidate_tree : Tree → Tree
prune_candidate_tree t = remove_nodes_from_tree (undesirable_nodes t) t
