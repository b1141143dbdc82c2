-- ===== src/Examples/Gathering.antt =====
-- The theorems on branching and resolving, at concrete inputs.
use ctaps.Prelude.{
  ℕ, ◌≤◌, ◌<◌, ◌≡◌, refl, ◌⊎◌, true, false, Option, none, some, List, [], ◌∷◌, map, arith, length,
  ok, err, einval,
}
use ctaps.Endpoint.Address.{SockAddr}
use ctaps.Gather.Selection.{Text, Protocol}
use ctaps.Gather.Tree.{LocalEndpoint, flat}
use ctaps.Gather.Branching.{
  protocol_candidates, append_candidates, branch_by_protocol_options, branch_paths, branch_by_path,
}
use ctaps.Gather.Branching.Pairs.{pair, pairs, branch_paths-pairs}
use ctaps.Gather.Resolving.{
  later, refused, RemoteEndpoint, Preconnection, unspecified, remote_endpoint_resolve, Env,
  Gathering, resolve_cb, jobs_of, local_paths, local_tree, get_ordered_candidate_nodes,
}
use ctaps.Gather.Resolving.Success.{awaited, arrive, Found}
use ctaps.Gather.Resolving.Announcement.{CanStart, Progress, jobs, gathering-Progress}
use ctaps.Gather.Resolving.Failure.{Refused, gathering-Refused}

abbrev quic : Protocol
quic = record { number = 0; supports_alpn = true; selection_properties = [] }

abbrev udp : Protocol
udp = record { number = 1; supports_alpn = false; selection_properties = [] }

abbrev address : ℕ → SockAddr
address n = record { family = 2; rest = 1 ∷ 187 ∷ 192 ∷ 0 ∷ 2 ∷ n ∷ [] }

abbrev local : ℕ → LocalEndpoint
local n = record { interface_name = none; resolved_address = address n }

abbrev alpns : List Text
alpns = (1 ∷ []) ∷ (2 ∷ []) ∷ []

branch_paths-pairs_example :
    map pair (
      flat
        (λ p. p.protocols)
        (branch_paths (quic ∷ udp ∷ []) alpns (branch_by_path (local 1 ∷ local 2 ∷ []) 0) 2).0)
    ≡ pairs (quic ∷ udp ∷ []) alpns (local 1 ∷ local 2 ∷ [])
branch_paths-pairs_example = branch_paths-pairs (quic ∷ udp ∷ []) alpns (local 1 ∷ local 2 ∷ []) 0 2

abbrev endpoint : Option Text → SockAddr → RemoteEndpoint
endpoint hostname a = record {
  hostname = hostname;
  service = none;
  port = 4433;
  resolved_address = a;
}

-- An address, a host name, and neither.
abbrev by_address : RemoteEndpoint
by_address = endpoint none (address 7)

abbrev by_name : RemoteEndpoint
by_name = endpoint (some (1 ∷ [])) unspecified

abbrev by_nothing : RemoteEndpoint
by_nothing = endpoint none unspecified

abbrev env : Env
env = record {
  resolve_local = λ l. l ∷ [];
  protocols = quic ∷ udp ∷ [];
  service_port = λ s. none;
  dns_lookup = λ node name service. later;
  sort = λ desired cs. cs;
}

abbrev pre : List RemoteEndpoint → Preconnection
pre remotes = record {
  local_endpoints = local 1 ∷ [];
  remote_endpoints = remotes;
  alpns = alpns;
  desired = [];
  interface_preferences = [];
}

all_start :
    CanStart env
      (pre (by_address ∷ by_name ∷ []))
      (local_tree env (pre (by_address ∷ by_name ∷ [])))
unfolding local_tree local_paths branch_by_path branch_paths branch_by_protocol_options
    append_candidates protocol_candidates jobs_of remote_endpoint_resolve
all_start = record {
  has_path = omega arith;
  has_remote = omega arith;
  has_leaf = omega arith;
  fits = omega arith;
  all_started = (tt, (tt, (tt, (tt, (tt, (tt, tt))))));
}

answers : Found
answers = (1, address 8 ∷ []) ∷ (3, []) ∷ []

enough :
    length answers
    ≤ awaited (
        jobs env
          (pre (by_address ∷ by_name ∷ []))
          (local_tree env (pre (by_address ∷ by_name ∷ []))))
unfolding answers awaited local_tree local_paths branch_by_path branch_paths
    branch_by_protocol_options append_candidates protocol_candidates jobs_of remote_endpoint_resolve
enough = omega arith

gathering-Progress_example :
    (g : Gathering) × (get_ordered_candidate_nodes env (pre (by_address ∷ by_name ∷ []))
      ≡ some (ok tt, g))
    × (h : Gathering) × (arrive env answers g ≡ some h)
    × Progress env
        (pre (by_address ∷ by_name ∷ []))
        (local_tree env (pre (by_address ∷ by_name ∷ [])))
        answers
        h
gathering-Progress_example =
    gathering-Progress env (pre (by_address ∷ by_name ∷ [])) answers all_start enough

one_refused :
    Refused env
      (pre (by_name ∷ by_nothing ∷ []))
      (local_tree env (pre (by_name ∷ by_nothing ∷ [])))
      ((1, later) ∷ [])
      1
      einval
      ((2, later) ∷ (2, refused einval) ∷ (3, later) ∷ (3, refused einval) ∷ [])
unfolding local_tree local_paths branch_by_path branch_paths branch_by_protocol_options
    append_candidates protocol_candidates jobs_of remote_endpoint_resolve
one_refused = record {
  has_path = omega arith;
  fits = omega arith;
  started_before = (tt, tt);
  order = refl;
}

gathering-Refused_example :
    ((awaited ((1, later) ∷ []) ≡ 0)
      × (get_ordered_candidate_nodes env (pre (by_name ∷ by_nothing ∷ [])) ≡ none))
    ⊎ ((0 < awaited ((1, later) ∷ []))
        × (g : Gathering) × (get_ordered_candidate_nodes env (pre (by_name ∷ by_nothing ∷ []))
            ≡ some (err einval, g))
        × (g.announced ≡ [])
        × ((node : ℕ) (found : List SockAddr) → resolve_cb env node found g ≡ none))
gathering-Refused_example =
    gathering-Refused env (pre (by_name ∷ by_nothing ∷ [])) ((1, later) ∷ []) 1 einval
      ((2, later) ∷ (2, refused einval) ∷ (3, later) ∷ (3, refused einval) ∷ []) one_refused
