-- ===== src/Gather/Branching.antt =====
-- The branching of the candidate tree by path and by protocol:
-- src/candidate_gathering/candidate_gathering.c. Allocations succeed here. A new node takes the next
-- unused id.
pub mod Pairs
use ctaps.Prelude.{
  ℕ, zero, suc, ◌+◌, ◌-◌, ◌*◌, ◌%◌, ◌^◌, ◌≤◌, ◌<◌, ◌≡◌, refl, sym, ap, subst, ◌∙◌, ◌≢◌, ◌↔◌, ◌⊎◌,
  inl, inr, Bool, true, false, not, ◌&&◌, ◌||◌, Option, none, some, List, [], ◌∷◌, ◌++◌, map, arith,
  ltb, leb, ◌==◌, if◌then◌else◌, ==_iff, Bool-cases, if_cases, Option-cases, is_some, u64, length,
  get_elem?, modify, take, drop, count, any, keep, All, length-append, append-nil, append_assoc,
  length-modify, get_elem?-modify, get_elem?-modify_ne, lt_of_get_elem?, count-append,
  count-modify_eq, count-modify_drop, bytes_eq, bytes_eq_sound, bytes_eq_refl, Result, ok, err,
  ◌>>=◌, Result-cases, enoent, eio, enomem, eexist, einval, epipe, enotsup,
}
use ctaps.Gather.Selection.{Text, Combination, SelectionProperty, Protocol}
use ctaps.Gather.Tree.{LocalEndpoint, ProtocolCandidate, ProtocolNode, PathNode, flat}

abbrev pub candidate : Protocol → Option Text → ProtocolCandidate
candidate p a = record { protocol = p; alpn = a }

-- One candidate for each ALPN string, if the protocol supports them and there are any.
unfoldable pub protocol_candidates : List Text → Protocol → List ProtocolCandidate
protocol_candidates alpns p =
    if p.supports_alpn && ltb 0 (length alpns)
    then map (λ a. candidate p (some a)) alpns
    else candidate p none ∷ []

-- Nodes for a list of candidates, numbered from `n` on.
unfoldable pub append_candidates : LocalEndpoint → List ProtocolCandidate → ℕ → List ProtocolNode
append_candidates l [] n = []
append_candidates l (c ∷ cs) n =
    record { id = n; local_endpoint = l; candidate = c; endpoints = [] }
    ∷ append_candidates l cs (n + 1)

unfoldable pub branch_by_protocol_options : List Protocol → List Text → PathNode → ℕ → PathNode × ℕ
unfolding protocol_candidates append_candidates
branch_by_protocol_options ps alpns path n =
    let cs = flat (protocol_candidates alpns) ps in
    (
      record path { protocols = path.protocols ++ append_candidates path.local_endpoint cs n },
      n + length cs,
    )

-- The loop over the leaves, which are the path nodes.
unfoldable pub branch_paths : List Protocol → List Text → List PathNode → ℕ → List PathNode × ℕ
unfolding branch_by_protocol_options
branch_paths ps alpns [] n = ([], n)
branch_paths ps alpns (p ∷ paths) n =
    let (p', m) = branch_by_protocol_options ps alpns p n in
    let (rest, k) = branch_paths ps alpns paths m in (p' ∷ rest, k)

-- The children of the root for the endpoints that a local endpoint resolves to.
unfoldable pub branch_by_path : List LocalEndpoint → ℕ → List PathNode
branch_by_path [] n = []
branch_by_path (l ∷ ls) n =
    record { id = n; local_endpoint = l; protocols = [] } ∷ branch_by_path ls (n + 1)
