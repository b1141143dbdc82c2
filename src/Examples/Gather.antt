-- ===== src/Examples/Gather.antt =====
-- Protocols and interfaces as candidates.
use ctaps.Prelude.{
  ℕ, ◌≡◌, refl, ◌↔◌, true, false, none, some, List, [], ◌∷◌, arith, ◌==◌, if◌then◌else◌,
}
use ctaps.Prelude.Int.{sub_ℕ}
use ctaps.Gather.Selection.{
  prohibit, avoid, prefer, require, Preference, type_preference, SelectionProperty, Protocol, Text,
  Combination, ethernet, get_generic_interface_type,
  protocol_implementation_supports_selection_properties, compare_prefer_and_avoid_preferences,
  interface_is_compatible,
}
use ctaps.Gather.Selection.Laws.{ClashFree, supports_iff, prefers_met, avoids_met, compare_lem}
use ctaps.Gather.Selection.Interfaces.{Acceptable, interface_is_compatible_iff}
use ctaps.Endpoint.Address.{SockAddr}
use ctaps.Gather.Tree.{LocalEndpoint, EndpointNode, Tree, prune_candidate_tree}
use ctaps.Gather.Pruning.Marking.{DistinctIds, node_ids}
use ctaps.Gather.Pruning.Compatible.{compatible_tree, prune_candidate_tree-compatible_tree}

abbrev property : Preference → SelectionProperty
property p = record { type = type_preference; simple_preference = p; preference_set = [] }

abbrev protocol : ℕ → Preference → Preference → Protocol
protocol n p q = record {
  number = n;
  supports_alpn = false;
  selection_properties = property p ∷ property q ∷ [];
}

abbrev desired : List SelectionProperty
desired = property prefer ∷ property avoid ∷ []

supports_iff_example :
    (protocol_implementation_supports_selection_properties (protocol 0 prohibit require) desired
      ≡ true)
    ↔ ClashFree desired (property prohibit ∷ property require ∷ [])
supports_iff_example = supports_iff (protocol 0 prohibit require) desired

compare_lem_example :
    compare_prefer_and_avoid_preferences desired
      (protocol 0 require prohibit)
      (protocol 1 prohibit require)
    ≡ (if prefers_met desired (property require ∷ property prohibit ∷ [])
          == prefers_met desired (property prohibit ∷ property require ∷ [])
        then sub_ℕ
            (avoids_met desired (property prohibit ∷ property require ∷ []))
            (avoids_met desired (property require ∷ property prohibit ∷ []))
        else sub_ℕ
            (prefers_met desired (property prohibit ∷ property require ∷ []))
            (prefers_met desired (property require ∷ property prohibit ∷ [])))
compare_lem_example =
    compare_lem desired (protocol 0 require prohibit) (protocol 1 prohibit require) refl refl

abbrev wanted : List Combination
wanted = record { value = ethernet; preference = require } ∷ []

abbrev wlan : Text
wlan = b'w' ∷ b'l' ∷ b'a' ∷ b'n' ∷ b'0' ∷ []

interface_is_compatible_iff_example :
    (interface_is_compatible wlan wanted ≡ true)
    ↔ ((type : Text) × (get_generic_interface_type wlan ≡ some type) × Acceptable type wanted)
interface_is_compatible_iff_example =
    interface_is_compatible_iff wlan wanted (λ e. cc) (λ e. ground (arith, e))

abbrev address : ℕ → SockAddr
address family = record { family = family; rest = 1 ∷ 187 ∷ 192 ∷ 0 ∷ 2 ∷ 1 ∷ [] }

abbrev local : LocalEndpoint
local = record { interface_name = some wlan; resolved_address = address 2 }

abbrev endpoint_node : ℕ → ℕ → EndpointNode
endpoint_node id family = record {
  id = id;
  local_endpoint = local;
  candidate = record { protocol = protocol 0 prohibit require; alpn = none };
  remote_address = address family;
}

-- One of the two endpoints is of another family than the local address.
abbrev tree : Tree
tree = record {
  paths =
      record {
        id = 1;
        local_endpoint = local;
        protocols =
            record {
              id = 2;
              local_endpoint = local;
              candidate = record { protocol = protocol 0 prohibit require; alpn = none };
              endpoints = endpoint_node 3 2 ∷ endpoint_node 4 10 ∷ [];
            }
            ∷ [];
      }
      ∷ [];
  desired = desired;
  interface_preferences = [];
}

tree-DistinctIds : DistinctIds (node_ids tree)
tree-DistinctIds = (refl, (refl, (refl, (refl, tt))))

prune_candidate_tree-compatible_tree_example : prune_candidate_tree tree ≡ compatible_tree tree
prune_candidate_tree-compatible_tree_example =
    prune_candidate_tree-compatible_tree tree tree-DistinctIds
