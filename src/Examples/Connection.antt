-- ===== src/Examples/Connection.antt =====
-- Messages, sends and endpoints of a connection.
use ctaps.Prelude.{
  ℕ, ◌≡◌, refl, ◌⊎◌, inl, Bool, true, false, some, List, [], ◌∷◌, arith, All, bytes_eq, ok,
}
use ctaps.Endpoint.Address.{SockAddr, sockaddr_equal}
use ctaps.Connection.Receive.{ReceiveCallbacks, Memory, Event, arrives, requests, run}
use ctaps.Connection.Pairing.{arrived, requested, paired, run-paired}
use ctaps.Connection.Send.{Sending, send_all, until_final, send_all-until_final}
use ctaps.Connection.ActiveEndpoint.{
  Endpoints, Copying, Setting, find_endpoint, append_endpoint, set_active_endpoint,
  set_group_endpoint, IsInet, ActiveIs, Succeeds, Fails, set_active_endpoint_lem,
}
use ctaps.Connection.ActiveEndpoint.Group.{set_group_endpoint-ActiveIs, set_group_endpoint-changed}

abbrev request : ℕ → ReceiveCallbacks
request n = record { receive_callback = true; per_receive_context = n }

abbrev memory : Memory
memory = record { entry = true; context = false }

-- Two messages, three requests, and a message that comes after them.
abbrev events : List Event
events =
    arrives memory 1 true
    ∷ arrives memory 2 true
    ∷ requests memory (request 7)
    ∷ requests memory (request 8)
    ∷ requests memory (request 9)
    ∷ arrives memory 3 true
    ∷ []

run-paired_example :
    run events (record { received_messages = []; received_callbacks = []; deliveries = [] })
    ≡ some (paired [] (arrived events) (requested events))
run-paired_example = run-paired events (
  (refl, refl),
  ((refl, refl), ((refl, refl), ((refl, refl), ((refl, refl), ((refl, refl), tt))))),
)

abbrev sending : ℕ → Bool → Sending
sending n final = record {
  message = n;
  final = final;
  context_copied = true;
  message_copied = true;
  returned = ok tt;
}

-- The third message comes after the one marked as FINAL.
abbrev sendings : List Sending
sendings = sending 1 false ∷ sending 2 true ∷ sending 3 false ∷ []

send_all-until_final_example :
    (send_all sendings (record { can_send = true; handed = [] })).handed ≡ until_final sendings
send_all-until_final_example =
    send_all-until_final sendings ((refl, refl), ((refl, refl), ((refl, refl), tt)))

abbrev address : ℕ → SockAddr
address n = record { family = 2; rest = 1 ∷ 187 ∷ 192 ∷ 0 ∷ 2 ∷ n ∷ 0 ∷ 0 ∷ [] }

abbrev copying : Copying
copying = record { reallocated = true; copied = ok tt }

abbrev old_path : Endpoints
old_path = record { all_endpoints = address 1 ∷ []; active_endpoint = 0 }

abbrev new_path : Endpoints
new_path = record { all_endpoints = address 1 ∷ address 2 ∷ []; active_endpoint = 1 }

address-IsInet : IsInet (address 2)
unfolding IsInet
address-IsInet = inl refl

abbrev setting : Setting
setting = record { endpoints = old_path; changed = false }

set_active_endpoint_lem_example :
    Succeeds (address 2) setting (set_active_endpoint copying (address 2) setting)
    ⊎ Fails copying (address 2) setting (set_active_endpoint copying (address 2) setting)
set_active_endpoint_lem_example =
    set_active_endpoint_lem copying (address 2) setting address-IsInet (omega arith)

group-ok : (set_group_endpoint copying (address 2) false (old_path ∷ new_path ∷ [])).0 ≡ ok tt
unfolding set_group_endpoint set_active_endpoint find_endpoint append_endpoint sockaddr_equal
    bytes_eq
group-ok = refl

set_group_endpoint-ActiveIs_example :
    All
      (ActiveIs (address 2))
      (set_group_endpoint copying (address 2) false (old_path ∷ new_path ∷ [])).1.1
set_group_endpoint-ActiveIs_example =
    set_group_endpoint-ActiveIs copying (address 2) (old_path ∷ new_path ∷ []) false address-IsInet
      (omega arith, (omega arith, tt)) group-ok

found_second : find_endpoint (address 2) (address 1 ∷ address 2 ∷ []) 0 ≡ some 1
unfolding find_endpoint sockaddr_equal bytes_eq
found_second = refl

set_group_endpoint-changed_example :
    (set_group_endpoint copying (address 2) false (old_path ∷ new_path ∷ [])).1.0 ≡ false
set_group_endpoint-changed_example =
    set_group_endpoint-changed copying (address 2) (old_path ∷ []) false new_path found_second
