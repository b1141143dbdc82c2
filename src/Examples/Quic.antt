-- ===== src/Examples/Quic.antt =====
-- The theorems on QUIC connections, at concrete inputs.
use ctaps.Prelude.{
  ℕ, suc, ◌*◌, ◌≤◌, ◌<◌, ◌≡◌, refl, ◌≢◌, ◌↔◌, true, false, some, List, [], ◌∷◌, ◌++◌, map, arith,
  ◌==◌, length, get_elem?, count, any, err, eio,
}
use ctaps.Quic.Streams.{Stream, Event, peer_fin, user_close, num_active, find_stream, run}
use ctaps.Quic.Closing.{asked, opened, run-asked}
use ctaps.Quic.Order.{reports, Beside, run-orders}
use ctaps.Quic.Probing.{probe_all_paths, probe_all_paths_lem}
use ctaps.Quic.Alpn.{Iovec, name, has_alpn, same_string, select_from, alpn_select}
use ctaps.Quic.Alpn.First.{IsFirst, alpn_select-IsFirst}
use ctaps.Quic.Alpn.Missed.{alpn_select_missed}

abbrev stream : ℕ → Stream
stream n = record { uuid = n; can_send = true; can_receive = true; stream_id = some (4 * n) }

abbrev streams : List Stream
streams = stream 1 ∷ stream 2 ∷ []

abbrev events : List Event
events = peer_fin 1 ∷ user_close true 2 ∷ user_close true 1 ∷ peer_fin 2 ∷ []

run-asked_example :
    asked (run events (opened streams)) ≡ (num_active (run events (opened streams)) == 0)
run-asked_example = run-asked events streams (omega arith)

beside : Beside 2 streams (stream 2)
unfolding find_stream
beside = record { found = refl; can_send = refl; can_receive = refl; others = omega arith }

run-orders_example :
    let close_first = run (user_close true 2 ∷ peer_fin 2 ∷ []) (opened streams) in
    let fin_first = run (peer_fin 2 ∷ user_close true 2 ∷ []) (opened streams) in
    (close_first.streams ≡ fin_first.streams)
    × (find_stream 2 fin_first.streams
        ≡ some record { uuid = 2; can_send = false; can_receive = false; stream_id = some 8 })
    × (any (reports 2) close_first.calls ≡ true)
    × (any (reports 2) fin_first.calls ≡ false)
run-orders_example = run-orders 2 streams (stream 2) true beside

abbrev listener_alpns : List (List ℕ)
listener_alpns = (104 ∷ 51 ∷ []) ∷ (104 ∷ 113 ∷ []) ∷ []

-- A client's string with its length, and the byte behind it.
abbrev entry : List ℕ → ℕ → Iovec
entry a next = record { base = a ++ (next ∷ []); len = length a }

abbrev offered : ℕ → List Iovec
offered next =
    entry (104 ∷ 113 ∷ 1 ∷ []) next ∷ entry (104 ∷ 113 ∷ []) next ∷ entry (104 ∷ 51 ∷ []) next ∷ []

no_nul : (n : ℕ) → suc n ≢ 0
no_nul n = omega arith

alpn_select-IsFirst_example :
    (k : ℕ) × (alpn_select (some listener_alpns) (offered 0) ≡ some k)
    × IsFirst listener_alpns (map name (offered 0)) k
alpn_select-IsFirst_example =
    alpn_select-IsFirst listener_alpns (offered 0)
      ((no_nul 103, (no_nul 50, tt)), ((no_nul 103, (no_nul 112, tt)), tt))
      (
        ((no_nul 103, (no_nul 112, (no_nul 0, tt))), refl),
        (((no_nul 103, (no_nul 112, tt)), refl), (((no_nul 103, (no_nul 50, tt)), refl), tt)),
      )

chosen : alpn_select (some listener_alpns) (offered 0) ≡ some 1
unfolding alpn_select select_from has_alpn same_string
chosen = refl

alpn_select_missed_example : alpn_select (some listener_alpns) (offered 7) ≡ some 3
alpn_select_missed_example = alpn_select_missed listener_alpns (offered 7) (
  (((no_nul 103, (no_nul 112, (no_nul 0, tt))), 6, refl), (omega arith, (omega arith, tt))),
  (
    (((no_nul 103, (no_nul 112, tt)), 6, refl), (omega arith, (omega arith, tt))),
    ((((no_nul 103, (no_nul 50, tt)), 6, refl), (omega arith, (omega arith, tt))), tt),
  ),
)

-- The second local endpoint is the active one; the fourth has another family.
probe_all_paths_lem_example :
    let r = probe_all_paths (λ j. false) 1 2 (2 ∷ 2 ∷ 2 ∷ 10 ∷ []) in
    ((k : ℕ)
      → (count (λ i. i == k) r.0 ≤ 1)
        × ((0 < count (λ i. i == k) r.0)
            ↔ ((get_elem? {A = ℕ} (2 ∷ 2 ∷ 2 ∷ 10 ∷ []) k ≡ some 2) × (k ≢ 1))))
    × (r.1 ≡ err eio)
probe_all_paths_lem_example = probe_all_paths_lem (λ j. false) 1 2 (2 ∷ 2 ∷ 2 ∷ 10 ∷ [])
