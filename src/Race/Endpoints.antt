-- ===== src/Race/Endpoints.antt =====
-- The endpoint lists of a connection attempt: the deduplication loops and the searches for the
-- active endpoint in `start_connection_attempt`.
use ctaps.Prelude.{
  ℕ, suc, Bool, List, [], ◌∷◌, ◌++◌, ◌==◌, if◌then◌else◌, length, any, Result, ok, err, ◌>>=◌,
  enomem,
}
use ctaps.Endpoint.Address.{SockAddr, sockaddr_storage_equal, sockaddr_memcmp}

-- The hash table holds the addresses taken so far, `g_hash_table_contains` looks one up by
-- `sockaddr_storage_equal`, and `realloc_ok` and `copy_rc` answer for the allocator.
module _ (realloc_ok : ℕ → Bool) (copy_rc : SockAddr → ℕ) where
  unfoldable pub add_endpoint : List SockAddr → SockAddr → Result (List SockAddr)
  add_endpoint seen a =
      if any (sockaddr_storage_equal a) seen
      then ok seen
      else if realloc_ok (length seen)
      then if copy_rc a == 0 then ok (seen ++ a ∷ []) else err (copy_rc a)
      else err enomem

  unfoldable pub unique_endpoints : List SockAddr → List SockAddr → Result (List SockAddr)
  unfolding add_endpoint
  unique_endpoints seen [] = ok seen
  unique_endpoints seen (a ∷ rest) = do seen' ← add_endpoint seen a; unique_endpoints seen' rest

-- The first index whose whole storage compares equal, counted from `i`, and 0 where there is none.
unfoldable pub active_index : ℕ → SockAddr → List SockAddr → ℕ
active_index i a [] = 0
active_index i a (b ∷ bs) =
    let rest = active_index (suc i) a bs in if sockaddr_memcmp b a then i else rest
