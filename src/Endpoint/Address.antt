-- ===== src/Endpoint/Address.antt =====
-- Socket addresses: src/endpoint/util.c, and the hash table keys of
-- src/candidate_gathering/candidate_racing.c.
pub mod Equality
use ctaps.Prelude.{
  ℕ, ◌≡◌, refl, ap, Bool, true, false, ◌&&◌, List, [], ◌∷◌, ◌==◌, if◌then◌else◌, take, drop,
  bytes_eq, bytes_eq_sound, bytes_eq_refl, arith, Bool-cases, ◌⊎◌, inl, inr,
}

-- A `struct sockaddr_storage`: the family, and the bytes behind it.
pub record SockAddr : Type 0 where
  pub family : ℕ
  pub rest : List ℕ

abbrev pub af_unspec : ℕ
af_unspec = 0

abbrev pub af_inet : ℕ
af_inet = 2

abbrev pub af_inet6 : ℕ
af_inet6 = 10

-- The bytes of a field, by its offset behind the family and its size.
abbrev pub bytes_at : ℕ → ℕ → List ℕ → List ℕ
bytes_at offset size bytes = take size (drop offset bytes)

abbrev field_eq : ℕ → ℕ → SockAddr → SockAddr → Bool
field_eq offset size a b = bytes_eq (bytes_at offset size a.rest) (bytes_at offset size b.rest)

-- `sin_port` and `sin_addr`; `sin6_port`, `sin6_scope_id` and `sin6_addr`.
unfoldable pub sockaddr_equal : SockAddr → SockAddr → Bool
sockaddr_equal a b =
    if a.family == b.family
    then if a.family == af_inet
      then field_eq 0 2 a b && field_eq 2 4 a b
      else if a.family == af_inet6
      then field_eq 0 2 a b && (field_eq 22 4 a b && field_eq 6 16 a b)
      else false
    else false

-- `memcmp` over `sizeof(struct sockaddr_in)`, `sizeof(struct sockaddr_in6)` or all the storage.
unfoldable pub sockaddr_storage_equal : SockAddr → SockAddr → Bool
sockaddr_storage_equal a b =
    if a.family == b.family
    then if a.family == af_inet
      then bytes_eq (take 14 a.rest) (take 14 b.rest)
      else if a.family == af_inet6
      then bytes_eq (take 26 a.rest) (take 26 b.rest)
      else bytes_eq a.rest b.rest
    else false

-- `memcmp` over `sizeof(struct sockaddr_storage)`.
unfoldable pub sockaddr_memcmp : SockAddr → SockAddr → Bool
sockaddr_memcmp a b = a.family == b.family && bytes_eq a.rest b.rest
