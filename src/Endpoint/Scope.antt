-- ===== src/Endpoint/Scope.antt =====
-- Families, scopes and wildcards of addresses: src/endpoint/util.c and
-- src/protocol/common/socket_utils.c.
use ctaps.Prelude.{
  ℕ, Bool, true, false, ◌&&◌, List, [], ◌∷◌, ltb, leb, ◌==◌, if◌then◌else◌, take, drop, bytes_eq,
}
use ctaps.Endpoint.Address.{SockAddr, af_inet, af_inet6, bytes_at}

pub data AddrScope : Type 0 where
  loopback link_local other : AddrScope

abbrev pub scope_eq : AddrScope → AddrScope → Bool
scope_eq loopback loopback = true
scope_eq link_local link_local = true
scope_eq other other = true
scope_eq _ _ = false

-- 127.0.0.0/8 and 169.254.0.0/16, in network order.
abbrev inet_scope : List ℕ → AddrScope
inet_scope (a ∷ b ∷ rest) =
    if a == 127 then loopback else if a == 169 && b == 254 then link_local else other
inet_scope _ = other

abbrev all_zero : List ℕ → Bool
all_zero [] = true
all_zero (b ∷ bs) = b == 0 && all_zero bs

abbrev is_one : List ℕ → Bool
is_one bytes = all_zero (take 15 bytes) && bytes_eq (drop 15 bytes) (1 ∷ [])

-- fe80::/10.
abbrev is_link_local : List ℕ → Bool
is_link_local (a ∷ b ∷ rest) = a == 0xfe && (leb 0x80 b && ltb b 0xc0)
is_link_local _ = false

unfoldable pub get_addr_scope : SockAddr → AddrScope
get_addr_scope a =
    if a.family == af_inet
    then inet_scope (bytes_at 2 4 a.rest)
    else if a.family == af_inet6
    then if is_one (bytes_at 6 16 a.rest)
      then loopback
      else if is_link_local (bytes_at 6 16 a.rest)
      then link_local
      else other
    else other

-- INADDR_ANY and the unspecified IPv6 address.
unfoldable pub address_is_wildcard : SockAddr → Bool
address_is_wildcard a =
    if a.family == af_inet
    then all_zero (bytes_at 2 4 a.rest)
    else if a.family == af_inet6
    then all_zero (bytes_at 6 16 a.rest)
    else false

-- Both endpoints are given where these two are called.
unfoldable pub address_families_match : SockAddr → SockAddr → Bool
address_families_match l r = l.family == r.family

unfoldable pub address_scope_match : SockAddr → SockAddr → Bool
address_scope_match l r = scope_eq (get_addr_scope l) (get_addr_scope r)
