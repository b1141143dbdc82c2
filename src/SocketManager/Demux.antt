-- ===== src/SocketManager/Demux.antt =====
-- Which connection a datagram belongs to: the demultiplexing table of
-- src/connection/socket_manager/socket_manager.c. The hash table is an association list.
use ctaps.Prelude.{
  ℕ, ◌≡◌, refl, sym, ap, ◌∙◌, ◌≢◌, ◌⊎◌, inl, inr, Bool, true, ◌&&◌, Option, none, some, List, [],
  ◌∷◌, arith, ◌==◌, if◌then◌else◌, ==_iff, Bool-cases, Option-cases, is_some, take, bytes_eq,
  bytes_eq_sound, bytes_eq_refl, Result, ok, err, eexist, einval,
}
use ctaps.Endpoint.Address.{SockAddr, af_inet, af_inet6}
pub mod Others

-- The bytes of a `sockaddr_in` or a `sockaddr_in6`, by which the table is keyed.
pub record AddrBytes : Type 0 where
  pub family : ℕ
  pub bytes : List ℕ

unfoldable pub addr_bytes : SockAddr → Option AddrBytes
addr_bytes a =
    if a.family == af_inet
    then some (record { family = a.family; bytes = take 14 a.rest })
    else if a.family == af_inet6
    then some (record { family = a.family; bytes = take 26 a.rest })
    else none

abbrev pub key_eq : AddrBytes → AddrBytes → Bool
key_eq k l = k.family == l.family && bytes_eq k.bytes l.bytes

-- Keys with the connections, which stand by their number.
abbrev pub DemuxTable : Type 0
DemuxTable = List (AddrBytes × ℕ)

unfoldable pub lookup : AddrBytes → DemuxTable → Option ℕ
lookup k [] = none
lookup k (e ∷ es) = let rest = lookup k es in if key_eq e.0 k then some e.1 else rest

unfoldable pub lookup_bytes : DemuxTable → Option AddrBytes → Option ℕ
lookup_bytes t none = none
lookup_bytes t (some k) = lookup k t

unfoldable pub get_from_demux_table : DemuxTable → SockAddr → Option ℕ
get_from_demux_table t a = lookup_bytes t (addr_bytes a)

unfoldable pub insert_bytes : DemuxTable → Option AddrBytes → ℕ → Result (Unit {0}) × DemuxTable
insert_bytes t none c = (err einval, t)
insert_bytes t (some k) c = if is_some (lookup k t) then (err eexist, t) else (ok tt, (k, c) ∷ t)

unfoldable pub insert_demuxed_connection :
    DemuxTable → SockAddr → ℕ → Result (Unit {0}) × DemuxTable
insert_demuxed_connection t a c = insert_bytes t (addr_bytes a) c

-- An Internet address; the table refuses the others.
pub HasBytes : SockAddr → Type 0
HasBytes a = (k : AddrBytes) × (addr_bytes a ≡ some k)

pub key_eq_self : (k : AddrBytes) → key_eq k k ≡ true
key_eq_self k = ground (arith, bytes_eq_refl k.bytes)

pub key_eq_sound : (k l : AddrBytes) → key_eq k l ≡ true → k ≡ l
key_eq_sound k l h = elim (Bool-cases (k.family == l.family)) [
  | inl p ↦ elim (Bool-cases (bytes_eq k.bytes l.bytes)) [
    | inl q ↦ rw ((==_iff k.family l.family).0 p, bytes_eq_sound k.bytes l.bytes q)
    | inr q ↦ ground (arith, h, p, q)
  ]
  | inr p ↦ ground (arith, h, p)
]

-- After an insertion a datagram from the inserted address finds the inserted connection, if its
-- address was free and known; otherwise the table is what it was, and the code tells why.
pub insert_demuxed_connection_lem :
    (t : DemuxTable) (a : SockAddr) (c : ℕ)
    → ((insert_demuxed_connection t a c).0 ≡ ok tt)
        × HasBytes a
        × (get_from_demux_table t a ≡ none)
        × (get_from_demux_table (insert_demuxed_connection t a c).1 a ≡ some c)
      ⊎ (((insert_demuxed_connection t a c).1 ≡ t)
          × (((insert_demuxed_connection t a c).0 ≡ err einval) × (addr_bytes a ≡ none)
              ⊎ ((insert_demuxed_connection t a c).0 ≡ err eexist)
                × ((d : ℕ) × (get_from_demux_table t a ≡ some d))))
unfolding insert_demuxed_connection get_from_demux_table insert_bytes lookup_bytes lookup HasBytes
insert_demuxed_connection_lem t a c = elim (Option-cases (addr_bytes a)) [
  | inl p ↦ rw p (inr (refl, inl (refl, refl)))
  | inr (k, p) ↦ elim (Option-cases (lookup k t)) [
    | inl q ↦ rw (p, q) (inl (refl, (k, refl), refl, rw (key_eq_self k)))
    | inr (d, q) ↦ rw (p, q) (inr (refl, inr (refl, (d, refl))))
  ]
]
