-- ===== src/SocketManager/Demux/Others.antt =====
-- What an insertion into the demultiplexing table means for other addresses.
use ctaps.Prelude.{
  ℕ, ◌≡◌, refl, sym, ap, subst, ◌∙◌, ◌⊎◌, inl, inr, true, none, some, arith, ◌==◌, ==_iff,
  Bool-cases, Option-cases, take, bytes_eq, bytes_eq_refl,
}
use ctaps.Endpoint.Address.{SockAddr, af_inet, af_inet6, sockaddr_equal, sockaddr_storage_equal}
use ctaps.Endpoint.Address.Equality.{sockaddr_equal-sockaddr_storage_equal}
use ctaps.SocketManager.Demux.{
  AddrBytes, addr_bytes, key_eq, DemuxTable, lookup, lookup_bytes, get_from_demux_table,
  insert_bytes, insert_demuxed_connection, key_eq_sound,
}

-- The keys of the two families.
abbrev key_of : ℕ → SockAddr → AddrBytes
key_of size a = record { family = a.family; bytes = take size a.rest }

addr_bytes-key_of :
    (a : SockAddr) (k : AddrBytes)
    → addr_bytes a ≡ some k
    → ((a.family ≡ af_inet) × (key_of 14 a ≡ k)) ⊎ ((a.family ≡ af_inet6) × (key_of 26 a ≡ k))
unfolding addr_bytes
addr_bytes-key_of a k h = elim (Bool-cases (a.family == af_inet)) [
  | inl p ↦ inl ((==_iff _ _).0 p, ground (arith, h, p))
  | inr p ↦ inr (ground (arith, h, p), ground (arith, h, p))
]

-- Addresses with the same key are one for the rest of the library.
addr_bytes-sockaddr_equal :
    (a b : SockAddr) (k : AddrBytes)
    → addr_bytes a ≡ some k
    → addr_bytes b ≡ some k
    → sockaddr_equal a b ≡ true
unfolding sockaddr_storage_equal
addr_bytes-sockaddr_equal a b k h g =
    sockaddr_equal-sockaddr_storage_equal a b (inet (addr_bytes-key_of a k h)) same
  where
    inet :
        ((a.family ≡ af_inet) × (key_of 14 a ≡ k)) ⊎ ((a.family ≡ af_inet6) × (key_of 26 a ≡ k))
        → (a.family ≡ af_inet) ⊎ (a.family ≡ af_inet6)
    inet (inl x) = inl x.0
    inet (inr x) = inr x.0

    equal_keys :
        (size : ℕ)
        → key_of size a ≡ k
        → key_of size b ≡ k
        → bytes_eq (take size a.rest) (take size b.rest) ≡ true
    equal_keys size e f =
        subst (λ x. bytes_eq (take size a.rest) x ≡ true)
          (ap (λ (x : AddrBytes). x.bytes) (e ∙ sym f)) (bytes_eq_refl (take size a.rest))

    mixed : a.family ≡ af_inet → b.family ≡ af_inet6 → key_of 14 a ≡ k → key_of 26 b ≡ k → ⊥
    mixed p q e f = omega (arith, p, q, ap (λ (x : AddrBytes). x.family) (e ∙ sym f))

    mixed6 : a.family ≡ af_inet6 → b.family ≡ af_inet → key_of 26 a ≡ k → key_of 14 b ≡ k → ⊥
    mixed6 p q e f = omega (arith, p, q, ap (λ (x : AddrBytes). x.family) (e ∙ sym f))

    same : sockaddr_storage_equal a b ≡ true
    same = elim (addr_bytes-key_of a k h) [
      | inl (p, e) ↦ elim (addr_bytes-key_of b k g) [
        | inl (q, f) ↦ rw (p, q) (equal_keys 14 e f)
        | inr (q, f) ↦ absurd (mixed p q e f)
      ]
      | inr (p, e) ↦ elim (addr_bytes-key_of b k g) [
        | inl (q, f) ↦ absurd (mixed6 p q e f)
        | inr (q, f) ↦ rw (p, q) (equal_keys 26 e f)
      ]
    ]

-- An insertion takes no datagram away from the connection that it reached before, and brings the new
-- connection only those that reached none and whose address is, for ct_sockaddr_equal, the inserted
-- one.
pub insert_demuxed_connection-sockaddr_equal :
    (t : DemuxTable) (a b : SockAddr) (c : ℕ)
    → (get_from_demux_table (insert_demuxed_connection t a c).1 b ≡ get_from_demux_table t b)
      ⊎ ((get_from_demux_table t b ≡ none)
          × (get_from_demux_table (insert_demuxed_connection t a c).1 b ≡ some c)
          × (sockaddr_equal a b ≡ true))
unfolding insert_demuxed_connection get_from_demux_table insert_bytes lookup_bytes lookup
insert_demuxed_connection-sockaddr_equal t a b c = elim (Option-cases (addr_bytes b)) [
  | inl p ↦ rw p (inl refl)
  | inr (l, p) ↦ elim (Option-cases (addr_bytes a)) [
    | inl q ↦ rw (p, q) (inl refl)
    | inr (k, q) ↦ elim (Option-cases (lookup k t)) [
      | inl r ↦ elim (Bool-cases (key_eq k l)) [
        | inl e ↦
            let same : l ≡ k = sym (key_eq_sound k l e) in
            rw (p, q, r, e)
              (inr (
                ap (λ i. lookup i t) same ∙ r,
                refl,
                addr_bytes-sockaddr_equal a b k q (p ∙ ap some same),
              ))
        | inr e ↦ rw (p, q, r, e) (inl refl)
      ]
      | inr (d, r) ↦ rw (p, q, r) (inl refl)
    ]
  ]
]
