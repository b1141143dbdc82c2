-- ===== src/Endpoint/Address/Equality.antt =====
-- How the comparisons of addresses relate.
use ctaps.Prelude.{
  ℕ, zero, suc, ◌+◌, ◌≤◌, ◌≡◌, refl, sym, ap, ◌∙◌, ◌⊎◌, true, List, [], ◌∷◌, arith, take, bytes_eq,
  bytes_eq_sound, bytes_eq_refl,
}
use ctaps.Endpoint.Address.{
  SockAddr, sockaddr_equal, sockaddr_storage_equal, bytes_at, af_inet, af_inet6,
}

pub sockaddr_storage_equal_refl : (a : SockAddr) → sockaddr_storage_equal a a ≡ true
unfolding sockaddr_storage_equal
sockaddr_storage_equal_refl a =
    ground
      (arith, bytes_eq_refl a.rest, bytes_eq_refl (take 14 a.rest), bytes_eq_refl (take 26 a.rest))

take-take : (size n : ℕ) (xs : List ℕ) → size ≤ n → take size (take n xs) ≡ take size xs
take-take zero n xs h = refl
take-take (suc size) zero xs h = absurd (omega arith)
take-take (suc size) (suc n) [] h = refl
take-take (suc size) (suc n) (x ∷ xs) h = ap (◌∷◌ x) (take-take size n xs (omega arith))

bytes_at-take :
    (offset size n : ℕ) (xs : List ℕ)
    → offset + size ≤ n
    → bytes_at offset size (take n xs) ≡ bytes_at offset size xs
bytes_at-take zero size n xs h = take-take size n xs (omega arith)
bytes_at-take (suc offset) size zero xs h = absurd (omega arith)
bytes_at-take (suc offset) size (suc n) [] h = refl
bytes_at-take (suc offset) size (suc n) (x ∷ xs) h = bytes_at-take offset size n xs (omega arith)

field_eq-take :
    (offset size n : ℕ) (xs ys : List ℕ)
    → offset + size ≤ n
    → bytes_eq (take n xs) (take n ys) ≡ true
    → bytes_eq (bytes_at offset size xs) (bytes_at offset size ys) ≡ true
field_eq-take offset size n xs ys h e =
    let same : bytes_at offset size xs ≡ bytes_at offset size ys =
      sym (bytes_at-take offset size n xs h)
      ∙ ap (bytes_at offset size) (bytes_eq_sound (take n xs) (take n ys) e)
      ∙ bytes_at-take offset size n ys h in
    rw same (bytes_eq_refl (bytes_at offset size ys))

-- Of two internet addresses that the race's hash table takes for one, the rest of the library, which
-- compares the family, the port, the address and the scope only, takes them for one too.
pub sockaddr_equal-sockaddr_storage_equal :
    (a b : SockAddr)
    → (a.family ≡ af_inet) ⊎ (a.family ≡ af_inet6)
    → sockaddr_storage_equal a b ≡ true
    → sockaddr_equal a b ≡ true
unfolding sockaddr_equal sockaddr_storage_equal
sockaddr_equal-sockaddr_storage_equal a b inet h =
    let at = λ (offset size n : ℕ). field_eq-take offset size n a.rest b.rest in
    ground (
      arith,
      at 0 2 14 (omega arith),
      at 2 4 14 (omega arith),
      at 0 2 26 (omega arith),
      at 22 4 26 (omega arith),
      at 6 16 26 (omega arith),
    )
