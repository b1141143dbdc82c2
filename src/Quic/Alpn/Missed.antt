-- ===== src/Quic/Alpn/Missed.antt =====
-- The choice of an ALPN string where the client's run into what follows them.
use ctaps.Prelude.{
  ℕ, zero, suc, ◌≤◌, ◌≡◌, refl, ap, inl, inr, false, some, List, [], ◌∷◌, arith, ◌==◌, Bool-cases,
  length, get_elem?, take, All,
}
use ctaps.Quic.Alpn.{Iovec, name, same_string, has_alpn, select_from, alpn_select, HasNoNul}

-- The byte behind the client's string is there, and no NUL.
abbrev pub RunsOn : Iovec → Type 0
RunsOn o = HasNoNul (name o) × (x : ℕ) × (get_elem? o.base o.len ≡ some (suc x))

same_string-RunsOn :
    (n : ℕ) (base t : List ℕ) (x : ℕ)
    → HasNoNul (take n base)
    → get_elem? base n ≡ some (suc x)
    → length t ≤ n
    → same_string base t ≡ some false
unfolding same_string
same_string-RunsOn zero [] t x h e k = cc
same_string-RunsOn zero (y ∷ ys) [] x h e k =
    let z : y ≡ suc x = ground (arith, e) in ap some (ground (arith, z))
same_string-RunsOn zero (y ∷ ys) (z ∷ zs) x h e k = absurd (omega (arith, k))
same_string-RunsOn (suc n) [] t x h e k = cc
same_string-RunsOn (suc n) (y ∷ ys) [] x h e k = ap some (ground (arith, h.0))
same_string-RunsOn (suc n) (y ∷ ys) (z ∷ zs) x h e k = elim (Bool-cases (y == z)) [
  | inl p ↦ rw p (same_string-RunsOn n ys zs x h.1 e (omega (arith, k)))
  | inr p ↦ rw p refl
]

has_alpn-RunsOn :
    (o : Iovec) (alpns : List (List ℕ))
    → RunsOn o
    → All (λ l. length l ≤ o.len) alpns
    → has_alpn o.base alpns ≡ some false
unfolding has_alpn
has_alpn-RunsOn o [] h k = refl
has_alpn-RunsOn o (l ∷ ls) h k =
    rw (same_string-RunsOn o.len o.base l h.1 h.0 h.2 k.0) (has_alpn-RunsOn o ls h k.1)

select_from-missed :
    (list : List Iovec) (i n : ℕ) (alpns : List (List ℕ))
    → All (λ o. RunsOn o × All (λ l. length l ≤ o.len) alpns) list
    → select_from i n alpns list ≡ some n
unfolding select_from
select_from-missed [] i n alpns h = refl
select_from-missed (o ∷ rest) i n alpns h =
    rw (has_alpn-RunsOn o alpns h.0.0 h.0.1) (select_from-missed rest (suc i) n alpns h.1)

-- If behind each of the client's strings, which have no NUL, another byte follows that is no NUL,
-- quic_alpn_select_cb takes none of them, even those that the listener has: it returns their number,
-- where no string of the listener is longer than one of the client's.
pub alpn_select_missed :
    (alpns : List (List ℕ)) (list : List Iovec)
    → All (λ o. RunsOn o × All (λ l. length l ≤ o.len) alpns) list
    → alpn_select (some alpns) list ≡ some (length list)
unfolding alpn_select
alpn_select_missed [] list h = refl
alpn_select_missed (l ∷ ls) list h = select_from-missed list 0 (length list) (l ∷ ls) h
