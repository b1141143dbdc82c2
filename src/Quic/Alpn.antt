-- ===== src/Quic/Alpn.antt =====
-- Which of a client's ALPN strings a listener takes: quic_alpn_select_cb in
-- src/protocol/quic/quic.c. A listener's string is its bytes before the NUL.
use ctaps.Prelude.{
  ℕ, zero, suc, ◌+◌, ◌-◌, ◌*◌, ◌%◌, ◌^◌, ◌≤◌, ◌<◌, ◌≡◌, refl, sym, ap, subst, ◌∙◌, ◌≢◌, ◌↔◌, ◌⊎◌,
  inl, inr, Bool, true, false, not, ◌&&◌, ◌||◌, Option, none, some, List, [], ◌∷◌, ◌++◌, map, arith,
  ltb, leb, ◌==◌, if◌then◌else◌, ==_iff, Bool-cases, if_cases, Option-cases, is_some, u64, length,
  get_elem?, modify, take, drop, count, any, keep, All, length-append, append-nil, append_assoc,
  length-modify, get_elem?-modify, get_elem?-modify_ne, lt_of_get_elem?, count-append,
  count-modify_eq, count-modify_drop, bytes_eq, bytes_eq_sound, bytes_eq_refl, Result, ok, err,
  ◌>>=◌, Result-cases, enoent, eio, enomem, eexist, einval, epipe, enotsup,
}
pub mod First
pub mod Missed

-- An entry of picoquic's list: the memory that can be read from `base` on, and the length of the
-- client's string there, which the callback does not look at.
pub record Iovec : Type 0 where
  pub base : List ℕ
  pub len : ℕ

abbrev pub name : Iovec → List ℕ
name o = take o.len o.base

-- Whether strcmp on the memory and a listener's string is 0. `none` is a fault, a read behind the
-- memory.
unfoldable pub same_string : List ℕ → List ℕ → Option Bool
same_string [] t = none
same_string (x ∷ xs) [] = some (x == 0)
same_string (x ∷ xs) (y ∷ ys) = let rest = same_string xs ys in if x == y then rest else some false

abbrev pub if_not : Option Bool → Option Bool → Option Bool
if_not none next = none
if_not (some true) next = some true
if_not (some false) next = next

-- The loop over the listener's strings.
unfoldable pub has_alpn : List ℕ → List (List ℕ) → Option Bool
unfolding same_string
has_alpn base [] = some false
has_alpn base (l ∷ ls) = if_not (same_string base l) (has_alpn base ls)

abbrev pub chosen_or : Option Bool → ℕ → Option ℕ → Option ℕ
chosen_or none i next = none
chosen_or (some true) i next = some i
chosen_or (some false) i next = next

-- The loop over the client's strings, from index `i`; `n` is their number.
unfoldable pub select_from : ℕ → ℕ → List (List ℕ) → List Iovec → Option ℕ
unfolding has_alpn
select_from i n alpns [] = some n
select_from i n alpns (o ∷ rest) =
    chosen_or (has_alpn o.base alpns) i (select_from (suc i) n alpns rest)

-- A listener's strings, if the context has a listener, and picoquic's list.
unfoldable pub alpn_select : Option (List (List ℕ)) → List Iovec → Option ℕ
unfolding select_from
alpn_select none list = some (length list)
alpn_select (some []) list = some (length list)
alpn_select (some (l ∷ ls)) list = select_from 0 (length list) (l ∷ ls) list

abbrev pub HasNoNul : List ℕ → Type 0
HasNoNul = All λ x. x ≢ 0
