-- ===== src/Quic/Alpn/First.antt =====
-- The choice of an ALPN string where the client's end with a NUL.
use ctaps.Prelude.{
  ℕ, zero, suc, ◌+◌, ◌<◌, ◌≡◌, refl, sym, ap, subst, ◌∙◌, ◌≢◌, ◌⊎◌, inl, inr, Bool, true, false,
  ◌||◌, some, List, [], ◌∷◌, map, arith, ◌==◌, if◌then◌else◌, Bool-cases, if_cases, length,
  get_elem?, take, All, bytes_eq, bytes_eq_sound, bytes_eq_refl,
}
use ctaps.Quic.Alpn.{
  Iovec, name, same_string, if_not, has_alpn, chosen_or, select_from, alpn_select, HasNoNul,
}

-- Whether a string is one of the listener's.
unfoldable listed : List ℕ → List (List ℕ) → Bool
listed a [] = false
listed a (l ∷ ls) = bytes_eq a l || listed a ls

-- The client's string ends with a NUL that is not counted in its length.
abbrev pub IsTerminated : Iovec → Type 0
IsTerminated o = HasNoNul (name o) × (get_elem? o.base o.len ≡ some 0)

same_string-terminated :
    (n : ℕ) (base t : List ℕ)
    → HasNoNul (take n base)
    → get_elem? base n ≡ some 0
    → HasNoNul t
    → same_string base t ≡ some (bytes_eq (take n base) t)
unfolding same_string bytes_eq
same_string-terminated zero [] t h e k = cc
same_string-terminated zero (x ∷ xs) [] h e k =
    let z : x ≡ 0 = ground (arith, e) in ap some (ground (arith, z))
same_string-terminated zero (x ∷ xs) (y ∷ ys) h e k =
    let z : x ≡ 0 = ground (arith, e) in
    let differs : (x == y) ≡ false = ground (arith, z, k.0) in rw differs refl
same_string-terminated (suc n) [] t h e k = cc
same_string-terminated (suc n) (x ∷ xs) [] h e k = ap some (ground (arith, h.0))
same_string-terminated (suc n) (x ∷ xs) (y ∷ ys) h e k = elim (Bool-cases (x == y)) [
  | inl p ↦ rw p (same_string-terminated n xs ys h.1 e k.1)
  | inr p ↦ rw p refl
]

has_alpn-listed :
    (o : Iovec) (alpns : List (List ℕ))
    → IsTerminated o
    → All HasNoNul alpns
    → has_alpn o.base alpns ≡ some (listed (name o) alpns)
unfolding has_alpn listed
has_alpn-listed o [] h k = refl
has_alpn-listed o (l ∷ ls) h k =
    rw (same_string-terminated o.len o.base l h.0 h.1 k.0, has_alpn-listed o ls h k.1)
      (by_first (bytes_eq (name o) l) _)
  where
    by_first : (b c : Bool) → if_not (some b) (some c) ≡ some (b || c)
    by_first true c = refl
    by_first false c = refl

-- One of the listener's strings is the one at the index.
pub record Chosen (alpns offered : List (List ℕ)) (k : ℕ) : Type 0 where
  pub within : k < length offered
  pub at : ℕ
  pub same : get_elem? alpns at ≡ get_elem? offered k
  pub present : at < length alpns

-- `k` is the index of the first of the client's strings that the listener has, or their number.
pub record IsFirst (alpns offered : List (List ℕ)) (k : ℕ) : Type 0 where
  pub before : All (λ a. All (λ l. a ≢ l) alpns) (take k offered)
  pub chosen : Chosen alpns offered k ⊎ (k ≡ length offered)

abbrev first : List (List ℕ) → List (List ℕ) → ℕ
first alpns [] = 0
first alpns (a ∷ rest) = let r = first alpns rest in if listed a alpns then 0 else suc r

select_from-first :
    (list : List Iovec) (i n : ℕ) (alpns : List (List ℕ))
    → All IsTerminated list
    → All HasNoNul alpns
    → i + length list ≡ n
    → select_from i n alpns list ≡ some (i + first alpns (map name list))
unfolding select_from
select_from-first [] i n alpns h k e = ap some (ground (arith, e))
select_from-first (o ∷ rest) i n alpns h k e =
    rw
      (
        has_alpn-listed o alpns h.0 k,
        select_from-first rest (suc i) n alpns h.1 k (ground (arith, e)),
      )
      (shift (listed (name o) alpns) _)
  where
    shift :
        (b : Bool) (m : ℕ)
        → chosen_or (some b) i (some (suc i + m)) ≡ some (i + (if b then 0 else suc m))
    shift true m = ap some (omega arith)
    shift false m = ap some (omega arith)

-- Where the listener has a string.
record At (a : List ℕ) (alpns : List (List ℕ)) : Type 0 where
  at : ℕ
  entry : get_elem? alpns at ≡ some a
  present : at < length alpns

listed-At : (alpns : List (List ℕ)) (a : List ℕ) → listed a alpns ≡ true → At a alpns
unfolding listed
listed-At [] a h = cc
listed-At (l ∷ ls) a h = elim (Bool-cases (bytes_eq a l)) [
  | inl p ↦ record { at = 0; entry = ap some (sym (bytes_eq_sound a l p)); present = omega arith }
  | inr p ↦
      let r = listed-At ls a (ground (arith, h, p)) in
      record { at = suc r.at; entry = r.entry; present = omega (arith, r.present) }
]

listed-none : (alpns : List (List ℕ)) (a : List ℕ) → listed a alpns ≡ false → All (λ l. a ≢ l) alpns
unfolding listed
listed-none [] a h = tt
listed-none (l ∷ ls) a h =
    let o : (bytes_eq a l ≡ false) × (listed a ls ≡ false) = both (bytes_eq a l) _ h in
    (λ e. differs (subst (λ b. bytes_eq a b ≡ true) e (bytes_eq_refl a)) o.0, listed-none ls a o.1)
  where
    both : (b c : Bool) → (b || c) ≡ false → (b ≡ false) × (c ≡ false)
    both true c e = cc
    both false c e = (refl, e)

    differs : {b : Bool} → b ≡ true → b ≡ false → ⊥
    differs e f = cc

first-IsFirst : (offered alpns : List (List ℕ)) → IsFirst alpns offered (first alpns offered)
first-IsFirst [] alpns = record { before = tt; chosen = inr refl }
first-IsFirst (a ∷ rest) alpns =
    if_cases (IsFirst alpns (a ∷ rest)) (listed a alpns)
      (λ p.
        let r = listed-At alpns a p in
        record {
          before = tt;
          chosen =
              inl record { within = omega arith; at = r.at; same = r.entry; present = r.present };
        })
      (λ p.
        let r = first-IsFirst rest alpns in
        record { before = (listed-none alpns a p, r.before); chosen = later r.chosen })
  where
    later :
        {k : ℕ}
        → Chosen alpns rest k ⊎ (k ≡ length rest)
        → Chosen alpns (a ∷ rest) (suc k) ⊎ (suc k ≡ suc (length rest))
    later (inl c) =
        inl
          record { within = omega (arith, c.within); at = c.at; same = c.same; present = c.present }
    later (inr e) = inr (ap suc e)

first-nil : (offered : List (List ℕ)) → first [] offered ≡ length offered
unfolding listed
first-nil [] = refl
first-nil (a ∷ rest) = ap suc (first-nil rest)

length-names : (list : List Iovec) → length (map name list) ≡ length list
length-names [] = refl
length-names (o ∷ rest) = ap suc (length-names rest)

-- If the client's strings end with a NUL, and no string has another, quic_alpn_select_cb reads within
-- the memory and returns the index of the first of the client's strings that the listener has, and
-- their number if the listener has none of them.
pub alpn_select-IsFirst :
    (alpns : List (List ℕ)) (list : List Iovec)
    → All HasNoNul alpns
    → All IsTerminated list
    → (k : ℕ) × (alpn_select (some alpns) list ≡ some k) × IsFirst alpns (map name list) k
unfolding alpn_select
alpn_select-IsFirst [] list k h = (
  length list,
  refl,
  subst (IsFirst [] (map name list)) (first-nil (map name list) ∙ length-names list)
      (first-IsFirst (map name list) []),
)
alpn_select-IsFirst (l ∷ ls) list k h = (
  0 + first (l ∷ ls) (map name list),
  select_from-first list 0 (length list) (l ∷ ls) h k (omega arith),
  subst (IsFirst (l ∷ ls) (map name list)) (omega arith) (first-IsFirst (map name list) (l ∷ ls)),
)
