-- ===== src/Gather/Selection/Laws.antt =====
-- What the judgements of candidates mean, property by property.
use ctaps.Prelude.{
  ℕ, zero, suc, ◌+◌, ◌≡◌, refl, subst, ◌↔◌, ◌⊎◌, Bool, true, false, not, ◌&&◌, some, List, [], ◌∷◌,
  arith, ◌==◌, if◌then◌else◌, length, get_elem?,
}
use ctaps.Prelude.Int.{ℤ, pos, negsuc, pos_part, neg_part, sub_ℕ, neg_ℤ, is_zero_ℤ, +ℤ_parts}
use ctaps.Gather.Selection.{
  prohibit, require, type_preference, SelectionProperty, Protocol, is_preference, is_prohibit,
  is_require, is_prefer, is_avoid, supports, protocol_implementation_supports_selection_properties,
  Scores, score, scores, step_up, step_down, compare_prefer_and_avoid_preferences,
}

-- A protocol rules out what is required, or relies on what is prohibited.
abbrev pub Clashes : SelectionProperty → SelectionProperty → Type 0
Clashes d p =
    (d.type ≡ type_preference)
    × (((d.simple_preference ≡ require) × (p.simple_preference ≡ prohibit))
        ⊎ ((d.simple_preference ≡ prohibit) × (p.simple_preference ≡ require)))

supports-cons :
    (d p : SelectionProperty) (ds ps : List SelectionProperty)
    → (supports (d ∷ ds) (p ∷ ps) ≡ true) ↔ ((¬ Clashes d p) × (supports ds ps ≡ true))
unfolding supports
supports-cons d p ds ps = (λ h. (λ c. ground arith, ground arith), λ h. ground arith)

supports-at :
    (ds ps : List SelectionProperty) (i : ℕ) (d p : SelectionProperty)
    → supports ds ps ≡ true
    → get_elem? ds i ≡ some d
    → get_elem? ps i ≡ some p
    → ¬ Clashes d p
supports-at [] ps i d' p' h e f = cc
supports-at (d ∷ ds) [] i d' p' h e f = cc
supports-at (d ∷ ds) (p ∷ ps) zero d' p' h e f =
    let same_d : d ≡ d' = ground (arith, e) in
    let same_p : p ≡ p' = ground (arith, f) in
    subst (λ x. ¬ Clashes x p') same_d
      (subst (λ y. ¬ Clashes d y) same_p ((supports-cons d p ds ps).0 h).0)
supports-at (d ∷ ds) (p ∷ ps) (suc i) d' p' h e f =
    supports-at ds ps i d' p' ((supports-cons d p ds ps).0 h).1 e f

abbrev pub ClashFree : List SelectionProperty → List SelectionProperty → Type 0
ClashFree ds ps =
    (i : ℕ) (d p : SelectionProperty)
    → get_elem? ds i ≡ some d
    → get_elem? ps i ≡ some p
    → ¬ Clashes d p

supports-of : (ds ps : List SelectionProperty) → ClashFree ds ps → supports ds ps ≡ true
unfolding supports
supports-of [] ps h = refl
supports-of (d ∷ ds) [] h = refl
supports-of (d ∷ ds) (p ∷ ps) h =
    (supports-cons d p ds ps).1 (h 0 d p refl refl, supports-of ds ps (λ i. h (suc i)))

-- A protocol is kept exactly when at no index its property clashes with the desired one: it rules
-- out what is required or relies on what is prohibited.
pub supports_iff :
    (protocol : Protocol) (desired : List SelectionProperty)
    → (protocol_implementation_supports_selection_properties protocol desired ≡ true)
      ↔ ClashFree desired protocol.selection_properties
unfolding protocol_implementation_supports_selection_properties
supports_iff protocol desired = (
  λ h i d p. supports-at desired protocol.selection_properties i d p h,
  supports-of desired protocol.selection_properties,
)

-- How many preferred properties a protocol can provide, and how many avoided ones it can leave out.
abbrev one : Bool → ℕ
one true = 1
one false = 0

abbrev pub prefers_met : List SelectionProperty → List SelectionProperty → ℕ
prefers_met (d ∷ ds) (p ∷ ps) =
    one (
      is_preference d.type
      && (is_prefer d.simple_preference && not (is_prohibit p.simple_preference)))
    + prefers_met ds ps
prefers_met _ _ = 0

abbrev pub avoids_met : List SelectionProperty → List SelectionProperty → ℕ
avoids_met (d ∷ ds) (p ∷ ps) =
    one (
      is_preference d.type
      && (is_avoid d.simple_preference && not (is_require p.simple_preference)))
    + avoids_met ds ps
avoids_met _ _ = 0

-- `s` grown by `up` and lowered by `down`.
abbrev Moves : ℤ → ℤ → ℕ → ℕ → Type 0
Moves s t up down = pos_part t + neg_part s + down ≡ neg_part t + pos_part s + up

step_up_lem : (b : Bool) (s : ℤ) → Moves s (step_up b s) (one b) 0
unfolding step_up
step_up_lem true s = omega (arith, +ℤ_parts s (pos 1))
step_up_lem false s = omega arith

step_down_lem : (b : Bool) (s : ℤ) → Moves s (step_down b s) 0 (one b)
unfolding step_down
step_down_lem true s = omega (arith, +ℤ_parts s (negsuc 0))
step_down_lem false s = omega arith

module _ (d a b : SelectionProperty) (s : Scores) where
  score-prefer :
      Moves s.prefer_score
        (score d a b s).prefer_score
        (prefers_met (d ∷ []) (a ∷ []))
        (prefers_met (d ∷ []) (b ∷ []))
  unfolding score
  score-prefer =
      let can_a = not (is_prohibit a.simple_preference) in
      let can_b = not (is_prohibit b.simple_preference) in
      ground (
        arith,
        step_up_lem can_a s.prefer_score,
        step_down_lem can_b (step_up can_a s.prefer_score),
      )

  score-avoid :
      Moves s.avoid_score
        (score d a b s).avoid_score
        (avoids_met (d ∷ []) (a ∷ []))
        (avoids_met (d ∷ []) (b ∷ []))
  unfolding score
  score-avoid =
      let can_a = not (is_require a.simple_preference) in
      let can_b = not (is_require b.simple_preference) in
      ground
        (arith, step_up_lem can_a s.avoid_score, step_down_lem can_b (step_up can_a s.avoid_score))

scores_lem :
    (ds xs bs : List SelectionProperty) (s : Scores)
    → length xs ≡ length ds
    → length bs ≡ length ds
    → Moves s.prefer_score (scores ds xs bs s).prefer_score (prefers_met ds xs) (prefers_met ds bs)
      × Moves s.avoid_score (scores ds xs bs s).avoid_score (avoids_met ds xs) (avoids_met ds bs)
unfolding scores
scores_lem [] xs bs s h k = omega arith
scores_lem (d ∷ ds) [] bs s h k = absurd (omega arith)
scores_lem (d ∷ ds) (a ∷ xs) [] s h k = absurd (omega arith)
scores_lem (d ∷ ds) (a ∷ xs) (b ∷ bs) s h k = omega (
  arith,
  scores_lem ds xs bs (score d a b s) (omega arith) (omega arith),
  score-prefer d a b s,
  score-avoid d a b s,
)

-- The comparison is lexicographic: by the preferred properties that a protocol can provide, and on
-- a tie by the avoided ones that it can leave out; the result is the difference in favour of `b`.
-- Both protocols state as many properties as are desired.
pub compare_lem :
    (desired : List SelectionProperty) (a b : Protocol)
    → length a.selection_properties ≡ length desired
    → length b.selection_properties ≡ length desired
    → let prefers = λ (p : Protocol). prefers_met desired p.selection_properties in
      let avoids = λ (p : Protocol). avoids_met desired p.selection_properties in
      compare_prefer_and_avoid_preferences desired a b ≡ (
        if prefers a == prefers b
        then sub_ℕ (avoids b) (avoids a)
        else sub_ℕ (prefers b) (prefers a))
unfolding compare_prefer_and_avoid_preferences
compare_lem desired a b h k =
    let start : Scores = record { prefer_score = pos 0; avoid_score = pos 0 } in
    let (p, q) = scores_lem desired a.selection_properties b.selection_properties start h k in
    by_parts (scores desired a.selection_properties b.selection_properties start) _ _ _ _ p q
  where
    by_parts :
        (s : Scores) (pa pb va vb : ℕ)
        → Moves (pos 0) s.prefer_score pa pb
        → Moves (pos 0) s.avoid_score va vb
        → (if not (is_zero_ℤ s.prefer_score) then neg_ℤ s.prefer_score else neg_ℤ s.avoid_score)
          ≡ (if pa == pb then sub_ℕ vb va else sub_ℕ pb pa)
    by_parts s pa pb va vb p q = ground arith
