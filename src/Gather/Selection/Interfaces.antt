-- ===== src/Gather/Selection/Interfaces.antt =====
-- Which interfaces the preferences for interface types allow.
use ctaps.Prelude.{
  ℕ, ◌≡◌, refl, ap, subst, ◌≢◌, ◌↔◌, ◌⊎◌, inl, inr, Bool, true, false, Option, none, some, List, [],
  ◌∷◌, arith, if◌then◌else◌, Bool-cases, All, bytes_eq, bytes_eq_sound, bytes_eq_refl,
}
use ctaps.Gather.Selection.{
  prohibit, require, Text, Combination, is_prohibit, is_require, type_allowed, any_interface,
  get_generic_interface_type, combinations_allow, interface_is_compatible,
}

abbrev Allows : Text → Combination → Type 0
Allows type c =
    ((c.value ≡ type) × (c.preference ≢ prohibit)) ⊎ ((c.value ≢ type) × (c.preference ≢ require))

bytes_ne : (xs ys : List ℕ) → bytes_eq xs ys ≡ false → xs ≢ ys
bytes_ne xs ys h e = ground (arith, ap (bytes_eq xs) e, bytes_eq_refl xs)

abbrev pub Acceptable : Text → List Combination → Type 0
Acceptable type = All (Allows type)

Allows-same :
    (type : Text) (c : Combination)
    → c.value ≡ type
    → (is_prohibit c.preference ≡ false) ↔ Allows type c
Allows-same type c same =
    (λ h. inl (same, λ p. ground (arith, ap is_prohibit p, h)), λ a. ground arith)

Allows-other :
    (type : Text) (c : Combination)
    → c.value ≢ type
    → (is_require c.preference ≡ false) ↔ Allows type c
Allows-other type c other =
    (λ h. inr (other, λ p. ground (arith, ap is_require p, h)), λ a. ground arith)

guarded : (b r : Bool) → ((if b then false else r) ≡ true) ↔ ((b ≡ false) × (r ≡ true))
guarded true r = (λ h. cc, λ h. cc)
guarded false r = (λ h. (refl, h), λ h. h.1)

both_iff : {A B C D : Type 0} → A ↔ (B × C) → B ↔ D → {E : Type 0} → C ↔ E → A ↔ (D × E)
both_iff f g h = (λ a. (g.0 (f.0 a).0, h.0 (f.0 a).1), λ d. f.1 (g.1 d.0, h.1 d.1))

combinations_allow_iff :
    (type : Text) (cs : List Combination) → (combinations_allow type cs ≡ true) ↔ Acceptable type cs
unfolding combinations_allow
combinations_allow_iff type [] = (λ h. tt, λ h. refl)
combinations_allow_iff type (c ∷ cs) = elim (Bool-cases (bytes_eq c.value type)) [
  | inl e ↦ rw e (
      both_iff (guarded (is_prohibit c.preference) (combinations_allow type cs))
        (Allows-same type c (bytes_eq_sound c.value type e)) (combinations_allow_iff type cs))
  | inr e ↦ rw e (
      both_iff (guarded (is_require c.preference) (combinations_allow type cs))
        (Allows-other type c (bytes_ne c.value type e)) (combinations_allow_iff type cs))
]

type_allowed_iff :
    (o : Option Text) (cs : List Combination)
    → (type_allowed o cs ≡ true) ↔ ((type : Text) × (o ≡ some type) × Acceptable type cs)
unfolding type_allowed
type_allowed_iff none cs = (λ h. cc, λ (type, e, a). cc)
type_allowed_iff (some type) cs = (
  λ h. (type, refl, (combinations_allow_iff type cs).0 h),
  λ (other, e, a).
      (combinations_allow_iff type cs).1 (subst (λ t. Acceptable t cs) (ground (arith, e)) a),
)

-- With preferences set, an interface other than "any" is compatible exactly when its generic type
-- is known, is not prohibited, and no other type is required.
pub interface_is_compatible_iff :
    (name : Text) (cs : List Combination)
    → cs ≢ []
    → name ≢ any_interface
    → (interface_is_compatible name cs ≡ true)
      ↔ ((type : Text) × (get_generic_interface_type name ≡ some type) × Acceptable type cs)
unfolding interface_is_compatible
interface_is_compatible_iff name [] h k = absurd (h refl)
interface_is_compatible_iff name (c ∷ cs) h k = elim (Bool-cases (bytes_eq name any_interface)) [
  | inl e ↦ absurd (k (bytes_eq_sound name any_interface e))
  | inr e ↦ rw e (type_allowed_iff (get_generic_interface_type name) (c ∷ cs))
]
