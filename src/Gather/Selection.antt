-- ===== src/Gather/Selection.antt =====
-- How candidates are judged by the selection properties:
-- src/candidate_gathering/candidate_gathering.c, with the types of src/ctaps_internal.h.
pub mod Laws
pub mod Interfaces
use ctaps.Prelude.{
  ℕ, zero, suc, ◌+◌, ◌-◌, ◌*◌, ◌%◌, ◌^◌, ◌≤◌, ◌<◌, ◌≡◌, refl, sym, ap, subst, ◌∙◌, ◌≢◌, ◌↔◌, ◌⊎◌,
  inl, inr, Bool, true, false, not, ◌&&◌, ◌||◌, Option, none, some, List, [], ◌∷◌, ◌++◌, map, arith,
  ltb, leb, ◌==◌, if◌then◌else◌, ==_iff, Bool-cases, if_cases, Option-cases, is_some, u64, length,
  get_elem?, modify, take, drop, count, any, keep, All, length-append, length-modify,
  get_elem?-modify, get_elem?-modify_ne, lt_of_get_elem?, count-append, count-modify_eq,
  count-modify_drop, bytes_eq, bytes_eq_sound, bytes_eq_refl, Result, ok, err, ◌>>=◌, Result-cases,
  enoent, eio, enomem, eexist, einval, epipe, enotsup,
}
use ctaps.Prelude.Int.{ℤ, pos, negsuc, neg_ℤ, is_zero_ℤ, ◌+ℤ◌}

pub data Preference : Type 0 where
  prohibit avoid no_preference prefer require : Preference

-- The members of `ct_property_type_enum_t` that selection properties have.
pub data PropertyType : Type 0 where
  type_preference type_preference_set type_enum : PropertyType

-- A string is the list of its bytes.
abbrev pub Text : Type 0
Text = List ℕ

pub record Combination : Type 0 where
  pub value : Text
  pub preference : Preference

-- The union's members stand side by side; `type` says which one the program writes.
pub record SelectionProperty : Type 0 where
  pub type : PropertyType
  pub simple_preference : Preference
  pub preference_set : List Combination

pub record Protocol : Type 0 where
  pub number : ℕ
  pub supports_alpn : Bool
  pub selection_properties : List SelectionProperty

abbrev pub is_preference : PropertyType → Bool
is_preference type_preference = true
is_preference _ = false

abbrev pub is_prohibit : Preference → Bool
is_prohibit prohibit = true
is_prohibit _ = false

abbrev pub is_require : Preference → Bool
is_require require = true
is_require _ = false

abbrev pub is_prefer : Preference → Bool
is_prefer prefer = true
is_prefer _ = false

abbrev pub is_avoid : Preference → Bool
is_avoid avoid = true
is_avoid _ = false

-- The loop of `protocol_implementation_supports_selection_properties`; both lists have
-- `SELECTION_PROPERTY_END` entries.
unfoldable pub supports : List SelectionProperty → List SelectionProperty → Bool
supports [] ps = true
supports (d ∷ ds) [] = true
supports (d ∷ ds) (p ∷ ps) =
    if is_preference d.type
    then if is_require d.simple_preference && is_prohibit p.simple_preference
      then false
      else if is_prohibit d.simple_preference && is_require p.simple_preference
      then false
      else supports ds ps
    else supports ds ps

unfoldable pub protocol_implementation_supports_selection_properties :
    Protocol → List SelectionProperty → Bool
unfolding supports
protocol_implementation_supports_selection_properties protocol desired =
    supports desired protocol.selection_properties

pub record Scores : Type 0 where
  pub prefer_score : ℤ
  pub avoid_score : ℤ

unfoldable pub step_up : Bool → ℤ → ℤ
step_up true s = s +ℤ pos 1
step_up false s = s

unfoldable pub step_down : Bool → ℤ → ℤ
step_down true s = s +ℤ negsuc 0
step_down false s = s

-- The body of the scoring loop at one property.
unfoldable pub score : SelectionProperty → SelectionProperty → SelectionProperty → Scores → Scores
score d a b s =
    if is_preference d.type
    then if is_prefer d.simple_preference
      then record s {
        prefer_score =
            step_down (not (is_prohibit b.simple_preference))
              (step_up (not (is_prohibit a.simple_preference)) s.prefer_score);
      }
      else if is_avoid d.simple_preference
      then record s {
        avoid_score =
            step_down (not (is_require b.simple_preference))
              (step_up (not (is_require a.simple_preference)) s.avoid_score);
      }
      else s
    else s

unfoldable pub scores :
    List SelectionProperty → List SelectionProperty → List SelectionProperty → Scores → Scores
scores (d ∷ ds) (a ∷ rest) (b ∷ bs) s = scores ds rest bs (score d a b s)
scores _ _ _ s = s

-- Negative if the first candidate comes before the second.
unfoldable pub compare_prefer_and_avoid_preferences :
    List SelectionProperty → Protocol → Protocol → ℤ
compare_prefer_and_avoid_preferences desired a b =
    let s =
      scores desired a.selection_properties b.selection_properties
        (record { prefer_score = pos 0; avoid_score = pos 0 }) in
    if not (is_zero_ℤ s.prefer_score) then neg_ℤ s.prefer_score else neg_ℤ s.avoid_score

abbrev pub wi_fi : Text
wi_fi = b'W' ∷ b'i' ∷ b'-' ∷ b'F' ∷ b'i' ∷ []

abbrev pub ethernet : Text
ethernet = b'E' ∷ b't' ∷ b'h' ∷ b'e' ∷ b'r' ∷ b'n' ∷ b'e' ∷ b't' ∷ []

abbrev pub loopback : Text
loopback = b'L' ∷ b'o' ∷ b'o' ∷ b'p' ∷ b'b' ∷ b'a' ∷ b'c' ∷ b'k' ∷ []

abbrev pub any_interface : Text
any_interface = b'a' ∷ b'n' ∷ b'y' ∷ []

unfoldable pub get_generic_interface_type : Text → Option Text
get_generic_interface_type name =
    if bytes_eq (take 2 name) (b'w' ∷ b'l' ∷ [])
    then some wi_fi
    else if bytes_eq (take 2 name) (b'e' ∷ b'n' ∷ [])
    then some ethernet
    else if bytes_eq name (b'l' ∷ b'o' ∷ [])
    then some loopback
    else none

-- The loop over the preferences for interface types.
unfoldable pub combinations_allow : Text → List Combination → Bool
combinations_allow type [] = true
combinations_allow type (c ∷ cs) =
    if bytes_eq c.value type
    then if is_prohibit c.preference then false else combinations_allow type cs
    else if is_require c.preference
    then false
    else combinations_allow type cs

-- An interface of unknown type is incompatible.
unfoldable pub type_allowed : Option Text → List Combination → Bool
type_allowed none cs = false
type_allowed (some type) cs = combinations_allow type cs

-- The preference set is that of the property `INTERFACE`.
unfoldable pub interface_is_compatible : Text → List Combination → Bool
interface_is_compatible name [] = true
interface_is_compatible name (c ∷ cs) =
    if bytes_eq name any_interface
    then true
    else type_allowed (get_generic_interface_type name) (c ∷ cs)
