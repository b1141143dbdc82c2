-- ===== src/Security/Bundles.antt =====
-- Certificate bundles of their own: ct_certificate_bundles_new and ct_certificate_bundles_add_cert in
-- src/security_parameter/certificate_bundles/certificate_bundles.c. The bundles are not null.
use ctaps.Prelude.{
  ℕ, suc, ◌≡◌, refl, sym, ap, subst, inl, inr, Bool, true, not, Option, none, some, List, [], ◌∷◌,
  ◌++◌, arith, leb, if◌then◌else◌, Bool-cases, length, All, Result, ok, err, enomem, einval,
}
use ctaps.Gather.Selection.{Text}
use ctaps.Security.State.{Memory, malloc}

abbrev enosys : ℕ
enosys = 38

-- A bundle, whose strings are both there.
pub record Bundle : Type 0 where
  pub certificate_file_name : Text
  pub private_key_file_name : Text

-- Whether the pointer to the array is null, and the bundles that are counted.
pub record BundleArray : Type 0 where
  pub is_null : Bool
  pub counted : List Bundle

unfoldable pub certificate_bundles_new : Memory → Option BundleArray × Memory
certificate_bundles_new m =
    let (got, rest) = malloc m in
    (if got then some (record { is_null = true; counted = [] }) else none, rest)

pub record Added : Type 0 where
  pub rc : Result (Unit {0})
  pub array : BundleArray
  pub memory : Memory

abbrev added : Result (Unit {0}) → BundleArray → Memory → Added
added r a m = record { rc = r; array = a; memory = m }

-- The copies of the two names, when the array has grown.
unfoldable pub add_names : Text → Text → BundleArray → Memory → Added
add_names cert key a m =
    let (first, rest) = malloc m in
    if not first
    then added (err enomem) a rest
    else let (second, left) = malloc rest in
      if not second
      then added (err enomem) a left
      else added (ok tt)
          (record a {
            counted =
                a.counted
                ++ (record { certificate_file_name = cert; private_key_file_name = key } ∷ []);
          })
          left

-- The pointer tested after the growing is the old one. `none` is a fault, the use of the null
-- pointer.
unfoldable pub add_cert : Option Text → Option Text → BundleArray → Memory → Option Added
unfolding add_names
add_cert none key a m = some (added (err einval) a m)
add_cert (some cert) none a m = some (added (err einval) a m)
add_cert (some cert) (some key) a m =
    let (grown, rest) = malloc m in
    if not (leb (length a.counted) 0)
    then some (added (err enosys) a m)
    else if a.is_null
    then some (added (err enomem) a rest)
    else if grown
    then some (add_names cert key a rest)
    else none

-- A sequence of calls on the same bundles, with what each returns.
abbrev and_add :
    Option Added
    → (Added → Option (List (Result (Unit {0})) × BundleArray))
    → Option (List (Result (Unit {0})) × BundleArray)
and_add none next = none
and_add (some x) next = next x

abbrev first_code :
    Result (Unit {0})
    → Option (List (Result (Unit {0})) × BundleArray)
    → Option (List (Result (Unit {0})) × BundleArray)
first_code r none = none
first_code r (some (rs, a)) = some (r ∷ rs, a)

unfoldable pub add_certs :
    List (Option Text × Option Text)
    → BundleArray
    → Memory
    → Option (List (Result (Unit {0})) × BundleArray)
unfolding add_cert
add_certs [] a m = some ([], a)
add_certs ((cert, key) ∷ cs) a m =
    and_add (add_cert cert key a m) (λ x. first_code x.rc (add_certs cs x.array x.memory))

abbrev pub IsError : Result (Unit {0}) → Type 0
IsError (ok u) = ⊥
IsError (err e) = Unit {0}

abbrev pub no_bundles : BundleArray
no_bundles = record { is_null = true; counted = [] }

add_cert-refused :
    (cert key : Option Text) (m : Memory)
    → (x : Added) × (add_cert cert key no_bundles m ≡ some x)
      × IsError x.rc
      × (x.array ≡ no_bundles)
unfolding add_cert
add_cert-refused none key m = (added (err einval) no_bundles m, refl, tt, refl)
add_cert-refused (some cert) none m = (added (err einval) no_bundles m, refl, tt, refl)
add_cert-refused (some cert) (some key) m =
    (added (err enomem) no_bundles (malloc m).1, refl, tt, refl)

add_certs-from :
    (cs : List (Option Text × Option Text)) (a : BundleArray) (m : Memory)
    → a ≡ no_bundles
    → (rs : List (Result (Unit {0}))) × (add_certs cs a m ≡ some (rs, no_bundles))
      × (length rs ≡ length cs)
      × All IsError rs
unfolding add_certs
add_certs-from [] a m e = ([], ap (λ b. some ([], b)) e, refl, tt)
add_certs-from ((cert, key) ∷ cs) a m e =
    let (x, f, r, g) = add_cert-refused cert key m in
    let (rs, f', l, rest) = add_certs-from cs x.array x.memory g in
    (x.rc ∷ rs, rw (e, f, f'), ap suc l, (r, rest))

-- However much memory there is, no sequence of calls of ct_certificate_bundles_add_cert ever adds a
-- bundle to new certificate bundles: every call returns an error, and the bundles stay empty.
pub add_certs-refused :
    (cs : List (Option Text × Option Text)) (m rest n : Memory) (a : BundleArray)
    → certificate_bundles_new m ≡ (some a, rest)
    → (rs : List (Result (Unit {0}))) × (add_certs cs a n ≡ some (rs, a))
      × (length rs ≡ length cs)
      × All IsError rs
unfolding certificate_bundles_new
add_certs-refused cs m rest n a h = elim (Bool-cases (malloc m).0) [
  | inl p ↦
      let e : a ≡ no_bundles = ground (arith, h, p) in
      subst
        (λ b.
          (rs : List (Result (Unit {0}))) × (add_certs cs a n ≡ some (rs, b))
          × (length rs ≡ length cs)
          × All IsError rs)
        (sym e) (add_certs-from cs a n e)
  | inr p ↦ absurd (ground (arith, h, p))
]
