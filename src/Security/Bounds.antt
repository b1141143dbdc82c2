-- ===== src/Security/Bounds.antt =====
-- The index getters of the certificates, and what they find after an addition.
use ctaps.Prelude.{
  ℕ, zero, suc, ◌≤◌, ◌<◌, ◌≡◌, refl, ◌⊎◌, inl, inr, none, some, List, [], ◌∷◌, arith, ltb, leb,
  ◌==◌, ==_iff, Bool-cases, length, get_elem?,
}
use ctaps.Security.State.{
  SecurityProperty, CertificateBundle, bundles, bundles_of, SecurityParameters,
}
use ctaps.Security.Certificates.{null, name, key_name, get_certificate_file, get_key_file}

-- The parameters hold these bundles.
abbrev pub Holds : SecurityProperty → List CertificateBundle → SecurityParameters → Type 0
Holds k bs sec = bundles_of (sec k).value ≡ bundles bs

get_elem?-some :
    (bs : List CertificateBundle) (i : ℕ)
    → i < length bs
    → (b : CertificateBundle) × (get_elem? bs i ≡ some b)
get_elem?-some [] i h = absurd (omega (arith, h))
get_elem?-some (b ∷ bs) zero h = (b, refl)
get_elem?-some (b ∷ bs) (suc i) h = get_elem?-some bs i (omega (arith, h))

get_elem?-none : (bs : List CertificateBundle) (i : ℕ) → length bs ≤ i → get_elem? bs i ≡ none
get_elem?-none [] i h = refl
get_elem?-none (b ∷ bs) zero h = absurd (omega (arith, h))
get_elem?-none (b ∷ bs) (suc i) h = get_elem?-none bs i (omega (arith, h))

-- The getter of a key never reads out of bounds: it gives the null pointer exactly from the count
-- on, and below it what stands at the index.
pub get_key_file_bounds :
    (k : SecurityProperty) (bs : List CertificateBundle) (i : ℕ) (sec : SecurityParameters)
    → Holds k bs sec
    → ((length bs ≤ i) × (get_key_file k i sec ≡ some null))
      ⊎ ((b : CertificateBundle) × (get_elem? bs i ≡ some b)
          × (get_key_file k i sec ≡ some (key_name b.private_key_file_name)))
unfolding get_key_file
get_key_file_bounds k bs i sec h = elim (Bool-cases (leb (length bs) i)) [
  | inl p ↦ rw h (inl (ground (arith, p), rw p))
  | inr p ↦ let (b, e) = get_elem?-some bs i (ground (arith, p)) in rw h (inr (b, e, rw (p, e)))
]

-- The getter of a certificate reads out of bounds exactly at the count of the certificates, one
-- behind the last; below it gives the name that stands there, and above it the null pointer.
pub get_certificate_file_bounds :
    (k : SecurityProperty) (bs : List CertificateBundle) (i : ℕ) (sec : SecurityParameters)
    → Holds k bs sec
    → ((length bs ≡ i) × (get_certificate_file k i sec ≡ none))
      ⊎ ((length bs < i) × (get_certificate_file k i sec ≡ some null))
      ⊎ ((b : CertificateBundle) × (get_elem? bs i ≡ some b)
          × (get_certificate_file k i sec ≡ some (name b.certificate_file_name)))
unfolding get_certificate_file
get_certificate_file_bounds k bs i sec h = elim (Bool-cases (ltb (length bs) i)) [
  | inl p ↦ rw h (inr (inl (ground (arith, p), rw p)))
  | inr p ↦ elim (Bool-cases (length bs == i)) [
    | inl q ↦
        let e = get_elem?-none bs i (ground (arith, q)) in rw h (inl ((==_iff _ _).0 q, rw (p, e)))
    | inr q ↦
        let (b, e) = get_elem?-some bs i (ground (arith, p, q)) in
        rw h (inr (inr (b, e, rw (p, e))))
  ]
]
