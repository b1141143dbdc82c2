-- ===== src/Quic/Probing.antt =====
-- The probing of further paths when one is suspended: probe_all_paths in src/protocol/quic/quic.c.
-- A local endpoint stands as the family of its address, and what picoquic returns as a function of
-- the local endpoint's index, true for a failure.
use ctaps.Prelude.{
  ◌≤◌, ◌≢◌, ◌↔◌, ℕ, zero, suc, ◌+◌, ◌<◌, ◌≡◌, refl, sym, ap, ◌∙◌, Bool, true, false, not, ◌&&◌,
  Option, none, some, List, [], ◌∷◌, arith, ◌==◌, if◌then◌else◌, if_cases, get_elem?, count, Result,
  ok, err, eio,
}

-- Whether the local endpoint at index `j` is probed.
abbrev pub probes : ℕ → ℕ → ℕ → ℕ → Bool
probes active remote j family = not (j == active) && family == remote

-- The loop from index `j`: the probed indices and `at_least_one_success`, which picoquic's answers
-- do not change.
unfoldable pub probe_from : (ℕ → Bool) → ℕ → ℕ → ℕ → List ℕ → Bool → List ℕ × Bool
probe_from fails active remote j [] success = ([], success)
probe_from fails active remote j (f ∷ fs) success =
    let rest = probe_from fails active remote (suc j) fs success in
    if probes active remote j f then (j ∷ rest.0, (if fails j then rest.1 else rest.1)) else rest

abbrev pub probe_result : Bool → Result (Unit {0})
probe_result true = ok tt
probe_result false = err eio

unfoldable pub probe_all_paths : (ℕ → Bool) → ℕ → ℕ → List ℕ → List ℕ × Result (Unit {0})
unfolding probe_from
probe_all_paths fails active remote locals =
    let r = probe_from fails active remote 0 locals false in (r.0, probe_result r.1)

-- The local endpoint at an index is another one than the active, of the remote's family.
abbrev suits : ℕ → ℕ → ℕ → Option ℕ → Bool
suits active remote j none = false
suits active remote j (some f) = probes active remote j f

probe_from-failed :
    (fails : ℕ → Bool) (active remote : ℕ) (j : ℕ) (fs : List ℕ)
    → (probe_from fails active remote j fs false).1 ≡ false
unfolding probe_from
probe_from-failed fails active remote j [] = refl
probe_from-failed fails active remote j (f ∷ fs) =
    let e = probe_from-failed fails active remote (suc j) fs in
    if_cases (λ (r : List ℕ × Bool). r.1 ≡ false) (probes active remote j f)
      (λ p. if_cases (λ b. b ≡ false) (fails j) (λ q. e) (λ q. e)) (λ p. e)

-- How often an index from `j` on is probed.
probe_from-below :
    (fails : ℕ → Bool) (active remote : ℕ) (j k : ℕ) (fs : List ℕ)
    → k < j
    → count (λ i. i == k) (probe_from fails active remote j fs false).0 ≡ 0
unfolding probe_from
probe_from-below fails active remote j k [] h = refl
probe_from-below fails active remote j k (f ∷ fs) h =
    let e = probe_from-below fails active remote (suc j) k fs (omega (arith, h)) in
    if_cases (λ (r : List ℕ × Bool). count (λ i. i == k) r.0 ≡ 0) (probes active remote j f)
      (λ p. ground (arith, e, h)) (λ p. e)

abbrev one : Bool → ℕ
one b = if b then 1 else 0

probe_from-count :
    (fails : ℕ → Bool) (active remote : ℕ) (j k n : ℕ) (fs : List ℕ)
    → j + k ≡ n
    → count (λ i. i == n) (probe_from fails active remote j fs false).0
      ≡ one (suits active remote n (get_elem? fs k))
unfolding probe_from
probe_from-count fails active remote j k n [] h = refl
probe_from-count fails active remote j zero n (f ∷ fs) h =
    let here : j ≡ n = omega (arith, h) in
    let e = probe_from-below fails active remote (suc j) n fs (omega (arith, h)) in
    let same : (b : Bool) → probes active remote j f ≡ b → one b ≡ one (probes active remote n f) =
      λ b p. sym (ap one (ap (λ m. probes active remote m f) (sym here) ∙ p)) in
    if_cases (λ (r : List ℕ × Bool). count (λ i. i == n) r.0 ≡ one (probes active remote n f))
      (probes active remote j f) (λ p. ground (arith, e, here) ∙ same true p)
      (λ p. e ∙ same false p)
probe_from-count fails active remote j (suc k) n (f ∷ fs) h =
    let e = probe_from-count fails active remote (suc j) k n fs (omega (arith, h)) in
    let differs : (j == n) ≡ false = ground (arith, h) in
    if_cases
      (λ (r : List ℕ × Bool).
        count (λ i. i == n) r.0 ≡ one (suits active remote n (get_elem? fs k)))
      (probes active remote j f) (λ p. rw differs e) (λ p. e)

suits_iff :
    (active remote k : ℕ) (o : Option ℕ)
    → (suits active remote k o ≡ true) ↔ ((o ≡ some remote) × (k ≢ active))
suits_iff active remote k none = ((λ h. cc), (λ h. absurd (cc h.0)))
suits_iff active remote k (some f) =
    (λ h. (ap some (ground (arith, h)), λ e. ground (arith, h, e)), λ h. ground (arith, h.0, h.1))

one_iff : (b : Bool) (n : ℕ) → n ≡ one b → (0 < n) ↔ (b ≡ true)
one_iff false n e = ((λ h. absurd (omega (arith, h, e))), (λ h. cc))
one_iff true n e = ((λ h. refl), (λ h. omega (arith, e)))

one_le : (b : Bool) (n : ℕ) → n ≡ one b → n ≤ 1
one_le false n e = omega (arith, e)
one_le true n e = omega (arith, e)

-- probe_all_paths probes a local endpoint exactly if it has the address family of the active remote
-- endpoint and is not the active local endpoint, and no endpoint twice; but it always fails with
-- -EIO, whatever picoquic answers.
pub probe_all_paths_lem :
    (fails : ℕ → Bool) (active remote : ℕ) (locals : List ℕ)
    → let r = probe_all_paths fails active remote locals in
      ((k : ℕ)
        → (count (λ i. i == k) r.0 ≤ 1)
          × ((0 < count (λ i. i == k) r.0) ↔ ((get_elem? locals k ≡ some remote) × (k ≢ active))))
      × (r.1 ≡ err eio)
unfolding probe_all_paths
probe_all_paths_lem fails active remote locals = (
  λ k.
      let e = probe_from-count fails active remote 0 k k locals (omega arith) in
      let b = suits active remote k (get_elem? locals k) in
      let p = one_iff b _ e in
      let q = suits_iff active remote k (get_elem? locals k) in
      (one_le b _ e, ((λ h. q.0 (p.0 h)), (λ h. p.1 (q.1 h)))),
  ap probe_result (probe_from-failed fails active remote 0 locals),
)
