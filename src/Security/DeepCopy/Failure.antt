-- ===== src/Security/DeepCopy/Failure.antt =====
-- A deep copy that fails in the middle of an array of bundles.
use ctaps.Prelude.{
  ℕ, zero, suc, ◌+◌, ◌≡◌, refl, Bool, ap, ◌∙◌, true, false, Option, none, some, List, [], ◌∷◌, ◌++◌,
  arith, length, All, length-append,
}
use ctaps.Gather.Selection.{Text}
use ctaps.Security.State.{
  Memory, supported_group, ciphersuite, server_certificate, FileName, file, CertificateBundle,
  bundles, certificate_bundles, SecurityParameters, security_parameters_new,
}
use ctaps.Security.DeepCopy.{
  Copied, torn, copy_key, copy_bundles, certificate_bundles_deep_copy, copy_value, copy_parameters,
  deep_copy,
}

-- The allocator serves the copies of `n` bundles, and then fails at the certificate's name of the
-- next one, or at that of its key.
abbrev pub serves : Bool → ℕ → Memory
serves false zero = false ∷ []
serves true zero = true ∷ false ∷ []
serves at_key (suc n) = true ∷ true ∷ serves at_key n

copy_key-served :
    (f : FileName) (t : Text) (n : ℕ) (m : Memory) (next : Option (Copied × Memory))
    → f ≡ file t
    → copy_key f n (true ∷ m) next ≡ next
unfolding copy_key
copy_key-served f t n m next h = rw h

abbrev pub HasKey : CertificateBundle → Type 0
HasKey b = (t : Text) × (b.private_key_file_name ≡ file t)

copy_key-refused :
    (f : FileName) (t : Text) (n : ℕ) (next : Option (Copied × Memory))
    → f ≡ file t
    → copy_key f n (false ∷ []) next ≡ some (torn n, [])
unfolding copy_key
copy_key-refused f t n next h = rw h

copy_bundles-torn :
    (at_key : Bool) (done more out : List CertificateBundle) (b : CertificateBundle)
    → All HasKey done
    → (at_key ≡ true → HasKey b)
    → copy_bundles (done ++ (b ∷ more)) out (serves at_key (length done))
      ≡ some (torn (length out + length done), [])
unfolding copy_bundles
copy_bundles-torn false [] more out b h k = ap (λ n. some (torn n, [])) (omega arith)
copy_bundles-torn true [] more out b h k =
    copy_key-refused b.private_key_file_name (k refl).0 (length out) _ (k refl).1
    ∙ ap (λ n. some (torn n, [])) (omega arith)
copy_bundles-torn at_key (d ∷ done) more out b h k =
    copy_key-served d.private_key_file_name h.0.0 _ _ _ h.0.1
    ∙ copy_bundles-torn at_key done more (out ++ (d ∷ [])) b h.1 k
    ∙ ap (λ n. some (torn n, [])) (omega (arith, length-append {0} out (d ∷ [])))

-- If the copy of the server certificates runs out of memory at a bundle after the first, at the name
-- of its certificate or of its key, the strings of the bundles already copied are freed twice:
-- parameters in which the user has set the server certificates, with keys for all bundles whose key
-- the copy comes to, and has set no supported groups and cipher suites, give a fault and not the null
-- pointer.
pub deep_copy-torn :
    (at_key : Bool) (sec : SecurityParameters) (first b : CertificateBundle)
    (done more : List CertificateBundle)
    → (sec supported_group).set_by_user ≡ false
    → (sec ciphersuite).set_by_user ≡ false
    → (sec server_certificate).set_by_user ≡ true
    → (sec server_certificate).value ≡ certificate_bundles (bundles ((first ∷ done) ++ (b ∷ more)))
    → All HasKey (first ∷ done)
    → (at_key ≡ true → HasKey b)
    → deep_copy sec (true ∷ true ∷ serves at_key (length (first ∷ done))) ≡ none
unfolding deep_copy security_parameters_new copy_parameters copy_value certificate_bundles_deep_copy
deep_copy-torn at_key sec first b done more g c s v h k =
    let e : copy_bundles ((first ∷ done) ++ (b ∷ more)) [] (serves at_key (length (first ∷ done)))
        ≡ some (torn (suc (length done)), []) =
      copy_bundles-torn at_key (first ∷ done) more [] b h k
      ∙ ap (λ n. some (torn n, [])) (omega arith) in
    rw (g, c, s, v, e)
