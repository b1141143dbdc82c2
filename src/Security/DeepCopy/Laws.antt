-- ===== src/Security/DeepCopy/Laws.antt =====
-- What a deep copy of the security parameters holds.
use ctaps.Prelude.{
  ℕ, zero, suc, ◌≡◌, refl, sym, ap, subst, ◌⊎◌, inl, inr, Bool, true, false, Option, none, some,
  List, [], ◌∷◌, ◌++◌, arith, ◌==◌, if◌then◌else◌, ==_iff, Bool-cases, if_cases, length, any,
  append-nil, append_assoc,
}
use ctaps.Gather.Selection.{Text}
use ctaps.Security.State.{
  Memory, malloc, SecurityProperty, supported_group, ciphersuite, server_certificate,
  client_certificate, signature_algorithm, alpn, session_ticket_encryption_key, ticket_store_path,
  server_name_identification, FileName, uninitialised, file, CertificateBundle, bundles, freed,
  Value, array_of_strings, certificate_bundles, string, byte_array, SecurityParameter,
  SecurityParameters, default_value, default_parameters, security_parameters_new, index, index_inj,
  write,
}
use ctaps.Security.DeepCopy.{
  Copied, copied, emptied, torn, copy_strings, string_array_value_deep_copy, copy_bundles, copy_key,
  leave_copy, Copy, and_then, certificate_bundles_deep_copy, copy_value, all_properties, set_copy,
  copy_parameters, deep_copy,
}

-- A copy that is made is exact.
abbrev Exact : Value → Copied → Type 0
Exact v (copied w) = w ≡ v
Exact v emptied = Unit {0}
Exact v (torn n) = Unit {0}

abbrev ExactIf : Value → Option (Copied × Memory) → Type 0
ExactIf v none = Unit {0}
ExactIf v (some r) = Exact v r.0

copy_strings-Exact :
    (xs out : List Text) (m : Memory)
    → Exact (array_of_strings (out ++ xs)) (copy_strings xs out m).0
unfolding copy_strings
copy_strings-Exact [] out m = ap array_of_strings (sym (append-nil out))
copy_strings-Exact (x ∷ xs) out m =
    if_cases (λ (r : Copied × Memory). Exact (array_of_strings (out ++ (x ∷ xs))) r.0) (malloc m).0
      (λ p.
        subst (λ l. Exact (array_of_strings l) (copy_strings xs (out ++ (x ∷ [])) (malloc m).1).0)
          (append_assoc out (x ∷ []) xs) (copy_strings-Exact xs (out ++ (x ∷ [])) (malloc m).1))
      (λ p. tt)

copy_key-Exact :
    (v : Value) (f : FileName) (n : ℕ) (m : Memory) (next : Option (Copied × Memory))
    → ExactIf v next
    → ExactIf v (copy_key f n m next)
unfolding copy_key
copy_key-Exact v uninitialised n m next h = tt
copy_key-Exact v (file key) n m next h = if_cases (ExactIf v) (malloc m).0 (λ p. h) (λ p. tt)

copy_bundles-Exact :
    (bs out : List CertificateBundle) (m : Memory)
    → ExactIf (certificate_bundles (bundles (out ++ bs))) (copy_bundles bs out m)
unfolding copy_bundles
copy_bundles-Exact [] out m = ap (λ l. certificate_bundles (bundles l)) (sym (append-nil out))
copy_bundles-Exact (b ∷ bs) out m =
    let v = certificate_bundles (bundles (out ++ (b ∷ bs))) in
    let rest = (malloc (malloc m).1).1 in
    let more = copy_bundles bs (out ++ (b ∷ [])) rest in
    let ih : ExactIf v more =
      subst (λ l. ExactIf (certificate_bundles (bundles l)) more) (append_assoc out (b ∷ []) bs)
        (copy_bundles-Exact bs (out ++ (b ∷ [])) rest) in
    if_cases (ExactIf v) (malloc m).0
      (λ p. copy_key-Exact v b.private_key_file_name (length out) (malloc m).1 more ih) (λ p. tt)

copy_value-Exact : (v : Value) (m : Memory) → ExactIf v (copy_value v m)
unfolding copy_value string_array_value_deep_copy certificate_bundles_deep_copy
copy_value-Exact (array_of_strings []) m = refl
copy_value-Exact (array_of_strings (x ∷ xs)) m =
    if_cases (λ (r : Copied × Memory). Exact (array_of_strings (x ∷ xs)) r.0) (malloc m).0
      (λ p. copy_strings-Exact (x ∷ xs) [] (malloc m).1) (λ p. tt)
copy_value-Exact (certificate_bundles (freed n)) m = tt
copy_value-Exact (certificate_bundles (bundles [])) m = refl
copy_value-Exact (certificate_bundles (bundles (b ∷ bs))) m =
    if_cases (ExactIf (certificate_bundles (bundles (b ∷ bs)))) (malloc m).0
      (λ p. copy_bundles-Exact (b ∷ bs) [] (malloc m).1) (λ p. tt)
copy_value-Exact (string none) m = refl
copy_value-Exact (string (some s)) m =
    if_cases (Exact (string (some s))) (malloc m).0 (λ p. refl) (λ p. tt)
copy_value-Exact (byte_array []) m = refl
copy_value-Exact (byte_array (b ∷ bs)) m =
    if_cases (Exact (byte_array (b ∷ bs))) (malloc m).0 (λ p. refl) (λ p. tt)

-- Property by property, what the user has set, and the default for the rest.
unfoldable pub faithful : SecurityParameters → SecurityParameters
faithful sec k =
    if (sec k).set_by_user then sec k else record { set_by_user = false; value = default_value k }

abbrev among : List SecurityProperty → SecurityProperty → Bool
among ks j = any (λ k. index j == index k) ks

-- A property is as it has to be, or the loop has still to visit it and it has its default.
abbrev Copying : List SecurityProperty → SecurityParameters → SecurityParameters → Type 0
Copying ks sec copy =
    (j : SecurityProperty)
    → (copy j ≡ faithful sec j) ⊎ ((among ks j ≡ true) × ((copy j).value ≡ default_value j))

write-Copying :
    (k : SecurityProperty) (ks : List SecurityProperty) (sec copy : SecurityParameters)
    (p : SecurityParameter)
    → p ≡ faithful sec k
    → Copying (k ∷ ks) sec copy
    → Copying ks sec (write k p copy)
write-Copying k ks sec copy p e h j = elim (Bool-cases (index j == index k)) [
  | inl q ↦ inl (rw q (subst (λ i. p ≡ faithful sec i) (sym (index_inj j k ((==_iff _ _).0 q))) e))
  | inr q ↦ elim (h j) [ inl r ↦ inl (rw q r) | inr r ↦ inr (ground (arith, r.0, q), rw q r.1) ]
]

set_copy-faithful :
    (k : SecurityProperty) (sec : SecurityParameters) (v : Value)
    → (sec k).set_by_user ≡ true
    → v ≡ (sec k).value
    → record { set_by_user = true; value = v } ≡ faithful sec k
unfolding faithful
set_copy-faithful k sec v h e = ground (arith, h, e)

leave_copy-faithful :
    (k : SecurityProperty) (ks : List SecurityProperty) (sec copy : SecurityParameters)
    → (sec k).set_by_user ≡ false
    → Copying (k ∷ ks) sec copy
    → record { set_by_user = false; value = (copy k).value } ≡ faithful sec k
unfolding faithful
leave_copy-faithful k ks sec copy p h = elim (h k) [
  | inl e ↦ ground (arith, p, e)
  | inr e ↦ ground (arith, p, e.1)
]

abbrev Made : SecurityParameters → Copy → Type 0
Made sec none = Unit {0}
Made sec (some (none, m)) = Unit {0}
Made sec (some (some copy, m)) = (k : SecurityProperty) → copy k ≡ faithful sec k

and_then-Made :
    (sec : SecurityParameters) (v : Value) (r : Option (Copied × Memory))
    (next : Value → Memory → Copy)
    → ExactIf v r
    → ((w : Value) (m : Memory) → w ≡ v → Made sec (next w m))
    → Made sec (and_then r next)
and_then-Made sec v none next h f = tt
and_then-Made sec v (some (copied w, m)) next h f = f w m h
and_then-Made sec v (some (emptied, m)) next h f = tt
and_then-Made sec v (some (torn zero, m)) next h f = tt
and_then-Made sec v (some (torn (suc n), m)) next h f = tt

copy_parameters-Made :
    (ks : List SecurityProperty) (sec copy : SecurityParameters) (m : Memory)
    → Copying ks sec copy
    → Made sec (copy_parameters ks sec copy m)
unfolding copy_parameters
copy_parameters-Made [] sec copy m h = λ k. elim (h k) [ inl e ↦ e | inr e ↦ absurd (cc (e.0)) ]
copy_parameters-Made (k ∷ ks) sec copy m h =
    let next = λ (v : Value) (rest : Memory). copy_parameters ks sec (set_copy k v copy) rest in
    if_cases (Made sec) (sec k).set_by_user
      (λ p.
        and_then-Made sec (sec k).value (copy_value (sec k).value m) next
          (copy_value-Exact (sec k).value m)
          (λ w rest e.
            copy_parameters-Made ks sec (set_copy k w copy) rest
              (write-Copying k ks sec copy _ (set_copy-faithful k sec w p e) h)))
      (λ p.
        copy_parameters-Made ks sec (leave_copy k copy) m
          (write-Copying k ks sec copy _ (leave_copy-faithful k ks sec copy p h) h))

all_properties-among : (j : SecurityProperty) → among all_properties j ≡ true
all_properties-among supported_group = refl
all_properties-among ciphersuite = refl
all_properties-among server_certificate = refl
all_properties-among client_certificate = refl
all_properties-among signature_algorithm = refl
all_properties-among alpn = refl
all_properties-among session_ticket_encryption_key = refl
all_properties-among ticket_store_path = refl
all_properties-among server_name_identification = refl

pub deep_copy-Made : (sec : SecurityParameters) (m : Memory) → Made sec (deep_copy sec m)
unfolding deep_copy security_parameters_new default_parameters
deep_copy-Made sec [] =
    copy_parameters-Made all_properties sec default_parameters []
      (λ j. inr (all_properties-among j, refl))
deep_copy-Made sec (true ∷ m) =
    copy_parameters-Made all_properties sec default_parameters m
      (λ j. inr (all_properties-among j, refl))
deep_copy-Made sec (false ∷ m) = tt

-- Whatever the allocator answers, a deep copy that is returned has, property by property, exactly
-- what the user has set in the source, and the defaults for what the user has not set.
pub deep_copy-faithful :
    (sec copy : SecurityParameters) (m rest : Memory)
    → deep_copy sec m ≡ some (some copy, rest)
    → (k : SecurityProperty) → copy k ≡ faithful sec k
deep_copy-faithful sec copy m rest h = subst (Made sec) h (deep_copy-Made sec m)
