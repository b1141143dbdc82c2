-- ===== src/Security/DeepCopy.antt =====
-- Copies of the security parameters: ct_security_parameters_deep_copy in
-- src/security_parameter/security_parameters.c, and the copies of the values, which stand there and
-- in src/security_parameter/certificate_bundles/certificate_bundles.c.
use ctaps.Prelude.{
  ℕ, zero, suc, ◌+◌, ◌-◌, ◌*◌, ◌%◌, ◌^◌, ◌≤◌, ◌<◌, ◌≡◌, refl, sym, ap, subst, ◌∙◌, ◌≢◌, ◌↔◌, ◌⊎◌,
  inl, inr, Bool, true, false, not, ◌&&◌, ◌||◌, Option, none, some, List, [], ◌∷◌, ◌++◌, map, arith,
  ltb, leb, ◌==◌, if◌then◌else◌, ==_iff, Bool-cases, if_cases, Option-cases, is_some, u64, length,
  get_elem?, modify, take, drop, count, any, keep, All, length-append, append-nil, append_assoc,
  length-modify, get_elem?-modify, get_elem?-modify_ne, lt_of_get_elem?, count-append,
  count-modify_eq, count-modify_drop, bytes_eq, bytes_eq_sound, bytes_eq_refl, Result, ok, err,
  ◌>>=◌, Result-cases, enoent, eio, enomem, eexist, einval, epipe, enotsup,
}
use ctaps.Gather.Selection.{Text}
use ctaps.Security.State.{
  Memory, malloc, SecurityProperty, supported_group, ciphersuite, server_certificate,
  client_certificate, signature_algorithm, alpn, session_ticket_encryption_key, ticket_store_path,
  server_name_identification, FileName, uninitialised, file, CertificateBundle, CertificateBundles,
  bundles, freed, Value, array_of_strings, certificate_bundles, string, byte_array,
  SecurityParameter, SecurityParameters, default_value, security_parameters_new, write,
}
pub mod Laws
pub mod Failure

-- What the copy of a value leaves: the copy; nothing, with the destination empty; or, after a
-- failure, a destination that still counts `n` entries, bundles whose strings have been freed or
-- strings of an array that is the null pointer.
pub data Copied : Type 0 where
  copied : Value → Copied
  emptied : Copied
  torn : ℕ → Copied

-- The loop over the strings; a failure frees the copies and empties the destination.
unfoldable pub copy_strings : List Text → List Text → Memory → Copied × Memory
copy_strings [] out m = (copied (array_of_strings out), m)
copy_strings (x ∷ xs) out m =
    let next = copy_strings xs (out ++ (x ∷ [])) (malloc m).1 in
    if (malloc m).0 then next else (emptied, (malloc m).1)

-- The destination is the source's value first, so that it keeps the number of strings if there is
-- no memory for the array.
unfoldable pub string_array_value_deep_copy : List Text → Memory → Copied × Memory
unfolding copy_strings
string_array_value_deep_copy [] m = (copied (array_of_strings []), m)
string_array_value_deep_copy (x ∷ xs) m =
    let (got, rest) = malloc m in
    if got then copy_strings (x ∷ xs) [] rest else (torn (suc (length xs)), rest)

-- The copy of the name of a bundle's key, and what follows. `none` is a fault, the copy through a
-- pointer that was never written.
unfoldable pub copy_key :
    FileName → ℕ → Memory → Option (Copied × Memory) → Option (Copied × Memory)
copy_key uninitialised n m next = none
copy_key (file key) n m next = if (malloc m).0 then next else some (torn n, (malloc m).1)

-- The loop over the bundles: an answer for the name of the certificate, and one for that of its
-- key.
unfoldable pub copy_bundles :
    List CertificateBundle → List CertificateBundle → Memory → Option (Copied × Memory)
unfolding copy_key
copy_bundles [] out m = some (copied (certificate_bundles (bundles out)), m)
copy_bundles (b ∷ bs) out m =
    let next = copy_bundles bs (out ++ (b ∷ [])) (malloc (malloc m).1).1 in
    if (malloc m).0
    then copy_key b.private_key_file_name (length out) (malloc m).1 next
    else some (torn (length out), (malloc m).1)

unfoldable pub certificate_bundles_deep_copy :
    CertificateBundles → Memory → Option (Copied × Memory)
unfolding copy_bundles
certificate_bundles_deep_copy (freed n) m = none
certificate_bundles_deep_copy (bundles []) m = some (copied (certificate_bundles (bundles [])), m)
certificate_bundles_deep_copy (bundles (b ∷ bs)) m =
    let (got, rest) = malloc m in
    if got then copy_bundles (b ∷ bs) [] rest else some (emptied, rest)

-- The `switch` on the type of a value that the user has set.
unfoldable pub copy_value : Value → Memory → Option (Copied × Memory)
unfolding string_array_value_deep_copy certificate_bundles_deep_copy
copy_value (array_of_strings xs) m = some (string_array_value_deep_copy xs m)
copy_value (certificate_bundles b) m = certificate_bundles_deep_copy b m
copy_value (string none) m = some (copied (string none), m)
copy_value (string (some s)) m =
    let (got, rest) = malloc m in some (if got then copied (string (some s)) else emptied, rest)
copy_value (byte_array []) m = some (copied (byte_array []), m)
copy_value (byte_array (b ∷ bs)) m =
    let (got, rest) = malloc m in some (if got then copied (byte_array (b ∷ bs)) else emptied, rest)

-- The properties in the order of their enumeration.
abbrev pub all_properties : List SecurityProperty
all_properties =
    supported_group ∷ ciphersuite ∷ server_certificate ∷ client_certificate ∷ signature_algorithm
    ∷ alpn ∷ session_ticket_encryption_key ∷ ticket_store_path ∷ server_name_identification ∷ []

-- After a failure the copy is freed: if a destination still counts entries, strings are freed again
-- or read through the null pointer, which is a fault.
abbrev pub free_torn : ℕ → Memory → Option (Option SecurityParameters × Memory)
free_torn zero m = some (none, m)
free_torn (suc n) m = none

abbrev pub set_copy : SecurityProperty → Value → SecurityParameters → SecurityParameters
set_copy k v copy = write k (record { set_by_user = true; value = v }) copy

abbrev pub leave_copy : SecurityProperty → SecurityParameters → SecurityParameters
leave_copy k copy = write k (record { set_by_user = false; value = (copy k).value }) copy

-- What the loop does with the copy of a value. `none` is a fault, `some none` the null pointer.
abbrev pub Copy : Type 0
Copy = Option (Option SecurityParameters × Memory)

abbrev pub and_then : Option (Copied × Memory) → (Value → Memory → Copy) → Copy
and_then none next = none
and_then (some (copied v, m)) next = next v m
and_then (some (emptied, m)) next = some (none, m)
and_then (some (torn n, m)) next = free_torn n m

unfoldable pub copy_parameters :
    List SecurityProperty → SecurityParameters → SecurityParameters → Memory → Copy
unfolding copy_value
copy_parameters [] sec copy m = some (some copy, m)
copy_parameters (k ∷ ks) sec copy m =
    let left = copy_parameters ks sec (leave_copy k copy) m in
    let next = λ (v : Value) (rest : Memory). copy_parameters ks sec (set_copy k v copy) rest in
    if (sec k).set_by_user then and_then (copy_value (sec k).value m) next else left

abbrev pub copy_into : Option SecurityParameters → SecurityParameters → Memory → Copy
unfolding copy_parameters
copy_into none sec m = some (none, m)
copy_into (some copy) sec m = copy_parameters all_properties sec copy m

unfoldable pub deep_copy : SecurityParameters → Memory → Copy
unfolding security_parameters_new copy_parameters
deep_copy sec m = let (new, rest) = security_parameters_new m in copy_into new sec rest
