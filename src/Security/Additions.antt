-- ===== src/Security/Additions.antt =====
-- What additions leave: a certificate, and a sequence of ALPN strings.
use ctaps.Prelude.{
  ◌≡◌, refl, sym, ap, ◌∙◌, ◌⊎◌, inl, inr, true, false, not, Option, none, some, List, [], ◌∷◌, ◌++◌,
  arith, ◌==◌, if◌then◌else◌, if_cases, append-nil, append_assoc, ok, err, enomem,
}
use ctaps.Gather.Selection.{Text}
use ctaps.Security.State.{
  Memory, malloc, SecurityProperty, FileName, alpn, uninitialised, file, CertificateBundle, bundles,
  array_of_strings, certificate_bundles, SecurityParameter, bundles_of, strings_of,
  SecurityParameters, index, write, Answer, answer,
}
use ctaps.Security.Setters.{set_value, add_to_array_of_strings, add_alpn, clear_alpn, get_alpns}
use ctaps.Security.Certificates.{
  append_bundle, given_back, lose_array, add_key, add_bundle, add_to_bundles, add_certificate,
}
use ctaps.Security.Bounds.{Holds}

-- The file of the key, as the bundle has it.
abbrev pub written_key : Option Text → FileName
written_key none = uninitialised
written_key (some key) = file key

abbrev pub new_bundle : Text → Option Text → CertificateBundle
new_bundle cert key = record {
  certificate_file_name = cert;
  private_key_file_name = written_key key;
}

self_index : (k : SecurityProperty) → (index k == index k) ≡ true
self_index k = ground arith

write_self :
    (k : SecurityProperty) (p : SecurityParameter) (sec : SecurityParameters) → write k p sec k ≡ p
write_self k p sec = rw (self_index k)

-- The ways in which an addition ends.
abbrev pub Ended :
    SecurityProperty
    → List CertificateBundle
    → CertificateBundle
    → SecurityParameters
    → Answer
    → Type 0
Ended k bs b sec a =
    ((a.rc ≡ ok tt) × Holds k (bs ++ (b ∷ [])) a.sec × ((a.sec k).set_by_user ≡ true))
    ⊎ ((a.rc ≡ err enomem) × ((a.sec ≡ sec) ⊎ (bundles_of (a.sec k).value ≡ given_back bs)))

module _ (k : SecurityProperty) (bs : List CertificateBundle) (cert : Text)
    (sec : SecurityParameters) where
  append-Ended :
      (key : Option Text) (m : Memory)
      → Ended k bs
          (new_bundle cert key)
          sec
          (answer (ok tt) (append_bundle k bs cert (written_key key) sec) m)
  append-Ended key m =
      let p : SecurityParameter = record {
        set_by_user = true;
        value = certificate_bundles (bundles (bs ++ (new_bundle cert key ∷ [])));
      } in
      let e = write_self k p sec in
      inl (refl, ap (λ q. bundles_of q.value) e, ap (λ q. q.set_by_user) e)

  lose-Ended :
      (b : CertificateBundle) (m : Memory)
      → Ended k bs b sec (answer (err enomem) (lose_array k bs sec) m)
  lose-Ended b m =
      let p : SecurityParameter = record {
        set_by_user = (sec k).set_by_user;
        value = certificate_bundles (given_back bs);
      } in
      inr (refl, inr (ap (λ q. bundles_of q.value) (write_self k p sec)))

  add_key-Ended :
      (key : Option Text) (m : Memory)
      → Ended k bs (new_bundle cert key) sec (add_key k bs cert key sec m)
  unfolding add_key
  add_key-Ended none m = append-Ended none m
  add_key-Ended (some key) m =
      if_cases (Ended k bs (new_bundle cert (some key)) sec) (malloc m).0
        (λ p. append-Ended (some key) (malloc m).1)
        (λ p. lose-Ended (new_bundle cert (some key)) (malloc m).1)

  add_bundle-Ended :
      (key : Option Text) (m : Memory)
      → Ended k bs (new_bundle cert key) sec (add_bundle k bs cert key sec m)
  unfolding add_bundle
  add_bundle-Ended key m =
      if_cases (Ended k bs (new_bundle cert key) sec) (not (malloc m).0) (λ p. inr (refl, inl refl))
        (λ p.
          if_cases (Ended k bs (new_bundle cert key) sec) (not (malloc (malloc m).1).0)
            (λ q. lose-Ended (new_bundle cert key) (malloc (malloc m).1).1)
            (λ q. add_key-Ended key (malloc (malloc m).1).1))

-- On an array that is held, an addition of a certificate either succeeds, and then exactly the new
-- bundle stands behind the old ones, with an unwritten key if none was given, and the parameter is
-- marked as set; or it fails for lack of memory, and then either nothing has changed, or the array
-- has been given back and, unless it was empty, the parameter still points to it.
pub add_certificate_lem :
    (k : SecurityProperty) (bs : List CertificateBundle) (cert : Text) (key : Option Text)
    (sec : SecurityParameters) (m : Memory)
    → Holds k bs sec
    → (a : Answer) × (add_certificate k (some cert) key sec m ≡ some a)
      × Ended k bs (new_bundle cert key) sec a
unfolding add_certificate
add_certificate_lem k bs cert key sec m h = (
  add_bundle k bs cert key sec m,
  ap (λ b. add_to_bundles k b cert key sec m) h,
  add_bundle-Ended k bs cert sec key m,
)

-- Every addition that the allocator allows, in order.
unfoldable pub add_alpns : List Text → SecurityParameters → Memory → Answer
add_alpns [] sec m = answer (ok tt) sec m
add_alpns (x ∷ xs) sec m = let a = add_alpn (some x) sec m in add_alpns xs a.sec a.memory

-- Those of the strings that get their two answers: one for the array and, if that is there, one for
-- the copy.
unfoldable pub admitted : List Text → Memory → List Text
admitted [] m = []
admitted (x ∷ xs) m =
    let (grown, rest) = malloc m in
    let (made, left) = malloc rest in
    let none_left = admitted xs rest in
    let others = admitted xs left in
    if not grown then none_left else if not made then others else x ∷ others

abbrev append_string : Text → SecurityParameters → SecurityParameters
append_string x sec =
    set_value alpn (array_of_strings (strings_of (sec alpn).value ++ (x ∷ []))) sec

one_more :
    (xs : List Text) (sec : SecurityParameters) (x : Text) (m : Memory)
    → ((s : SecurityParameters) (n : Memory)
        → get_alpns (add_alpns xs s n).sec ≡ get_alpns s ++ admitted xs n)
    → get_alpns (add_alpns xs (append_string x sec) m).sec ≡ get_alpns sec ++ (x ∷ admitted xs m)
unfolding get_alpns
one_more xs sec x m ih =
    ih (append_string x sec) m ∙ append_assoc (strings_of (sec alpn).value) (x ∷ []) (admitted xs m)

add_alpns-admitted :
    (xs : List Text) (sec : SecurityParameters) (m : Memory)
    → get_alpns (add_alpns xs sec m).sec ≡ get_alpns sec ++ admitted xs m
unfolding add_alpns admitted get_alpns add_alpn add_to_array_of_strings
add_alpns-admitted [] sec m = sym (append-nil (strings_of (sec alpn).value))
add_alpns-admitted (x ∷ xs) sec (false ∷ m) = add_alpns-admitted xs sec m
add_alpns-admitted (x ∷ xs) sec (true ∷ false ∷ m) = add_alpns-admitted xs sec m
add_alpns-admitted (x ∷ xs) sec (true ∷ true ∷ m) = one_more xs sec x m (add_alpns-admitted xs)
add_alpns-admitted (x ∷ xs) sec (true ∷ []) = one_more xs sec x [] (add_alpns-admitted xs)
add_alpns-admitted (x ∷ xs) sec [] = one_more xs sec x [] (add_alpns-admitted xs)

-- After ALPN strings have been cleared and a sequence of strings added, exactly those are there, in
-- order, that the allocator had memory for, whatever the parameters held before.
pub clear_alpn-add_alpns :
    (xs : List Text) (sec : SecurityParameters) (m n : Memory)
    → get_alpns (add_alpns xs (clear_alpn sec m).sec n).sec ≡ admitted xs n
clear_alpn-add_alpns xs sec m n =
    add_alpns-admitted xs (clear_alpn sec m).sec n ∙ ap (λ l. l ++ admitted xs n) empty
  where
    empty : get_alpns (clear_alpn sec m).sec ≡ []
    empty = unfold get_alpns clear_alpn in refl
