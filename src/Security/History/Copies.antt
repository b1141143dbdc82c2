-- ===== src/Security/History/Copies.antt =====
-- A deep copy of parameters that a user has built.
use ctaps.Prelude.{
  ℕ, ◌≡◌, refl, ap, ◌∙◌, inl, inr, Bool, true, Option, none, some, List, [], ◌∷◌, ◌++◌, arith, ◌==◌,
  Bool-cases, if_cases, All, append-nil, append_assoc, ok,
}
use ctaps.Gather.Selection.{Text}
use ctaps.Security.State.{
  Memory, SecurityProperty, ciphersuite, signature_algorithm, FileName, server_certificate,
  client_certificate, alpn, supported_group, ticket_store_path, server_name_identification,
  session_ticket_encryption_key, file, CertificateBundle, bundles, freed, Value, array_of_strings,
  certificate_bundles, string, byte_array, SecurityParameter, bundles_of, strings_of,
  SecurityParameters, default_value, default_parameters, security_parameters_new, index, write,
  Answer, answer,
}
use ctaps.Security.Setters.{
  set_ticket_store_path, set_server_name_identification, add_to_array_of_strings, add_alpn,
  add_supported_group, clear_alpn, set_session_ticket_encryption_key,
}
use ctaps.Security.Certificates.{
  add_key, add_bundle, add_to_bundles, add_certificate, add_server_certificate,
  add_client_certificate,
}
use ctaps.Security.DeepCopy.{
  Copied, copied, copy_strings, string_array_value_deep_copy, copy_key, copy_bundles,
  certificate_bundles_deep_copy, copy_value, all_properties, set_copy, leave_copy, and_then,
  copy_parameters, deep_copy,
}
use ctaps.Security.DeepCopy.Laws.{faithful, deep_copy-faithful}
use ctaps.Security.History.{
  Setting, ticket_store, server_name, protocol, group, no_protocols, ticket_key, server, client,
  apply, and_apply, apply_all,
}
use ctaps.Security.History.Defaults.{SetOrDefault, apply_all-SetOrDefault}

-- What a deep copy needs of a value: no freed array, and a key for each certificate.
HasKeyFile : CertificateBundle → Type 0
HasKeyFile b = (t : Text) × (b.private_key_file_name ≡ file t)

abbrev IsCopyable : Value → Type 0
IsCopyable (certificate_bundles (freed n)) = ⊥
IsCopyable (certificate_bundles (bundles bs)) = All HasKeyFile bs
IsCopyable (array_of_strings xs) = Unit {0}
IsCopyable (string s) = Unit {0}
IsCopyable (byte_array b) = Unit {0}

-- A certificate comes with its key.
abbrev pub WithKey : Option Text → Option Text → Type 0
WithKey none key = Unit {0}
WithKey (some cert) none = ⊥
WithKey (some cert) (some key) = Unit {0}

abbrev pub IsKeyed : Setting → Type 0
IsKeyed (server cert key) = WithKey cert key
IsKeyed (client cert key) = WithKey cert key
IsKeyed (ticket_store path) = Unit {0}
IsKeyed (server_name sni) = Unit {0}
IsKeyed (protocol text) = Unit {0}
IsKeyed (group text) = Unit {0}
IsKeyed no_protocols = Unit {0}
IsKeyed (ticket_key key) = Unit {0}

All-append {ℓ κ} :
    {A : Type ℓ} (P : A → Type κ) (xs ys : List A) → All P xs → All P ys → All P (xs ++ ys)
All-append P [] ys h g = g
All-append P (x ∷ xs) ys h g = (h.0, All-append P xs ys h.1 g)

-- With memory, the values are copied.
copy_strings-copied :
    (xs out : List Text) → copy_strings xs out [] ≡ (copied (array_of_strings (out ++ xs)), [])
unfolding copy_strings
copy_strings-copied [] out = rw (append-nil out)
copy_strings-copied (x ∷ xs) out =
    copy_strings-copied xs (out ++ (x ∷ [])) ∙ rw (append_assoc out (x ∷ []) xs)

copy_key-file :
    (f : FileName) (t : Text) (n : ℕ) (next : Option (Copied × Memory))
    → f ≡ file t
    → copy_key f n [] next ≡ next
unfolding copy_key
copy_key-file f t n next h = rw h

copy_bundles-copied :
    (bs out : List CertificateBundle)
    → All HasKeyFile bs
    → copy_bundles bs out [] ≡ some (copied (certificate_bundles (bundles (out ++ bs))), [])
unfolding copy_bundles HasKeyFile
copy_bundles-copied [] out h = rw (append-nil out)
copy_bundles-copied (b ∷ bs) out h =
    copy_key-file b.private_key_file_name h.0.0 _ _ h.0.1
    ∙ copy_bundles-copied bs (out ++ (b ∷ [])) h.1
    ∙ rw (append_assoc out (b ∷ []) bs)

copy_value-copied : (v : Value) → IsCopyable v → copy_value v [] ≡ some (copied v, [])
unfolding copy_value string_array_value_deep_copy certificate_bundles_deep_copy
copy_value-copied (array_of_strings []) h = refl
copy_value-copied (array_of_strings (x ∷ xs)) h = ap some (copy_strings-copied (x ∷ xs) [])
copy_value-copied (certificate_bundles (freed n)) h = absurd h
copy_value-copied (certificate_bundles (bundles [])) h = refl
copy_value-copied (certificate_bundles (bundles (b ∷ bs))) h = copy_bundles-copied (b ∷ bs) [] h
copy_value-copied (string none) h = refl
copy_value-copied (string (some s)) h = refl
copy_value-copied (byte_array []) h = refl
copy_value-copied (byte_array (b ∷ bs)) h = refl

copy_parameters-copied :
    (ks : List SecurityProperty) (sec copy : SecurityParameters)
    → ((k : SecurityProperty) → IsCopyable (sec k).value)
    → (c : SecurityParameters) × (copy_parameters ks sec copy [] ≡ some (some c, []))
unfolding copy_parameters
copy_parameters-copied [] sec copy h = (copy, refl)
copy_parameters-copied (k ∷ ks) sec copy h = elim (Bool-cases (sec k).set_by_user) [
  | inl p ↦
      let v = (sec k).value in
      let next = λ (w : Value) (m : Memory). copy_parameters ks sec (set_copy k w copy) m in
      let (c, e) = copy_parameters-copied ks sec (set_copy k v copy) h in
      (c, rw p (ap (λ r. and_then r next) (copy_value-copied v (h k)) ∙ e))
  | inr p ↦ let (c, e) = copy_parameters-copied ks sec (leave_copy k copy) h in (c, rw p e)
]

-- What a call leaves where memory never runs out.
abbrev Ready : Answer → Type 0
Ready a = (a.memory ≡ []) × ((k : SecurityProperty) → IsCopyable (a.sec k).value)

abbrev ReadyIf : Option Answer → Type 0
ReadyIf none = ⊥
ReadyIf (some a) = Ready a

module _ (sec : SecurityParameters) (h : (k : SecurityProperty) → IsCopyable (sec k).value) where
  write-IsCopyable :
      (k : SecurityProperty) (p : SecurityParameter)
      → IsCopyable p.value
      → (j : SecurityProperty) → IsCopyable (write k p sec j).value
  write-IsCopyable k p g j =
      if_cases (λ (q : SecurityParameter). IsCopyable q.value) (index j == index k) (λ e. g)
        (λ e. h j)

  add_key-Ready :
      (k : SecurityProperty) (bs : List CertificateBundle) (cert key : Text)
      → All HasKeyFile bs
      → Ready (add_bundle k bs cert (some key) sec [])
  unfolding add_bundle add_key HasKeyFile
  add_key-Ready k bs cert key g =
      let b : CertificateBundle = record {
        certificate_file_name = cert;
        private_key_file_name = file key;
      } in
      (
        refl,
        write-IsCopyable k
            (record { set_by_user = true; value = certificate_bundles (bundles (bs ++ (b ∷ []))) })
            (All-append HasKeyFile bs (b ∷ []) g ((key, refl), tt)),
      )

  add_to_bundles-Ready :
      (k : SecurityProperty) (v : Value) (cert key : Text)
      → IsCopyable v
      → ReadyIf (add_to_bundles k (bundles_of v) cert (some key) sec [])
  add_to_bundles-Ready k (certificate_bundles (freed n)) cert key g = absurd g
  add_to_bundles-Ready k (certificate_bundles (bundles bs)) cert key g =
      add_key-Ready k bs cert key g
  add_to_bundles-Ready k (array_of_strings xs) cert key g = add_key-Ready k [] cert key tt
  add_to_bundles-Ready k (string s) cert key g = add_key-Ready k [] cert key tt
  add_to_bundles-Ready k (byte_array b) cert key g = add_key-Ready k [] cert key tt

  add_certificate-Ready :
      (k : SecurityProperty) (cert key : Option Text)
      → WithKey cert key
      → ReadyIf (add_certificate k cert key sec [])
  unfolding add_certificate
  add_certificate-Ready k none key w = (refl, h)
  add_certificate-Ready k (some cert) none w = absurd w
  add_certificate-Ready k (some cert) (some key) w =
      add_to_bundles-Ready k (sec k).value cert key (h k)

  mark-Ready :
      (k : SecurityProperty) (b : Bool) (v : Value)
      → IsCopyable v
      → (j : SecurityProperty)
      → IsCopyable (write k (record { set_by_user = b; value = v }) sec j).value
  mark-Ready k b v g = write-IsCopyable k (record { set_by_user = b; value = v }) g

  apply-Ready : (s : Setting) → IsKeyed s → ReadyIf (apply s sec [])
  unfolding apply add_alpn add_supported_group clear_alpn add_server_certificate
      add_client_certificate set_server_name_identification set_ticket_store_path
      set_session_ticket_encryption_key add_to_array_of_strings
  apply-Ready (ticket_store none) w = (refl, mark-Ready ticket_store_path true (string none) tt)
  apply-Ready (ticket_store (some p)) w =
      (refl, mark-Ready ticket_store_path true (string (some p)) tt)
  apply-Ready (server_name none) w =
      (refl, mark-Ready server_name_identification true (string none) tt)
  apply-Ready (server_name (some s)) w =
      (refl, mark-Ready server_name_identification true (string (some s)) tt)
  apply-Ready (protocol none) w = (refl, h)
  apply-Ready (protocol (some t)) w =
      (refl, mark-Ready alpn true (array_of_strings (strings_of (sec alpn).value ++ (t ∷ []))) tt)
  apply-Ready (group t) w = (
    refl,
    mark-Ready supported_group true
        (array_of_strings (strings_of (sec supported_group).value ++ (t ∷ []))) tt,
  )
  apply-Ready no_protocols w =
      (refl, mark-Ready alpn (sec alpn).set_by_user (array_of_strings []) tt)
  apply-Ready (ticket_key []) w =
      (refl, mark-Ready session_ticket_encryption_key true (byte_array []) tt)
  apply-Ready (ticket_key (b ∷ bs)) w =
      (refl, mark-Ready session_ticket_encryption_key true (byte_array (b ∷ bs)) tt)
  apply-Ready (server cert key) w = add_certificate-Ready server_certificate cert key w
  apply-Ready (client cert key) w = add_certificate-Ready client_certificate cert key w

Built : Option Answer → Type 0
Built o = (a : Answer) × (o ≡ some a) × Ready a

and_apply-Built :
    (o : Option Answer) (next : Answer → Option Answer)
    → ReadyIf o
    → ((a : Answer) → Ready a → Built (next a))
    → Built (and_apply o next)
and_apply-Built none next h f = absurd h
and_apply-Built (some a) next h f = f a h

apply_all-Built :
    (ss : List Setting) (sec : SecurityParameters) (m : Memory)
    → m ≡ []
    → ((k : SecurityProperty) → IsCopyable (sec k).value)
    → All IsKeyed ss
    → Built (apply_all ss sec m)
unfolding apply_all Built
apply_all-Built [] sec m e h w = (answer (ok tt) sec m, refl, (e, h))
apply_all-Built (s ∷ ss) sec m e h w =
    and_apply-Built (apply s sec m) (λ a. apply_all ss a.sec a.memory)
      (rw e (apply-Ready sec h s w.0)) (λ a r. apply_all-Built ss a.sec a.memory r.0 r.1 w.1)

default-IsCopyable : (k : SecurityProperty) → IsCopyable (default_parameters k).value
unfolding default_parameters default_value
default-IsCopyable supported_group = tt
default-IsCopyable ciphersuite = tt
default-IsCopyable server_certificate = tt
default-IsCopyable client_certificate = tt
default-IsCopyable signature_algorithm = tt
default-IsCopyable alpn = tt
default-IsCopyable session_ticket_encryption_key = tt
default-IsCopyable ticket_store_path = tt
default-IsCopyable server_name_identification = tt

faithful_self :
    (sec : SecurityParameters) → SetOrDefault sec → (k : SecurityProperty) → faithful sec k ≡ sec k
unfolding faithful
faithful_self sec h k = elim (Bool-cases (sec k).set_by_user) [
  | inl p ↦ rw p
  | inr p ↦ ground (arith, p, h k p)
]

-- Where memory does not run out, and every certificate that is added comes with its key, any
-- sequence of calls of the setters on new parameters runs through, a deep copy of what it leaves is
-- made, and the copy has every parameter exactly as the source has it.
pub deep_copy-apply_all :
    (ss : List Setting)
    → All IsKeyed ss
    → (a : Answer) × (apply_all ss default_parameters [] ≡ some a)
      × (copy : SecurityParameters) × (deep_copy a.sec [] ≡ some (some copy, []))
      × ((k : SecurityProperty) → copy k ≡ a.sec k)
unfolding Built deep_copy security_parameters_new
deep_copy-apply_all ss w =
    let (a, e, r) = apply_all-Built ss default_parameters [] refl default-IsCopyable w in
    let (copy, f) = copy_parameters-copied all_properties a.sec default_parameters r.1 in
    (
      a,
      e,
      copy,
      f,
      λ k.
          deep_copy-faithful a.sec copy [] [] f k
          ∙ faithful_self a.sec (apply_all-SetOrDefault ss [] a e) k,
    )
