-- ===== src/Security/History/Defaults.antt =====
-- What the user has not set has its default.
use ctaps.Prelude.{
  ℕ, ◌≡◌, refl, sym, ap, subst, ◌∙◌, inl, inr, false, not, Option, none, some, List, [], ◌∷◌, ◌++◌,
  ◌==◌, if◌then◌else◌, ==_iff, Bool-cases, if_cases,
}
use ctaps.Gather.Selection.{Text}
use ctaps.Security.State.{
  Memory, malloc, SecurityProperty, FileName, server_certificate, client_certificate, alpn,
  supported_group, ticket_store_path, server_name_identification, session_ticket_encryption_key,
  uninitialised, file, CertificateBundle, CertificateBundles, bundles, freed, Value,
  certificate_bundles, string, byte_array, bundles_of, SecurityParameters, default_value,
  default_parameters, index, index_inj, Answer,
}
use ctaps.Security.Setters.{
  set_value, keep_mark, set_ticket_store_path, set_server_name_identification,
  add_to_array_of_strings, add_alpn, add_supported_group, clear_alpn,
  set_session_ticket_encryption_key,
}
use ctaps.Security.Certificates.{
  lose_array, append_bundle, add_key, add_bundle, add_to_bundles, add_certificate,
  add_server_certificate, add_client_certificate,
}
use ctaps.Security.History.{
  Setting, ticket_store, server_name, protocol, group, no_protocols, ticket_key, server, client,
  apply, and_apply, apply_all,
}

abbrev pub SetOrDefault : SecurityParameters → Type 0
SetOrDefault sec =
    (j : SecurityProperty) → (sec j).set_by_user ≡ false → (sec j).value ≡ default_value j

set_value-SetOrDefault :
    (k : SecurityProperty) (v : Value) (sec : SecurityParameters)
    → SetOrDefault sec
    → SetOrDefault (set_value k v sec)
set_value-SetOrDefault k v sec h j = elim (Bool-cases (index j == index k)) [
  | inl p ↦ rw p (λ e. absurd (cc (e)))
  | inr p ↦ rw p (h j)
]

keep_mark-SetOrDefault :
    (k : SecurityProperty) (v : Value) (sec : SecurityParameters)
    → ((sec k).set_by_user ≡ false → v ≡ default_value k)
    → SetOrDefault sec
    → SetOrDefault (keep_mark k v sec)
keep_mark-SetOrDefault k v sec d h j = elim (Bool-cases (index j == index k)) [
  | inl p ↦
      let e = index_inj j k ((==_iff _ _).0 p) in
      rw p (subst (λ i. (sec k).set_by_user ≡ false → v ≡ default_value i) (sym e) d)
  | inr p ↦ rw p (h j)
]

abbrev Answered : Answer → Type 0
Answered a = SetOrDefault a.sec

abbrev pub AnsweredIf : Option Answer → Type 0
AnsweredIf none = Unit {0}
AnsweredIf (some a) = Answered a

add_to_array_of_strings-SetOrDefault :
    (k : SecurityProperty) (t : Text) (sec : SecurityParameters) (m : Memory)
    → SetOrDefault sec
    → SetOrDefault (add_to_array_of_strings k t sec m).sec
unfolding add_to_array_of_strings
add_to_array_of_strings-SetOrDefault k t sec m h =
    if_cases Answered (not (malloc m).0) (λ p. h)
      (λ p.
        if_cases Answered (not (malloc (malloc m).1).0) (λ q. h)
          (λ q. set_value-SetOrDefault k _ sec h))

set_session_ticket_encryption_key-SetOrDefault :
    (key : List ℕ) (sec : SecurityParameters) (m : Memory)
    → SetOrDefault sec
    → SetOrDefault (set_session_ticket_encryption_key key sec m).sec
unfolding set_session_ticket_encryption_key default_value
set_session_ticket_encryption_key-SetOrDefault [] sec m h =
    set_value-SetOrDefault session_ticket_encryption_key (byte_array []) sec h
set_session_ticket_encryption_key-SetOrDefault (b ∷ bs) sec m h =
    if_cases Answered (malloc m).0
      (λ p. set_value-SetOrDefault session_ticket_encryption_key (byte_array (b ∷ bs)) sec h)
      (λ p. keep_mark-SetOrDefault session_ticket_encryption_key _ sec (λ e. refl) h)

set_ticket_store_path-SetOrDefault :
    (path : Option Text) (sec : SecurityParameters) (m : Memory)
    → SetOrDefault sec
    → SetOrDefault (set_ticket_store_path path sec m).sec
unfolding set_ticket_store_path
set_ticket_store_path-SetOrDefault none sec m h =
    set_value-SetOrDefault ticket_store_path (string none) sec h
set_ticket_store_path-SetOrDefault (some path) sec m h =
    if_cases Answered (malloc m).0
      (λ p. set_value-SetOrDefault ticket_store_path (string (some path)) sec h)
      (λ p. set_value-SetOrDefault ticket_store_path (string none) sec h)

-- An array that is lost was not empty, so that the user has set it.
lose_array-SetOrDefault :
    (k : SecurityProperty) (bs : List CertificateBundle) (sec : SecurityParameters)
    → default_value k ≡ certificate_bundles (bundles [])
    → bundles_of (sec k).value ≡ bundles bs
    → SetOrDefault sec
    → SetOrDefault (lose_array k bs sec)
lose_array-SetOrDefault k [] sec d e h = keep_mark-SetOrDefault k _ sec (λ f. sym d) h
lose_array-SetOrDefault k (b ∷ bs) sec d e h =
    keep_mark-SetOrDefault k _ sec (λ f. absurd (cc (e, ap bundles_of (h k f ∙ d)))) h

abbrev append-SetOrDefault :
    (k : SecurityProperty) (bs : List CertificateBundle) (cert : Text) (key : FileName)
    (sec : SecurityParameters)
    → SetOrDefault sec
    → SetOrDefault (append_bundle k bs cert key sec)
append-SetOrDefault k bs cert key sec h =
    set_value-SetOrDefault k
      (certificate_bundles (
        bundles
          (bs ++ (record { certificate_file_name = cert; private_key_file_name = key } ∷ []))))
      sec h

module _ (k : SecurityProperty) (bs : List CertificateBundle) (sec : SecurityParameters)
    (d : default_value k ≡ certificate_bundles (bundles []))
    (e : bundles_of (sec k).value ≡ bundles bs) (h : SetOrDefault sec) where
  add_key-SetOrDefault :
      (cert : Text) (key : Option Text) (m : Memory)
      → SetOrDefault (add_key k bs cert key sec m).sec
  unfolding add_key
  add_key-SetOrDefault cert none m = append-SetOrDefault k bs cert uninitialised sec h
  add_key-SetOrDefault cert (some key) m =
      if_cases Answered (malloc m).0 (λ p. append-SetOrDefault k bs cert (file key) sec h)
        (λ p. lose_array-SetOrDefault k bs sec d e h)

  add_bundle-SetOrDefault :
      (cert : Text) (key : Option Text) (m : Memory)
      → SetOrDefault (add_bundle k bs cert key sec m).sec
  unfolding add_bundle
  add_bundle-SetOrDefault cert key m =
      if_cases Answered (not (malloc m).0) (λ p. h)
        (λ p.
          if_cases Answered (not (malloc (malloc m).1).0)
            (λ q. lose_array-SetOrDefault k bs sec d e h)
            (λ q. add_key-SetOrDefault cert key (malloc (malloc m).1).1))

add_certificate-SetOrDefault :
    (k : SecurityProperty) (cert key : Option Text) (sec : SecurityParameters) (m : Memory)
    → default_value k ≡ certificate_bundles (bundles [])
    → SetOrDefault sec
    → AnsweredIf (add_certificate k cert key sec m)
unfolding add_certificate
add_certificate-SetOrDefault k none key sec m d h = h
add_certificate-SetOrDefault k (some cert) key sec m d h = to_bundles _ refl
  where
    to_bundles :
        (b : CertificateBundles)
        → bundles_of (sec k).value ≡ b
        → AnsweredIf (add_to_bundles k b cert key sec m)
    to_bundles (freed n) e = tt
    to_bundles (bundles bs) e = add_bundle-SetOrDefault k bs sec d e h (cert) key m

apply-SetOrDefault :
    (s : Setting) (sec : SecurityParameters) (m : Memory)
    → SetOrDefault sec
    → AnsweredIf (apply s sec m)
unfolding apply add_alpn add_supported_group clear_alpn add_server_certificate
    add_client_certificate set_server_name_identification default_value
apply-SetOrDefault (ticket_store path) sec m h = set_ticket_store_path-SetOrDefault path sec m h
apply-SetOrDefault (server_name none) sec m h =
    set_value-SetOrDefault server_name_identification (string none) sec h
apply-SetOrDefault (server_name (some sni)) sec m h =
    set_value-SetOrDefault server_name_identification
      (string (if (malloc m).0 then some sni else none)) sec h
apply-SetOrDefault (protocol none) sec m h = h
apply-SetOrDefault (protocol (some text)) sec m h =
    add_to_array_of_strings-SetOrDefault alpn text sec m h
apply-SetOrDefault (group text) sec m h =
    add_to_array_of_strings-SetOrDefault supported_group text sec m h
apply-SetOrDefault no_protocols sec m h = keep_mark-SetOrDefault alpn _ sec (λ e. refl) h
apply-SetOrDefault (ticket_key key) sec m h =
    set_session_ticket_encryption_key-SetOrDefault key sec m h
apply-SetOrDefault (server cert key) sec m h =
    add_certificate-SetOrDefault server_certificate cert key sec m refl h
apply-SetOrDefault (client cert key) sec m h =
    add_certificate-SetOrDefault client_certificate cert key sec m refl h

and_apply-Answered :
    (a : Option Answer) (next : Answer → Option Answer)
    → AnsweredIf a
    → ((b : Answer) → SetOrDefault b.sec → AnsweredIf (next b))
    → AnsweredIf (and_apply a next)
and_apply-Answered none next h f = tt
and_apply-Answered (some a) next h f = f a h

apply_all-Answered :
    (ss : List Setting) (sec : SecurityParameters) (m : Memory)
    → SetOrDefault sec
    → AnsweredIf (apply_all ss sec m)
unfolding apply_all
apply_all-Answered [] sec m h = h
apply_all-Answered (s ∷ ss) sec m h =
    and_apply-Answered (apply s sec m) (λ a. apply_all ss a.sec a.memory)
      (apply-SetOrDefault s sec m h) (λ b g. apply_all-Answered ss b.sec b.memory g)

-- On parameters that are new, any sequence of calls of the setters leaves what is not marked as set
-- by the user at its default, also when allocations fail on the way.
pub apply_all-SetOrDefault :
    (ss : List Setting) (m : Memory) (a : Answer)
    → apply_all ss default_parameters m ≡ some a
    → SetOrDefault a.sec
apply_all-SetOrDefault ss m a h =
    subst AnsweredIf h
      (apply_all-Answered ss default_parameters m (unfold default_parameters in λ j e. refl))
