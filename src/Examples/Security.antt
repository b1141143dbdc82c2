-- ===== src/Examples/Security.antt =====
-- The theorems on security parameters, at concrete inputs.
use ctaps.Prelude.{
  ℕ, ◌≤◌, ◌<◌, ◌≡◌, refl, ◌⊎◌, true, false, none, some, List, [], ◌∷◌, length, get_elem?, All,
  Result, ok,
}
use ctaps.Gather.Selection.{Text}
use ctaps.Security.State.{
  SecurityProperty, server_certificate, file, CertificateBundle, bundles, certificate_bundles,
  SecurityParameters, default_parameters, Answer, answer,
}
use ctaps.Security.Setters.{clear_alpn, get_alpns, set_value}
use ctaps.Security.Certificates.{
  null, name, key_name, add_certificate, add_server_certificate, get_key_file, get_certificate_file,
}
use ctaps.Security.Bounds.{get_key_file_bounds, get_certificate_file_bounds}
use ctaps.Security.Additions.{
  Ended, new_bundle, add_certificate_lem, add_alpns, admitted, clear_alpn-add_alpns,
}
use ctaps.Security.Bundles.{
  certificate_bundles_new, no_bundles, add_certs, IsError, add_certs-refused,
}
use ctaps.Security.DeepCopy.{Copy, deep_copy}
use ctaps.Security.DeepCopy.Laws.{faithful, deep_copy-faithful}
use ctaps.Security.DeepCopy.Failure.{serves, deep_copy-torn}
use ctaps.Security.History.{
  Setting, server_name, protocol, no_protocols, ticket_key, server, apply, apply_all,
}
use ctaps.Security.History.Defaults.{SetOrDefault, apply_all-SetOrDefault}
use ctaps.Security.History.Copies.{deep_copy-apply_all}

abbrev cert : Text
cert = b'c' ∷ b'e' ∷ b'r' ∷ b't' ∷ []

abbrev key : Text
key = b'k' ∷ b'e' ∷ b'y' ∷ []

abbrev h3 : Text
h3 = b'h' ∷ b'3' ∷ []

abbrev settings : List Setting
settings =
    server (some cert) (some key)
    ∷ server (some key) (some cert)
    ∷ protocol (some h3)
    ∷ no_protocols
    ∷ protocol (some key)
    ∷ protocol none
    ∷ server_name (some cert)
    ∷ ticket_key (1 ∷ 2 ∷ 3 ∷ [])
    ∷ []

deep_copy-apply_all_example :
    (a : Answer) × (apply_all settings default_parameters [] ≡ some a)
    × (copy : SecurityParameters) × (deep_copy a.sec [] ≡ some (some copy, []))
    × ((k : SecurityProperty) → copy k ≡ a.sec k)
deep_copy-apply_all_example =
    deep_copy-apply_all settings (tt, (tt, (tt, (tt, (tt, (tt, (tt, (tt, tt))))))))

abbrev bundle : Text → CertificateBundle
bundle t = record { certificate_file_name = t; private_key_file_name = file key }

-- Parameters with two server certificates.
unfoldable two_certificates : SecurityParameters
unfolding default_parameters
two_certificates =
    set_value server_certificate (certificate_bundles (bundles (bundle cert ∷ bundle key ∷ [])))
      default_parameters

abbrev copy_in : Copy → SecurityParameters
copy_in (some (some copy, rest)) = copy
copy_in r = default_parameters

-- All that the copy asks the allocator for is granted; the next request would not be.
unfoldable their_copy : SecurityParameters
unfolding deep_copy two_certificates
their_copy = copy_in (deep_copy two_certificates (true ∷ true ∷ serves false 2))

deep_copy-faithful_example :
    their_copy server_certificate ≡ faithful two_certificates server_certificate
deep_copy-faithful_example =
    deep_copy-faithful two_certificates their_copy (true ∷ true ∷ serves false 2) (false ∷ [])
      (unfold their_copy in refl) server_certificate

apply_all-SetOrDefault_example :
    SetOrDefault
      (answer
        (ok tt)
        (set_value server_certificate
          (certificate_bundles (bundles (bundle cert ∷ [])))
          default_parameters)
        []).sec
apply_all-SetOrDefault_example =
    apply_all-SetOrDefault (server (some cert) (some key) ∷ []) []
      (answer (ok tt)
        (set_value server_certificate (certificate_bundles (bundles (bundle cert ∷ [])))
          default_parameters)
        [])
      (unfold apply_all apply add_server_certificate default_parameters in refl)

get_key_file_bounds_example :
    ((2 ≤ 1) × (get_key_file server_certificate 1 two_certificates ≡ some null))
    ⊎ ((b : CertificateBundle) × (get_elem? (bundle cert ∷ bundle key ∷ []) 1 ≡ some b)
        × (get_key_file server_certificate 1 two_certificates
            ≡ some (key_name b.private_key_file_name)))
get_key_file_bounds_example =
    get_key_file_bounds server_certificate (bundle cert ∷ bundle key ∷ []) 1 two_certificates
      (unfold two_certificates in refl)

get_certificate_file_bounds_example :
    ((◌≡◌ {A = ℕ} 2 2) × (get_certificate_file server_certificate 2 two_certificates ≡ none))
    ⊎ ((2 < 2) × (get_certificate_file server_certificate 2 two_certificates ≡ some null))
    ⊎ ((b : CertificateBundle) × (get_elem? (bundle cert ∷ bundle key ∷ []) 2 ≡ some b)
        × (get_certificate_file server_certificate 2 two_certificates
            ≡ some (name b.certificate_file_name)))
get_certificate_file_bounds_example =
    get_certificate_file_bounds server_certificate (bundle cert ∷ bundle key ∷ []) 2
      two_certificates (unfold two_certificates in refl)

add_certificate_lem_example :
    (a : Answer) × (add_certificate server_certificate
        (some cert)
        (some key)
        two_certificates
        (true ∷ false ∷ [])
      ≡ some a)
    × Ended server_certificate
        (bundle cert ∷ bundle key ∷ [])
        (new_bundle cert (some key))
        two_certificates
        a
add_certificate_lem_example =
    add_certificate_lem server_certificate (bundle cert ∷ bundle key ∷ []) cert (some key)
      two_certificates (true ∷ false ∷ []) (unfold two_certificates in refl)

clear_alpn-add_alpns_example :
    get_alpns
      (add_alpns (h3 ∷ key ∷ []) (clear_alpn default_parameters []).sec (true ∷ false ∷ [])).sec
    ≡ admitted (h3 ∷ key ∷ []) (true ∷ false ∷ [])
clear_alpn-add_alpns_example =
    clear_alpn-add_alpns (h3 ∷ key ∷ []) default_parameters [] (true ∷ false ∷ [])

deep_copy-torn_example : deep_copy two_certificates (true ∷ true ∷ serves true 1) ≡ none
deep_copy-torn_example =
    deep_copy-torn true two_certificates (bundle cert) (bundle key) [] []
      (unfold two_certificates default_parameters in refl)
      (unfold two_certificates default_parameters in refl) (unfold two_certificates in refl)
      (unfold two_certificates in refl) ((key, refl), tt) (λ e. (key, refl))

add_certs-refused_example :
    (rs : List (Result (Unit {0}))) × (add_certs
        ((some cert, some key) ∷ (some cert, none) ∷ [])
        no_bundles
        []
      ≡ some (rs, no_bundles))
    × (length rs ≡ 2)
    × All IsError rs
add_certs-refused_example =
    add_certs-refused ((some cert, some key) ∷ (some cert, none) ∷ []) [] [] [] no_bundles
      (unfold certificate_bundles_new in refl)
