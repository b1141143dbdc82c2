-- ===== src/Security/Certificates.antt =====
-- The certificates of the security parameters: src/security_parameter/security_parameters.c.
use ctaps.Prelude.{
  ℕ, not, Option, none, some, List, [], ◌∷◌, ◌++◌, ltb, leb, if◌then◌else◌, length, get_elem?, ok,
  err, enomem, einval,
}
use ctaps.Gather.Selection.{Text}
use ctaps.Security.State.{
  Memory, malloc, SecurityProperty, server_certificate, client_certificate, FileName, uninitialised,
  file, CertificateBundle, CertificateBundles, bundles, freed, certificate_bundles,
  SecurityParameters, bundles_of, Answer, answer,
}
use ctaps.Security.Setters.{set_value, keep_mark}

-- The new array is freed: the parameters keep the old pointer, which `realloc` has given back,
-- unless it was null.
abbrev pub given_back : List CertificateBundle → CertificateBundles
given_back [] = bundles []
given_back (b ∷ bs) = freed (length (b ∷ bs))

abbrev pub lose_array :
    SecurityProperty → List CertificateBundle → SecurityParameters → SecurityParameters
lose_array k bs sec = keep_mark k (certificate_bundles (given_back bs)) sec

abbrev pub append_bundle :
    SecurityProperty
    → List CertificateBundle
    → Text
    → FileName
    → SecurityParameters
    → SecurityParameters
append_bundle k bs cert key sec =
    set_value k
      (certificate_bundles (
        bundles
          (bs ++ (record { certificate_file_name = cert; private_key_file_name = key } ∷ []))))
      sec

-- The copy of the key's name, when one is given; without one the pointer is not written.
unfoldable pub add_key :
    SecurityProperty
    → List CertificateBundle
    → Text
    → Option Text
    → SecurityParameters
    → Memory
    → Answer
add_key k bs cert none sec m = answer (ok tt) (append_bundle k bs cert uninitialised sec) m
add_key k bs cert (some key) sec m =
    let (copied, rest) = malloc m in
    if copied
    then answer (ok tt) (append_bundle k bs cert (file key) sec) rest
    else answer (err enomem) (lose_array k bs sec) rest

-- The growing of an array of bundles, and the copy of the certificate's name.
unfoldable pub add_bundle :
    SecurityProperty
    → List CertificateBundle
    → Text
    → Option Text
    → SecurityParameters
    → Memory
    → Answer
unfolding add_key
add_bundle k bs cert key sec m =
    let (grown, rest) = malloc m in
    if not grown
    then answer (err enomem) sec rest
    else let (copied, left) = malloc rest in
      if not copied
      then answer (err enomem) (lose_array k bs sec) left
      else add_key k bs cert key sec left

abbrev pub add_to_bundles :
    SecurityProperty
    → CertificateBundles
    → Text
    → Option Text
    → SecurityParameters
    → Memory
    → Option Answer
add_to_bundles k (freed n) cert key sec m = none
add_to_bundles k (bundles bs) cert key sec m = some (add_bundle k bs cert key sec m)

-- `none` is a fault, the growing of freed memory. A null certificate file is refused.
unfoldable pub add_certificate :
    SecurityProperty → Option Text → Option Text → SecurityParameters → Memory → Option Answer
unfolding add_bundle
add_certificate k none key sec m = some (answer (err einval) sec m)
add_certificate k (some cert) key sec m = add_to_bundles k (bundles_of (sec k).value) cert key sec m

unfoldable pub add_server_certificate :
    Option Text → Option Text → SecurityParameters → Memory → Option Answer
unfolding add_certificate
add_server_certificate cert key sec m = add_certificate server_certificate cert key sec m

unfoldable pub add_client_certificate :
    Option Text → Option Text → SecurityParameters → Memory → Option Answer
unfolding add_certificate
add_client_certificate cert key sec m = add_certificate client_certificate cert key sec m

-- What a getter reads: the null pointer, a string, or the content of a pointer never written.
pub data Read : Type 0 where
  null : Read
  name : Text → Read
  unwritten : Read

abbrev pub key_name : FileName → Read
key_name uninitialised = unwritten
key_name (file t) = name t

abbrev pub num_bundles : CertificateBundles → ℕ
num_bundles (bundles bs) = length bs
num_bundles (freed n) = n

-- Reading `certificate_bundles[index]`: `none` is a read outside of the array or of freed memory.
abbrev pub bundle_at : CertificateBundles → ℕ → Option CertificateBundle
bundle_at (bundles bs) i = get_elem? bs i
bundle_at (freed n) i = none

abbrev pub read_certificate : Option CertificateBundle → Option Read
read_certificate none = none
read_certificate (some b) = some (name b.certificate_file_name)

abbrev pub read_key : Option CertificateBundle → Option Read
read_key none = none
read_key (some b) = some (key_name b.private_key_file_name)

-- The test is `num_bundles < index`.
unfoldable pub get_certificate_file : SecurityProperty → ℕ → SecurityParameters → Option Read
get_certificate_file k i sec =
    let b = bundles_of (sec k).value in
    if ltb (num_bundles b) i then some null else read_certificate (bundle_at b i)

-- The test is `num_bundles <= index`.
unfoldable pub get_key_file : SecurityProperty → ℕ → SecurityParameters → Option Read
get_key_file k i sec =
    let b = bundles_of (sec k).value in
    if leb (num_bundles b) i then some null else read_key (bundle_at b i)

unfoldable pub get_server_certificate_count : SecurityParameters → ℕ
get_server_certificate_count sec = num_bundles (bundles_of (sec server_certificate).value)

unfoldable pub get_client_certificate_count : SecurityParameters → ℕ
get_client_certificate_count sec = num_bundles (bundles_of (sec client_certificate).value)

unfoldable pub get_server_certificate_file : SecurityParameters → ℕ → Option Read
unfolding get_certificate_file
get_server_certificate_file sec i = get_certificate_file server_certificate i sec

unfoldable pub get_server_certificate_key_file : SecurityParameters → ℕ → Option Read
unfolding get_key_file
get_server_certificate_key_file sec i = get_key_file server_certificate i sec

unfoldable pub get_client_certificate_file : SecurityParameters → ℕ → Option Read
unfolding get_certificate_file
get_client_certificate_file sec i = get_certificate_file client_certificate i sec

unfoldable pub get_client_certificate_key_file : SecurityParameters → ℕ → Option Read
unfolding get_key_file
get_client_certificate_key_file sec i = get_key_file client_certificate i sec
