-- ===== src/Security/State.antt =====
-- The security parameters and the memory that their functions ask for: src/ctaps_internal.h and
-- src/security_parameter/security_parameters.c.
use ctaps.Prelude.{
  ℕ, zero, suc, ◌≡◌, refl, sym, ap, ◌∙◌, Bool, true, false, Option, none, some, List, [], ◌∷◌, ◌==◌,
  if◌then◌else◌, Result,
}
use ctaps.Gather.Selection.{Text}

-- The answers of the allocator that are still to come; after the last one it always succeeds.
abbrev pub Memory : Type 0
Memory = List Bool

abbrev pub malloc : Memory → Bool × Memory
malloc [] = (true, [])
malloc (b ∷ m) = (b, m)

pub data SecurityProperty : Type 0 where
  supported_group ciphersuite server_certificate client_certificate signature_algorithm alpn
        session_ticket_encryption_key ticket_store_path server_name_identification :
      SecurityProperty

-- A `char*` of a bundle: never written, or a string.
pub data FileName : Type 0 where
  uninitialised : FileName
  file : Text → FileName

pub record CertificateBundle : Type 0 where
  pub certificate_file_name : Text
  pub private_key_file_name : FileName

-- The array with its `num_bundles`; `freed n` is a pointer to `n` bundles in freed memory.
pub data CertificateBundles : Type 0 where
  bundles : List CertificateBundle → CertificateBundles
  freed : ℕ → CertificateBundles

-- The union with its tag.
pub data Value : Type 0 where
  array_of_strings : List Text → Value
  certificate_bundles : CertificateBundles → Value
  string : Option Text → Value
  byte_array : List ℕ → Value

pub record SecurityParameter : Type 0 where
  pub set_by_user : Bool
  pub value : Value

-- `list` of the source is indexed by the property.
abbrev pub SecurityParameters : Type 0
SecurityParameters = SecurityProperty → SecurityParameter

unfoldable pub default_value : SecurityProperty → Value
default_value server_certificate = certificate_bundles (bundles [])
default_value client_certificate = certificate_bundles (bundles [])
default_value session_ticket_encryption_key = byte_array []
default_value ticket_store_path = string none
default_value server_name_identification = string none
default_value supported_group = array_of_strings []
default_value ciphersuite = array_of_strings []
default_value signature_algorithm = array_of_strings []
default_value alpn = array_of_strings []

unfoldable pub default_parameters : SecurityParameters
unfolding default_value
default_parameters k = record { set_by_user = false; value = default_value k }

-- `none` is the null pointer.
unfoldable pub security_parameters_new : Memory → Option SecurityParameters × Memory
unfolding default_parameters
security_parameters_new m =
    let (got, rest) = malloc m in (if got then some default_parameters else none, rest)

abbrev pub index : SecurityProperty → ℕ
index supported_group = 0
index ciphersuite = 1
index server_certificate = 2
index client_certificate = 3
index signature_algorithm = 4
index alpn = 5
index session_ticket_encryption_key = 6
index ticket_store_path = 7
index server_name_identification = 8

abbrev property : ℕ → SecurityProperty
property zero = supported_group
property (suc zero) = ciphersuite
property (suc (suc zero)) = server_certificate
property (suc (suc (suc zero))) = client_certificate
property (suc (suc (suc (suc zero)))) = signature_algorithm
property (suc (suc (suc (suc (suc zero))))) = alpn
property (suc (suc (suc (suc (suc (suc zero)))))) = session_ticket_encryption_key
property (suc (suc (suc (suc (suc (suc (suc zero))))))) = ticket_store_path
property n = server_name_identification

property-index : (k : SecurityProperty) → property (index k) ≡ k
property-index supported_group = refl
property-index ciphersuite = refl
property-index server_certificate = refl
property-index client_certificate = refl
property-index signature_algorithm = refl
property-index alpn = refl
property-index session_ticket_encryption_key = refl
property-index ticket_store_path = refl
property-index server_name_identification = refl

pub index_inj : (j k : SecurityProperty) → index j ≡ index k → j ≡ k
index_inj j k h = sym (property-index j) ∙ ap property h ∙ property-index k

abbrev pub write : SecurityProperty → SecurityParameter → SecurityParameters → SecurityParameters
write k p sec j = if index j == index k then p else sec j

-- A member of the union; another member than the one written reads as empty.
abbrev pub strings_of : Value → List Text
strings_of (array_of_strings xs) = xs
strings_of v = []

abbrev pub bundles_of : Value → CertificateBundles
bundles_of (certificate_bundles b) = b
bundles_of v = bundles []

abbrev pub string_of : Value → Option Text
string_of (string s) = s
string_of v = none

abbrev pub bytes_of : Value → List ℕ
bytes_of (byte_array b) = b
bytes_of v = []

-- What a setter returns, with what it leaves.
pub record Answer : Type 0 where
  pub rc : Result (Unit {0})
  pub sec : SecurityParameters
  pub memory : Memory

abbrev pub answer : Result (Unit {0}) → SecurityParameters → Memory → Answer
answer r s m = record { rc = r; sec = s; memory = m }
