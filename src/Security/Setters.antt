-- ===== src/Security/Setters.antt =====
-- The setters and getters of strings, arrays of strings and the session ticket key:
-- src/security_parameter/security_parameters.c. The parameters are not null.
use ctaps.Prelude.{
  ℕ, true, not, Option, none, some, List, [], ◌∷◌, ◌++◌, if◌then◌else◌, ok, err, enomem, einval,
}
use ctaps.Gather.Selection.{Text}
use ctaps.Security.State.{
  Memory, malloc, SecurityProperty, alpn, supported_group, session_ticket_encryption_key,
  ticket_store_path, server_name_identification, Value, array_of_strings, string, byte_array,
  SecurityParameters, write, strings_of, string_of, bytes_of, Answer, answer,
}

-- `value.m = v`, and `set_by_user = true`.
abbrev pub set_value : SecurityProperty → Value → SecurityParameters → SecurityParameters
set_value k v sec = write k (record { set_by_user = true; value = v }) sec

-- `value.m = v` alone.
abbrev pub keep_mark : SecurityProperty → Value → SecurityParameters → SecurityParameters
keep_mark k v sec = write k (record { set_by_user = (sec k).set_by_user; value = v }) sec

unfoldable pub set_ticket_store_path : Option Text → SecurityParameters → Memory → Answer
set_ticket_store_path none sec m = answer (ok tt) (set_value ticket_store_path (string none) sec) m
set_ticket_store_path (some path) sec m =
    let (copied, rest) = malloc m in
    if copied
    then answer (ok tt) (set_value ticket_store_path (string (some path)) sec) rest
    else answer (err enomem) (set_value ticket_store_path (string none) sec) rest

unfoldable pub get_ticket_store_path : SecurityParameters → Option Text
get_ticket_store_path sec = string_of (sec ticket_store_path).value

-- A copy that fails leaves the null pointer, and the function succeeds.
unfoldable pub set_server_name_identification : Option Text → SecurityParameters → Memory → Answer
set_server_name_identification none sec m =
    answer (ok tt) (set_value server_name_identification (string none) sec) m
set_server_name_identification (some sni) sec m =
    let (copied, rest) = malloc m in
    answer (ok tt)
      (set_value server_name_identification (string (if copied then some sni else none)) sec) rest

unfoldable pub get_server_name_identification : SecurityParameters → Option Text
get_server_name_identification sec = string_of (sec server_name_identification).value

-- One answer of the allocator for the array, and one for the copy of the string.
unfoldable pub add_to_array_of_strings :
    SecurityProperty → Text → SecurityParameters → Memory → Answer
add_to_array_of_strings k text sec m =
    let (grown, rest) = malloc m in
    if not grown
    then answer (err enomem) sec rest
    else let (copied, left) = malloc rest in
      if not copied
      then answer (err enomem) sec left
      else answer (ok tt)
          (set_value k (array_of_strings (strings_of (sec k).value ++ (text ∷ []))) sec) left

-- `none` is the null pointer.
unfoldable pub add_alpn : Option Text → SecurityParameters → Memory → Answer
unfolding add_to_array_of_strings
add_alpn none sec m = answer (err einval) sec m
add_alpn (some text) sec m = add_to_array_of_strings alpn text sec m

-- The group is not null: the source copies it without a test.
unfoldable pub add_supported_group : Text → SecurityParameters → Memory → Answer
unfolding add_to_array_of_strings
add_supported_group text sec m = add_to_array_of_strings supported_group text sec m

unfoldable pub clear_alpn : SecurityParameters → Memory → Answer
clear_alpn sec m = answer (ok tt) (keep_mark alpn (array_of_strings []) sec) m

unfoldable pub get_alpns : SecurityParameters → List Text
get_alpns sec = strings_of (sec alpn).value

-- A key of length 0 needs no memory.
unfoldable pub set_session_ticket_encryption_key : List ℕ → SecurityParameters → Memory → Answer
set_session_ticket_encryption_key [] sec m =
    answer (ok tt) (set_value session_ticket_encryption_key (byte_array []) sec) m
set_session_ticket_encryption_key (b ∷ bs) sec m =
    let (got, rest) = malloc m in
    if got
    then answer (ok tt) (set_value session_ticket_encryption_key (byte_array (b ∷ bs)) sec) rest
    else answer (err enomem) (keep_mark session_ticket_encryption_key (byte_array []) sec) rest

unfoldable pub get_session_ticket_encryption_key : SecurityParameters → List ℕ
get_session_ticket_encryption_key sec = bytes_of (sec session_ticket_encryption_key).value
