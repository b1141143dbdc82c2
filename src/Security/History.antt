-- ===== src/Security/History.antt =====
-- What a user does with security parameters: any sequence of calls of the setters of
-- src/security_parameter/security_parameters.c on parameters made by ct_security_parameters_new.
use ctaps.Prelude.{
  ℕ, zero, suc, ◌+◌, ◌-◌, ◌*◌, ◌%◌, ◌^◌, ◌≤◌, ◌<◌, ◌≡◌, refl, sym, ap, subst, ◌∙◌, ◌≢◌, ◌↔◌, ◌⊎◌,
  inl, inr, Bool, true, false, not, ◌&&◌, ◌||◌, Option, none, some, List, [], ◌∷◌, ◌++◌, map, arith,
  ltb, leb, ◌==◌, if◌then◌else◌, ==_iff, Bool-cases, if_cases, Option-cases, is_some, u64, length,
  get_elem?, modify, take, drop, count, any, keep, All, length-append, append-nil, append_assoc,
  length-modify, get_elem?-modify, get_elem?-modify_ne, lt_of_get_elem?, count-append,
  count-modify_eq, count-modify_drop, bytes_eq, bytes_eq_sound, bytes_eq_refl, Result, ok, err,
  ◌>>=◌, Result-cases, enoent, eio, enomem, eexist, einval, epipe, enotsup,
}
use ctaps.Gather.Selection.{Text}
use ctaps.Security.State.{Memory, SecurityParameters, Answer, answer}
use ctaps.Security.Setters.{
  set_ticket_store_path, set_server_name_identification, add_alpn, add_supported_group, clear_alpn,
  set_session_ticket_encryption_key,
}
use ctaps.Security.Certificates.{add_server_certificate, add_client_certificate}
pub mod Defaults
pub mod Copies

pub data Setting : Type 0 where
  ticket_store server_name protocol : Option Text → Setting
  group : Text → Setting
  no_protocols : Setting
  ticket_key : List ℕ → Setting
  server client : Option Text → Option Text → Setting

-- `none` is a fault.
unfoldable pub apply : Setting → SecurityParameters → Memory → Option Answer
apply (ticket_store path) sec m = some (set_ticket_store_path path sec m)
apply (server_name sni) sec m = some (set_server_name_identification sni sec m)
apply (protocol text) sec m = some (add_alpn text sec m)
apply (group text) sec m = some (add_supported_group text sec m)
apply no_protocols sec m = some (clear_alpn sec m)
apply (ticket_key key) sec m = some (set_session_ticket_encryption_key key sec m)
apply (server cert key) sec m = add_server_certificate cert key sec m
apply (client cert key) sec m = add_client_certificate cert key sec m

abbrev pub and_apply : Option Answer → (Answer → Option Answer) → Option Answer
and_apply none next = none
and_apply (some a) next = next a

-- The calls one after another, whatever each of them returns.
unfoldable pub apply_all : List Setting → SecurityParameters → Memory → Option Answer
apply_all [] sec m = some (answer (ok tt) sec m)
apply_all (s ∷ ss) sec m = and_apply (apply s sec m) (λ a. apply_all ss a.sec a.memory)
