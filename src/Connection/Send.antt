-- ===== src/Connection/Send.antt =====
-- Sending on a connection: ct_send_message_full in src/connection/connection.c.
use ctaps.Prelude.{
  ℕ, ◌≡◌, refl, sym, ap, ◌∙◌, inl, inr, Bool, true, false, not, List, [], ◌∷◌, ◌++◌, if◌then◌else◌,
  Bool-cases, All, append-nil, append_assoc, Result, err, enomem, epipe,
}

-- `handed` are the messages given to the framer or, without one, to the protocol.
pub record Sender : Type 0 where
  pub can_send : Bool
  pub handed : List ℕ  -- oldest first

-- A message, whether its context is there and marks it as FINAL, which of the copies succeed, and
-- what the framer or the protocol returns.
pub record Sending : Type 0 where
  pub message : ℕ
  pub final : Bool
  pub context_copied : Bool
  pub message_copied : Bool
  pub returned : Result (Unit {0})

abbrev pub close_if_final : Bool → Sender → Sender
close_if_final f s = if f then record s { can_send = false } else s

abbrev pub hand_over : Sending → Sender → Result (Unit {0}) × Sender
hand_over x s = (x.returned, record s { handed = s.handed ++ (x.message ∷ []) })

unfoldable pub send_message_full : Sending → Sender → Result (Unit {0}) × Sender
send_message_full x s =
    if not s.can_send
    then (err epipe, s)
    else let t = close_if_final x.final s in
      if not x.context_copied
      then (err enomem, t)
      else if not x.message_copied
      then (err enomem, t)
      else hand_over x t

unfoldable pub send_all : List Sending → Sender → Sender
send_all [] s = s
send_all (x ∷ xs) s = send_all xs (send_message_full x s).1

-- What has to reach the protocol: the messages up to the first FINAL one.
unfoldable pub until_final : List Sending → List ℕ
until_final [] = []
until_final (x ∷ xs) =
    let rest = until_final xs in if x.final then x.message ∷ [] else x.message ∷ rest

abbrev pub IsCopied : Sending → Type 0
IsCopied x = (x.context_copied ≡ true) × (x.message_copied ≡ true)

send_all-closed : (xs : List Sending) (s : Sender) → s.can_send ≡ false → send_all xs s ≡ s
unfolding send_all send_message_full
send_all-closed [] s h = refl
send_all-closed (x ∷ xs) s h = simp h (send_all-closed xs s h)

pub send_all-until_final_from :
    (xs : List Sending) (s : Sender)
    → All IsCopied xs
    → s.can_send ≡ true
    → (send_all xs s).handed ≡ s.handed ++ until_final xs
unfolding send_all send_message_full until_final
send_all-until_final_from [] s h o = sym (append-nil s.handed)
send_all-until_final_from (x ∷ xs) s h o = elim (Bool-cases x.final) [
  | inl p ↦ rw (o, h.0.0, h.0.1, p) (ap (λ t. t.handed) (send_all-closed xs _ refl))
  | inr p ↦
      rw (o, h.0.0, h.0.1, p)
        (send_all-until_final_from xs _ h.1 refl
          ∙ append_assoc s.handed (x.message ∷ []) (until_final xs))
]

-- A sender that can send hands to the protocol exactly the messages up to the first one marked as
-- FINAL, in order, if their copies succeed, whatever the protocol returns for each.
pub send_all-until_final :
    (xs : List Sending)
    → All IsCopied xs
    → (send_all xs (record { can_send = true; handed = [] })).handed ≡ until_final xs
send_all-until_final xs h = send_all-until_final_from xs _ h refl
