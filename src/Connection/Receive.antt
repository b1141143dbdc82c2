-- ===== src/Connection/Receive.antt =====
-- Messages that arrive and the user's requests for them: ct_connection_deliver_to_app and
-- ct_receive_message in src/connection/connection.c. A request made inside a receive callback acts as
-- one made after it: the queues are left alone from the call of the callback on.
use ctaps.Prelude.{
  ℕ, Bool, not, ◌||◌, Option, none, some, List, [], ◌∷◌, ◌++◌, if◌then◌else◌, Result, ok, err,
  enomem,
}

-- What the user passes to ct_receive_message.
pub record ReceiveCallbacks : Type 0 where
  pub receive_callback : Bool
  pub per_receive_context : ℕ

-- A message of the queue, and whether it came with a context.
pub record QueuedMessage : Type 0 where
  pub message : ℕ
  pub context : Bool

-- A call of the user's receive callback.
pub record Delivery : Type 0 where
  pub message : ℕ
  pub per_receive_context : ℕ

-- `none` in the queue of messages is the null pointer, pushed when the allocation failed.
pub record Queues : Type 0 where
  pub received_messages : List (Option QueuedMessage)
  pub received_callbacks : List ReceiveCallbacks
  pub deliveries : List Delivery  -- oldest first

-- Which allocations succeed.
pub record Memory : Type 0 where
  pub entry : Bool
  pub context : Bool

-- `none` is the use of a null pointer.
unfoldable pub deliver_to_app : Memory → ℕ → Bool → Queues → Option Queues
deliver_to_app a m c q = elim q.received_callbacks [
  | [] ↦
      let entry = if a.entry then some (record { message = m; context = c }) else none in
      some (record q { received_messages = q.received_messages ++ (entry ∷ []) })
  | r ∷ rs ↦
      if not (c || a.context)
      then some (record q { received_callbacks = rs })
      else if r.receive_callback
      then some (record q {
        received_callbacks = rs;
        deliveries =
            q.deliveries
            ++ (record { message = m; per_receive_context = r.per_receive_context } ∷ []);
      })
      else none
]

unfoldable pub receive_message :
    Memory → ReceiveCallbacks → Queues → Option (Result (Unit {0}) × Queues)
receive_message a r q = elim q.received_messages [
  | none ∷ ms ↦ none
  | some e ∷ ms ↦
      if not e.context
      then none
      else if r.receive_callback
      then some (
        ok tt,
        record q {
          received_messages = ms;
          deliveries =
              q.deliveries
              ++ (record { message = e.message; per_receive_context = r.per_receive_context } ∷ []);
        },
      )
      else some (ok tt, record q { received_messages = ms })
  | [] ↦
      if a.entry
      then some (ok tt, record q { received_callbacks = q.received_callbacks ++ (r ∷ []) })
      else some (err enomem, q)
]

-- What happens on a connection, with the allocations that succeed: a message comes, with a context
-- or without, or the user asks for one.
pub data Event : Type 0 where
  arrives : Memory → ℕ → Bool → Event
  requests : Memory → ReceiveCallbacks → Event

abbrev keep_queues : Option (Result (Unit {0}) × Queues) → Option Queues
keep_queues none = none
keep_queues (some p) = some p.1

unfoldable pub step : Event → Queues → Option Queues
step (arrives a m c) q = deliver_to_app a m c q
step (requests a r) q = keep_queues (receive_message a r q)

unfoldable pub run : List Event → Queues → Option Queues
run [] q = some q
run (e ∷ es) q = elim (step e q) [ none ↦ none | some p ↦ run es p ]
