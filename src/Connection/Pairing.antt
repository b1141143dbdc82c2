-- ===== src/Connection/Pairing.antt =====
-- The messages of a connection and the requests for them, in the order in which they come.
use ctaps.Prelude.{
  ℕ, ◌≡◌, refl, ap, ◌∙◌, true, Option, some, List, [], ◌∷◌, ◌++◌, All, append-nil, append_assoc,
}
use ctaps.Connection.Receive.{
  ReceiveCallbacks, QueuedMessage, Delivery, Queues, deliver_to_app, receive_message, Event,
  arrives, requests, step, run,
}

-- The messages and the requests of a sequence of events.
unfoldable pub arrived : List Event → List ℕ
arrived [] = []
arrived (arrives a m c ∷ es) = m ∷ arrived es
arrived (requests a r ∷ es) = arrived es

unfoldable pub requested : List Event → List ReceiveCallbacks
requested [] = []
requested (arrives a m c ∷ es) = requested es
requested (requests a r ∷ es) = r ∷ requested es

-- The first message to the first request, and so on.
unfoldable pub pair : List ℕ → List ReceiveCallbacks → List Delivery
pair [] rs = []
pair (m ∷ ms) [] = []
pair (m ∷ ms) (r ∷ rs) =
    record { message = m; per_receive_context = r.per_receive_context } ∷ pair ms rs

-- What is left over of either list.
unfoldable pub left_over {ℓ κ} : {A : Type ℓ} {B : Type κ} → List A → List B → List A
left_over [] ys = []
left_over (x ∷ xs) [] = x ∷ xs
left_over (x ∷ xs) (y ∷ ys) = left_over xs ys

abbrev queued : List ℕ → List (Option QueuedMessage)
queued [] = []
queued (m ∷ ms) = some (record { message = m; context = true }) ∷ queued ms

-- The queues after messages and requests, from what was delivered before.
unfoldable pub paired : List Delivery → List ℕ → List ReceiveCallbacks → Queues
paired ds ms rs = record {
  received_messages = queued (left_over ms rs);
  received_callbacks = left_over rs ms;
  deliveries = ds ++ pair ms rs;
}

abbrev HasCallback : ReceiveCallbacks → Type 0
HasCallback r = r.receive_callback ≡ true

-- There is memory for a queue's entry, a message has its context, and a request its callback.
abbrev pub IsSupplied : Event → Type 0
IsSupplied (arrives a m c) = (a.entry ≡ true) × (c ≡ true)
IsSupplied (requests a r) = (a.entry ≡ true) × HasCallback r

queued-append : (ms : List ℕ) (m : ℕ) → queued (ms ++ (m ∷ [])) ≡ queued ms ++ queued (m ∷ [])
queued-append [] m = refl
queued-append (x ∷ ms) m =
    ap (λ qs. some (record { message = x; context = true }) ∷ qs) (queued-append ms m)

pair-nil : (ms : List ℕ) → pair ms [] ≡ []
unfolding pair
pair-nil [] = refl
pair-nil (m ∷ ms) = refl

-- A queue holds messages or requests, not both.
abbrev waiting : List Delivery → List ℕ → List ReceiveCallbacks → Queues
waiting ds ms rs = record {
  received_messages = queued ms;
  received_callbacks = rs;
  deliveries = ds;
}

abbrev OneKind {ℓ κ} : {A : Type ℓ} {B : Type κ} → List A → List B → Type 0
OneKind (x ∷ xs) (y ∷ ys) = ⊥
OneKind _ _ = Unit

paired-cons :
    (ds : List Delivery) (m : ℕ) (r : ReceiveCallbacks) (ms : List ℕ) (rs : List ReceiveCallbacks)
    → paired
        (ds ++ (record { message = m; per_receive_context = r.per_receive_context } ∷ []))
        ms
        rs
      ≡ paired ds (m ∷ ms) (r ∷ rs)
unfolding paired left_over pair
paired-cons ds m r ms rs =
    ap
      (λ x. record {
        received_messages = queued (left_over ms rs);
        received_callbacks = left_over rs ms;
        deliveries = x;
      })
      (append_assoc ds (record { message = m; per_receive_context = r.per_receive_context } ∷ []) _)

waiting-paired :
    (ds : List Delivery) (ms : List ℕ) (rs : List ReceiveCallbacks)
    → OneKind ms rs
    → waiting ds ms rs ≡ paired ds ms rs
unfolding paired left_over pair
waiting-paired ds [] [] k = rw (append-nil ds)
waiting-paired ds (m ∷ ms) [] k = rw (append-nil ds)
waiting-paired ds [] (r ∷ rs) k = rw (append-nil ds)
waiting-paired ds (m ∷ ms) (r ∷ rs) k = elim k [ ]

All-append {ℓ κ} :
    {A : Type ℓ} (P : A → Type κ) (xs : List A) {x : A} → All P xs → P x → All P (xs ++ (x ∷ []))
All-append P [] g p = (p, tt)
All-append P (y ∷ ys) g p = (g.0, All-append P ys g.1 p)

OneKind-nil : (ms : List ℕ) → OneKind {A = ℕ} {B = ReceiveCallbacks} ms []
OneKind-nil [] = tt
OneKind-nil (x ∷ xs) = tt

run-waiting :
    (es : List Event) (ds : List Delivery) (ms : List ℕ) (rs : List ReceiveCallbacks)
    → OneKind ms rs
    → All HasCallback rs
    → All IsSupplied es
    → run es (waiting ds ms rs) ≡ some (paired ds (ms ++ arrived es) (rs ++ requested es))
unfolding run arrived requested step deliver_to_app receive_message paired left_over pair
run-waiting [] ds ms rs k g h =
    rw (append-nil ms, append-nil rs) (ap some (waiting-paired ds ms rs k))
run-waiting (arrives a m c ∷ es) ds [] [] k g ((e, f), h) =
    rw (e, f) (run-waiting es ds (m ∷ []) [] tt tt h)
run-waiting (arrives a m c ∷ es) ds (x ∷ ms) [] k g ((e, f), h) =
    rw (e, f, ← queued-append ms m, ← append_assoc ms (m ∷ []) (arrived es))
      (run-waiting es ds (x ∷ (ms ++ (m ∷ []))) [] tt tt h)
run-waiting (arrives a m c ∷ es) ds [] (r ∷ rs) k g ((e, f), h) =
    rw (f, g.0)
      (run-waiting es _ [] rs tt g.1 h
        ∙ ap some (paired-cons ds m r (arrived es) (rs ++ requested es)))
run-waiting (arrives a m c ∷ es) ds (x ∷ ms) (r ∷ rs) k g h = elim k [ ]
run-waiting (requests a r ∷ es) ds [] [] k g ((e, f), h) =
    rw e (run-waiting es ds [] (r ∷ []) tt (f, tt) h)
run-waiting (requests a r ∷ es) ds (m ∷ ms) [] k g ((e, f), h) = rw f (
    run-waiting es _ ms [] (OneKind-nil ms) tt h
    ∙ ap some (paired-cons ds m r (ms ++ arrived es) (requested es)))
run-waiting (requests a r ∷ es) ds [] (s ∷ rs) k g ((e, f), h) =
    rw (e, ← append_assoc rs (r ∷ []) (requested es))
      (run-waiting es ds [] (s ∷ (rs ++ (r ∷ []))) tt (g.0, All-append HasCallback rs g.1 f) h)
run-waiting (requests a r ∷ es) ds (m ∷ ms) (s ∷ rs) k g h = elim k [ ]

-- From empty queues, whichever way messages and requests come, the code runs through if every message
-- has a context, every request has a callback and there is memory for the queues' entries: the first
-- message goes to the first request, and so on, each exactly once and in order, and what waits is
-- exactly what is left over of the messages or of the requests.
pub run-paired :
    (es : List Event)
    → All IsSupplied es
    → run es (record { received_messages = []; received_callbacks = []; deliveries = [] })
      ≡ some (paired [] (arrived es) (requested es))
run-paired es h = run-waiting es [] [] [] tt tt h
