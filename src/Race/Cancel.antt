-- ===== src/Race/Cancel.antt =====
-- The loop of `cancel_all_other_attempts`.
use ctaps.Prelude.{
  ℕ, zero, suc, ◌+◌, ◌≤◌, ◌<◌, ◌≡◌, refl, ap, ◌∙◌, ◌≢◌, ◌⊎◌, inl, inr, Bool, true, false, some,
  List, [], ◌∷◌, arith, ◌==◌, if◌then◌else◌, ==_iff, Bool-cases, length, get_elem?, modify,
  length-modify, get_elem?-modify, lt_of_get_elem?,
}
use ctaps.Race.State.{
  AttemptState, pending, connecting, closing, succeeded, failed, canceled, Attempt, Effect, Context,
  Env, log_effect, set_state,
}
use ctaps.Race.Handlers.{
  register_canceled_attempt, state_of, raced_connection_close_cb, cancel_attempt, cancel_from,
  cancel_all_other_attempts,
}
use ctaps.Race.Counting.{
  is_open, is_won, is_idle, won_attempts, readies, tally-set_state, indices-set_state,
}
use native.Mathlib.Decide.{dec_lt}
use ctaps.Race.Conclusion.{Frame, Frame-trans, Core, register_canceled_lem}

pub attempt_at :
    (xs : List Attempt) (i : ℕ)
    → i < length xs
    → (a : Attempt) × (get_elem? xs i ≡ some a) × (state_of xs i ≡ a.state)
attempt_at [] i h = elim h [ ]
attempt_at (x ∷ xs) zero h = (x, refl, refl)
attempt_at (x ∷ xs) (suc i) h = attempt_at xs i (omega arith)

pub state_of-set_state :
    (xs : List Attempt) (i : ℕ) (s : AttemptState)
    → i < length xs
    → state_of (modify xs i (λ b. record b { state = s })) i ≡ s
state_of-set_state [] i s h = elim h [ ]
state_of-set_state (x ∷ xs) zero s h = refl
state_of-set_state (x ∷ xs) (suc i) s h = state_of-set_state xs i s (omega arith)

pub state_of-set_state_ne :
    (xs : List Attempt) (i j : ℕ) (s : AttemptState)
    → i ≢ j
    → state_of (modify xs i (λ b. record b { state = s })) j ≡ state_of xs j
state_of-set_state_ne [] i j s h = refl
state_of-set_state_ne (x ∷ xs) zero zero s h = absurd (h refl)
state_of-set_state_ne (x ∷ xs) zero (suc j) s h = refl
state_of-set_state_ne (x ∷ xs) (suc i) zero s h = refl
state_of-set_state_ne (x ∷ xs) (suc i) (suc j) s h =
    state_of-set_state_ne xs i j s (λ e. h (ap suc e))

pub record Won (c : Context) : Type 0 where
  pub core : Core c
  pub won : won_attempts c.attempts ≡ 1
  pub complete : c.race_complete ≡ true

pub record Cancels (c d : Context) : Type 0 where
  pub frame : Frame c d
  pub still : Won d
  pub winner : d.winning_attempt_index ≡ c.winning_attempt_index
  pub readied : readies d ≡ readies c

module _ (env : Env) (c : Context) (v : Won c) (i : ℕ) {a : Attempt}
    (found : get_elem? c.attempts i ≡ some a) where
  abbrev closing_context : Context
  closing_context = log_effect (Effect.close_group i) (set_state i closing c)

  closing-Cancels : is_open a.state ≡ true → Cancels c closing_context
  closing-Cancels h = ground (
    arith,
    tally-set_state is_open c.attempts i closing found,
    tally-set_state is_won c.attempts i closing found,
    length-modify c.attempts i (λ b. record b { state = closing }),
    indices-set_state c.attempts i closing,
  )

  canceled-Cancels : is_open a.state ≡ true → Cancels c (register_canceled_attempt i c)
  canceled-Cancels h = ground (
    arith,
    register_canceled_lem c v.core i found h,
    length-modify c.attempts i (λ b. record b { state = canceled }),
    indices-set_state c.attempts i canceled,
  )

-- Attempt `i` is neither pending nor connecting any more, and no other attempt has changed its state.
pub record Settles (i : ℕ) (c e : Context) : Type 0 where
  pub done : is_idle (state_of e.attempts i) ≡ false
  pub others : (j : ℕ) → i ≢ j → state_of e.attempts j ≡ state_of c.attempts j

Settles-trans : {i : ℕ} {c d e : Context} → Settles i c d → Settles i d e → Settles i c e
Settles-trans f g = record { done = g.done; others = λ j h. g.others j h ∙ f.others j h }

module _ (c : Context) (i : ℕ) (inside : i < length c.attempts) where
  set_state-Settles :
      (s : AttemptState) (e : Context)
      → is_idle s ≡ false
      → e.attempts ≡ modify c.attempts i (λ b. record b { state = s })
      → Settles i c e
  set_state-Settles s e h p = record {
    done = rw p (rw (state_of-set_state c.attempts i s inside) h);
    others = λ j k. rw p (state_of-set_state_ne c.attempts i j s k);
  }

Cancels-trans : {c d e : Context} → Cancels c d → Cancels d e → Cancels c e
Cancels-trans f g = record {
  frame = Frame-trans f.frame g.frame;
  still = g.still;
  winner = g.winner ∙ f.winner;
  readied = g.readied ∙ f.readied;
}

module _ (env : Env) (c : Context) (v : Won c) (i : ℕ) {a : Attempt}
    (found : get_elem? c.attempts i ≡ some a) where
  inside : i < length c.attempts
  inside = lt_of_get_elem? c.attempts i found

  closing_context-found :
      get_elem? (closing_context env c v i found).attempts i ≡ some (record a { state = closing })
  closing_context-found = get_elem?-modify c.attempts i (λ b. record b { state = closing }) found

  cancel_open :
      is_open a.state ≡ true
      → Cancels c (register_canceled_attempt i c) × Settles i c (register_canceled_attempt i c)
  cancel_open h = (
    canceled-Cancels env c v i found h,
    set_state-Settles c i inside canceled (register_canceled_attempt i c) refl
        (register_canceled_lem c v.core i found h).registers.attempts,
  )

  cancel_connecting :
      (now : Bool)
      → is_open a.state ≡ true
      → let d = closing_context env c v i found in
        let e = if now then raced_connection_close_cb i d else d in Cancels c e × Settles i c e
  unfolding raced_connection_close_cb
  cancel_connecting false h = (
    closing-Cancels env c v i found h,
    set_state-Settles c i inside closing (closing_context env c v i found) refl refl,
  )
  cancel_connecting true h =
      let first = closing-Cancels env c v i found h in
      let d = closing_context env c v i found in
      let second = canceled-Cancels env d first.still i closing_context-found refl in
      let settled =
        set_state-Settles d i (lt_of_get_elem? d.attempts i closing_context-found) canceled
          (register_canceled_attempt i d) refl
          (register_canceled_lem d first.still.core i closing_context-found
            refl).registers.attempts in
      (
        Cancels-trans first second,
        Settles-trans (set_state-Settles c i inside closing d refl refl) settled,
      )

  untouched : is_idle (state_of c.attempts i) ≡ false → Cancels c c × Settles i c c
  untouched h = (
    record { frame = ground arith; still = v; winner = refl; readied = refl },
    record { done = h; others = λ j k. refl },
  )

  by_state :
      (s : AttemptState)
      → a.state ≡ s
      → state_of c.attempts i ≡ s
      → Cancels c (cancel_attempt env i s c) × Settles i c (cancel_attempt env i s c)
  unfolding cancel_attempt
  by_state pending e g = cancel_open (rw e refl)
  by_state connecting e g = cancel_connecting (env.closes_at_once i) (rw e refl)
  by_state closing e g = untouched (rw g refl)
  by_state succeeded e g = untouched (rw g refl)
  by_state failed e g = untouched (rw g refl)
  by_state canceled e g = untouched (rw g refl)

-- The loop keeps the race won, settles every attempt from index `i` but the winner, and leaves the
-- winner and the attempts below `i` alone.
pub record Settled (i winner : ℕ) (c e : Context) : Type 0 where
  pub cancels : Cancels c e
  pub done :
      (j : ℕ) → i ≤ j → j < length c.attempts → j ≢ winner → is_idle (state_of e.attempts j) ≡ false
  pub kept : (j : ℕ) → (j < i) ⊎ (j ≡ winner) → state_of e.attempts j ≡ state_of c.attempts j

pub cancel_attempt_lem :
    (env : Env) (c : Context) (v : Won c) (i : ℕ)
    → i < length c.attempts
    → let e = cancel_attempt env i (state_of c.attempts i) c in Cancels c e × Settles i c e
cancel_attempt_lem env c v i h =
    let (a, found, state) = attempt_at c.attempts i h in
    rw state (by_state env c v i found a.state refl state)

pub cancel_from_lem :
    (env : Env) (left i winner : ℕ) (c : Context)
    → left + i ≡ length c.attempts
    → Won c
    → Settled i winner c (cancel_from env left i winner c)
unfolding cancel_from
cancel_from_lem env zero i winner c h v = record {
  cancels = record { frame = ground arith; still = v; winner = refl; readied = refl };
  done = λ j k l m. absurd (omega arith);
  kept = λ j k. refl;
}
cancel_from_lem env (suc left) i winner c h v = elim (Bool-cases (i == winner)) [
  | inl e ↦
      let r = cancel_from_lem env left (suc i) winner c (omega arith) v in
      let same = (==_iff i winner).0 e in
      rw e (record {
        cancels = r.cancels;
        done = λ j k l m. r.done j (omega arith) l m;
        kept = λ j k. r.kept j (omega arith);
      })
  | inr e ↦
      let (first, settled) = cancel_attempt_lem env c v i (omega arith) in
      let d = cancel_attempt env i (state_of c.attempts i) c in
      let r =
        cancel_from_lem env left (suc i) winner d (omega (arith, first.frame.size)) first.still in
      let other : i ≢ winner = λ p. ground arith in
      rw e (record {
        cancels = Cancels-trans first r.cancels;
        done = λ j k l m. elim (dec_lt i j) [
          | yes p ↦ r.done j p (omega (arith, first.frame.size)) m
          | no p ↦
              let q : j ≡ i = omega arith in rw (r.kept j (inl (omega arith))) (rw q settled.done)
        ];
        kept = λ j k. r.kept j (omega arith) ∙ settled.others j (omega arith);
      })
]

-- In a won race, canceling all attempts but the winner leaves no other attempt pending or connecting,
-- keeps the winner's state and the recorded winner, tells the user nothing, and keeps the race won with
-- its counters and its close right.
pub cancel_all_other_attempts_lem :
    (env : Env) (winner : ℕ) (c : Context)
    → Won c
    → Settled 0 winner c (cancel_all_other_attempts env winner c)
unfolding cancel_all_other_attempts
cancel_all_other_attempts_lem env winner c v =
    cancel_from_lem env (length c.attempts) 0 winner c (omega arith) v
