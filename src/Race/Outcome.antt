-- ===== src/Race/Outcome.antt =====
-- What the invariant says of a whole race, from the candidates to the end.
use ctaps.Prelude.{
  ℕ, zero, suc, ◌+◌, ◌≤◌, ◌<◌, ◌≡◌, refl, ap, ◌∙◌, ◌⊎◌, inl, inr, Bool, true, false, Option, some,
  List, [], ◌∷◌, arith, Bool-cases, length, get_elem?,
}
use ctaps.Race.State.{
  AttemptState, pending, Attempt, Context, Env, Candidate, initial_attempts, racing_context_create,
}
use ctaps.Race.Handlers.{all_attempts_concluded, state_of, index_of}
use ctaps.Race.Counting.{
  is_open, tally, open_attempts, won_attempts, bit, closes, errors, readies,
  all_attempts_concluded_lem,
}
use ctaps.Race.Invariant.{HasWinner, HasFailed, Inv}
use ctaps.Race.Start.{start_candidate_racing_on_nodes_ready}
use ctaps.Race.Next.{MayFail, initiate_next_attempt-Inv}
use ctaps.Race.Events.{Event, run, Allowed, Between, run-Between}

initial-tally :
    (p : AttemptState → Bool) (i : ℕ) (ks : List Candidate)
    → p pending ≡ true
    → tally p (initial_attempts i ks) ≡ length ks
unfolding initial_attempts
initial-tally p i [] h = refl
initial-tally p i (k ∷ ks) h = ground (arith, initial-tally p (suc i) ks h)

initial-won : (i : ℕ) (ks : List Candidate) → won_attempts (initial_attempts i ks) ≡ 0
unfolding initial_attempts
initial-won i [] = refl
initial-won i (k ∷ ks) = initial-won (suc i) ks

length-initial_attempts : (i : ℕ) (ks : List Candidate) → length (initial_attempts i ks) ≡ length ks
unfolding initial_attempts
length-initial_attempts i [] = refl
length-initial_attempts i (k ∷ ks) = ap suc (length-initial_attempts (suc i) ks)

initial-index :
    (i j : ℕ) (ks : List Candidate) → j < length ks → index_of (initial_attempts i ks) j ≡ i + j
unfolding initial_attempts
initial-index i j [] h = elim h [ ]
initial-index i zero (k ∷ ks) h = omega arith
initial-index i (suc j) (k ∷ ks) h = omega (arith, initial-index (suc i) j ks)

initial-state : (i j : ℕ) (ks : List Candidate) → state_of (initial_attempts i ks) j ≡ pending
unfolding initial_attempts
initial-state i j [] = refl
initial-state i zero (k ∷ ks) = refl
initial-state i (suc j) (k ∷ ks) = initial-state (suc i) j ks

-- A context of `racing_context_create` that has been given its attempts.
module _ (error_callback ready_callback : Bool) (alpns : Option (List ℕ)) (message early : Bool)
    (ks : List Candidate) where
  abbrev pub fresh : Context
  fresh = record (racing_context_create error_callback ready_callback alpns message early) {
    attempts = initial_attempts 0 ks;
  }

  pub fresh-Inv : 0 < length ks → length ks < 18446744073709551616 → Inv 0 fresh
  unfolding racing_context_create
  fresh-Inv some_candidate fits =
      let size = length-initial_attempts 0 ks in
      let opens = initial-tally is_open 0 ks refl in
      let won = initial-won 0 ks in
      record {
        core = ground (arith, size, opens, won);
        indexed = λ j h. initial-index 0 j ks (omega (arith, size)) ∙ omega arith;
        ahead = λ p j k l. initial-state 0 j ks;
        ongoing = λ p. omega (arith, opens, won);
        finished = λ p. cc;
        readied = ground (arith, won);
      }

won-le-one : {first : ℕ} (c : Context) → Inv first c → won_attempts c.attempts ≤ 1
won-le-one c v = elim (Bool-cases c.race_complete) [
  | inl p ↦ elim (v.finished p) [ inl w ↦ omega (arith, w.won) | inr f ↦ omega arith ]
  | inr p ↦ omega (arith, v.ongoing p)
]

told_total : {first : ℕ} (c : Context) → Inv first c → errors c + readies c ≤ 1
told_total c v = ground (arith, v.core.errored, v.readied)

-- The context that the gathering callback leaves, once the first attempt has been started.
abbrev pub launched :
    (error_callback ready_callback : Bool) (alpns : Option (List ℕ)) (message early : Bool)
    → Env
    → Candidate
    → List Candidate
    → Context
launched error_callback ready_callback alpns message early env k ks =
    start_candidate_racing_on_nodes_ready env (some (k ∷ ks))
      (racing_context_create error_callback ready_callback alpns message early)

-- What holds of every context of a race: the context is closed exactly when every attempt has
-- concluded, and then once; the user hears at most once, of a failure or of a success; one attempt
-- at most has won; `completed_attempts` counts the concluded attempts; a complete race has a winner
-- and no other attempt on its way, or every attempt has failed; a race that goes on has no winner.
pub record Told (c : Context) : Type 0 where
  pub closed : closes c ≡ bit (all_attempts_concluded c.attempts)
  pub told : errors c + readies c ≤ 1
  pub one_winner : won_attempts c.attempts ≤ 1
  pub counted : c.completed_attempts + open_attempts c.attempts ≡ length c.attempts
  pub complete : c.race_complete ≡ true → HasWinner c ⊎ HasFailed c
  pub ongoing : c.race_complete ≡ false → won_attempts c.attempts ≡ 0

Between-Told : (c : Context) → Between c → Told c
Between-Told c v = record {
  closed = rw (all_attempts_concluded_lem c.attempts) v.core.closed;
  told = told_total c v;
  one_winner = won-le-one c v;
  counted = v.core.counted;
  complete = v.finished;
  ongoing = λ p. (v.ongoing p).0;
}

module _ (error_callback ready_callback : Bool) (alpns : Option (List ℕ)) (message early : Bool)
    (env : Env) (k : Candidate) (ks : List Candidate)
    (fits : length (k ∷ ks) < 18446744073709551616) where
  abbrev pub start : Context
  start = launched error_callback ready_callback alpns message early env k ks

  abbrev pub FirstMayFail : Type 0
  FirstMayFail =
      (a : Attempt)
      → get_elem? (initial_attempts 0 (k ∷ ks)) 0 ≡ some a
      → MayFail env (fresh error_callback ready_callback alpns message early (k ∷ ks)) a

  pub launched-Between : FirstMayFail → Between start
  unfolding start_candidate_racing_on_nodes_ready racing_context_create
  launched-Between may =
      initiate_next_attempt-Inv env
        (fresh error_callback ready_callback alpns message early (k ∷ ks))
        (fresh-Inv error_callback ready_callback alpns message early (k ∷ ks) (omega arith) fits)
        may

  -- Over any history of a race that the event loop may deliver, the context is closed exactly when
  -- every attempt has concluded and then once; the user is told at most once, of a failure or of a
  -- success; at most one attempt wins; `completed_attempts` counts the concluded attempts; a
  -- complete race has a recorded winner and no other attempt pending or connecting, or all its
  -- attempts have failed. Callbacks come from attempts that were started and have not concluded, and
  -- a start fails, with no callback made, only while another attempt is open; the number of candidates
  -- is not zero and fits `size_t`.
  pub run-Told : (es : List Event) → FirstMayFail → Allowed env es start → Told (run env es start)
  run-Told es may allowed =
      Between-Told (run env es start) (run-Between env es start allowed (launched-Between may))
