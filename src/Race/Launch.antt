-- ===== src/Race/Launch.antt =====
-- The start of an attempt keeps the invariant, except where the last attempt left fails to start.
use ctaps.Prelude.{
  ℕ, zero, suc, ◌<◌, ◌≡◌, refl, sym, ap, ◌∙◌, ◌⊎◌, inl, inr, Bool, true, false, some, List, [], ◌∷◌,
  arith, length, get_elem?, modify, length-modify, lt_of_get_elem?,
}
use ctaps.Race.State.{
  AttemptState, pending, connecting, Attempt, Context, set_state, set_connection, RacedConnection,
}
use ctaps.Race.Handlers.{state_of, index_of}
use ctaps.Race.Counting.{
  is_open, is_won, tally, open_attempts, won_attempts, closes, errors, readies, tally-set_state,
  indices-set_state, index_of_eq,
}
use ctaps.Race.Cancel.{state_of-set_state_ne}
use ctaps.Race.Invariant.{HasWinner, HasFailed, Inv}
use ctaps.Race.Callbacks.{state_of-get_elem?}

-- The invariant reads nothing else of a context.
pub record Same (c e : Context) : Type 0 where
  pub attempts : e.attempts ≡ c.attempts
  pub completed : e.completed_attempts ≡ c.completed_attempts
  pub winner : e.winning_attempt_index ≡ c.winning_attempt_index
  pub complete : e.race_complete ≡ c.race_complete
  pub error_callback : e.has_error_callback ≡ c.has_error_callback
  pub ready_callback : e.has_ready_callback ≡ c.has_ready_callback
  pub closed : closes e ≡ closes c
  pub errored : errors e ≡ errors c
  pub readied : readies e ≡ readies c

module _ {c e : Context} {first : ℕ} (s : Same c e) (v : Inv first c) where
  Same-HasWinner : HasWinner c → HasWinner e
  Same-HasWinner w = record {
    winner = w.winner;
    inside = rw s.attempts w.inside;
    recorded = s.winner ∙ w.recorded;
    won = rw s.attempts w.won;
    succeeded = rw s.attempts w.succeeded;
    others = rw s.attempts w.others;
  }

  Same-finished : e.race_complete ≡ true → HasWinner e ⊎ HasFailed e
  Same-finished p = elim (v.finished (sym s.complete ∙ p)) [
    | inl w ↦ inl (Same-HasWinner w)
    | inr f ↦ inr (rw s.attempts f)
  ]

  pub Same-Inv : Inv first e
  Same-Inv = record {
    core = ground (
      arith,
      v.core,
      ap length s.attempts,
      ap open_attempts s.attempts,
      ap won_attempts s.attempts,
    );
    indexed = rw s.attempts v.indexed;
    ahead = λ p. rw s.attempts (v.ahead (sym s.complete ∙ p));
    ongoing = λ p. rw s.attempts (v.ongoing (sym s.complete ∙ p));
    finished = Same-finished;
    readied = ground (arith, v.readied, ap won_attempts s.attempts);
  }

-- An attempt that is started gets the state `connecting`, and then its connection.
module _ {c : Context} {n : ℕ} (v : Inv n c) (ongoing : c.race_complete ≡ false) {a : Attempt}
    (found : get_elem? c.attempts n ≡ some a) where
  inside : n < length c.attempts
  inside = lt_of_get_elem? c.attempts n found

  is_pending : a.state ≡ pending
  is_pending = sym (state_of-get_elem? c.attempts n found) ∙ v.ahead ongoing n (omega arith) inside

  abbrev pub connecting_attempts : List Attempt
  connecting_attempts = modify c.attempts n (λ b. record b { state = connecting })

  pub open_same : open_attempts connecting_attempts ≡ open_attempts c.attempts
  open_same = ground (arith, tally-set_state is_open c.attempts n connecting found, is_pending)

  won_same : won_attempts connecting_attempts ≡ won_attempts c.attempts
  won_same = ground (arith, tally-set_state is_won c.attempts n connecting found, is_pending)

  pub size_same : length connecting_attempts ≡ length c.attempts
  size_same = length-modify c.attempts n (λ b. record b { state = connecting })

  pub connecting-Inv : Inv (suc n) (set_state n connecting c)
  connecting-Inv = record {
    core = ground (arith, v.core, open_same, won_same, size_same);
    indexed = λ j h.
        index_of_eq connecting_attempts c.attempts j (indices-set_state c.attempts n connecting)
        ∙ v.indexed j (omega (arith, size_same));
    ahead = λ p j k l.
        state_of-set_state_ne c.attempts n j connecting (omega arith)
        ∙ v.ahead p j (omega arith) (omega (arith, size_same));
    ongoing = λ p. omega (arith, v.ongoing p, open_same, won_same);
    finished = λ p. cc;
    readied = ground (arith, v.readied, won_same);
  }

-- Setting the connection of an attempt changes no state.
module _ (xs : List Attempt) (i : ℕ) (r : RacedConnection) where
  abbrev pub connected : List Attempt
  connected = modify xs i (λ b. record b { connection = some r })

pub connected-tally :
    (p : AttemptState → Bool) (xs : List Attempt) (i : ℕ) (r : RacedConnection)
    → tally p (connected xs i r) ≡ tally p xs
connected-tally p [] i r = refl
connected-tally p (x ∷ xs) zero r = refl
connected-tally p (x ∷ xs) (suc i) r = ground (arith, connected-tally p xs i r)

connected-state :
    (xs : List Attempt) (i j : ℕ) (r : RacedConnection)
    → state_of (connected xs i r) j ≡ state_of xs j
connected-state [] i j r = refl
connected-state (x ∷ xs) zero zero r = refl
connected-state (x ∷ xs) zero (suc j) r = refl
connected-state (x ∷ xs) (suc i) zero r = refl
connected-state (x ∷ xs) (suc i) (suc j) r = connected-state xs i j r

connected-index :
    (xs : List Attempt) (i j : ℕ) (r : RacedConnection)
    → index_of (connected xs i r) j ≡ index_of xs j
connected-index [] i j r = refl
connected-index (x ∷ xs) zero zero r = refl
connected-index (x ∷ xs) zero (suc j) r = refl
connected-index (x ∷ xs) (suc i) zero r = refl
connected-index (x ∷ xs) (suc i) (suc j) r = connected-index xs i j r

module _ {c : Context} {first : ℕ} (v : Inv first c) (ongoing : c.race_complete ≡ false) (i : ℕ)
    (r : RacedConnection) where
  abbrev pub connected_context : Context
  connected_context = set_connection i r c

  pub size_connected : length connected_context.attempts ≡ length c.attempts
  size_connected = length-modify c.attempts i (λ b. record b { connection = some r })

  pub connected-Inv : Inv first connected_context
  connected-Inv = record {
    core = ground (
      arith,
      v.core,
      connected-tally is_open c.attempts i r,
      connected-tally is_won c.attempts i r,
      size_connected,
    );
    indexed = λ j h. connected-index c.attempts i j r ∙ v.indexed j (omega (arith, size_connected));
    ahead =
        λ p j k l. connected-state c.attempts i j r ∙ v.ahead p j k (omega (arith, size_connected));
    ongoing = λ p. omega (
      arith,
      v.ongoing p,
      connected-tally is_open c.attempts i r,
      connected-tally is_won c.attempts i r,
    );
    finished = λ p. cc;
    readied = ground (arith, v.readied, connected-tally is_won c.attempts i r);
  }
