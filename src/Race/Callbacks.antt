-- ===== src/Race/Callbacks.antt =====
-- Every callback of a raced connection keeps the invariant.
use ctaps.Prelude.{
  ℕ, zero, suc, ◌<◌, ◌≡◌, refl, sym, ap, ◌∙◌, ◌≢◌, ◌⊎◌, inl, inr, true, false, some, List, [], ◌∷◌,
  arith, Bool-cases, if_cases, length, get_elem?, lt_of_get_elem?,
}
use ctaps.Race.State.{AttemptState, pending, Attempt, Context, Env}
use ctaps.Race.Handlers.{
  state_of, index_of, raced_connection_close_cb, on_attempt_establishment_error,
  racing_on_attempt_ready,
}
use ctaps.Race.Counting.{is_open, is_won, won_attempts, index_of_eq}
use ctaps.Race.Conclusion.{Frame, Drops, register_failed_lem, register_canceled_lem}
use ctaps.Race.Cancel.{state_of-set_state, state_of-set_state_ne}
use ctaps.Race.Invariant.{HasWinner, HasFailed, Inv, Wins, win_race_lem}
use native.Mathlib.Decide.{ℕ_discrete}

indexed_of :
    {c e : Context} {first : ℕ}
    → Frame c e
    → Inv first c
    → (j : ℕ) → j < length e.attempts
    → index_of e.attempts j ≡ j
indexed_of {c} {e} f v j h =
    index_of_eq e.attempts c.attempts j f.indexes ∙ v.indexed j (omega (arith, f.size))

pub Wins-Inv :
    {c e : Context} {i first : ℕ}
    → Inv first c
    → c.race_complete ≡ false
    → i < length c.attempts
    → Wins i c e
    → Inv first e
Wins-Inv {c} {e} {i} v ongoing h w = record {
  core = w.core;
  indexed = indexed_of w.frame v;
  ahead = λ p. cc;
  ongoing = λ p. cc;
  finished = λ _. inl (record {
    winner = i;
    inside = omega (arith, w.frame.size);
    recorded = w.recorded;
    won = w.won;
    succeeded = w.succeeded;
    others = w.others;
  });
  readied = ground (arith, v.readied, v.ongoing ongoing, w.readied, w.frame.ready_callback, w.won);
}

-- The attempt named is in the race, and its connection has been started.
pub record IsActive (i : ℕ) (c : Context) : Type 0 where
  pub attempt : Attempt
  pub found : get_elem? c.attempts i ≡ some attempt
  pub active : is_open attempt.state ≡ true
  pub started : attempt.state ≢ pending

pub state_of-get_elem? :
    (xs : List Attempt) (i : ℕ) {a : Attempt} → get_elem? xs i ≡ some a → state_of xs i ≡ a.state
state_of-get_elem? [] i h = cc
state_of-get_elem? (x ∷ xs) zero h = ground arith
state_of-get_elem? (x ∷ xs) (suc i) h = state_of-get_elem? xs i h

module _ {c e : Context} {i first : ℕ} {s : AttemptState} (v : Inv first c) (b : IsActive i c)
    (drops : Drops i s c e) (concluded : is_open s ≡ false) (lost : is_won s ≡ false) where
  inside : i < length c.attempts
  inside = lt_of_get_elem? c.attempts i b.found

  state_at : state_of c.attempts i ≡ b.attempt.state
  state_at = state_of-get_elem? c.attempts i b.found

  state_new : state_of e.attempts i ≡ s
  state_new = rw drops.registers.attempts (state_of-set_state c.attempts i s inside)

  state_other : (j : ℕ) → j ≢ i → state_of e.attempts j ≡ state_of c.attempts j
  state_other j h =
      rw drops.registers.attempts (state_of-set_state_ne c.attempts i j s (λ p. h (sym p)))

  won_same : won_attempts e.attempts ≡ won_attempts c.attempts
  won_same = ground (arith, drops.registers.won)

  winner_stays : HasWinner c → HasWinner e
  winner_stays w =
      let apart : w.winner ≢ i =
        λ p. ground (arith, ap (state_of c.attempts) p, w.succeeded, state_at, b.active) in
      record {
        winner = w.winner;
        inside = omega (arith, w.inside, drops.registers.frame.size);
        recorded = drops.winner ∙ w.recorded;
        won = won_same ∙ w.won;
        succeeded = state_other w.winner apart ∙ w.succeeded;
        others = λ j k l. elim (ℕ_discrete j i) [
          | yes p ↦ ground (arith, ap (state_of e.attempts) p, state_new)
          | no p ↦ rw (state_other j p) (w.others j (omega (arith, drops.registers.frame.size)) l)
        ];
      }

  finished : e.race_complete ≡ true → HasWinner e ⊎ HasFailed e
  finished h = elim (Bool-cases c.race_complete) [
    | inl p ↦ elim (v.finished p) [
      | inl w ↦ inl (winner_stays w)
      | inr f ↦ absurd (omega (arith, f.1, drops.registers.fewer))
    ]
    | inr p ↦ inr (ground (arith, drops.complete, h, p))
  ]

  pub drop-Inv : Inv first e
  drop-Inv = record {
    core = drops.registers.core;
    indexed = indexed_of drops.registers.frame v;
    ahead = λ p j k l. elim (ℕ_discrete j i) [
      | yes q ↦ absurd (
          b.started (
            sym state_at
            ∙ v.ahead (ground (arith, drops.complete, p)) i
                (omega (arith, drops.registers.frame.next)) inside))
      | no q ↦
          state_other j q
          ∙ v.ahead (ground (arith, drops.complete, p)) j
              (omega (arith, drops.registers.frame.next))
              (omega (arith, drops.registers.frame.size))
    ];
    ongoing = λ p. ground (arith, drops.complete, p, v.ongoing, won_same);
    finished = finished;
    readied =
        ground (
          arith, v.readied, drops.registers.readied, won_same, drops.registers.frame.ready_callback,
        );
  }

pub inside_of : {i : ℕ} {c : Context} → IsActive i c → i < length c.attempts
inside_of {i} {c} b = lt_of_get_elem? c.attempts i b.found

module _ (c : Context) (i first : ℕ) (v : Inv first c) (b : IsActive i c) where
  pub ready-Inv : (env : Env) → Inv first (racing_on_attempt_ready env i c)
  unfolding racing_on_attempt_ready
  ready-Inv env =
      if_cases (Inv first) c.race_complete (λ _. v)
        (λ p. Wins-Inv v p (inside_of b) (win_race_lem env c v i b.found p b.active))

  pub establishment_error-Inv : Inv first (on_attempt_establishment_error i c)
  unfolding on_attempt_establishment_error
  establishment_error-Inv =
      if_cases (Inv first) c.race_complete (λ _. v)
        (λ _. drop-Inv v b (register_failed_lem c v.core i b.found b.active) refl refl)

  pub close_cb-Inv : Inv first (raced_connection_close_cb i c)
  unfolding raced_connection_close_cb
  close_cb-Inv = drop-Inv v b (register_canceled_lem c v.core i b.found b.active) refl refl
