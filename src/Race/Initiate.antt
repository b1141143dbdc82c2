-- ===== src/Race/Initiate.antt =====
-- A start from `start_connection_attempt` to `initiate_next_attempt`: it keeps the invariant, unless
-- the only attempt still open fails to start.
use ctaps.Prelude.{
  ℕ, suc, ◌≡◌, refl, ◌∙◌, false, some, arith, if◌then◌else◌, if_cases, length, get_elem?,
  get_elem?-modify, Result, ok, err,
}
use ctaps.Race.State.{
  connecting, Attempt, Effect, Context, Env, log_effect, set_state, set_connection, RacedConnection,
  Report, quiet, reports_ready, reports_error,
}
use ctaps.Race.Handlers.{on_attempt_establishment_error, racing_on_attempt_ready}
use ctaps.Race.Counting.{is_open, open_attempts}
use ctaps.Race.Conclusion.{register_failed_lem}
use ctaps.Race.Invariant.{Inv, win_race_lem}
use ctaps.Race.Start.{
  build_connection, handle_report, init_attempt, after_connection, start_connection_attempt,
}
use ctaps.Race.Callbacks.{IsActive, ready-Inv, establishment_error-Inv}
use ctaps.Race.Launch.{
  Same-Inv, connecting-Inv, open_same, size_same, connected-tally, connected-Inv, size_connected,
}

-- What the callbacks of a start leave of the two fields that `initiate_next_attempt` reads next.
pub record SamePlace (c e : Context) : Type 0 where
  pub next : e.next_attempt_index ≡ c.next_attempt_index
  pub size : length e.attempts ≡ length c.attempts

module _ (env : Env) (c : Context) (i first : ℕ) (v : Inv first c) (b : IsActive i c) where
  report-Inv :
      (report : Report)
      → Inv first (handle_report env i report c) × SamePlace c (handle_report env i report c)
  unfolding handle_report racing_on_attempt_ready on_attempt_establishment_error
  report-Inv quiet = (v, record { next = refl; size = refl })
  report-Inv reports_ready = (
    ready-Inv c i first v b env,
    if_cases (SamePlace c) c.race_complete (λ _. record { next = refl; size = refl })
        (λ p.
          let w = win_race_lem env c v i b.found p b.active in
          record { next = w.frame.next; size = w.frame.size }),
  )
  report-Inv reports_error = (
    establishment_error-Inv c i first v b,
    if_cases (SamePlace c) c.race_complete (λ _. record { next = refl; size = refl })
        (λ p.
          let d = register_failed_lem c v.core i b.found b.active in
          record { next = d.registers.frame.next; size = d.registers.frame.size }),
  )

  abbrev logged : Context
  logged =
      if c.should_try_early_data
      then log_effect (Effect.protocol_init_with_send i) c
      else log_effect (Effect.protocol_init i) c

  logged-Inv : Inv first logged
  logged-Inv = Same-Inv (ground arith) v

  logged-IsActive : IsActive i logged
  logged-IsActive = record {
    attempt = b.attempt;
    found = ground (arith, b.found);
    active = b.active;
    started = b.started;
  }

  logged-SamePlace : SamePlace c logged
  logged-SamePlace = ground arith

init-Inv :
    (env : Env) (c : Context) (i first : ℕ)
    → Inv first c
    → IsActive i c
    → Inv first (init_attempt env i c).0 × SamePlace c (init_attempt env i c).0
unfolding init_attempt
init-Inv env c i first v b =
    let (inv, place) =
      report-Inv env (logged env c i first v b) i first (logged-Inv env c i first v b)
        (logged-IsActive env c i first v b) (env.init_report i) in
    let before = logged-SamePlace env c i first v b in
    (inv, record { next = place.next ∙ before.next; size = place.size ∙ before.size })

-- An attempt that has been started and has not called back yet.
pub record Waits (n : ℕ) (c d : Context) : Type 0 where
  pub inv : Inv (suc n) d
  pub place : SamePlace c d
  pub active : IsActive n d
  pub ongoing : d.race_complete ≡ false
  pub opens : open_attempts d.attempts ≡ open_attempts c.attempts
  pub errs : d.has_error_callback ≡ c.has_error_callback

module _ (env : Env) (c : Context) (n : ℕ) (v : Inv n c) (ongoing : c.race_complete ≡ false)
    {a : Attempt} (found : get_elem? c.attempts n ≡ some a) where
  abbrev started : Context
  started = set_state n connecting c

  started-Waits : Waits n c started
  started-Waits = record {
    inv = connecting-Inv v ongoing found;
    place = record { next = refl; size = size_same v ongoing found };
    active = record {
      attempt = record a { state = connecting };
      found = get_elem?-modify c.attempts n (λ b. record b { state = connecting }) found;
      active = refl;
      started = λ e. cc;
    };
    ongoing = ongoing;
    opens = open_same v ongoing found;
    errs = refl;
  }

  connected-Waits : (r : RacedConnection) → Waits n c (set_connection n r started)
  connected-Waits r =
      let w = started-Waits in
      record {
        inv = connected-Inv w.inv ongoing n r;
        place = record { next = refl; size = size_connected w.inv ongoing n r ∙ w.place.size };
        active = record {
          attempt = record (w.active.attempt) { connection = some r };
          found =
              get_elem?-modify started.attempts n (λ b. record b { connection = some r })
                w.active.found;
          active = w.active.active;
          started = w.active.started;
        };
        ongoing = ongoing;
        opens = connected-tally is_open started.attempts n r ∙ w.opens;
        errs = refl;
      }

  logged-Waits :
      {d : Context}
      → Waits n c d
      → Waits n c (
          handle_report env n quiet (
            if d.should_try_early_data
            then log_effect (Effect.protocol_init_with_send n) d
            else log_effect (Effect.protocol_init n) d))
  unfolding handle_report
  logged-Waits w = record {
    inv = logged-Inv env _ n (suc n) w.inv w.active;
    place = record { next = ground (arith, w.place.next); size = ground (arith, w.place.size) };
    active = logged-IsActive env _ n (suc n) w.inv w.active;
    ongoing = ground (arith, w.ongoing);
    opens = ground (arith, w.opens);
    errs = ground (arith, w.errs);
  }

  after_connection-Inv :
      (r : Result RacedConnection)
      → let d = (after_connection env n r started).0 in Inv (suc n) d × SamePlace c d
  unfolding after_connection
  after_connection-Inv (err e) = (started-Waits.inv, started-Waits.place)
  after_connection-Inv (ok r) =
      let w = connected-Waits r in
      let (inv, place) = init-Inv env (set_connection n r started) n (suc n) w.inv w.active in
      (inv, record { next = place.next ∙ w.place.next; size = place.size ∙ w.place.size })

  -- A failure without a callback leaves the attempt waiting.
  after_connection-Waits :
      (r : Result RacedConnection)
      → env.init_report n ≡ quiet
      → Waits n c (after_connection env n r started).0
  unfolding after_connection init_attempt
  after_connection-Waits (err e) q = started-Waits
  after_connection-Waits (ok r) q = rw q (logged-Waits (connected-Waits r))

module _ (env : Env) (c : Context) (n : ℕ) (v : Inv n c) (ongoing : c.race_complete ≡ false)
    {a : Attempt} (found : get_elem? c.attempts n ≡ some a) where
  pub start-Inv :
      let d = (start_connection_attempt env n a.candidate c).0 in Inv (suc n) d × SamePlace c d
  unfolding start_connection_attempt
  start-Inv =
      after_connection-Inv env c n v ongoing found
        (build_connection env n a.candidate (set_state n connecting c))

  pub start-Waits :
      env.init_report n ≡ quiet → Waits n c (start_connection_attempt env n a.candidate c).0
  unfolding start_connection_attempt
  start-Waits =
      after_connection-Waits env c n v ongoing found
        (build_connection env n a.candidate (set_state n connecting c))
