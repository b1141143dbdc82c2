-- ===== src/Race/Counting.antt =====
-- How many attempts of a race are in which states, and how the callbacks change that.
use ctaps.Prelude.{
  ℕ, zero, suc, ◌+◌, ◌≤◌, ◌≡◌, refl, ap, Bool, true, false, not, some, List, [], ◌∷◌, map, arith,
  ◌==◌, length, get_elem?, modify, count,
}
use ctaps.Race.State.{AttemptState, pending, connecting, succeeded, Attempt, Effect, Context}
use ctaps.Race.Handlers.{is_concluded, all_attempts_failed, all_attempts_concluded, index_of}

abbrev pub is_open : AttemptState → Bool
is_open s = not (is_concluded s)

abbrev pub is_won : AttemptState → Bool
is_won succeeded = true
is_won _ = false

abbrev pub is_idle : AttemptState → Bool
is_idle pending = true
is_idle connecting = true
is_idle _ = false

abbrev pub tally : (AttemptState → Bool) → List Attempt → ℕ
tally p = count λ a. p a.state

abbrev pub open_attempts : List Attempt → ℕ
open_attempts = tally is_open

abbrev pub won_attempts : List Attempt → ℕ
won_attempts = tally is_won

abbrev pub bit : Bool → ℕ
bit true = 1
bit false = 0

abbrev is_timer_close : Effect → Bool
is_timer_close Effect.timer_close = true
is_timer_close _ = false

abbrev is_establishment_error : Effect → Bool
is_establishment_error Effect.establishment_error = true
is_establishment_error _ = false

abbrev is_ready : Effect → Bool
is_ready (Effect.ready i) = true
is_ready _ = false

-- How often the context was closed, and the user told of a failure and of a success.
abbrev pub closes : Context → ℕ
closes c = count is_timer_close c.log

abbrev pub errors : Context → ℕ
errors c = count is_establishment_error c.log

abbrev pub readies : Context → ℕ
readies c = count is_ready c.log

pub tally-set_state :
    (p : AttemptState → Bool) (xs : List Attempt) (i : ℕ) (s : AttemptState) {a : Attempt}
    → get_elem? xs i ≡ some a
    → tally p (modify xs i (λ b. record b { state = s })) + bit (p a.state) ≡ tally p xs + bit (p s)
tally-set_state p [] i s h = cc
tally-set_state p (x ∷ rest) zero s h = ground arith
tally-set_state p (x ∷ rest) (suc i) s h = ground (arith, tally-set_state p rest i s h)

pub tally-le-length : (p : AttemptState → Bool) (xs : List Attempt) → tally p xs ≤ length xs
tally-le-length p [] = omega arith
tally-le-length p (x ∷ rest) = ground (arith, tally-le-length p rest)

pub all_attempts_concluded_lem :
    (xs : List Attempt) → all_attempts_concluded xs ≡ (open_attempts xs == 0)
unfolding all_attempts_concluded
all_attempts_concluded_lem [] = refl
all_attempts_concluded_lem (x ∷ rest) = ground (arith, all_attempts_concluded_lem rest)

pub all_attempts_failed_lem :
    (xs : List Attempt) → all_attempts_failed xs ≡ (open_attempts xs + won_attempts xs == 0)
unfolding all_attempts_failed
all_attempts_failed_lem [] = refl
all_attempts_failed_lem (x ∷ rest) = ground (arith, all_attempts_failed_lem rest)

abbrev pub indices : List Attempt → List ℕ
indices = map λ a. a.attempt_index

pub indices-set_state :
    (xs : List Attempt) (i : ℕ) (s : AttemptState)
    → indices (modify xs i (λ b. record b { state = s })) ≡ indices xs
indices-set_state [] i s = refl
indices-set_state (x ∷ xs) zero s = refl
indices-set_state (x ∷ xs) (suc i) s = ap (◌∷◌ x.attempt_index) (indices-set_state xs i s)

abbrev number_at : List ℕ → ℕ → ℕ
number_at [] i = i
number_at (n ∷ ns) zero = n
number_at (n ∷ ns) (suc i) = number_at ns i

pub index_of-indices : (xs : List Attempt) (i : ℕ) → index_of xs i ≡ number_at (indices xs) i
index_of-indices [] i = refl
index_of-indices (x ∷ xs) zero = refl
index_of-indices (x ∷ xs) (suc i) = index_of-indices xs i

pub index_of_eq :
    (xs ys : List Attempt) (i : ℕ) → indices xs ≡ indices ys → index_of xs i ≡ index_of ys i
index_of_eq xs ys i h = rw (index_of-indices xs i, index_of-indices ys i, h)
