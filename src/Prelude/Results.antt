-- ===== src/Prelude/Results.antt =====
-- The library's return codes: 0 is `ok`, and `-n` is `err n` (`n` is an `errno` value).
use Prim.Native.Nat.{ℕ}
use mathlib.Core.Path.{◌≡◌, refl}
use mathlib.Core.Logic.{◌⊎◌, inl, inr}

abbrev Errno : Type 0
Errno = ℕ

pub data Result {ℓ} (A : Type ℓ) : Type ℓ where
  err : Errno → Result A
  ok : A → Result A

-- A negative code is returned at once.
infixl 5 ◌>>=◌
abbrev pub ◌>>=◌ {ℓ κ} :
    {A : Type ℓ} {B : Type κ} (rc : Result A) (next : (value : A) → Result B) → Result B
rc >>= next = elim rc [ err code ↦ err code | ok value ↦ next value ]

pub Result-cases {ℓ} :
    {A : Type ℓ} (r : Result A) → ((a : A) × (r ≡ ok a)) ⊎ ((e : ℕ) × (r ≡ err e))
Result-cases (ok a) = inl (a, refl)
Result-cases (err e) = inr (e, refl)

-- errno values that the library returns negated.
abbrev pub enoent : ℕ
enoent = 2

abbrev pub eio : ℕ
eio = 5

abbrev pub enomem : ℕ
enomem = 12

abbrev pub eexist : ℕ
eexist = 17

abbrev pub einval : ℕ
einval = 22

abbrev pub epipe : ℕ
epipe = 32

abbrev pub enotsup : ℕ
enotsup = 95
