-- ===== src/Auth/Service/Lockout.antt =====
-- The lockout of Login, against an automaton that knows only a counter and a time.
pub mod Steps
pub mod Logins
pub mod Runs
use subnetree.Prelude.{
  ℕ, suc, ◌+◌, ◌*◌, ◌-◌, ◌≤◌, ◌<◌, ◌≡◌, refl, Bool, true, false, List, [], ◌∷◌, Option, none, some,
  leb, ltb, if◌then◌else◌, arith, Bool-cases, inl, inr,
}
use subnetree.Auth.Service.{max_failed_attempts, lockout_duration}

pub record Lock : Type 0 where
  pub failures : ℕ
  pub until : Option ℕ

-- How an attempt ends: refused because of the lock, a wrong password, or a right one.
pub data Verdict : Type 0 where
  locked wrong right : Verdict

-- One attempt, with a password that is right or not, at a time.
abbrev pub attempt : Bool → ℕ → Lock → Lock × Verdict
attempt correct now l =
    if elim l.until [ none ↦ false | some t ↦ ltb now t ]
    then (l, locked)
    else if correct
    then ((if ltb 0 l.failures then record { failures = 0; until = none } else l), right)
    else (
      record {
        failures = l.failures + 1;
        until =
            if leb max_failed_attempts (l.failures + 1)
            then some (now + lockout_duration)
            else l.until;
      },
      wrong,
    )

unfoldable pub replay : List (Bool × ℕ) → Lock → List Verdict
replay [] l = []
replay (t ∷ ts) l = let (l', v) = attempt t.0 t.1 l in v ∷ replay ts l'

-- How many passwords were tried in vain.
abbrev pub guesses : List Verdict → ℕ
guesses [] = 0
guesses (v ∷ vs) = elim v [ wrong ↦ suc (guesses vs) | locked ↦ guesses vs | right ↦ guesses vs ]

-- Only wrong passwords, at times between `from` and `to`.
abbrev pub AreWrong : ℕ → ℕ → List (Bool × ℕ) → Type 0
AreWrong from to [] = Unit
AreWrong from to (t ∷ ts) = (t.0 ≡ false) × (from ≤ t.1) × (t.1 ≤ to) × AreWrong from to ts

-- Once the lock is set, each guess costs the whole duration.
guesses_locked :
    (from to until f : ℕ) (ts : List (Bool × ℕ))
    → AreWrong from to ts
    → max_failed_attempts ≤ f
    → until ≤ to + lockout_duration
    → guesses (replay ts (record { failures = f; until = some until })) * lockout_duration + until
      ≤ to + lockout_duration
unfolding replay
guesses_locked from to until f [] w five small = omega (arith, small)
guesses_locked from to until f (t ∷ ts) (a, b, c, w) five small =
    let wait = guesses_locked from to until f ts w five small in
    let next =
      guesses_locked from to (t.1 + lockout_duration) (f + 1) ts w (omega (arith, five))
        (omega (arith, c)) in
    ground (arith, a, b, c, wait, next, five)

-- From an open lock with `f` failures.
guesses_open :
    (from to f : ℕ) (ts : List (Bool × ℕ))
    → AreWrong from to ts
    → f < max_failed_attempts
    → from ≤ to
    → guesses (replay ts (record { failures = f; until = none })) * lockout_duration + from
      ≤ to + (max_failed_attempts - f) * lockout_duration
unfolding replay
guesses_open from to f [] w few order = ground (arith, few, order)
guesses_open from to f (t ∷ ts) (a, b, c, w) few order =
    elim (Bool-cases (leb max_failed_attempts (f + 1))) [
      | inl y ↦
          let shut =
            guesses_locked from to (t.1 + lockout_duration) (f + 1) ts w (ground (arith, y))
              (omega (arith, c)) in
          ground (arith, a, b, c, y, shut, few)
      | inr n ↦
          let next = guesses_open from to (f + 1) ts w (ground (arith, n)) order in
          ground (arith, a, b, c, n, next, few)
    ]

-- From the first failure on, wrong passwords between two times are tried five times and then once in
-- every lockout at most.
pub guesses-replay :
    (from to : ℕ) (ts : List (Bool × ℕ))
    → AreWrong from to ts
    → from ≤ to
    → guesses (replay ts (record { failures = 0; until = none })) * lockout_duration
      ≤ max_failed_attempts * lockout_duration + (to - from)
guesses-replay from to ts w order = omega (arith, guesses_open from to 0 ts w (omega arith) order)
