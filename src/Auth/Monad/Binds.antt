-- ===== src/Auth/Monad/Binds.antt =====
-- A chain of calls, one call at a time.
use subnetree.Prelude.{◌≡◌, refl, ap, Result, ok, err, ◌⊎◌, inl, inr}
use subnetree.Auth.Monad.{Db, AuthError, replaced, Action, ◌>>=◌, without_rows}

-- A step that succeeds hands over to the next.
pub bind_ok :
    {A B : Type 0} (m : Action A) (f : A → Action B) {a : A} {db db' : Db}
    → m db ≡ (ok a, db')
    → (m >>= f) db ≡ f a db'
bind_ok m f {a = a} e = rw (◌>>=◌, e) (ap (λ r. f a r.1) e)

pub bind_err :
    {A B : Type 0} (m : Action A) (f : A → Action B) {x : AuthError} {db db' : Db}
    → m db ≡ (err x, db')
    → (m >>= f) db ≡ (err x, db')
bind_err m f {x = x} e = rw (◌>>=◌, e) (ap (λ r. (err x, r.1)) e)

pub rows_ok :
    {A : Type 0} (x : AuthError) (m : Action A) {a : A} {db db' : Db}
    → m db ≡ (ok a, db')
    → without_rows x m db ≡ (ok a, db')
rows_ok x m {a = a} e = rw (without_rows, e) (ap (λ r. (ok a, r.1)) e)

pub rows_err :
    {A : Type 0} (x : AuthError) (m : Action A) {y : AuthError} {db db' : Db}
    → m db ≡ (err y, db')
    → without_rows x m db ≡ (err (replaced x y), db')
rows_err x m {y = y} e = rw (without_rows, e) (ap (λ r. (err (replaced x y), r.1)) e)

pub outcome_cases :
    {A : Type 0} (r : Result AuthError A) → ((a : A) × (r ≡ ok a)) ⊎ ((e : AuthError) × (r ≡ err e))
outcome_cases (ok a) = inl (a, refl)
outcome_cases (err e) = inr (e, refl)

pub without_rows_lem :
    {A : Type 0} (x : AuthError) (m : Action A) (db : Db) → (without_rows x m db).1 ≡ (m db).1
without_rows_lem x m db = elim (outcome_cases (m db).0) [
  | inl (a, e) ↦ ap (λ r. r.1) (rows_ok x m (ap (λ r. (r, (m db).1)) e))
  | inr (y, e) ↦ rw (without_rows, e) refl
]
