-- ===== src/Auth/Monad/Keeping.antt =====
-- Calls that keep a property of the tables, also where they fail.
use subnetree.Prelude.{Bool, true, false, Option, none, some, ◌≡◌, refl, ap, sym, subst, inl, inr}
use subnetree.Auth.Monad.{
  Db, AuthError, Action, ◌>>=◌, pure, raise, or_raise, without_rows, ignoring, raise_if, when,
}
use subnetree.Auth.Monad.Binds.{bind_ok, bind_err, outcome_cases, without_rows_lem}

pub record IsKept {A : Type 0} (P : Db → Type 0) (m : Action A) : Type 0 where
  pub kept : (db : Db) → P db → P (m db).1

module _ {A : Type 0} {P : Db → Type 0} where
  pub bind-IsKept :
      {B : Type 0} (m : Action A) (f : A → Action B)
      → IsKept P m
      → ((a : A) → IsKept P (f a))
      → IsKept P (m >>= f)
  bind-IsKept m f k j = record {
    kept = λ db h. elim (outcome_cases (m db).0) [
      | inl (a, e) ↦
          subst (λ r. P r.1) (sym (bind_ok m f (ap (λ r. (r, (m db).1)) e)))
            ((j a).kept (m db).1 (k.kept db h))
      | inr (x, e) ↦
          subst (λ r. P r.1) (sym (bind_err m f (ap (λ r. (r, (m db).1)) e))) (k.kept db h)
    ];
  }

  pub pure-IsKept : (a : A) → IsKept P (pure a)
  pure-IsKept a = record { kept = λ db h. h }

  pub raise-IsKept : (e : AuthError) → IsKept P (raise {A = A} e)
  raise-IsKept e = record { kept = λ db h. h }

  pub or_raise-IsKept : (e : AuthError) (o : Option A) → IsKept P (or_raise e o)
  or_raise-IsKept e none = record { kept = λ db h. h }
  or_raise-IsKept e (some a) = record { kept = λ db h. h }

  pub or_raise_bind-IsKept :
      {B : Type 0} (e : AuthError) (o : Option A) (f : A → Action B)
      → ((a : A) → o ≡ some a → IsKept P (f a))
      → IsKept P (or_raise e o >>= f)
  or_raise_bind-IsKept e none f k = record { kept = λ db h. h }
  or_raise_bind-IsKept e (some a) f k = record { kept = (k a refl).kept }

  pub without_rows-IsKept :
      (e : AuthError) (m : Action A) → IsKept P m → IsKept P (without_rows e m)
  without_rows-IsKept e m k = record {
    kept = λ db h. subst P (sym (without_rows_lem e m db)) (k.kept db h);
  }

  pub ignoring-IsKept : (m : Action A) → IsKept P m → IsKept P (ignoring m)
  ignoring-IsKept m k = record { kept = k.kept }

module _ {P : Db → Type 0} where
  pub raise_if-IsKept : (c : Bool) (e : AuthError) → IsKept P (raise_if c e)
  raise_if-IsKept c e = record { kept = λ db h. h }

  pub when-IsKept : (c : Bool) (m : Action Unit) → IsKept P m → IsKept P (when c m)
  when-IsKept true m k = record { kept = k.kept }
  when-IsKept false m k = record { kept = λ db h. h }

pub ruleset keeping = (
  bind-IsKept, pure-IsKept, raise-IsKept, or_raise-IsKept, without_rows-IsKept, ignoring-IsKept,
  raise_if-IsKept, when-IsKept,
)
