-- ===== src/Auth/Service/Lockout/Steps.antt =====
-- What one Login does to the row of its user and to the others.
use subnetree.Prelude.{
  ℕ, ◌+◌, ◌≡◌, refl, false, none, some, string_eq, leb, if◌then◌else◌, Result, ok, err, arith, ◌⊎◌,
}
use subnetree.Auth.Monad.{User, Db, Query, AuthError, invalid_credentials, account_locked}
use subnetree.Auth.Store.{
  World, update_user, record_failed_login, lock_account, update_last_login, save_refresh_token,
}
use subnetree.Auth.Store.Rows.{by_id, Keeps, by_id-update_user}
use subnetree.Auth.Store.Mfa.{save_mfa_token}
use subnetree.Auth.Service.{
  Primitives, LoginResult, max_failed_attempts, lockout_duration, issue_token_pair, challenge,
  open_session, handle_failed_login,
}
use subnetree.Auth.Service.Lockout.{Verdict, locked, wrong, right}

-- No statement fails.
abbrev pub IsReliable : World → Type 0
IsReliable w = (q : Query) → w.fails q ≡ false

abbrev pub verdict_of : Result AuthError LoginResult → Verdict
verdict_of (ok _) = right
verdict_of (err e) = elim e [ invalid_credentials ↦ wrong | account_locked ↦ locked | _ ↦ right ]

abbrev pub failed : User → User
failed u = record u { failed_login_attempts = u.failed_login_attempts + 1 }

abbrev pub locked_at : ℕ → User → User
locked_at t u = record u { locked_until = some t }

abbrev pub cleared : User → User
cleared u = record u { failed_login_attempts = 0; locked_until = none }

abbrev pub seen_at : ℕ → User → User
seen_at t u = record u { last_login = some t }

pub failed-Keeps : Keeps failed
failed-Keeps = record {
  id = λ u. refl;
  username = λ u. refl;
  password_hash = λ u. refl;
  disabled = λ u. refl;
}

pub locked_at-Keeps : (t : ℕ) → Keeps (locked_at t)
locked_at-Keeps t = record {
  id = λ u. refl;
  username = λ u. refl;
  password_hash = λ u. refl;
  disabled = λ u. refl;
}

pub cleared-Keeps : Keeps cleared
cleared-Keeps = record {
  id = λ u. refl;
  username = λ u. refl;
  password_hash = λ u. refl;
  disabled = λ u. refl;
}

pub seen_at-Keeps : (t : ℕ) → Keeps (seen_at t)
seen_at-Keeps t = record {
  id = λ u. refl;
  username = λ u. refl;
  password_hash = λ u. refl;
  disabled = λ u. refl;
}

-- Errors that Login passes on from behind the password check.
abbrev pub IsLate {ℓ} : {A : Type ℓ} → Result AuthError A → Type 0
IsLate (ok _) = Unit
IsLate (err e) = elim e [ invalid_credentials ↦ ⊥ | account_locked ↦ ⊥ | _ ↦ Unit ]

module _ (p : Primitives) (w : World) where
  issue_token_pair-users :
      (u : User) (db : Db)
      → ((issue_token_pair p w u db).1.users ≡ db.users) × IsLate (issue_token_pair p w u db).0
  unfolding issue_token_pair save_refresh_token
  issue_token_pair-users u db = ground arith

  pub handle_failed_login-users :
      (u : User) (db : Db)
      → IsReliable w
      → by_id u.id db.users ≡ some u
      → (handle_failed_login p w u db).1.users ≡ (
          if leb max_failed_attempts (u.failed_login_attempts + 1)
          then update_user u.id
              (locked_at (w.now + lockout_duration))
              (update_user u.id failed db.users)
          else update_user u.id failed db.users)
  unfolding handle_failed_login record_failed_login lock_account
  handle_failed_login-users u db sure h =
      let counted = by_id-update_user failed failed-Keeps u.id u.id db.users in
      ground (
        arith,
        sure Query.record_failed,
        sure Query.read_failed,
        sure Query.lock,
        counted,
        h,
        string_eq.same_iff u.id u.id,
      )

  pub challenge-users :
      (u : User) (db : Db)
      → ((challenge p w u db).1.users ≡ db.users) × IsLate (challenge p w u db).0
  unfolding challenge save_mfa_token
  challenge-users u db = ground arith

  pub open_session-users :
      (u : User) (db : Db)
      → (((open_session p w u db).1.users ≡ db.users)
          ⊎ ((open_session p w u db).1.users ≡ update_user u.id (seen_at w.now) db.users))
        × IsLate (open_session p w u db).0
  unfolding open_session issue_token_pair save_refresh_token update_last_login
  open_session-users u db = ground arith
