-- ===== src/Auth/Service/Factors.antt =====
-- Logins of users with a second factor.
use subnetree.Prelude.{
  String, true, ◌&&◌, some, ◌≡◌, ◌≢◌, refl, sym, ap, ◌∙◌, string_eq, ltb, arith, Bool-cases, inl,
  inr, ok, err,
}
use subnetree.Auth.Monad.{
  User, Db, Query, when, ignoring, without_rows, invalid_credentials, database,
}
use subnetree.Auth.Monad.Binds.{bind_ok, bind_err, rows_ok, rows_err}
use subnetree.Auth.Store.{World, get_user_by_username, clear_failed_logins}
use subnetree.Auth.Store.Mfa.{save_mfa_token}
use subnetree.Auth.Store.Rows.{by_name}
use subnetree.Auth.Service.{
  Primitives, TokenPair, pair, is_locked, challenge, complete_login, check_login, login,
}

module _ (p : Primitives) (w : World) (u : User) (x : TokenPair) where
  challenge_only : (db : Db) → (challenge p w u db).0 ≢ ok (pair x)
  unfolding challenge save_mfa_token
  challenge_only db h = ground (arith, h)

  complete_login-challenge :
      (db : Db)
      → (u.totp_enabled && u.totp_verified) ≡ true
      → complete_login p w u db
        ≡ challenge p w u
            (when (ltb 0 u.failed_login_attempts) (ignoring (clear_failed_logins w u.id)) db).1
  unfolding complete_login
  complete_login-challenge db on = elim (Bool-cases (ltb 0 u.failed_login_attempts)) [
    | inl t ↦ rw (complete_login, t, on) refl
    | inr f ↦ rw (complete_login, f, on) refl
  ]

  complete_login_only :
      (db : Db)
      → (u.totp_enabled && u.totp_verified) ≡ true
      → (complete_login p w u db).0 ≢ ok (pair x)
  complete_login_only db on h =
      challenge_only
        (when (ltb 0 u.failed_login_attempts) (ignoring (clear_failed_logins w u.id)) db).1
        (sym (ap (λ r. r.0) (complete_login-challenge db on)) ∙ h)

  check_login_only :
      (password : String) (db : Db)
      → (u.totp_enabled && u.totp_verified) ≡ true
      → (check_login p w password u db).0 ≢ ok (pair x)
  unfolding check_login
  check_login_only password db on = elim (Bool-cases u.disabled) [
    | inl off ↦ rw (check_login, off) λ h. absurd (cc h)
    | inr here ↦ elim (Bool-cases (is_locked w.now u)) [
      | inl shut ↦ rw (check_login, here, shut) λ h. absurd (cc h)
      | inr idle ↦ elim (Bool-cases (p.check_password u.password_hash password)) [
        | inl good ↦ rw (check_login, here, idle, good) (complete_login_only db on)
        | inr bad ↦ rw (check_login, here, idle, bad) λ h. absurd (cc h)
      ]
    ]
  ]

-- The password of a user who has verified a second factor never gets a pair of tokens by itself, also
-- where statements of the database fail.
pub login-mfa :
    (p : Primitives) (w : World) (name password : String) (u : User) (db : Db) (x : TokenPair)
    → by_name name db.users ≡ some u
    → (u.totp_enabled && u.totp_verified) ≡ true
    → (login p w name password db).0 ≢ ok (pair x)
unfolding login get_user_by_username
login-mfa p w name password u db x there on h = elim (Bool-cases (w.fails Query.get_user)) [
  | inl f ↦
      let got : get_user_by_username w name db ≡ (err (database Query.get_user), db) = rw f refl in
      let all =
        bind_err (without_rows invalid_credentials (get_user_by_username w name))
          (check_login p w password)
          (rows_err invalid_credentials (get_user_by_username w name) got) in
      absurd (cc (sym (ap (λ r. r.0) all) ∙ h))
  | inr g ↦
      let got : get_user_by_username w name db ≡ (ok u, db) = rw (g, there) refl in
      let all =
        bind_ok (without_rows invalid_credentials (get_user_by_username w name))
          (check_login p w password)
          (rows_ok invalid_credentials (get_user_by_username w name) got) in
      check_login_only p w u x password db on (sym (ap (λ r. r.0) all) ∙ h)
]
