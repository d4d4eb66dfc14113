-- ===== src/Auth/Service/Lockout/Logins.antt =====
-- One Login, on the row of its user: the lock moves as `attempt` says, and no other row moves.
use subnetree.Prelude.{
  ◌+◌, ◌≡◌, refl, sym, ◌∙◌, String, true, false, ◌&&◌, List, none, some, string_eq, leb, ltb,
  if◌then◌else◌, Result, ok, err, arith, Bool-cases, inl, inr, ◌⊎◌,
}
use subnetree.Auth.Monad.{
  User, Db, Query, AuthError, invalid_credentials, account_locked, ◌>>=◌, pure, without_rows,
}
use subnetree.Auth.Monad.Binds.{bind_ok, rows_ok}
use subnetree.Auth.Store.{World, update_user, get_user_by_username, clear_failed_logins}
use subnetree.Auth.Store.Rows.{
  by_id, by_name, IsKeyed, Keeps, update_user-update_user, update_user_same,
}
use subnetree.Auth.Service.{
  Primitives, LoginResult, pair, max_failed_attempts, lockout_duration, is_locked, challenge,
  open_session, complete_login, handle_failed_login, check_login, login,
}
use subnetree.Auth.Service.Lockout.{Lock, right, attempt}
use subnetree.Auth.Service.Lockout.Steps.{
  IsReliable, verdict_of, failed, locked_at, cleared, seen_at, failed-Keeps, locked_at-Keeps,
  cleared-Keeps, seen_at-Keeps, IsLate, challenge-users, open_session-users,
  handle_failed_login-users,
}

abbrev pub lock_of : User → Lock
lock_of u = record { failures = u.failed_login_attempts; until = u.locked_until }

-- The rows after a call: those of one user changed, and the lock is the one given.
pub record Change (u : User) (us us' : List User) (l : Lock) : Type 0 where
  pub update : User → User
  pub keeps : Keeps update
  pub users : us' ≡ update_user u.id update us
  pub lock : lock_of (update u) ≡ l

still : (u : User) (us us' : List User) → us' ≡ us → Change u us us' (lock_of u)
still u us us' e = record {
  update = λ v. v;
  keeps = record {
    id = λ v. refl;
    username = λ v. refl;
    password_hash = λ v. refl;
    disabled = λ v. refl;
  };
  users = e ∙ sym (update_user_same u.id us);
  lock = refl;
}

one :
    (f : User → User)
    → Keeps f
    → (u : User) (us us' : List User) → us' ≡ update_user u.id f us
    → Change u us us' (lock_of (f u))
one f k u us us' e = record { update = f; keeps = k; users = e; lock = refl }

two :
    (f g : User → User)
    → Keeps f
    → Keeps g
    → (u : User) (us us' : List User) → us' ≡ update_user u.id g (update_user u.id f us)
    → Change u us us' (lock_of (g (f u)))
two f g k j u us us' e = record {
  update = λ v. g (f v);
  keeps = record {
    id = λ v. j.id (f v) ∙ k.id v;
    username = λ v. j.username (f v) ∙ k.username v;
    password_hash = λ v. j.password_hash (f v) ∙ k.password_hash v;
    disabled = λ v. j.disabled (f v) ∙ k.disabled v;
  };
  users = e ∙ update_user-update_user f g k u.id us;
  lock = refl;
}

module _ (p : Primitives) (w : World) where
  -- complete_login behind the counter.
  behind : User → Db → Result AuthError LoginResult × Db
  behind u db =
      if u.totp_enabled && u.totp_verified
      then challenge p w u db
      else (open_session p w u >>= λ issued. pure (pair issued)) db

  behind-users :
      (u : User) (db : Db)
      → (((behind u db).1.users ≡ db.users)
          ⊎ ((behind u db).1.users ≡ update_user u.id (seen_at w.now) db.users))
        × IsLate (behind u db).0
  unfolding behind
  behind-users u db =
      let (kept, late) = challenge-users p w u db in
      let (opened, later) = open_session-users p w u db in ground (arith, kept, late, opened, later)

  fresh : User → Db → Db
  fresh u db =
      if ltb 0 u.failed_login_attempts
      then record db { users = update_user u.id cleared db.users }
      else db

  complete_login_lem :
      (u : User) (db : Db) → IsReliable w → complete_login p w u db ≡ behind u (fresh u db)
  unfolding complete_login clear_failed_logins behind fresh
  complete_login_lem u db sure = elim (Bool-cases (ltb 0 u.failed_login_attempts)) [
    | inl t ↦
        rw (t, sure Query.clear_failed)
          elim (Bool-cases (u.totp_enabled && u.totp_verified)) [
            | inl on ↦ rw on refl
            | inr off ↦ rw off refl
          ]
    | inr f ↦ rw f elim (Bool-cases (u.totp_enabled && u.totp_verified)) [
      | inl on ↦ rw on refl
      | inr off ↦ rw off refl
    ]
  ]

  complete_login-users :
      (u : User) (db : Db)
      → IsReliable w
      → (((complete_login p w u db).1.users ≡ (fresh u db).users)
          ⊎ ((complete_login p w u db).1.users
              ≡ update_user u.id (seen_at w.now) (fresh u db).users))
        × IsLate (complete_login p w u db).0
  complete_login-users u db sure = rw (complete_login_lem u db sure) (behind-users u (fresh u db))

  -- The counter, and then what is behind it.
  fresh-Change :
      (u : User) (db : Db) (us' : List User)
      → (us' ≡ (fresh u db).users) ⊎ (us' ≡ update_user u.id (seen_at w.now) (fresh u db).users)
      → Change u db.users us' (
          if ltb 0 u.failed_login_attempts
          then record { failures = 0; until = none }
          else lock_of u)
  unfolding fresh
  fresh-Change u db us' h = elim (Bool-cases (ltb 0 u.failed_login_attempts)) [
    | inl t ↦ elim h [
      | inl a ↦ rw t (one cleared cleared-Keeps u db.users us' (ground (arith, t, a)))
      | inr b ↦ rw t (
          two cleared (seen_at w.now) cleared-Keeps (seen_at-Keeps w.now) u db.users us'
            (ground (arith, t, b)))
    ]
    | inr f ↦ elim h [
      | inl a ↦ rw f (still u db.users us' (ground (arith, f, a)))
      | inr b ↦
          rw f (one (seen_at w.now) (seen_at-Keeps w.now) u db.users us' (ground (arith, f, b)))
    ]
  ]

  handle_failed_login-Change :
      (u : User) (db : Db)
      → IsReliable w
      → by_id u.id db.users ≡ some u
      → is_locked w.now u ≡ false
      → Change u db.users (handle_failed_login p w u db).1.users (attempt false w.now (lock_of u)).0
  handle_failed_login-Change u db sure h idle =
      let rows = handle_failed_login-users p w u db sure h in
      elim (Bool-cases (leb max_failed_attempts (u.failed_login_attempts + 1))) [
        | inl y ↦
            rw (idle, y)
              (two failed (locked_at (w.now + lockout_duration)) failed-Keeps
                (locked_at-Keeps (w.now + lockout_duration)) u db.users
                (handle_failed_login p w u db).1.users (ground (arith, rows, y)))
        | inr n ↦
            rw (idle, n)
              (one failed failed-Keeps u db.users (handle_failed_login p w u db).1.users
                (ground (arith, rows, n)))
      ]

  IsLate-right : (r : Result AuthError LoginResult) → IsLate r → verdict_of r ≡ right
  IsLate-right (ok _) h = refl
  IsLate-right (err e) h = ground (arith, h)

  module _ (name password : String) (u : User) (db : Db) (sure : IsReliable w)
      (there : by_name name db.users ≡ some u) where
    got : get_user_by_username w name db ≡ (ok u, db)
    unfolding get_user_by_username
    got = rw (sure Query.get_user, there) refl

    pub login_lem : login p w name password db ≡ check_login p w password u db
    unfolding login
    login_lem =
        bind_ok (without_rows invalid_credentials (get_user_by_username w name))
          (check_login p w password) (rows_ok invalid_credentials (get_user_by_username w name) got)

  -- The three ways through Login for a user who is there and not disabled.
  module _ (name password : String) (u : User) (db : Db) (sure : IsReliable w)
      (there : by_name name db.users ≡ some u) (active : u.disabled ≡ false) where
    login_locked : is_locked w.now u ≡ true → login p w name password db ≡ (err account_locked, db)
    unfolding check_login
    login_locked shut = login_lem name password u db sure there ∙ rw (active, shut) refl

    login_wrong :
        is_locked w.now u ≡ false
        → p.check_password u.password_hash password ≡ false
        → login p w name password db ≡ (err invalid_credentials, (handle_failed_login p w u db).1)
    unfolding check_login
    login_wrong idle bad = login_lem name password u db sure there ∙ rw (active, idle, bad) refl

    pub login_right :
        is_locked w.now u ≡ false
        → p.check_password u.password_hash password ≡ true
        → login p w name password db ≡ complete_login p w u db
    unfolding check_login
    login_right idle good = login_lem name password u db sure there ∙ rw (active, idle, good) refl

    -- A login of a user who is there and not disabled is an attempt.
    pub login-Change :
        IsKeyed db.users
        → Change u db.users
            (login p w name password db).1.users
            (attempt (p.check_password u.password_hash password) w.now (lock_of u)).0
          × (verdict_of (login p w name password db).0
              ≡ (attempt (p.check_password u.password_hash password) w.now (lock_of u)).1)
    login-Change keyed = elim (Bool-cases (is_locked w.now u)) [
      | inl shut ↦ rw (login_locked shut, shut) (still u db.users db.users refl, refl)
      | inr idle ↦ elim (Bool-cases (p.check_password u.password_hash password)) [
        | inl good ↦
            let (moved, late) = complete_login-users u db sure in
            rw (login_right idle good, idle, good)
              (
                fresh-Change u db (complete_login p w u db).1.users moved,
                IsLate-right (complete_login p w u db).0 late,
              )
        | inr bad ↦
            rw (login_wrong idle bad, bad)
              (handle_failed_login-Change u db sure (keyed name u there) idle, rw (idle) refl)
      ]
    ]
