-- ===== src/Auth/Service/FirstUser.antt =====
-- The first account, and a login with it.
use subnetree.Prelude.{
  String, true, false, ◌&&◌, [], ◌∷◌, ◌++◌, none, some, ◌≡◌, refl, sym, ap, subst, ◌∙◌, string_eq,
  ltb, arith, ok,
}
use subnetree.Auth.Monad.{User, Db, Query, setup_complete, ◌>>=◌, ◌>>◌, pure, raise_if}
use subnetree.Auth.Monad.Binds.{bind_ok}
use subnetree.Auth.Store.{World, count_users, create_user, save_refresh_token, update_last_login}
use subnetree.Auth.Store.Rows.{by_name}
use subnetree.Auth.Service.{
  Primitives, TokenPair, pair, login, complete_login, open_session, issue_token_pair, first_account,
  setup,
}
use subnetree.Auth.Service.Lockout.Steps.{IsReliable}
use subnetree.Auth.Service.Lockout.Logins.{login_right}

abbrev first_user : World → String → String → String → User
first_user w username email hash = record {
  id = w.new_id;
  username = username;
  email = email;
  password_hash = hash;
  role = "admin";
  last_login = none;
  disabled = false;
  failed_login_attempts = 0;
  locked_until = none;
  totp_enabled = false;
  totp_verified = false;
  totp_secret = none;
}

module _ (p : Primitives) (w : World) (username email password hash : String) (db : Db) where
  first_account_lem :
      IsReliable w
      → db.users ≡ []
      → ltb (p.password_length password) 8 ≡ false
      → p.hash_password password ≡ some hash
      → first_account p w username email password db ≡ (
        ok (first_user w username email hash),
        record db { users = first_user w username email hash ∷ [] },
      )
  unfolding first_account create_user
  first_account_lem sure empty long hashed =
      let created : create_user w (first_user w username email hash) db
          ≡ (ok tt, record db { users = first_user w username email hash ∷ [] }) =
        rw (sure Query.insert_user, empty)
          (ap (λ us. (ok tt, record db { users = us ++ first_user w username email hash ∷ [] }))
            empty) in
      rw (first_account, long, hashed)
        (bind_ok (create_user w (first_user w username email hash))
          (λ _. pure (first_user w username email hash)) created)

  setup_lem :
      IsReliable w
      → db.users ≡ []
      → ltb (p.password_length password) 8 ≡ false
      → p.hash_password password ≡ some hash
      → setup p w username email password db ≡ (
        ok (first_user w username email hash),
        record db { users = first_user w username email hash ∷ [] },
      )
  unfolding setup count_users
  setup_lem sure empty long hashed =
      let counts : count_users w db ≡ (ok 0, db) = rw (sure Query.count_all, empty) refl in
      bind_ok (count_users w)
        (λ n. raise_if (ltb 0 n) setup_complete >> first_account p w username email password) counts
      ∙ first_account_lem sure empty long hashed

module _ (p : Primitives) (w : World) (u : User) (access raw : String) (db : Db) where
  abbrev issued : TokenPair
  issued = record { access_token = access; refresh_token = raw }

  open_session_lem :
      IsReliable w
      → db.refresh_tokens ≡ []
      → w.access_token u ≡ some access
      → w.raw_refresh ≡ some raw
      → (open_session p w u db).0 ≡ ok issued
  unfolding open_session issue_token_pair save_refresh_token update_last_login
  open_session_lem sure empty a r = ground (arith, sure Query.save_refresh, empty, a, r)

  complete_login_plain :
      ltb 0 u.failed_login_attempts ≡ false
      → (u.totp_enabled && u.totp_verified) ≡ false
      → complete_login p w u db ≡ (open_session p w u >>= λ t. pure (pair t)) db
  unfolding complete_login
  complete_login_plain fresh off = rw (complete_login, fresh, off) refl

  complete_login_opens :
      IsReliable w
      → db.refresh_tokens ≡ []
      → ltb 0 u.failed_login_attempts ≡ false
      → (u.totp_enabled && u.totp_verified) ≡ false
      → w.access_token u ≡ some access
      → w.raw_refresh ≡ some raw
      → (complete_login p w u db).0 ≡ ok (pair issued)
  complete_login_opens sure empty fresh off a r =
      ap (λ r. r.0)
        (complete_login_plain fresh off
          ∙ bind_ok (open_session p w u) (λ t. pure (pair t))
              (ap (λ x. (x, (open_session p w u db).1)) (open_session_lem sure empty a r)))

-- On a database without users and refresh tokens, the first account is one that its name and password log
-- in to, with the generators' tokens as the pair. The password has eight characters, it matches its own
-- hash, and the statements of the database succeed.
pub setup-login :
    (p : Primitives) (w w' : World) (username email password hash access raw : String) (db : Db)
    → IsReliable w
    → IsReliable w'
    → db.users ≡ []
    → db.refresh_tokens ≡ []
    → ltb (p.password_length password) 8 ≡ false
    → p.hash_password password ≡ some hash
    → p.check_password hash password ≡ true
    → w'.access_token (first_user w username email hash) ≡ some access
    → w'.raw_refresh ≡ some raw
    → (login p w' username password (setup p w username email password db).1).0
      ≡ ok (pair (record { access_token = access; refresh_token = raw }))
setup-login p w w' username email password hash access raw db sure sure' empty none_yet long hashed
      good a r =
    let user = first_user w username email hash in
    let after : Db = record db { users = user ∷ [] } in
    let named : by_name username after.users ≡ some user =
      ground (arith, string_eq.same_iff username username) in
    subst
      (λ d.
        (login p w' username password d.1).0
        ≡ ok (pair (record { access_token = access; refresh_token = raw })))
      (sym (setup_lem p w username email password hash db sure empty long hashed))
      (ap (λ x. x.0) (login_right p w' username password user after sure' named refl refl good)
        ∙ complete_login_opens p w' user access raw after sure' none_yet refl refl a r)
