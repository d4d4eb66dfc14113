-- ===== src/Auth/Service.antt =====
-- internal/auth/service.go: passwords and sessions. bcrypt, SHA-256 and JWT are a parameter; the
-- database of a statement is one step, and an operation is not interrupted.
pub mod Mfa
pub mod Lockout
pub mod Rotation
pub mod Accounts
pub mod Factors
pub mod Once
pub mod FirstUser
use subnetree.Prelude.{
  ℕ, ◌+◌, ◌*◌, String, Bool, true, false, not, ◌&&◌, List, [], ◌∷◌, Option, none, some, ◌==◌,
  string_eq, leb, ltb, if◌then◌else◌, Result, ok, err,
}
use subnetree.Auth.Monad.{
  User, RefreshToken, MfaToken, Db, Query, AuthError, invalid_credentials, user_disabled,
  account_locked, setup_complete, invalid_token, user_not_found, weak_password, crypto, no_rows,
  Action, ◌>>=◌, ◌>>◌, pure, raise, or_raise, raise_if, modify, when, ignoring, without_rows,
  replaced,
}
use subnetree.Auth.Store.{
  World, get_user_by_id, get_user_by_username, create_user, update_user_fields, update_last_login,
  delete_user_row, count_users, save_refresh_token, get_refresh_token, revoke_refresh_token,
  revoke_user_refresh_tokens, record_failed_login, lock_account, clear_failed_logins,
}
use subnetree.Auth.Store.Mfa.{save_mfa_token}

-- What third-party code decides: CompareHashAndPassword, GenerateFromPassword, SHA-256, the JWT parser
-- of MFA tokens, TOTP codes and the cipher of their secrets.
pub record Primitives : Type 0 where
  pub check_password : String → String → Bool
  pub hash_password : String → Option String
  pub password_length : String → ℕ
  pub hash_token : String → String
  pub validate_mfa_token : ℕ → String → Option String
  pub validate_totp : ℕ → String → String → Bool
  pub encrypt : String → Option String
  pub decrypt : String → Option String
  pub refresh_ttl : ℕ

pub record TokenPair : Type 0 where
  pub access_token : String
  pub refresh_token : String

pub data LoginResult : Type 0 where
  pair : TokenPair → LoginResult
  mfa_required : String → LoginResult

abbrev pub max_failed_attempts : ℕ
max_failed_attempts = 5

-- 15 minutes.
abbrev pub lockout_duration : ℕ
lockout_duration = 900

abbrev pub is_locked : ℕ → User → Bool
is_locked now u = elim u.locked_until [ none ↦ false | some until ↦ ltb now until ]

module _ (p : Primitives) where
  unfoldable pub issue_token_pair : World → User → Action TokenPair
  unfolding save_refresh_token
  issue_token_pair w user = do
    access ← or_raise crypto (w.access_token user)
    raw ← or_raise crypto w.raw_refresh
    save_refresh_token w (record {
      id = w.new_id;
      user_id = user.id;
      token_hash = p.hash_token raw;
      expires_at = w.now + p.refresh_ttl;
      revoked = false;
    })
    pure (record { access_token = access; refresh_token = raw })

  -- Its errors are logged.
  unfoldable pub handle_failed_login : World → User → Action Unit
  unfolding record_failed_login lock_account
  handle_failed_login w user = ignoring (do
    attempts ← record_failed_login w user.id
    when (leb max_failed_attempts attempts) (lock_account w user.id (w.now + lockout_duration)))

  unfoldable pub challenge : World → User → Action LoginResult
  unfolding save_mfa_token
  challenge w user = do
    token ← or_raise crypto (w.mfa_token user.id)
    save_mfa_token w
        (record { token_hash = p.hash_token token; user_id = user.id; expires_at = w.now + 300 })
    pure (mfa_required token)

  unfoldable pub open_session : World → User → Action TokenPair
  unfolding issue_token_pair update_last_login
  open_session w user = do
    issued ← issue_token_pair w user
    ignoring (update_last_login w user.id)
    pure issued

  -- The half of Login behind the password check.
  unfoldable pub complete_login : World → User → Action LoginResult
  unfolding clear_failed_logins challenge open_session
  complete_login w user = do
    when (ltb 0 user.failed_login_attempts) (ignoring (clear_failed_logins w user.id))
    elim (user.totp_enabled && user.totp_verified) [
      | true ↦ challenge w user
      | false ↦ (do issued ← open_session w user; pure (pair issued))
    ]

  -- Login behind the look-up.
  unfoldable pub check_login : World → String → User → Action LoginResult
  unfolding handle_failed_login complete_login
  check_login w password user = do
    raise_if user.disabled user_disabled
    raise_if (is_locked w.now user) account_locked
    elim (p.check_password user.password_hash password) [
      | true ↦ complete_login w user
      | false ↦ (do handle_failed_login w user; raise invalid_credentials)
    ]

  unfoldable pub login : World → String → String → Action LoginResult
  unfolding get_user_by_username check_login
  login w username password = do
    user ← without_rows invalid_credentials (get_user_by_username w username)
    check_login w password user

  -- Setup behind the count.
  unfoldable pub first_account : World → String → String → String → Action User
  unfolding create_user
  first_account w username email password = do
    raise_if (ltb (p.password_length password) 8) weak_password
    hash ← or_raise crypto (p.hash_password password)
    let user : User = record {
      id = w.new_id;
      username = username;
      email = email;
      password_hash = hash;
      role = "admin";
      last_login = none;
      disabled = false;
      failed_login_attempts = 0;
      locked_until = none;
      totp_enabled = false;
      totp_verified = false;
      totp_secret = none;
    }
    create_user w user
    pure user

  unfoldable pub setup : World → String → String → String → Action User
  unfolding count_users first_account
  setup w username email password = do
    count ← count_users w
    raise_if (ltb 0 count) setup_complete
    first_account w username email password

  -- The end of Refresh.
  unfoldable pub reissue : World → String → Action TokenPair
  unfolding get_user_by_id issue_token_pair
  reissue w user_id = do
    user ← get_user_by_id w user_id
    raise_if user.disabled user_disabled
    issue_token_pair w user

  -- Refresh behind the look-up.
  unfoldable pub rotate : World → RefreshToken → Action TokenPair
  unfolding revoke_refresh_token reissue
  rotate w rt = do
    raise_if rt.revoked invalid_token
    raise_if (ltb rt.expires_at w.now) invalid_token
    ignoring (revoke_refresh_token w rt.id)
    reissue w rt.user_id

  unfoldable pub refresh : World → String → Action TokenPair
  unfolding get_refresh_token rotate
  refresh w token = do
    rt ← without_rows invalid_token (get_refresh_token w (p.hash_token token))
    rotate w rt

  -- A token that is not there is logged out.
  unfoldable pub logout : World → String → Action Unit
  unfolding get_refresh_token revoke_refresh_token
  logout w token db =
      let (r, db') = get_refresh_token w (p.hash_token token) db in
      elim r [
        | ok rt ↦ revoke_refresh_token w rt.id db'
        | err e ↦ elim e [ no_rows ↦ (ok tt, db') | other ↦ (err other, db') ]
      ]

  unfoldable pub needs_setup : World → Action Bool
  unfolding count_users
  needs_setup w = do count ← count_users w; pure (not (ltb 0 count))

  unfoldable pub get_user : World → String → Action User
  unfolding get_user_by_id
  get_user w id = without_rows user_not_found (get_user_by_id w id)

  -- UpdateUser behind the look-up.
  unfoldable pub edit_user : World → String → String → String → Bool → User → Action User
  unfolding update_user_fields revoke_user_refresh_tokens
  edit_user w id email role disabled found = do
    let user : User = record found { email = email; role = role; disabled = disabled }
    update_user_fields w user
    when disabled (ignoring (revoke_user_refresh_tokens w id))
    pure user

  unfoldable pub update_user_account : World → String → String → String → Bool → Action User
  unfolding get_user_by_id edit_user
  update_user_account w id email role disabled = do
    found ← without_rows user_not_found (get_user_by_id w id)
    edit_user w id email role disabled found

  unfoldable pub delete_user : World → String → Action Unit
  unfolding delete_user_row
  delete_user w id = without_rows user_not_found (delete_user_row w id)
