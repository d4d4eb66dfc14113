-- ===== src/Auth/Monad.antt =====
-- The tables of internal/auth/store.go, and a call of the database: tables and an error. What a call
-- wrote before an error stays written.
pub mod Binds
pub mod Keeping
use subnetree.Prelude.{ℕ, String, Bool, List, Option, none, some, Result, ok, err, if◌then◌else◌}

-- A row of auth_users; a time is a number of seconds.
pub record User : Type 0 where
  pub id : String
  pub username : String
  pub email : String
  pub password_hash : String
  pub role : String
  pub last_login : Option ℕ
  pub disabled : Bool
  pub failed_login_attempts : ℕ
  pub locked_until : Option ℕ
  pub totp_enabled : Bool
  pub totp_verified : Bool
  pub totp_secret : Option String

pub record RefreshToken : Type 0 where
  pub id : String
  pub user_id : String
  pub token_hash : String
  pub expires_at : ℕ
  pub revoked : Bool

pub record MfaToken : Type 0 where
  pub token_hash : String
  pub user_id : String
  pub expires_at : ℕ

pub record RecoveryCode : Type 0 where
  pub user_id : String
  pub code_hash : String
  pub used : Bool

pub record Db : Type 0 where
  pub users : List User
  pub refresh_tokens : List RefreshToken
  pub mfa_tokens : List MfaToken
  pub recovery_codes : List RecoveryCode

-- The statements of the store, each of which may fail.
pub data Query : Type 0 where
  get_user record_failed read_failed lock clear_failed last_login count_all insert_user set_user :
      Query
  remove_user save_refresh get_refresh revoke_refresh revoke_all save_mfa get_mfa revoke_mfa : Query
  get_secret set_secret enable disable clear_codes save_code check_code use_code : Query

pub data AuthError : Type 0 where
  invalid_credentials user_disabled account_locked setup_complete invalid_token user_not_found :
      AuthError
  invalid_mfa_code mfa_not_enabled no_rows duplicate weak_password crypto : AuthError
  database : Query → AuthError

abbrev pub Action : Type 0 → Type 0
Action A = Db → Result AuthError A × Db

infixl 5 ◌>>=◌ ◌>>◌
abbrev pub ◌>>=◌ : {A B : Type 0} → Action A → (A → Action B) → Action B
◌>>=◌ m f db = let (r, db') = m db in elim r [ ok a ↦ f a db' | err e ↦ (err e, db') ]

abbrev pub ◌>>◌ : {A B : Type 0} → Action A → Action B → Action B
m >> k = m >>= λ _. k

abbrev pub replaced : AuthError → AuthError → AuthError
replaced e no_rows = e
replaced e other = other

module _ {A : Type 0} where
  abbrev pub pure : A → Action A
  pure a db = (ok a, db)

  abbrev pub raise : AuthError → Action A
  raise e db = (err e, db)

  abbrev pub or_raise : AuthError → Option A → Action A
  or_raise e none = raise e
  or_raise e (some a) = pure a

  -- `if errors.Is(err, sql.ErrNoRows) { return e }`.
  abbrev pub without_rows : AuthError → Action A → Action A
  without_rows e m db =
      let (r, db') = m db in elim r [ ok a ↦ (ok a, db') | err x ↦ (err (replaced e x), db') ]

  -- `_ = …` and errors that are only logged.
  abbrev pub ignoring : Action A → Action Unit
  ignoring m db = (ok tt, (m db).1)

abbrev pub raise_if : Bool → AuthError → Action Unit
raise_if c e db = (if c then err e else ok tt, db)

abbrev pub modify : (Db → Db) → Action Unit
modify f db = (ok tt, f db)

abbrev pub when : Bool → Action Unit → Action Unit
when c m db = if c then m db else (ok tt, db)
