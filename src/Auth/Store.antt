-- ===== src/Auth/Store.antt =====
-- internal/auth/store.go. What the world decides in a call is its `World`: the time, which statements
-- fail, and what the generators of tokens and IDs deliver.
pub mod Mfa
pub mod Rows
use subnetree.Prelude.{
  ℕ, ◌+◌, ◌<◌, String, Bool, true, false, not, ◌&&◌, ◌||◌, List, [], ◌∷◌, ◌++◌, map, Option, none,
  some, ◌==◌, nat_eq, string_eq, leb, ltb, if◌then◌else◌, keep, length, Result, ok, err,
}
use subnetree.Auth.Monad.{
  User, RefreshToken, MfaToken, RecoveryCode, Db, Query, AuthError, database, no_rows, duplicate,
  Action, ◌>>=◌, ◌>>◌, pure, raise, or_raise, raise_if, modify,
}

pub record World : Type 0 where
  pub now : ℕ
  pub fails : Query → Bool
  pub access_token : User → Option String
  pub raw_refresh : Option String
  pub new_id : String
  pub mfa_token : String → Option String

-- One statement: it fails, or the rest goes on.
abbrev pub query : World → Query → Action Unit
query w q = raise_if (w.fails q) (database q)

-- The first row that passes a test.
abbrev pub find {ℓ} : {A : Type ℓ} → (A → Bool) → List A → Option A
find test [] = none
find test (x ∷ xs) = if test x then some x else find test xs

-- `UPDATE auth_users SET … WHERE id = ?`.
abbrev pub update_user : String → (User → User) → List User → List User
update_user id f [] = []
update_user id f (u ∷ us) = (if u.id == id then f u else u) ∷ update_user id f us

abbrev pub set_user_row : String → (User → User) → Action Unit
set_user_row id f = modify λ db. record db { users = update_user id f db.users }

abbrev user_where : World → (User → Bool) → Action User
user_where w test db =
    if w.fails Query.get_user
    then (err (database Query.get_user), db)
    else elim (find test db.users) [ none ↦ (err no_rows, db) | some u ↦ (ok u, db) ]

unfoldable pub get_user_by_id : World → String → Action User
get_user_by_id w id = user_where w (λ u. u.id == id)

unfoldable pub get_user_by_username : World → String → Action User
get_user_by_username w name = user_where w (λ u. u.username == name)

-- The ID, the name and the address are unique columns.
unfoldable pub create_user : World → User → Action Unit
create_user w u db =
    if w.fails Query.insert_user
    then (err (database Query.insert_user), db)
    else elim (find (λ v. v.id == u.id || (v.username == u.username || v.email == u.email))
        db.users) [
          | none ↦ (ok tt, record db { users = db.users ++ u ∷ [] })
          | some _ ↦ (err duplicate, db)
        ]

unfoldable pub update_user_fields : World → User → Action Unit
update_user_fields w u = do
  query w Query.set_user
  set_user_row u.id (λ v. record v { email = u.email; role = u.role; disabled = u.disabled })

unfoldable pub update_last_login : World → String → Action Unit
update_last_login w id = do
  query w Query.last_login
  set_user_row id (λ u. record u { last_login = some w.now })

-- Refresh tokens and recovery codes refer to the user ON DELETE CASCADE; MFA tokens do not.
unfoldable pub delete_user_row : World → String → Action Unit
delete_user_row w id db =
    if w.fails Query.remove_user
    then (err (database Query.remove_user), db)
    else elim (find (λ u. u.id == id) db.users) [
      | none ↦ (err no_rows, db)
      | some _ ↦ (
        ok tt,
        record db {
          users = keep (λ u. not (u.id == id)) db.users;
          refresh_tokens = keep (λ t. not (t.user_id == id)) db.refresh_tokens;
          recovery_codes = keep (λ c. not (c.user_id == id)) db.recovery_codes;
        },
      )
    ]

unfoldable pub count_users : World → Action ℕ
count_users w db =
    if w.fails Query.count_all
    then (err (database Query.count_all), db)
    else (ok (length db.users), db)

-- The hash is a unique column.
unfoldable pub save_refresh_token : World → RefreshToken → Action Unit
save_refresh_token w t db =
    if w.fails Query.save_refresh
    then (err (database Query.save_refresh), db)
    else elim (find (λ s. s.id == t.id || s.token_hash == t.token_hash) db.refresh_tokens) [
      | none ↦ (ok tt, record db { refresh_tokens = db.refresh_tokens ++ t ∷ [] })
      | some _ ↦ (err duplicate, db)
    ]

unfoldable pub get_refresh_token : World → String → Action RefreshToken
get_refresh_token w hash db =
    if w.fails Query.get_refresh
    then (err (database Query.get_refresh), db)
    else elim (find (λ t. t.token_hash == hash) db.refresh_tokens) [
      | none ↦ (err no_rows, db)
      | some t ↦ (ok t, db)
    ]

-- `UPDATE auth_refresh_tokens SET revoked = 1 WHERE …`.
abbrev pub revoke_where : (RefreshToken → Bool) → List RefreshToken → List RefreshToken
revoke_where test [] = []
revoke_where test (t ∷ ts) =
    (if test t then record t { revoked = true } else t) ∷ revoke_where test ts

unfoldable pub revoke_refresh_token : World → String → Action Unit
revoke_refresh_token w id = do
  query w Query.revoke_refresh
  modify λ db. record db { refresh_tokens = revoke_where (λ t. t.id == id) db.refresh_tokens }

unfoldable pub revoke_user_refresh_tokens : World → String → Action Unit
revoke_user_refresh_tokens w user_id = do
  query w Query.revoke_all
  modify λ db. record db {
    refresh_tokens = revoke_where (λ t. t.user_id == user_id) db.refresh_tokens;
  }

unfoldable pub clean_expired_tokens : World → Action Unit
clean_expired_tokens w = modify λ db. record db {
  refresh_tokens = keep (λ t. not (ltb t.expires_at w.now || t.revoked)) db.refresh_tokens;
}

-- The counter after the increment; the second statement reads it.
unfoldable pub record_failed_login : World → String → Action ℕ
unfolding get_user_by_id
record_failed_login w id = do
  query w Query.record_failed
  set_user_row id (λ u. record u { failed_login_attempts = u.failed_login_attempts + 1 })
  query w Query.read_failed
  λ db. elim (find (λ u. u.id == id) db.users) [
    | none ↦ (err no_rows, db)
    | some u ↦ (ok u.failed_login_attempts, db)
  ]

unfoldable pub lock_account : World → String → ℕ → Action Unit
lock_account w id until = do
  query w Query.lock
  set_user_row id (λ u. record u { locked_until = some until })

unfoldable pub clear_failed_logins : World → String → Action Unit
clear_failed_logins w id = do
  query w Query.clear_failed
  set_user_row id (λ u. record u { failed_login_attempts = 0; locked_until = none })
