-- ===== src/Auth/Store/Mfa.antt =====
-- The statements of internal/auth/store.go about the second factor.
use subnetree.Prelude.{
  String, Bool, true, false, not, ◌&&◌, List, [], ◌∷◌, ◌++◌, none, some, ◌==◌, string_eq, ltb,
  if◌then◌else◌, keep, ok, err,
}
use subnetree.Auth.Monad.{
  MfaToken, RecoveryCode, Query, database, no_rows, duplicate, invalid_token, Action, ◌>>◌, pure,
  modify,
}
use subnetree.Auth.Store.{World, query, find, set_user_row}

-- A NULL column reads as the empty text.
unfoldable pub get_totp_secret : World → String → Action String
get_totp_secret w id db =
    if w.fails Query.get_secret
    then (err (database Query.get_secret), db)
    else elim (find (λ u. u.id == id) db.users) [
      | none ↦ (err no_rows, db)
      | some u ↦ (ok (elim u.totp_secret [ none ↦ "" | some s ↦ s ]), db)
    ]

unfoldable pub set_totp_secret : World → String → String → Action Unit
set_totp_secret w id secret = do
  query w Query.set_secret
  set_user_row id (λ u. record u { totp_secret = some secret })

unfoldable pub enable_totp : World → String → Action Unit
enable_totp w id = do
  query w Query.enable
  set_user_row id (λ u. record u { totp_enabled = true; totp_verified = true })

abbrev pub drop_codes : String → Action Unit
drop_codes id =
    modify λ db. record db { recovery_codes = keep (λ c. not (c.user_id == id)) db.recovery_codes }

unfoldable pub disable_totp : World → String → Action Unit
disable_totp w id = do
  query w Query.disable
  set_user_row id
      (λ u. record u { totp_enabled = false; totp_verified = false; totp_secret = none })
  query w Query.clear_codes
  drop_codes id

unfoldable pub insert_codes : World → String → List String → Action Unit
insert_codes w id [] = pure tt
insert_codes w id (h ∷ hs) = do
  query w Query.save_code
  modify λ db. record db {
    recovery_codes = db.recovery_codes ++ record { user_id = id; code_hash = h; used = false } ∷ [];
  }
  insert_codes w id hs

-- The old codes go first.
unfoldable pub save_recovery_codes : World → String → List String → Action Unit
unfolding insert_codes
save_recovery_codes w id hashes = do
  query w Query.clear_codes
  drop_codes id
  insert_codes w id hashes

unfoldable pub validate_recovery_code : World → String → String → Action Bool
validate_recovery_code w id hash db =
    if w.fails Query.check_code then (err (database Query.check_code), db) else (
      ok
          (elim (find (λ c. c.user_id == id && (c.code_hash == hash && not c.used))
            db.recovery_codes) [ none ↦ false | some _ ↦ true ]),
      db,
    )

abbrev pub use_codes : String → List RecoveryCode → List RecoveryCode
use_codes hash [] = []
use_codes hash (c ∷ cs) =
    (if c.code_hash == hash then record c { used = true } else c) ∷ use_codes hash cs

unfoldable pub mark_recovery_code_used : World → String → Action Unit
mark_recovery_code_used w hash = do
  query w Query.use_code
  modify λ db. record db { recovery_codes = use_codes hash db.recovery_codes }

-- The hash is the primary key.
unfoldable pub save_mfa_token : World → MfaToken → Action Unit
save_mfa_token w t db =
    if w.fails Query.save_mfa
    then (err (database Query.save_mfa), db)
    else elim (find (λ s. s.token_hash == t.token_hash) db.mfa_tokens) [
      | none ↦ (ok tt, record db { mfa_tokens = db.mfa_tokens ++ t ∷ [] })
      | some _ ↦ (err duplicate, db)
    ]

-- The user of a token that has not expired.
unfoldable pub get_mfa_token : World → String → Action String
get_mfa_token w hash db =
    if w.fails Query.get_mfa
    then (err (database Query.get_mfa), db)
    else elim (find (λ t. t.token_hash == hash) db.mfa_tokens) [
      | none ↦ (err no_rows, db)
      | some t ↦ if ltb t.expires_at w.now then (err invalid_token, db) else (ok t.user_id, db)
    ]

unfoldable pub revoke_mfa_token : World → String → Action Unit
revoke_mfa_token w hash = do
  query w Query.revoke_mfa
  modify λ db. record db { mfa_tokens = keep (λ t. not (t.token_hash == hash)) db.mfa_tokens }
