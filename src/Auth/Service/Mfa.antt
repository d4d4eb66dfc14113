-- ===== src/Auth/Service/Mfa.antt =====
-- The second factor of internal/auth/service.go.
use subnetree.Prelude.{String, not, List, Option, map, ◌==◌, string_eq, ok, err}
use subnetree.Auth.Monad.{
  AuthError, invalid_mfa_code, mfa_not_enabled, crypto, Action, ◌>>=◌, ◌>>◌, pure, or_raise,
  raise_if, ignoring,
}
use subnetree.Auth.Store.{World, get_user_by_id}
use subnetree.Auth.Store.Mfa.{
  get_totp_secret, set_totp_secret, enable_totp, disable_totp, save_recovery_codes,
  validate_recovery_code, mark_recovery_code_used, get_mfa_token, revoke_mfa_token,
}
use subnetree.Auth.Service.{Primitives, TokenPair, open_session}

-- Every error becomes one.
abbrev pub or_else : {A : Type 0} → AuthError → Action A → Action A
or_else e m db = let (r, db') = m db in elim r [ ok a ↦ (ok a, db') | err _ ↦ (err e, db') ]

module _ (p : Primitives) where
  -- The user that a token of the first step is for: the token is genuine and stored.
  unfoldable pub mfa_user : World → String → Action String
  unfolding get_mfa_token
  mfa_user w token = do
    id ← or_raise invalid_mfa_code (p.validate_mfa_token w.now token)
    stored ← or_else invalid_mfa_code (get_mfa_token w (p.hash_token token))
    raise_if (not (stored == id)) invalid_mfa_code
    pure id

  unfoldable pub complete_mfa_login : World → String → String → Action TokenPair
  unfolding mfa_user get_user_by_id get_totp_secret revoke_mfa_token open_session
  complete_mfa_login w token code = do
    id ← mfa_user w token
    user ← get_user_by_id w id
    encrypted ← or_else mfa_not_enabled (get_totp_secret w id)
    raise_if (encrypted == "") mfa_not_enabled
    secret ← or_raise crypto (p.decrypt encrypted)
    raise_if (not (p.validate_totp w.now code secret)) invalid_mfa_code
    ignoring (revoke_mfa_token w (p.hash_token token))
    open_session p w user

  unfoldable pub complete_mfa_with_recovery : World → String → String → Action TokenPair
  unfolding mfa_user validate_recovery_code mark_recovery_code_used revoke_mfa_token get_user_by_id
      open_session
  complete_mfa_with_recovery w token code = do
    id ← mfa_user w token
    valid ← or_else invalid_mfa_code (validate_recovery_code w id (p.hash_token code))
    raise_if (not valid) invalid_mfa_code
    ignoring (mark_recovery_code_used w (p.hash_token code))
    ignoring (revoke_mfa_token w (p.hash_token token))
    user ← get_user_by_id w id
    open_session p w user

  -- What totp.Generate and the generator of recovery codes deliver are arguments.
  unfoldable pub setup_totp :
      World
      → Option (String × String)
      → Option (List String)
      → String
      → Action (String × List String)
  unfolding get_user_by_id set_totp_secret save_recovery_codes
  setup_totp w generated codes id = do
    user ← get_user_by_id w id
    made ← or_raise crypto generated
    encrypted ← or_raise crypto (p.encrypt made.0)
    set_totp_secret w id encrypted
    plain ← or_raise crypto codes
    save_recovery_codes w id (map p.hash_token plain)
    pure (made.1, plain)

  -- The code belongs to the stored secret.
  unfoldable pub check_totp : World → String → String → Action Unit
  unfolding get_totp_secret
  check_totp w id code = do
    encrypted ← get_totp_secret w id
    raise_if (encrypted == "") mfa_not_enabled
    secret ← or_raise crypto (p.decrypt encrypted)
    raise_if (not (p.validate_totp w.now code secret)) invalid_mfa_code

  unfoldable pub verify_totp_setup : World → String → String → Action Unit
  unfolding check_totp enable_totp
  verify_totp_setup w id code = do check_totp w id code; enable_totp w id

  unfoldable pub disable_totp_account : World → String → String → Action Unit
  unfolding check_totp disable_totp
  disable_totp_account w id code = do check_totp w id code; disable_totp w id
