-- ===== src/Auth/Service/Rotation/Factor.antt =====
-- The statements about the second factor leave the refresh tokens alone.
use subnetree.Prelude.{String, List, [], ◌∷◌, ◌≡◌, arith}
use subnetree.Auth.Monad.{MfaToken, Db, modify}
use subnetree.Auth.Monad.Keeping.{IsKept, keeping}
use subnetree.Auth.Store.{World}
use subnetree.Auth.Store.Mfa.{
  get_totp_secret, set_totp_secret, enable_totp, disable_totp, insert_codes, save_recovery_codes,
  validate_recovery_code, mark_recovery_code_used, save_mfa_token, get_mfa_token, revoke_mfa_token,
}
use subnetree.Auth.Service.Rotation.Spent.{IsSpent, apart-IsKept}

module _ (h : String) (w : World) where
  pub get_totp_secret-IsKept : (id : String) → IsKept (IsSpent h) (get_totp_secret w id)
  unfolding get_totp_secret
  get_totp_secret-IsKept id = apart-IsKept h w (get_totp_secret w id) (λ db. ground arith)

  pub set_totp_secret-IsKept :
      (id : String) (secret : String) → IsKept (IsSpent h) (set_totp_secret w id secret)
  unfolding set_totp_secret
  set_totp_secret-IsKept id secret =
      apart-IsKept h w (set_totp_secret w id secret) (λ db. ground arith)

  pub enable_totp-IsKept : (id : String) → IsKept (IsSpent h) (enable_totp w id)
  unfolding enable_totp
  enable_totp-IsKept id = apart-IsKept h w (enable_totp w id) (λ db. ground arith)

  pub disable_totp-IsKept : (id : String) → IsKept (IsSpent h) (disable_totp w id)
  unfolding disable_totp
  disable_totp-IsKept id = apart-IsKept h w (disable_totp w id) (λ db. ground arith)

  pub validate_recovery_code-IsKept :
      (id : String) (code : String) → IsKept (IsSpent h) (validate_recovery_code w id code)
  unfolding validate_recovery_code
  validate_recovery_code-IsKept id code =
      apart-IsKept h w (validate_recovery_code w id code) (λ db. ground arith)

  pub mark_recovery_code_used-IsKept :
      (code : String) → IsKept (IsSpent h) (mark_recovery_code_used w code)
  unfolding mark_recovery_code_used
  mark_recovery_code_used-IsKept code =
      apart-IsKept h w (mark_recovery_code_used w code) (λ db. ground arith)

  pub save_mfa_token-IsKept : (t : MfaToken) → IsKept (IsSpent h) (save_mfa_token w t)
  unfolding save_mfa_token
  save_mfa_token-IsKept t = apart-IsKept h w (save_mfa_token w t) (λ db. ground arith)

  pub get_mfa_token-IsKept : (hash : String) → IsKept (IsSpent h) (get_mfa_token w hash)
  unfolding get_mfa_token
  get_mfa_token-IsKept hash = apart-IsKept h w (get_mfa_token w hash) (λ db. ground arith)

  pub revoke_mfa_token-IsKept : (hash : String) → IsKept (IsSpent h) (revoke_mfa_token w hash)
  unfolding revoke_mfa_token
  revoke_mfa_token-IsKept hash = apart-IsKept h w (revoke_mfa_token w hash) (λ db. ground arith)

  modify-IsKept :
      (f : Db → Db)
      → ((db : Db) → (f db).refresh_tokens ≡ db.refresh_tokens)
      → IsKept (IsSpent h) (modify f)
  modify-IsKept f same = apart-IsKept h w (modify f) same

  insert_codes-IsKept : (id : String) (hs : List String) → IsKept (IsSpent h) (insert_codes w id hs)
  unfolding insert_codes
  insert_codes-IsKept id [] = search keeping
  insert_codes-IsKept id (c ∷ cs) =
      let rest = insert_codes-IsKept id cs in search (keeping, modify-IsKept)

  pub save_recovery_codes-IsKept :
      (id : String) (hs : List String) → IsKept (IsSpent h) (save_recovery_codes w id hs)
  unfolding save_recovery_codes
  save_recovery_codes-IsKept id hs = search (keeping, modify-IsKept, insert_codes-IsKept)

pub ruleset factors = (
  get_totp_secret-IsKept, set_totp_secret-IsKept, enable_totp-IsKept, disable_totp-IsKept,
  validate_recovery_code-IsKept, mark_recovery_code_used-IsKept, save_mfa_token-IsKept,
  get_mfa_token-IsKept, revoke_mfa_token-IsKept, save_recovery_codes-IsKept,
)
