-- ===== src/Auth/Service/Once/Calls.antt =====
-- Every call of the service leaves a hash without a row, where it issues no token of the hash.
use subnetree.Prelude.{
  String, Bool, false, ◌&&◌, List, Option, some, ◌≡◌, ◌==◌, string_eq, arith, Bool-cases, inl, inr,
}
use subnetree.Auth.Monad.{User, RefreshToken}
use subnetree.Auth.Monad.Keeping.{IsKept, or_raise_bind-IsKept, keeping}
use subnetree.Auth.Monad.Binds.{outcome_cases}
use subnetree.Auth.Store.{World, get_refresh_token}
use subnetree.Auth.Service.{
  Primitives, issue_token_pair, challenge, open_session, complete_login, handle_failed_login,
  check_login, login, first_account, setup, reissue, rotate, refresh, logout, edit_user,
  update_user_account, delete_user,
}
use subnetree.Auth.Service.Mfa.{
  mfa_user, complete_mfa_login, complete_mfa_with_recovery, setup_totp, check_totp,
  verify_totp_setup, disable_totp_account,
}
use subnetree.Auth.Service.Once.Gone.{
  IsGone, get_refresh_token-IsGone, revoke_refresh_token-IsGone, rows,
}
use subnetree.Auth.Service.Rotation.Calls.{or_else-IsKept}
use subnetree.Auth.Service.Once.Factor.{save_mfa_token-IsGone, factor_rows}

-- The token for the second step that the call may make has another hash.
abbrev pub IsOther : Primitives → String → World → Type 0
IsOther p h w =
    (id token : String) → w.mfa_token id ≡ some token → (p.hash_token token == h) ≡ false

module _ (p : Primitives) (h : String) (w : World) where
  pub handle_failed_login-IsGone : (u : User) → IsKept (IsGone h) (handle_failed_login p w u)
  unfolding handle_failed_login
  handle_failed_login-IsGone u = search rows depth 20

  pub issue_token_pair-IsGone : (u : User) → IsKept (IsGone h) (issue_token_pair p w u)
  unfolding issue_token_pair
  issue_token_pair-IsGone u = search (rows)

  challenge-IsGone : (u : User) → IsOther p h w → IsKept (IsGone h) (challenge p w u)
  unfolding challenge
  challenge-IsGone u f = search (or_raise_bind-IsKept, rows, save_mfa_token-IsGone)

  pub open_session-IsGone : (u : User) → IsKept (IsGone h) (open_session p w u)
  unfolding open_session
  open_session-IsGone u = search (rows, issue_token_pair-IsGone)

  complete_login-IsGone : (u : User) → IsOther p h w → IsKept (IsGone h) (complete_login p w u)
  unfolding complete_login
  complete_login-IsGone u f = elim (Bool-cases (u.totp_enabled && u.totp_verified)) [
    | inl t ↦ rw t (search (rows, challenge-IsGone) depth 20)
    | inr n ↦ rw n (search (rows, open_session-IsGone) depth 20)
  ]

  check_login-IsGone :
      (password : String) (u : User)
      → IsOther p h w
      → IsKept (IsGone h) (check_login p w password u)
  unfolding check_login
  check_login-IsGone password u f = elim (Bool-cases (p.check_password u.password_hash password)) [
    | inl t ↦ rw t (search (rows, complete_login-IsGone) depth 20)
    | inr n ↦ rw n (search (rows, handle_failed_login-IsGone) depth 20)
  ]

  pub login-IsGone :
      (name password : String) → IsOther p h w → IsKept (IsGone h) (login p w name password)
  unfolding login
  login-IsGone name password f = search (rows, check_login-IsGone)

  first_account-IsGone :
      (name email password : String) → IsKept (IsGone h) (first_account p w name email password)
  unfolding first_account
  first_account-IsGone name email password = search rows depth 20

  pub setup-IsGone :
      (name email password : String) → IsKept (IsGone h) (setup p w name email password)
  unfolding setup
  setup-IsGone name email password = search (rows, first_account-IsGone) depth 20

  pub reissue-IsGone : (id : String) → IsKept (IsGone h) (reissue p w id)
  unfolding reissue
  reissue-IsGone id = search (rows, issue_token_pair-IsGone)

  rotate-IsGone : (rt : RefreshToken) → IsKept (IsGone h) (rotate p w rt)
  unfolding rotate
  rotate-IsGone rt = search (rows, reissue-IsGone) depth 20

  pub refresh-IsGone : (token : String) → IsKept (IsGone h) (refresh p w token)
  unfolding refresh
  refresh-IsGone token = search (rows, rotate-IsGone) depth 20

  pub logout-IsGone : (token : String) → IsKept (IsGone h) (logout p w token)
  unfolding logout
  logout-IsGone token = record {
    kept = λ db s.
        let looked : IsGone h (get_refresh_token w (p.hash_token token) db).1 =
          (get_refresh_token-IsGone h w (p.hash_token token)).kept db s in
        elim (outcome_cases (get_refresh_token w (p.hash_token token) db).0) [
          | inl (rt, o) ↦
              rw (logout, o)
                ((revoke_refresh_token-IsGone h w rt.id).kept
                  (get_refresh_token w (p.hash_token token) db).1 looked)
          | inr (x, o) ↦ rw (logout, o) (ground (arith, looked))
        ];
  }

  edit_user-IsGone :
      (id email role : String) (disabled : Bool) (u : User)
      → IsKept (IsGone h) (edit_user p w id email role disabled u)
  unfolding edit_user
  edit_user-IsGone id email role disabled u = search rows depth 20

  pub update_user_account-IsGone :
      (id email role : String) (disabled : Bool)
      → IsKept (IsGone h) (update_user_account p w id email role disabled)
  unfolding update_user_account
  update_user_account-IsGone id email role disabled = search (rows, edit_user-IsGone) depth 20

  pub delete_user-IsGone : (id : String) → IsKept (IsGone h) (delete_user p w id)
  unfolding delete_user
  delete_user-IsGone id = search rows

  mfa_user-IsGone : (token : String) → IsKept (IsGone h) (mfa_user p w token)
  unfolding mfa_user
  mfa_user-IsGone token = search (rows, factor_rows, or_else-IsKept) depth 20

  pub complete_mfa_login-IsGone :
      (token code : String) → IsKept (IsGone h) (complete_mfa_login p w token code)
  unfolding complete_mfa_login
  complete_mfa_login-IsGone token code =
      search (rows, factor_rows, or_else-IsKept, mfa_user-IsGone, open_session-IsGone) depth 20

  pub complete_mfa_with_recovery-IsGone :
      (token code : String) → IsKept (IsGone h) (complete_mfa_with_recovery p w token code)
  unfolding complete_mfa_with_recovery
  complete_mfa_with_recovery-IsGone token code =
      search (rows, factor_rows, or_else-IsKept, mfa_user-IsGone, open_session-IsGone) depth 20

  pub setup_totp-IsGone :
      (made : Option (String × String)) (codes : Option (List String)) (id : String)
      → IsKept (IsGone h) (setup_totp p w made codes id)
  unfolding setup_totp
  setup_totp-IsGone made codes id = search (rows, factor_rows) depth 20

  check_totp-IsGone : (id code : String) → IsKept (IsGone h) (check_totp p w id code)
  unfolding check_totp
  check_totp-IsGone id code = search (rows, factor_rows) depth 20

  pub verify_totp_setup-IsGone :
      (id code : String) → IsKept (IsGone h) (verify_totp_setup p w id code)
  unfolding verify_totp_setup
  verify_totp_setup-IsGone id code = search (factor_rows, keeping, check_totp-IsGone)

  pub disable_totp_account-IsGone :
      (id code : String) → IsKept (IsGone h) (disable_totp_account p w id code)
  unfolding disable_totp_account
  disable_totp_account-IsGone id code = search (factor_rows, keeping, check_totp-IsGone)
