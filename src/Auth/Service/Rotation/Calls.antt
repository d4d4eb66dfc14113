-- ===== src/Auth/Service/Rotation/Calls.antt =====
-- Every call of the service keeps a spent hash spent, with fresh tokens.
use subnetree.Prelude.{
  String, Bool, true, false, ◌&&◌, List, Option, some, ◌≡◌, refl, sym, subst, ◌==◌, string_eq,
  arith, Bool-cases, inl, inr,
}
use subnetree.Auth.Monad.{User, RefreshToken, Db, AuthError, Action}
use subnetree.Auth.Monad.Keeping.{IsKept, or_raise_bind-IsKept, keeping}
use subnetree.Auth.Monad.Binds.{outcome_cases}
use subnetree.Auth.Store.{World, get_refresh_token}
use subnetree.Auth.Service.{
  Primitives, issue_token_pair, challenge, open_session, complete_login, handle_failed_login,
  check_login, login, first_account, setup, reissue, rotate, refresh, logout, edit_user,
  update_user_account, delete_user,
}
use subnetree.Auth.Service.Mfa.{
  or_else, mfa_user, complete_mfa_login, complete_mfa_with_recovery, setup_totp, check_totp,
  verify_totp_setup, disable_totp_account,
}
use subnetree.Auth.Service.Rotation.Spent.{
  is_spent, IsSpent, get_refresh_token-IsKept, revoke_refresh_token-IsKept,
  save_refresh_token-IsKept, statements,
}
use subnetree.Auth.Service.Rotation.Factor.{factors}

-- The generator's next refresh token has another hash.
abbrev pub IsFresh : Primitives → String → World → Type 0
IsFresh p h w = (raw : String) → w.raw_refresh ≡ some raw → (p.hash_token raw == h) ≡ false

module _ {P : Db → Type 0} where
  pub or_else-IsKept :
      {A : Type 0} (e : AuthError) (m : Action A) → IsKept P m → IsKept P (or_else e m)
  or_else-IsKept e m k = record {
    kept = λ db s. elim (outcome_cases (m db).0) [
      | inl (a, o) ↦ subst P (sym (rw (or_else, o) refl)) (k.kept db s)
      | inr (x, o) ↦ subst P (sym (rw (or_else, o) refl)) (k.kept db s)
    ];
  }

module _ (p : Primitives) (h : String) (w : World) where
  pub handle_failed_login-IsKept : (u : User) → IsKept (IsSpent h) (handle_failed_login p w u)
  unfolding handle_failed_login
  handle_failed_login-IsKept u = search statements depth 20

  pub issue_token_pair-IsKept :
      (u : User) → IsFresh p h w → IsKept (IsSpent h) (issue_token_pair p w u)
  unfolding issue_token_pair
  issue_token_pair-IsKept u f = search (or_raise_bind-IsKept, statements, save_refresh_token-IsKept)

  challenge-IsKept : (u : User) → IsKept (IsSpent h) (challenge p w u)
  unfolding challenge
  challenge-IsKept u = search (keeping, factors)

  pub open_session-IsKept : (u : User) → IsFresh p h w → IsKept (IsSpent h) (open_session p w u)
  unfolding open_session
  open_session-IsKept u f = search (statements, issue_token_pair-IsKept)

  complete_login-IsKept : (u : User) → IsFresh p h w → IsKept (IsSpent h) (complete_login p w u)
  unfolding complete_login
  complete_login-IsKept u f = elim (Bool-cases (u.totp_enabled && u.totp_verified)) [
    | inl t ↦ rw t (search (statements, challenge-IsKept) depth 20)
    | inr n ↦ rw n (search (statements, open_session-IsKept) depth 20)
  ]

  check_login-IsKept :
      (password : String) (u : User)
      → IsFresh p h w
      → IsKept (IsSpent h) (check_login p w password u)
  unfolding check_login
  check_login-IsKept password u f = elim (Bool-cases (p.check_password u.password_hash password)) [
    | inl t ↦ rw t (search (statements, complete_login-IsKept) depth 20)
    | inr n ↦ rw n (search (statements, handle_failed_login-IsKept) depth 20)
  ]

  pub login-IsKept :
      (name password : String) → IsFresh p h w → IsKept (IsSpent h) (login p w name password)
  unfolding login
  login-IsKept name password f = search (statements, check_login-IsKept)

  first_account-IsKept :
      (name email password : String) → IsKept (IsSpent h) (first_account p w name email password)
  unfolding first_account
  first_account-IsKept name email password = search statements depth 20

  pub setup-IsKept :
      (name email password : String) → IsKept (IsSpent h) (setup p w name email password)
  unfolding setup
  setup-IsKept name email password = search (statements, first_account-IsKept) depth 20

  pub reissue-IsKept : (id : String) → IsFresh p h w → IsKept (IsSpent h) (reissue p w id)
  unfolding reissue
  reissue-IsKept id f = search (statements, issue_token_pair-IsKept)

  rotate-IsKept : (rt : RefreshToken) → IsFresh p h w → IsKept (IsSpent h) (rotate p w rt)
  unfolding rotate
  rotate-IsKept rt f = search (statements, reissue-IsKept) depth 20

  pub refresh-IsKept : (token : String) → IsFresh p h w → IsKept (IsSpent h) (refresh p w token)
  unfolding refresh
  refresh-IsKept token f = search (statements, rotate-IsKept) depth 20

  pub logout-IsKept : (token : String) → IsKept (IsSpent h) (logout p w token)
  unfolding logout
  logout-IsKept token = record {
    kept = λ db s.
        let looked : is_spent h (get_refresh_token w (p.hash_token token) db).1.refresh_tokens
            ≡ true =
          (get_refresh_token-IsKept h w (p.hash_token token)).kept db s in
        elim (outcome_cases (get_refresh_token w (p.hash_token token) db).0) [
          | inl (rt, o) ↦
              rw (logout, o)
                ((revoke_refresh_token-IsKept h w rt.id).kept
                  (get_refresh_token w (p.hash_token token) db).1 looked)
          | inr (x, o) ↦ rw (logout, o) (ground (arith, looked))
        ];
  }

  edit_user-IsKept :
      (id email role : String) (disabled : Bool) (u : User)
      → IsKept (IsSpent h) (edit_user p w id email role disabled u)
  unfolding edit_user
  edit_user-IsKept id email role disabled u = search statements depth 20

  pub update_user_account-IsKept :
      (id email role : String) (disabled : Bool)
      → IsKept (IsSpent h) (update_user_account p w id email role disabled)
  unfolding update_user_account
  update_user_account-IsKept id email role disabled = search (statements, edit_user-IsKept) depth 20

  pub delete_user-IsKept : (id : String) → IsKept (IsSpent h) (delete_user p w id)
  unfolding delete_user
  delete_user-IsKept id = search statements

  mfa_user-IsKept : (token : String) → IsKept (IsSpent h) (mfa_user p w token)
  unfolding mfa_user
  mfa_user-IsKept token = search (statements, factors, or_else-IsKept) depth 20

  pub complete_mfa_login-IsKept :
      (token code : String) → IsFresh p h w → IsKept (IsSpent h) (complete_mfa_login p w token code)
  unfolding complete_mfa_login
  complete_mfa_login-IsKept token code f =
      search (statements, factors, or_else-IsKept, mfa_user-IsKept, open_session-IsKept) depth 20

  pub complete_mfa_with_recovery-IsKept :
      (token code : String)
      → IsFresh p h w
      → IsKept (IsSpent h) (complete_mfa_with_recovery p w token code)
  unfolding complete_mfa_with_recovery
  complete_mfa_with_recovery-IsKept token code f =
      search (statements, factors, or_else-IsKept, mfa_user-IsKept, open_session-IsKept) depth 20

  pub setup_totp-IsKept :
      (made : Option (String × String)) (codes : Option (List String)) (id : String)
      → IsKept (IsSpent h) (setup_totp p w made codes id)
  unfolding setup_totp
  setup_totp-IsKept made codes id = search (statements, factors) depth 20

  check_totp-IsKept : (id code : String) → IsKept (IsSpent h) (check_totp p w id code)
  unfolding check_totp
  check_totp-IsKept id code = search (statements, factors) depth 20

  pub verify_totp_setup-IsKept :
      (id code : String) → IsKept (IsSpent h) (verify_totp_setup p w id code)
  unfolding verify_totp_setup
  verify_totp_setup-IsKept id code = search (factors, keeping, check_totp-IsKept)

  pub disable_totp_account-IsKept :
      (id code : String) → IsKept (IsSpent h) (disable_totp_account p w id code)
  unfolding disable_totp_account
  disable_totp_account-IsKept id code = search (factors, keeping, check_totp-IsKept)
