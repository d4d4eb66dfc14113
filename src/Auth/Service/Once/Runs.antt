-- ===== src/Auth/Service/Once/Runs.antt =====
-- Sequences of calls of the service that issue no token of a hash.
use subnetree.Prelude.{String, List, [], ◌∷◌}
use subnetree.Auth.Monad.{Db}
use subnetree.Auth.Store.{World}
use subnetree.Auth.Service.{Primitives}
use subnetree.Auth.Service.Rotation.{
  Call, log_in, refresh_pair, log_out, remove, set_up, change, second_factor, recovery, enrol,
  verify, switch_off, clean, serve, serve_all,
}
use subnetree.Auth.Service.Once.Gone.{IsGone, clean_expired_tokens-IsGone}
use subnetree.Auth.Service.Once.Calls.{
  IsOther, login-IsGone, setup-IsGone, refresh-IsGone, logout-IsGone, update_user_account-IsGone,
  delete_user-IsGone, complete_mfa_login-IsGone, complete_mfa_with_recovery-IsGone,
  setup_totp-IsGone, verify_totp_setup-IsGone, disable_totp_account-IsGone,
}

module _ (p : Primitives) (h : String) where
  -- No call issues a token for the second step with the hash.
  abbrev pub AreOther : List (World × Call) → Type 0
  AreOther [] = Unit
  AreOther (c ∷ cs) = IsOther p h c.0 × AreOther cs

  serve-IsGone :
      (w : World) (c : Call) (db : Db) → IsOther p h w → IsGone h db → IsGone h (serve p w c db)
  unfolding serve
  serve-IsGone w (log_in name password) db f = (login-IsGone p h w name password f).kept db
  serve-IsGone w (refresh_pair token) db f = (refresh-IsGone p h w token).kept db
  serve-IsGone w (log_out token) db f = (logout-IsGone p h w token).kept db
  serve-IsGone w (remove id) db f = (delete_user-IsGone p h w id).kept db
  serve-IsGone w (set_up name email password) db f =
      (setup-IsGone p h w name email password).kept db
  serve-IsGone w (change id email role disabled) db f =
      (update_user_account-IsGone p h w id email role disabled).kept db
  serve-IsGone w (second_factor token code) db f =
      (complete_mfa_login-IsGone p h w token code).kept db
  serve-IsGone w (recovery token code) db f =
      (complete_mfa_with_recovery-IsGone p h w token code).kept db
  serve-IsGone w (enrol made codes id) db f = (setup_totp-IsGone p h w made codes id).kept db
  serve-IsGone w (verify id code) db f = (verify_totp_setup-IsGone p h w id code).kept db
  serve-IsGone w (switch_off id code) db f = (disable_totp_account-IsGone p h w id code).kept db
  serve-IsGone w clean db f = (clean_expired_tokens-IsGone h w).kept db

  pub serve_all-IsGone :
      (cs : List (World × Call)) (db : Db)
      → AreOther cs
      → IsGone h db
      → IsGone h (serve_all p cs db)
  unfolding serve_all
  serve_all-IsGone [] db f s = s
  serve_all-IsGone (c ∷ cs) db (f, fs) s =
      serve_all-IsGone cs (serve p c.0 c.1 db) fs (serve-IsGone c.0 c.1 db f s)
