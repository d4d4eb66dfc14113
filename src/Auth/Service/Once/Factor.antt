-- ===== src/Auth/Service/Once/Factor.antt =====
-- The statements about the second factor behind which no row has a hash still.
use subnetree.Prelude.{String, not, List, [], ◌∷◌, ◌≡◌, ◌==◌, string_eq, false, arith}
use subnetree.Auth.Monad.{MfaToken, Db, modify}
use subnetree.Auth.Monad.Keeping.{IsKept, keeping}
use subnetree.Auth.Store.{World}
use subnetree.Auth.Store.Mfa.{
  get_totp_secret, set_totp_secret, enable_totp, disable_totp, insert_codes, save_recovery_codes,
  validate_recovery_code, mark_recovery_code_used, save_mfa_token, get_mfa_token, revoke_mfa_token,
}
use subnetree.Auth.Service.Once.Gone.{IsGone, apart-IsGone, find-keep-none, find-append-none}

module _ (h : String) (w : World) where
  pub get_totp_secret-IsGone : (id : String) → IsKept (IsGone h) (get_totp_secret w id)
  unfolding get_totp_secret
  get_totp_secret-IsGone id = apart-IsGone h w (get_totp_secret w id) (λ db. ground arith)

  pub set_totp_secret-IsGone :
      (id : String) (secret : String) → IsKept (IsGone h) (set_totp_secret w id secret)
  unfolding set_totp_secret
  set_totp_secret-IsGone id secret =
      apart-IsGone h w (set_totp_secret w id secret) (λ db. ground arith)

  pub enable_totp-IsGone : (id : String) → IsKept (IsGone h) (enable_totp w id)
  unfolding enable_totp
  enable_totp-IsGone id = apart-IsGone h w (enable_totp w id) (λ db. ground arith)

  pub disable_totp-IsGone : (id : String) → IsKept (IsGone h) (disable_totp w id)
  unfolding disable_totp
  disable_totp-IsGone id = apart-IsGone h w (disable_totp w id) (λ db. ground arith)

  pub validate_recovery_code-IsGone :
      (id : String) (code : String) → IsKept (IsGone h) (validate_recovery_code w id code)
  unfolding validate_recovery_code
  validate_recovery_code-IsGone id code =
      apart-IsGone h w (validate_recovery_code w id code) (λ db. ground arith)

  pub mark_recovery_code_used-IsGone :
      (code : String) → IsKept (IsGone h) (mark_recovery_code_used w code)
  unfolding mark_recovery_code_used
  mark_recovery_code_used-IsGone code =
      apart-IsGone h w (mark_recovery_code_used w code) (λ db. ground arith)

  pub save_mfa_token-IsGone :
      (t : MfaToken) → (t.token_hash == h) ≡ false → IsKept (IsGone h) (save_mfa_token w t)
  unfolding save_mfa_token
  save_mfa_token-IsGone t d = record {
    kept = λ db s. let kept = find-append-none h db.mfa_tokens t s d in ground (arith, s, kept);
  }

  pub get_mfa_token-IsGone : (hash : String) → IsKept (IsGone h) (get_mfa_token w hash)
  unfolding get_mfa_token
  get_mfa_token-IsGone hash = apart-IsGone h w (get_mfa_token w hash) (λ db. ground arith)

  pub revoke_mfa_token-IsGone : (hash : String) → IsKept (IsGone h) (revoke_mfa_token w hash)
  unfolding revoke_mfa_token
  revoke_mfa_token-IsGone hash = record {
    kept = λ db s.
        let kept = find-keep-none h (λ t. not (t.token_hash == hash)) db.mfa_tokens s in
        ground (arith, s, kept);
  }

  modify-IsGone :
      (f : Db → Db) → ((db : Db) → (f db).mfa_tokens ≡ db.mfa_tokens) → IsKept (IsGone h) (modify f)
  modify-IsGone f same = apart-IsGone h w (modify f) same

  insert_codes-IsGone : (id : String) (hs : List String) → IsKept (IsGone h) (insert_codes w id hs)
  unfolding insert_codes
  insert_codes-IsGone id [] = search keeping
  insert_codes-IsGone id (c ∷ cs) =
      let rest = insert_codes-IsGone id cs in search (keeping, modify-IsGone)

  pub save_recovery_codes-IsGone :
      (id : String) (hs : List String) → IsKept (IsGone h) (save_recovery_codes w id hs)
  unfolding save_recovery_codes
  save_recovery_codes-IsGone id hs = search (keeping, modify-IsGone, insert_codes-IsGone)

pub ruleset factor_rows = (
  get_totp_secret-IsGone, set_totp_secret-IsGone, enable_totp-IsGone, disable_totp-IsGone,
  validate_recovery_code-IsGone, mark_recovery_code_used-IsGone, get_mfa_token-IsGone,
  revoke_mfa_token-IsGone, save_recovery_codes-IsGone,
)
