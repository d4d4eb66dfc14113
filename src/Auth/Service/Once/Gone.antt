-- ===== src/Auth/Service/Once/Gone.antt =====
-- The statements behind which no row has a hash still.
use subnetree.Prelude.{
  ℕ, String, Bool, false, not, List, [], ◌∷◌, ◌++◌, none, ◌≡◌, refl, ◌==◌, string_eq, keep, arith,
}
use subnetree.Auth.Monad.{User, RefreshToken, MfaToken, Db, Action}
use subnetree.Auth.Monad.Keeping.{IsKept, keeping}
use subnetree.Auth.Store.{
  World, find, get_user_by_id, get_user_by_username, create_user, update_user_fields,
  update_last_login, delete_user_row, count_users, save_refresh_token, get_refresh_token,
  revoke_refresh_token, revoke_user_refresh_tokens, clean_expired_tokens, record_failed_login,
  lock_account, clear_failed_logins,
}

-- No row has the hash.
abbrev pub IsGone : String → Db → Type 0
IsGone h db = find (λ t. t.token_hash == h) db.mfa_tokens ≡ none

pub find-keep :
    (h : String) (ts : List MfaToken)
    → find (λ t. t.token_hash == h) (keep (λ t. not (t.token_hash == h)) ts) ≡ none
find-keep h [] = refl
find-keep h (t ∷ ts) = let rest = find-keep h ts in ground (arith, rest)

pub find-keep-none :
    (h : String) (f : MfaToken → Bool) (ts : List MfaToken)
    → find (λ t. t.token_hash == h) ts ≡ none
    → find (λ t. t.token_hash == h) (keep f ts) ≡ none
find-keep-none h f [] s = refl
find-keep-none h f (t ∷ ts) s = let rest = find-keep-none h f ts in ground (arith, s, rest)

pub find-append-none :
    (h : String) (ts : List MfaToken) (t : MfaToken)
    → find (λ t. t.token_hash == h) ts ≡ none
    → (t.token_hash == h) ≡ false
    → find (λ t. t.token_hash == h) (ts ++ t ∷ []) ≡ none
find-append-none h [] t s d = ground (arith, d)
find-append-none h (x ∷ ts) t s d = let rest = find-append-none h ts t in ground (arith, s, d, rest)

module _ (h : String) (w : World) where
  pub apart-IsGone :
      {A : Type 0} (m : Action A)
      → ((db : Db) → (m db).1.mfa_tokens ≡ db.mfa_tokens)
      → IsKept (IsGone h) m
  apart-IsGone m same = record { kept = λ db s. rw (same db) s }

  pub revoke_refresh_token-IsGone : (id : String) → IsKept (IsGone h) (revoke_refresh_token w id)
  unfolding revoke_refresh_token
  revoke_refresh_token-IsGone id = apart-IsGone (revoke_refresh_token w id) (λ db. ground arith)

  pub revoke_user_refresh_tokens-IsGone :
      (id : String) → IsKept (IsGone h) (revoke_user_refresh_tokens w id)
  unfolding revoke_user_refresh_tokens
  revoke_user_refresh_tokens-IsGone id =
      apart-IsGone (revoke_user_refresh_tokens w id) (λ db. ground arith)

  pub clean_expired_tokens-IsGone : IsKept (IsGone h) (clean_expired_tokens w)
  unfolding clean_expired_tokens
  clean_expired_tokens-IsGone = apart-IsGone (clean_expired_tokens w) (λ db. ground arith)

  pub save_refresh_token-IsGone : (t : RefreshToken) → IsKept (IsGone h) (save_refresh_token w t)
  unfolding save_refresh_token
  save_refresh_token-IsGone t = apart-IsGone (save_refresh_token w t) (λ db. ground arith)

  pub delete_user_row-IsGone : (id : String) → IsKept (IsGone h) (delete_user_row w id)
  unfolding delete_user_row
  delete_user_row-IsGone id = record {
    kept = λ db s.
        let kept = find-keep-none h (λ t. not (t.user_id == id)) db.mfa_tokens s in
        ground (arith, s, kept);
  }

  pub get_user_by_id-IsGone : (id : String) → IsKept (IsGone h) (get_user_by_id w id)
  unfolding get_user_by_id
  get_user_by_id-IsGone id = apart-IsGone (get_user_by_id w id) (λ db. ground arith)

  pub get_user_by_username-IsGone :
      (name : String) → IsKept (IsGone h) (get_user_by_username w name)
  unfolding get_user_by_username
  get_user_by_username-IsGone name = apart-IsGone (get_user_by_username w name) (λ db. ground arith)

  pub create_user-IsGone : (u : User) → IsKept (IsGone h) (create_user w u)
  unfolding create_user
  create_user-IsGone u = apart-IsGone (create_user w u) (λ db. ground arith)

  pub update_user_fields-IsGone : (u : User) → IsKept (IsGone h) (update_user_fields w u)
  unfolding update_user_fields
  update_user_fields-IsGone u = apart-IsGone (update_user_fields w u) (λ db. ground arith)

  pub update_last_login-IsGone : (id : String) → IsKept (IsGone h) (update_last_login w id)
  unfolding update_last_login
  update_last_login-IsGone id = apart-IsGone (update_last_login w id) (λ db. ground arith)

  pub count_users-IsGone : IsKept (IsGone h) (count_users w)
  unfolding count_users
  count_users-IsGone = apart-IsGone (count_users w) (λ db. ground arith)

  pub get_refresh_token-IsGone : (hash : String) → IsKept (IsGone h) (get_refresh_token w hash)
  unfolding get_refresh_token
  get_refresh_token-IsGone hash = apart-IsGone (get_refresh_token w hash) (λ db. ground arith)

  pub record_failed_login-IsGone : (id : String) → IsKept (IsGone h) (record_failed_login w id)
  unfolding record_failed_login
  record_failed_login-IsGone id = apart-IsGone (record_failed_login w id) (λ db. ground arith)

  pub lock_account-IsGone : (id : String) (t : ℕ) → IsKept (IsGone h) (lock_account w id t)
  unfolding lock_account
  lock_account-IsGone id t = apart-IsGone (lock_account w id t) (λ db. ground arith)

  pub clear_failed_logins-IsGone : (id : String) → IsKept (IsGone h) (clear_failed_logins w id)
  unfolding clear_failed_logins
  clear_failed_logins-IsGone id = apart-IsGone (clear_failed_logins w id) (λ db. ground arith)

pub ruleset rows = (
  keeping, revoke_refresh_token-IsGone, revoke_user_refresh_tokens-IsGone, delete_user_row-IsGone,
  save_refresh_token-IsGone, get_user_by_id-IsGone, get_user_by_username-IsGone, create_user-IsGone,
  update_user_fields-IsGone, update_last_login-IsGone, count_users-IsGone, get_refresh_token-IsGone,
  record_failed_login-IsGone, lock_account-IsGone, clear_failed_logins-IsGone,
)
