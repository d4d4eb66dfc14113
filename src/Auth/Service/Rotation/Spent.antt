-- ===== src/Auth/Service/Rotation/Spent.antt =====
-- A hash whose refresh tokens are all revoked stays one.
use subnetree.Prelude.{
  ℕ, String, Bool, true, false, not, ◌&&◌, ◌||◌, List, [], ◌∷◌, ◌++◌, none, some, ◌≡◌, refl, ◌==◌,
  string_eq, ltb, keep, arith, Bool-cases, inl, inr,
}
use subnetree.Auth.Monad.{User, RefreshToken, Db, Action}
use subnetree.Auth.Monad.Keeping.{IsKept, keeping}
use subnetree.Auth.Store.{
  World, find, revoke_where, get_user_by_id, get_user_by_username, create_user, update_user_fields,
  update_last_login, delete_user_row, count_users, save_refresh_token, get_refresh_token,
  revoke_refresh_token, revoke_user_refresh_tokens, clean_expired_tokens, record_failed_login,
  lock_account, clear_failed_logins,
}

-- No token of a hash is live.
abbrev pub is_spent : String → List RefreshToken → Bool
is_spent h [] = true
is_spent h (t ∷ ts) = (not (t.token_hash == h) || t.revoked) && is_spent h ts

abbrev pub IsSpent : String → Db → Type 0
IsSpent h db = is_spent h db.refresh_tokens ≡ true

-- The hash is a unique column.
abbrev pub is_unique : List RefreshToken → Bool
is_unique [] = true
is_unique (t ∷ ts) = elim (find (λ s. s.token_hash == t.token_hash) ts) [
  | none ↦ is_unique ts
  | some _ ↦ false
]

is_spent-append :
    (h : String) (ts us : List RefreshToken)
    → is_spent h (ts ++ us) ≡ (is_spent h ts && is_spent h us)
is_spent-append h [] us = refl
is_spent-append h (t ∷ ts) us = ground (arith, is_spent-append h ts us)

is_spent-keep :
    (h : String) (f : RefreshToken → Bool) (ts : List RefreshToken)
    → is_spent h ts ≡ true
    → is_spent h (keep f ts) ≡ true
is_spent-keep h f [] e = refl
is_spent-keep h f (t ∷ ts) e = let rest = is_spent-keep h f ts in ground (arith, e, rest)

is_spent-revoke_where :
    (h : String) (f : RefreshToken → Bool) (ts : List RefreshToken)
    → is_spent h ts ≡ true
    → is_spent h (revoke_where f ts) ≡ true
is_spent-revoke_where h f [] e = refl
is_spent-revoke_where h f (t ∷ ts) e =
    let rest = is_spent-revoke_where h f ts in ground (arith, e, rest)

pub is_spent_absent :
    (h : String) (ts : List RefreshToken)
    → find (λ t. t.token_hash == h) ts ≡ none
    → is_spent h ts ≡ true
is_spent_absent h [] e = refl
is_spent_absent h (t ∷ ts) e = let rest = is_spent_absent h ts in ground (arith, e, rest)

-- A revocation by the ID of the row that has the hash.
pub is_spent_revoked :
    (h : String) (rt : RefreshToken) (ts : List RefreshToken)
    → is_unique ts ≡ true
    → find (λ t. t.token_hash == h) ts ≡ some rt
    → is_spent h (revoke_where (λ t. t.id == rt.id) ts) ≡ true
is_spent_revoked h rt [] u e = ground (arith, e)
is_spent_revoked h rt (t ∷ ts) u e = elim (Bool-cases (t.token_hash == h)) [
  | inl y ↦
      let gone = is_spent-revoke_where h (λ s. s.id == rt.id) ts in
      let absent = is_spent_absent h ts in
      ground (
        arith,
        u,
        e,
        y,
        gone,
        absent,
        string_eq.same_iff t.token_hash h,
        string_eq.same_iff t.id rt.id,
      )
  | inr n ↦ let rest = is_spent_revoked h rt ts in ground (arith, u, e, n, rest)
]

-- The row that a spent hash finds is revoked.
pub is_spent-find :
    (h : String) (rt : RefreshToken) (ts : List RefreshToken)
    → is_spent h ts ≡ true
    → find (λ t. t.token_hash == h) ts ≡ some rt
    → rt.revoked ≡ true
is_spent-find h rt [] s e = ground (arith, e)
is_spent-find h rt (t ∷ ts) s e = let rest = is_spent-find h rt ts in ground (arith, s, e, rest)

-- The statements.
module _ (h : String) (w : World) where
  pub apart-IsKept :
      {A : Type 0} (m : Action A)
      → ((db : Db) → (m db).1.refresh_tokens ≡ db.refresh_tokens)
      → IsKept (IsSpent h) m
  apart-IsKept m same = record { kept = λ db s. rw (same db) s }

  pub revoke_refresh_token-IsKept : (id : String) → IsKept (IsSpent h) (revoke_refresh_token w id)
  unfolding revoke_refresh_token
  revoke_refresh_token-IsKept id = record {
    kept = λ db s.
        let kept = is_spent-revoke_where h (λ t. t.id == id) db.refresh_tokens s in
        ground (arith, s, kept);
  }

  pub revoke_user_refresh_tokens-IsKept :
      (id : String) → IsKept (IsSpent h) (revoke_user_refresh_tokens w id)
  unfolding revoke_user_refresh_tokens
  revoke_user_refresh_tokens-IsKept id = record {
    kept = λ db s.
        let kept = is_spent-revoke_where h (λ t. t.user_id == id) db.refresh_tokens s in
        ground (arith, s, kept);
  }

  pub clean_expired_tokens-IsKept : IsKept (IsSpent h) (clean_expired_tokens w)
  unfolding clean_expired_tokens
  clean_expired_tokens-IsKept = record {
    kept = λ db s.
        is_spent-keep h (λ t. not (ltb t.expires_at w.now || t.revoked)) db.refresh_tokens s;
  }

  pub delete_user_row-IsKept : (id : String) → IsKept (IsSpent h) (delete_user_row w id)
  unfolding delete_user_row
  delete_user_row-IsKept id = record {
    kept = λ db s.
        let kept = is_spent-keep h (λ t. not (t.user_id == id)) db.refresh_tokens s in
        ground (arith, s, kept);
  }

  pub save_refresh_token-IsKept :
      (t : RefreshToken) → (t.token_hash == h) ≡ false → IsKept (IsSpent h) (save_refresh_token w t)
  unfolding save_refresh_token
  save_refresh_token-IsKept t d = record {
    kept = λ db s.
        let kept = is_spent-append h db.refresh_tokens (t ∷ []) in ground (arith, s, kept, d);
  }

  pub get_user_by_id-IsKept : (id : String) → IsKept (IsSpent h) (get_user_by_id w id)
  unfolding get_user_by_id
  get_user_by_id-IsKept id = apart-IsKept (get_user_by_id w id) (λ db. ground arith)

  pub get_user_by_username-IsKept :
      (name : String) → IsKept (IsSpent h) (get_user_by_username w name)
  unfolding get_user_by_username
  get_user_by_username-IsKept name = apart-IsKept (get_user_by_username w name) (λ db. ground arith)

  pub create_user-IsKept : (u : User) → IsKept (IsSpent h) (create_user w u)
  unfolding create_user
  create_user-IsKept u = apart-IsKept (create_user w u) (λ db. ground arith)

  pub update_user_fields-IsKept : (u : User) → IsKept (IsSpent h) (update_user_fields w u)
  unfolding update_user_fields
  update_user_fields-IsKept u = apart-IsKept (update_user_fields w u) (λ db. ground arith)

  pub update_last_login-IsKept : (id : String) → IsKept (IsSpent h) (update_last_login w id)
  unfolding update_last_login
  update_last_login-IsKept id = apart-IsKept (update_last_login w id) (λ db. ground arith)

  pub count_users-IsKept : IsKept (IsSpent h) (count_users w)
  unfolding count_users
  count_users-IsKept = apart-IsKept (count_users w) (λ db. ground arith)

  pub get_refresh_token-IsKept : (hash : String) → IsKept (IsSpent h) (get_refresh_token w hash)
  unfolding get_refresh_token
  get_refresh_token-IsKept hash = apart-IsKept (get_refresh_token w hash) (λ db. ground arith)

  pub record_failed_login-IsKept : (id : String) → IsKept (IsSpent h) (record_failed_login w id)
  unfolding record_failed_login
  record_failed_login-IsKept id = apart-IsKept (record_failed_login w id) (λ db. ground arith)

  pub lock_account-IsKept : (id : String) (t : ℕ) → IsKept (IsSpent h) (lock_account w id t)
  unfolding lock_account
  lock_account-IsKept id t = apart-IsKept (lock_account w id t) (λ db. ground arith)

  pub clear_failed_logins-IsKept : (id : String) → IsKept (IsSpent h) (clear_failed_logins w id)
  unfolding clear_failed_logins
  clear_failed_logins-IsKept id = apart-IsKept (clear_failed_logins w id) (λ db. ground arith)

pub ruleset statements = (
  keeping, revoke_refresh_token-IsKept, revoke_user_refresh_tokens-IsKept, delete_user_row-IsKept,
  get_user_by_id-IsKept, get_user_by_username-IsKept, create_user-IsKept, update_user_fields-IsKept,
  update_last_login-IsKept, count_users-IsKept, get_refresh_token-IsKept,
  record_failed_login-IsKept, lock_account-IsKept, clear_failed_logins-IsKept,
)
