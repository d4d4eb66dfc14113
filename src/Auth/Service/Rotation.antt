-- ===== src/Auth/Service/Rotation.antt =====
-- Refresh tokens: one use each, whatever is called in between.
pub mod Spent
pub mod Factor
pub mod Calls
pub mod Refreshed
use subnetree.Prelude.{
  String, Bool, true, false, List, [], ◌∷◌, Option, none, some, ◌≡◌, refl, ap, subst, sym, ◌∙◌, ltb,
  Bool-cases, Option-cases, inl, inr, Result, ok, err, arith,
}
use subnetree.Auth.Monad.{RefreshToken, Db, Query, AuthError, invalid_token}
use subnetree.Auth.Monad.Keeping.{IsKept}
use subnetree.Auth.Store.{
  World, get_refresh_token, revoke_refresh_token, clean_expired_tokens, revoke_where,
}
use subnetree.Auth.Service.{
  Primitives, TokenPair, login, setup, reissue, rotate, refresh, logout, update_user_account,
  delete_user,
}
use subnetree.Auth.Service.Mfa.{
  complete_mfa_login, complete_mfa_with_recovery, setup_totp, verify_totp_setup,
  disable_totp_account,
}
use subnetree.Auth.Service.Rotation.Spent.{
  is_spent_absent, IsSpent, is_unique, is_spent_revoked, is_spent-find, clean_expired_tokens-IsKept,
}
use subnetree.Auth.Service.Rotation.Calls.{
  IsFresh, login-IsKept, setup-IsKept, reissue-IsKept, refresh-IsKept, logout-IsKept,
  update_user_account-IsKept, delete_user-IsKept, complete_mfa_login-IsKept,
  complete_mfa_with_recovery-IsKept, setup_totp-IsKept, verify_totp_setup-IsKept,
  disable_totp_account-IsKept,
}
use subnetree.Auth.Service.Rotation.Refreshed.{
  by_hash, refresh_failed, refresh_unknown, refresh_known, rotate_revoked, rotate_expired,
  rotate_live,
}

-- A call of the service.
pub data Call : Type 0 where
  log_in : String → String → Call
  refresh_pair log_out remove : String → Call
  set_up : String → String → String → Call
  change : String → String → String → Bool → Call
  second_factor recovery : String → String → Call
  enrol : Option (String × String) → Option (List String) → String → Call
  verify switch_off : String → String → Call
  clean : Call

module _ (p : Primitives) where
  unfoldable pub serve : World → Call → Db → Db
  unfolding login setup refresh logout update_user_account delete_user complete_mfa_login
      complete_mfa_with_recovery setup_totp verify_totp_setup disable_totp_account
      clean_expired_tokens
  serve w (log_in name password) db = (login p w name password db).1
  serve w (refresh_pair token) db = (refresh p w token db).1
  serve w (log_out token) db = (logout p w token db).1
  serve w (remove id) db = (delete_user p w id db).1
  serve w (set_up name email password) db = (setup p w name email password db).1
  serve w (change id email role disabled) db = (update_user_account p w id email role disabled db).1
  serve w (second_factor token code) db = (complete_mfa_login p w token code db).1
  serve w (recovery token code) db = (complete_mfa_with_recovery p w token code db).1
  serve w (enrol made codes id) db = (setup_totp p w made codes id db).1
  serve w (verify id code) db = (verify_totp_setup p w id code db).1
  serve w (switch_off id code) db = (disable_totp_account p w id code db).1
  serve w clean db = (clean_expired_tokens w db).1

  unfoldable pub serve_all : List (World × Call) → Db → Db
  unfolding serve
  serve_all [] db = db
  serve_all (c ∷ cs) db = serve_all cs (serve c.0 c.1 db)

  -- No call draws a refresh token of the hash again.
  abbrev pub AreFresh : String → List (World × Call) → Type 0
  AreFresh h [] = Unit
  AreFresh h (c ∷ cs) = IsFresh p h c.0 × AreFresh h cs

  serve-IsSpent :
      (h : String) (w : World) (c : Call) (db : Db)
      → IsFresh p h w
      → IsSpent h db
      → IsSpent h (serve w c db)
  unfolding serve
  serve-IsSpent h w (log_in name password) db f = (login-IsKept p h w name password f).kept db
  serve-IsSpent h w (refresh_pair token) db f = (refresh-IsKept p h w token f).kept db
  serve-IsSpent h w (log_out token) db f = (logout-IsKept p h w token).kept db
  serve-IsSpent h w (remove id) db f = (delete_user-IsKept p h w id).kept db
  serve-IsSpent h w (set_up name email password) db f =
      (setup-IsKept p h w name email password).kept db
  serve-IsSpent h w (change id email role disabled) db f =
      (update_user_account-IsKept p h w id email role disabled).kept db
  serve-IsSpent h w (second_factor token code) db f =
      (complete_mfa_login-IsKept p h w token code f).kept db
  serve-IsSpent h w (recovery token code) db f =
      (complete_mfa_with_recovery-IsKept p h w token code f).kept db
  serve-IsSpent h w (enrol made codes id) db f = (setup_totp-IsKept p h w made codes id).kept db
  serve-IsSpent h w (verify id code) db f = (verify_totp_setup-IsKept p h w id code).kept db
  serve-IsSpent h w (switch_off id code) db f = (disable_totp_account-IsKept p h w id code).kept db
  serve-IsSpent h w clean db f = (clean_expired_tokens-IsKept h w).kept db

  serve_all-IsSpent :
      (h : String) (cs : List (World × Call)) (db : Db)
      → AreFresh h cs
      → IsSpent h db
      → IsSpent h (serve_all cs db)
  unfolding serve_all
  serve_all-IsSpent h [] db f s = s
  serve_all-IsSpent h (c ∷ cs) db (f, fs) s =
      serve_all-IsSpent h cs (serve c.0 c.1 db) fs (serve-IsSpent h c.0 c.1 db f s)

  -- A spent hash refreshes nothing.
  refresh_spent :
      (w : World) (token : String) (db : Db)
      → w.fails Query.get_refresh ≡ false
      → IsSpent (p.hash_token token) db
      → refresh p w token db ≡ (err invalid_token, db)
  refresh_spent w token db sure s =
      elim (Option-cases (by_hash (p.hash_token token) db.refresh_tokens)) [
        | inl n ↦ refresh_unknown p w token db sure n
        | inr (rt, e) ↦
            refresh_known p w token db sure rt e
            ∙ rotate_revoked p w rt db (is_spent-find (p.hash_token token) rt db.refresh_tokens s e)
      ]

  live :
      (w : World) (token : String) (pair : TokenPair) (db : Db)
      → w.fails Query.revoke_refresh ≡ false
      → is_unique db.refresh_tokens ≡ true
      → IsFresh p (p.hash_token token) w
      → (refresh p w token db).0 ≡ ok pair
      → (rt : RefreshToken) → w.fails Query.get_refresh ≡ false
      → by_hash (p.hash_token token) db.refresh_tokens ≡ some rt
      → IsSpent (p.hash_token token) (refresh p w token db).1
  unfolding revoke_refresh_token
  live w token pair db sure unique fresh won rt g e = elim (Bool-cases rt.revoked) [
    | inl r ↦ absurd (cc (won, refresh_known p w token db g rt e, rotate_revoked p w rt db r))
    | inr r ↦ elim (Bool-cases (ltb rt.expires_at w.now)) [
      | inl x ↦ absurd (cc (won, refresh_known p w token db g rt e, rotate_expired p w rt db r x))
      | inr y ↦
          let gone : IsSpent (p.hash_token token) (revoke_refresh_token w rt.id db).1 =
            rw sure (is_spent_revoked (p.hash_token token) rt db.refresh_tokens unique e) in
          subst (λ r. IsSpent (p.hash_token token) r.1)
            (sym (refresh_known p w token db g rt e ∙ rotate_live p w rt db r y))
            ((reissue-IsKept p (p.hash_token token) w rt.user_id fresh).kept
              (revoke_refresh_token w rt.id db).1 gone)
    ]
  ]

  -- A refresh that delivers a pair spends its token.
  refresh-IsSpent :
      (w : World) (token : String) (pair : TokenPair) (db : Db)
      → w.fails Query.revoke_refresh ≡ false
      → is_unique db.refresh_tokens ≡ true
      → IsFresh p (p.hash_token token) w
      → (refresh p w token db).0 ≡ ok pair
      → IsSpent (p.hash_token token) (refresh p w token db).1
  refresh-IsSpent w token pair db sure unique fresh won =
      elim (Bool-cases (w.fails Query.get_refresh)) [
        | inl f ↦ absurd (cc (won, refresh_failed p w token db f))
        | inr g ↦ elim (Option-cases (by_hash (p.hash_token token) db.refresh_tokens)) [
          | inl n ↦ absurd (cc (won, refresh_unknown p w token db g n))
          | inr (rt, e) ↦ live w token pair db sure unique fresh won rt g e
        ]
      ]

  -- After a refresh that delivers a pair, whatever is called next and however often, the token is refused
  -- as invalid. The revocation and the later look-up do not fail in the database, hashes of tokens are
  -- unique, and no call draws a refresh token with that hash again.
  pub refresh-serve_all :
      (w w' : World) (token : String) (pair : TokenPair) (db : Db) (cs : List (World × Call))
      → w.fails Query.revoke_refresh ≡ false
      → w'.fails Query.get_refresh ≡ false
      → is_unique db.refresh_tokens ≡ true
      → IsFresh p (p.hash_token token) w
      → AreFresh (p.hash_token token) cs
      → (refresh p w token db).0 ≡ ok pair
      → (refresh p w' token (serve_all cs (refresh p w token db).1)).0 ≡ err invalid_token
  refresh-serve_all w w' token pair db cs sure sure' unique fresh fresh' won =
      ap (λ r. r.0)
        (refresh_spent w' token (serve_all cs (refresh p w token db).1) sure' (
          serve_all-IsSpent (p.hash_token token) cs (refresh p w token db).1 fresh'
            (refresh-IsSpent w token pair db sure unique fresh won)))

  logout-IsSpent :
      (w : World) (token : String) (db : Db)
      → w.fails Query.get_refresh ≡ false
      → w.fails Query.revoke_refresh ≡ false
      → is_unique db.refresh_tokens ≡ true
      → IsSpent (p.hash_token token) (logout p w token db).1
  unfolding logout get_refresh_token revoke_refresh_token
  logout-IsSpent w token db g r unique =
      elim (Option-cases (by_hash (p.hash_token token) db.refresh_tokens)) [
        | inl n ↦
            let gone = is_spent_absent (p.hash_token token) db.refresh_tokens n in
            ground (arith, g, n, gone)
        | inr (rt, e) ↦
            let gone = is_spent_revoked (p.hash_token token) rt db.refresh_tokens unique e in
            ground (arith, g, e, r, gone)
      ]

  -- After a logout, whatever is called next and however often, the token refreshes nothing: it is refused
  -- as invalid. The statements of the logout and the later look-up do not fail in the database, hashes of
  -- tokens are unique, and no call draws a refresh token with that hash again.
  pub logout-serve_all :
      (w w' : World) (token : String) (db : Db) (cs : List (World × Call))
      → w.fails Query.get_refresh ≡ false
      → w.fails Query.revoke_refresh ≡ false
      → w'.fails Query.get_refresh ≡ false
      → is_unique db.refresh_tokens ≡ true
      → AreFresh (p.hash_token token) cs
      → (refresh p w' token (serve_all cs (logout p w token db).1)).0 ≡ err invalid_token
  logout-serve_all w w' token db cs g r g' unique fresh =
      ap (λ r. r.0)
        (refresh_spent w' token (serve_all cs (logout p w token db).1) g' (
          serve_all-IsSpent (p.hash_token token) cs (logout p w token db).1 fresh
            (logout-IsSpent w token db g r unique)))
