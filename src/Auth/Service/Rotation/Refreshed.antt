-- ===== src/Auth/Service/Rotation/Refreshed.antt =====
-- What Refresh does, by the row that its token finds.
use subnetree.Prelude.{
  String, true, false, List, Option, none, some, ◌≡◌, refl, ◌==◌, string_eq, ltb, ok, err,
}
use subnetree.Auth.Monad.{RefreshToken, Db, Query, invalid_token, no_rows, database, without_rows}
use subnetree.Auth.Monad.Binds.{bind_ok, rows_ok, bind_err, rows_err}
use subnetree.Auth.Store.{World, find, get_refresh_token, revoke_refresh_token}
use subnetree.Auth.Service.{Primitives, reissue, rotate, refresh}

abbrev pub by_hash : String → List RefreshToken → Option RefreshToken
by_hash h ts = find (λ t. t.token_hash == h) ts

module _ (p : Primitives) (w : World) (token : String) (db : Db) where
  pub refresh_failed :
      w.fails Query.get_refresh ≡ true
      → refresh p w token db ≡ (err (database Query.get_refresh), db)
  unfolding refresh get_refresh_token
  refresh_failed f =
      let got : get_refresh_token w (p.hash_token token) db
          ≡ (err (database Query.get_refresh), db) =
        rw f refl in
      bind_err (without_rows invalid_token (get_refresh_token w (p.hash_token token))) (rotate p w)
        (rows_err invalid_token (get_refresh_token w (p.hash_token token)) got)

  module _ (sure : w.fails Query.get_refresh ≡ false) where
    pub refresh_unknown :
        by_hash (p.hash_token token) db.refresh_tokens ≡ none
        → refresh p w token db ≡ (err invalid_token, db)
    unfolding refresh get_refresh_token
    refresh_unknown h =
        let got : get_refresh_token w (p.hash_token token) db ≡ (err no_rows, db) =
          rw (sure, h) refl in
        bind_err (without_rows invalid_token (get_refresh_token w (p.hash_token token)))
          (rotate p w) (rows_err invalid_token (get_refresh_token w (p.hash_token token)) got)

    pub refresh_known :
        (rt : RefreshToken)
        → by_hash (p.hash_token token) db.refresh_tokens ≡ some rt
        → refresh p w token db ≡ rotate p w rt db
    unfolding refresh get_refresh_token
    refresh_known rt h =
        let got : get_refresh_token w (p.hash_token token) db ≡ (ok rt, db) = rw (sure, h) refl in
        bind_ok (without_rows invalid_token (get_refresh_token w (p.hash_token token))) (rotate p w)
          (rows_ok invalid_token (get_refresh_token w (p.hash_token token)) got)

module _ (p : Primitives) (w : World) (rt : RefreshToken) (db : Db) where
  pub rotate_revoked : rt.revoked ≡ true → rotate p w rt db ≡ (err invalid_token, db)
  unfolding rotate
  rotate_revoked r = rw (rotate, r) refl

  pub rotate_expired :
      rt.revoked ≡ false
      → ltb rt.expires_at w.now ≡ true
      → rotate p w rt db ≡ (err invalid_token, db)
  unfolding rotate
  rotate_expired r e = rw (rotate, r, e) refl

  pub rotate_live :
      rt.revoked ≡ false
      → ltb rt.expires_at w.now ≡ false
      → rotate p w rt db ≡ reissue p w rt.user_id (revoke_refresh_token w rt.id db).1
  unfolding rotate
  rotate_live r e = rw (rotate, r, e) refl
