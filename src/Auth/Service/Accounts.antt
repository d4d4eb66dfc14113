-- ===== src/Auth/Service/Accounts.antt =====
-- Accounts: the first one, disabled ones, and those with a second factor.
use subnetree.Prelude.{
  String, Bool, true, List, [], ◌∷◌, some, ◌≡◌, refl, sym, ap, ◌∙◌, ◌==◌, string_eq, arith, ok, err,
}
use subnetree.Auth.Monad.{
  User, RefreshToken, Db, Query, user_disabled, user_not_found, invalid_token, without_rows,
}
use subnetree.Auth.Monad.Binds.{bind_ok, rows_ok}
use subnetree.Auth.Store.{
  World, update_user, get_user_by_id, update_user_fields, revoke_user_refresh_tokens, revoke_where,
}
use subnetree.Auth.Store.Rows.{by_id, by_name, by_id-id}
use subnetree.Auth.Service.{Primitives, login, refresh, edit_user, update_user_account}
use subnetree.Auth.Service.Lockout.Steps.{IsReliable}
use subnetree.Auth.Service.Lockout.Runs.{login_disabled}
use subnetree.Auth.Service.Rotation.Refreshed.{by_hash, refresh_known, rotate_revoked}

abbrev revised : String → String → Bool → User → User
revised email role off u = record u { email = email; role = role; disabled = off }

module _ (p : Primitives) where
  -- UpdateUser as one change of the rows.
  edit_user-users :
      (w : World) (id email role : String) (off : Bool) (u : User) (db : Db)
      → IsReliable w
      → ((edit_user p w id email role off u db).1.users
          ≡ update_user u.id (revised email role off) db.users)
  unfolding edit_user update_user_fields revoke_user_refresh_tokens
  edit_user-users w id email role off u db sure =
      ground (arith, sure Query.set_user, sure Query.revoke_all)

  update_user_account_lem :
      (w : World) (id email role : String) (off : Bool) (u : User) (db : Db)
      → IsReliable w
      → by_id id db.users ≡ some u
      → update_user_account p w id email role off db ≡ edit_user p w id email role off u db
  unfolding update_user_account get_user_by_id
  update_user_account_lem w id email role off u db sure h =
      let got : get_user_by_id w id db ≡ (ok u, db) = rw (sure Query.get_user, h) refl in
      bind_ok (without_rows user_not_found (get_user_by_id w id)) (edit_user p w id email role off)
        (rows_ok user_not_found (get_user_by_id w id) got)

  edit_user-refresh_tokens :
      (w : World) (id email role : String) (u : User) (db : Db)
      → IsReliable w
      → (edit_user p w id email role true u db).1.refresh_tokens
        ≡ revoke_where (λ t. t.user_id == id) db.refresh_tokens
  unfolding edit_user update_user_fields revoke_user_refresh_tokens
  edit_user-refresh_tokens w id email role u db sure =
      ground (arith, sure Query.set_user, sure Query.revoke_all)

  -- The tokens of a user are revoked.
  revoked_row :
      (hash id : String) (rt : RefreshToken) (ts : List RefreshToken)
      → by_hash hash (revoke_where (λ t. t.user_id == id) ts) ≡ some rt
      → rt.user_id ≡ id
      → rt.revoked ≡ true
  revoked_row hash id rt [] h e = absurd (cc h)
  revoked_row hash id rt (t ∷ ts) h e =
      let rest = revoked_row hash id rt ts in
      ground (arith, h, e, rest, string_eq.same_iff t.user_id id)

  -- Rows of the edited user are disabled.
  disabled_row :
      (name id email role : String) (v : User) (us : List User)
      → by_name name (update_user id (revised email role true) us) ≡ some v
      → v.id ≡ id
      → v.disabled ≡ true
  disabled_row name id email role v [] h e = absurd (cc h)
  disabled_row name id email role v (u ∷ us) h e =
      let rest = disabled_row name id email role v us in
      ground (arith, h, e, rest, string_eq.same_iff u.id id)

  module _ (w w' : World) (id email role : String) (u : User) (db : Db) (sure : IsReliable w)
      (sure' : IsReliable w') (there : by_id id db.users ≡ some u) where
    -- A user who was just disabled cannot log in, whatever the password: the answer says that the user is
    -- disabled, and nothing changes. The statements of the database succeed.
    pub login-update_user_account :
        (name password : String) (v : User)
        → by_name name (update_user_account p w id email role true db).1.users ≡ some v
        → v.id ≡ id
        → login p w' name password (update_user_account p w id email role true db).1
          ≡ (err user_disabled, (update_user_account p w id email role true db).1)
    login-update_user_account name password v h e =
        let edited = update_user_account_lem w id email role true u db sure there in
        let same : u.id ≡ id = by_id-id id db.users u there in
        let rows : (update_user_account p w id email role true db).1.users
            ≡ update_user u.id (revised email role true) db.users =
          ap (λ r. r.1.users) edited ∙ edit_user-users w id email role true u db sure in
        login_disabled p w' name password v (update_user_account p w id email role true db).1 sure'
          h
          (disabled_row name u.id email role v db.users (ap (by_name name) (sym rows) ∙ h)
            (e ∙ sym same))

    -- No refresh token of a user who was just disabled is good for a pair: it is refused as invalid, and
    -- nothing changes. The statements of the database succeed.
    pub refresh-update_user_account :
        (token : String) (rt : RefreshToken)
        → by_hash
            (p.hash_token token)
            (update_user_account p w id email role true db).1.refresh_tokens
          ≡ some rt
        → rt.user_id ≡ id
        → refresh p w' token (update_user_account p w id email role true db).1
          ≡ (err invalid_token, (update_user_account p w id email role true db).1)
    refresh-update_user_account token rt h e =
        let edited = update_user_account_lem w id email role true u db sure there in
        let rows : (update_user_account p w id email role true db).1.refresh_tokens
            ≡ revoke_where (λ t. t.user_id == id) db.refresh_tokens =
          ap (λ r. r.1.refresh_tokens) edited
          ∙ edit_user-refresh_tokens w id email role u db sure in
        refresh_known p w' token (update_user_account p w id email role true db).1
          (sure' Query.get_refresh) rt h
        ∙ rotate_revoked p w' rt (update_user_account p w id email role true db).1 (
            revoked_row (p.hash_token token) id rt db.refresh_tokens
              (ap (by_hash (p.hash_token token)) (sym rows) ∙ h) e)
