-- ===== src/Auth/Service/Once.antt =====
-- A token between the two factors of a login opens one session, until it is issued anew.
pub mod Gone
pub mod Factor
pub mod Calls
pub mod Runs
use subnetree.Prelude.{
  String, Bool, true, false, not, List, [], ◌∷◌, none, ◌≡◌, ◌≢◌, refl, sym, ap, subst, ◌∙◌, ◌==◌,
  string_eq, arith, inl, inr, keep, ok,
}
use subnetree.Auth.Monad.{User, MfaToken, Db, Query, Action, ◌>>=◌, ◌>>◌, ignoring}
use subnetree.Auth.Monad.Binds.{bind_ok, bind_err, outcome_cases}
use subnetree.Auth.Monad.Keeping.{IsKept, keeping}
use subnetree.Auth.Store.{World, find, get_user_by_id, save_refresh_token, update_last_login}
use subnetree.Auth.Store.Mfa.{get_mfa_token, revoke_mfa_token}
use subnetree.Auth.Service.{Primitives, TokenPair, issue_token_pair, open_session}
use subnetree.Auth.Service.Once.Gone.{IsGone, find-keep, get_user_by_id-IsGone}
use subnetree.Auth.Service.Once.Calls.{open_session-IsGone}
use subnetree.Auth.Service.Once.Runs.{AreOther, serve_all-IsGone}
use subnetree.Auth.Service.Rotation.{Call, serve_all}
use subnetree.Auth.Service.Mfa.{mfa_user, complete_mfa_login, complete_mfa_with_recovery}

-- The second step of a login: by a recovery code, or by a code of the authenticator.
abbrev pub second_step : Primitives → World → Bool → String → String → Action TokenPair
second_step p w true token code = complete_mfa_with_recovery p w token code
second_step p w false token code = complete_mfa_login p w token code

-- Where the call delivers, the tables have a property.
record Delivers {A : Type 0} (P : Db → Type 0) (m : Action A) : Type 0 where
  at : (db : Db) (a : A) → (m db).0 ≡ ok a → P (m db).1

bind-Delivers :
    {A B : Type 0} {P : Db → Type 0} (m : Action A) (f : A → Action B)
    → ((a : A) → Delivers P (f a))
    → Delivers P (m >>= f)
bind-Delivers {P = P} m f k = record {
  at = λ db b h. elim (outcome_cases (m db).0) [
    | inl (a, e) ↦
        let whole = bind_ok m f (ap (λ r. (r, (m db).1)) e) in
        subst (λ r. P r.1) (sym whole) ((k a).at (m db).1 b (sym (ap (λ r. r.0) whole) ∙ h))
    | inr (x, e) ↦ absurd (cc (sym (ap (λ r. r.0) (bind_err m f (ap (λ r. (r, (m db).1)) e))) ∙ h))
  ];
}

-- The call delivers nothing.
record Refuses {A : Type 0} (m : Action A) (db : Db) : Type 0 where
  at : (a : A) → (m db).0 ≢ ok a

bind-Refuses :
    {A B : Type 0} (m : Action A) (f : A → Action B) (db : Db) → Refuses m db → Refuses (m >>= f) db
bind-Refuses m f db r = record {
  at = λ b h. elim (outcome_cases (m db).0) [
    | inl (a, e) ↦ absurd (r.at a e)
    | inr (x, e) ↦ absurd (cc (sym (ap (λ s. s.0) (bind_err m f (ap (λ s. (s, (m db).1)) e))) ∙ h))
  ];
}

module _ (p : Primitives) (h : String) (w : World) where
  revoke-Delivers :
      {A : Type 0} (k : Action A)
      → w.fails Query.revoke_mfa ≡ false
      → IsKept (IsGone h) k
      → Delivers (IsGone h) (ignoring (revoke_mfa_token w h) >> k)
  unfolding revoke_mfa_token
  revoke-Delivers k sure kept = record {
    at = λ db a _. kept.kept (revoke_mfa_token w h db).1 (rw sure (find-keep h db.mfa_tokens));
  }

module _ (p : Primitives) (w : World) (token code : String) where
  complete_mfa_login-Delivers :
      w.fails Query.revoke_mfa ≡ false
      → Delivers (IsGone (p.hash_token token)) (complete_mfa_login p w token code)
  unfolding complete_mfa_login
  complete_mfa_login-Delivers sure =
      search (bind-Delivers, revoke-Delivers, keeping, open_session-IsGone) depth 20

  complete_mfa_with_recovery-Delivers :
      w.fails Query.revoke_mfa ≡ false
      → Delivers (IsGone (p.hash_token token)) (complete_mfa_with_recovery p w token code)
  unfolding complete_mfa_with_recovery
  complete_mfa_with_recovery-Delivers sure =
      search (bind-Delivers, revoke-Delivers, keeping, open_session-IsGone, get_user_by_id-IsGone)
        depth 20

  mfa_user_gone : (db : Db) → IsGone (p.hash_token token) db → Refuses (mfa_user p w token) db
  unfolding mfa_user get_mfa_token
  mfa_user_gone db gone = record { at = λ id h. ground (arith, gone, h) }

  -- Both calls begin with the user of the token.
  refuses :
      (recovery : Bool) (db : Db)
      → IsGone (p.hash_token token) db
      → Refuses (second_step p w recovery token code) db
  unfolding complete_mfa_login complete_mfa_with_recovery
  refuses true db gone = let start = mfa_user_gone db gone in search bind-Refuses
  refuses false db gone = let start = mfa_user_gone db gone in search bind-Refuses

  second_step-IsGone :
      (recovery : Bool) (db : Db) (x : TokenPair)
      → w.fails Query.revoke_mfa ≡ false
      → (second_step p w recovery token code db).0 ≡ ok x
      → IsGone (p.hash_token token) (second_step p w recovery token code db).1
  second_step-IsGone true db x sure = (complete_mfa_with_recovery-Delivers sure).at db x
  second_step-IsGone false db x sure = (complete_mfa_login-Delivers sure).at db x

-- After a token for the second step has opened a session by a code of either kind, whatever is called
-- next and however often, the token opens no other, by no code of either kind. Its revocation does not
-- fail in the database, and no call in between issues a token with that hash again.
pub second_step-second_step :
    (p : Primitives) (w w' : World) (token code code' : String) (recovery recovery' : Bool)
    (db : Db) (cs : List (World × Call)) (x y : TokenPair)
    → w.fails Query.revoke_mfa ≡ false
    → AreOther p (p.hash_token token) cs
    → (second_step p w recovery token code db).0 ≡ ok x
    → (second_step p w' recovery' token code'
        (serve_all p cs (second_step p w recovery token code db).1)).0
      ≢ ok y
second_step-second_step p w w' token code code' recovery recovery' db cs x y sure others won =
    let after = (second_step p w recovery token code db).1 in
    (refuses p w' token code' recovery' (serve_all p cs after) (
        serve_all-IsGone p (p.hash_token token) cs after others
          (second_step-IsGone p w token code recovery db x sure won))).at
      y
