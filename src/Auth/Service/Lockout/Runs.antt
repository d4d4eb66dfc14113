-- ===== src/Auth/Service/Lockout/Runs.antt =====
-- Logins of all users in any order.
use subnetree.Prelude.{
  ℕ, ◌+◌, ◌*◌, ◌-◌, ◌≤◌, ◌≡◌, refl, ap, sym, ◌∙◌, subst, String, Bool, true, false, List, [], ◌∷◌,
  none, some, ◌==◌, string_eq, if◌then◌else◌, Result, err, arith, Bool-cases, Option-cases, inl,
  inr,
}
use subnetree.Auth.Monad.{
  User, Db, Query, AuthError, invalid_credentials, user_disabled, without_rows, no_rows,
}
use subnetree.Auth.Monad.Binds.{bind_err, rows_err}
use subnetree.Auth.Store.{World, get_user_by_username}
use subnetree.Auth.Store.Rows.{
  by_id, by_name, IsKeyed, by_name-update_user, IsKeyed-update_user, by_name-username,
}
use subnetree.Auth.Service.{
  Primitives, LoginResult, max_failed_attempts, lockout_duration, check_login, login,
}
use subnetree.Auth.Service.Lockout.{
  Lock, Verdict, attempt, replay, guesses, AreWrong, guesses-replay,
}
use subnetree.Auth.Service.Lockout.Steps.{IsReliable, verdict_of}
use subnetree.Auth.Service.Lockout.Logins.{Change, lock_of, login_lem, login-Change}

pub record Try : Type 0 where
  pub world : World
  pub username : String
  pub password : String

-- What a login as a user does to the user.
record Own (name : String) (u : User) (r : Result AuthError LoginResult × Db) (l : Lock × Verdict)
    : Type 0 where
  user : User
  row : by_name name r.1.users ≡ some user
  lock : lock_of user ≡ l.0
  password_hash : user.password_hash ≡ u.password_hash
  active : user.disabled ≡ false
  keyed : IsKeyed r.1.users
  said : verdict_of r.0 ≡ l.1

-- The rows of another name, and the key, survive a change.
module _ (v u : User) (m name : String) (us us' : List User) (l : Lock) (keyed : IsKeyed us)
    (there : by_name m us ≡ some v) (c : Change v us us' l) where
  IsKeyed-Change : IsKeyed us'
  IsKeyed-Change = subst IsKeyed (sym c.users) (IsKeyed-update_user c.update c.keeps v.id us keyed)

  by_name-Change :
      by_name name us ≡ some u → by_name name us' ≡ some (if u.id == v.id then c.update u else u)
  by_name-Change h =
      ap (by_name name) c.users
      ∙ ground (arith, by_name-update_user c.update c.keeps name v.id us, h)

  -- Two names have two IDs.
  apart : by_name name us ≡ some u → (name == m) ≡ false → (u.id == v.id) ≡ false
  apart h d = elim (Bool-cases (u.id == v.id)) [
    | inl same ↦
        let ids : u.id ≡ v.id = ground (arith, same, string_eq.same_iff u.id v.id) in
        let rows : by_id v.id us ≡ some u = subst (λ i. by_id i us ≡ some u) ids (keyed name u h) in
        let users : u ≡ v = ground (arith, rows, keyed m v there) in
        let names : name ≡ m =
          sym (by_name-username name us u h)
          ∙ ap (λ x. x.username) users
          ∙ by_name-username m us v there in
        ground (arith, names, d, string_eq.same_iff name m)
    | inr f ↦ f
  ]

abbrev pub AreReliable : List Try → Type 0
AreReliable [] = Unit
AreReliable (t ∷ ts) = IsReliable t.world × AreReliable ts

module _ (p : Primitives) where
  -- The verdicts on the logins as `name`, of a run with the logins of everybody.
  unfoldable pub verdicts : String → List Try → Db → List Verdict
  unfolding login
  verdicts name [] db = []
  verdicts name (t ∷ ts) db =
      let step = login p t.world t.username t.password db in
      let rest = verdicts name ts step.1 in
      if t.username == name then verdict_of step.0 ∷ rest else rest

  -- What those logins are to the automaton.
  unfoldable pub attempts : String → String → List Try → List (Bool × ℕ)
  attempts hash name [] = []
  attempts hash name (t ∷ ts) =
      let rest = attempts hash name ts in
      if t.username == name then (p.check_password hash t.password, t.world.now) ∷ rest else rest

  login_unknown :
      (w : World) (name password : String) (db : Db)
      → IsReliable w
      → by_name name db.users ≡ none
      → login p w name password db ≡ (err invalid_credentials, db)
  unfolding login get_user_by_username
  login_unknown w name password db sure h =
      let got : get_user_by_username w name db ≡ (err no_rows, db) =
        rw (sure Query.get_user, h) refl in
      bind_err (without_rows invalid_credentials (get_user_by_username w name))
        (check_login p w password) (rows_err invalid_credentials (get_user_by_username w name) got)

  pub login_disabled :
      (w : World) (name password : String) (u : User) (db : Db)
      → IsReliable w
      → by_name name db.users ≡ some u
      → u.disabled ≡ true
      → login p w name password db ≡ (err user_disabled, db)
  unfolding check_login
  login_disabled w name password u db sure h off =
      login_lem p w name password u db sure h ∙ rw off refl

  -- What a login leaves of the key and of the rows of other names.
  login-others :
      (t : Try) (name : String) (u : User) (db : Db)
      → IsReliable t.world
      → IsKeyed db.users
      → by_name name db.users ≡ some u
      → (name == t.username) ≡ false
      → IsKeyed (login p t.world t.username t.password db).1.users
        × (by_name name (login p t.world t.username t.password db).1.users ≡ some u)
  login-others t name u db sure keyed h d = elim (Option-cases (by_name t.username db.users)) [
    | inl absent ↦ rw (login_unknown t.world t.username t.password db sure absent) (keyed, h)
    | inr (v, there) ↦ elim (Bool-cases v.disabled) [
      | inl off ↦ rw (login_disabled t.world t.username t.password v db sure there off) (keyed, h)
      | inr on ↦
          let (c, said) = login-Change p t.world t.username t.password v db sure there on keyed in
          (
            IsKeyed-Change v u t.username name db.users
                (login p t.world t.username t.password db).1.users _ keyed there c,
            by_name-Change v u t.username name db.users
                  (login p t.world t.username t.password db).1.users _ keyed there c h
                ∙ rw
                    (apart v u t.username name db.users
                      (login p t.world t.username t.password db).1.users _ keyed there c h d)
                    refl,
          )
    ]
  ]

  -- A login as `name`, in terms of the user alone.
  login-Own :
      (t : Try) (u : User) (db : Db)
      → IsReliable t.world
      → IsKeyed db.users
      → by_name t.username db.users ≡ some u
      → u.disabled ≡ false
      → Own t.username u
          (login p t.world t.username t.password db)
          (attempt (p.check_password u.password_hash t.password) t.world.now (lock_of u))
  login-Own t u db sure keyed h on =
      let (c, said) = login-Change p t.world t.username t.password u db sure h on keyed in
      record {
        user = c.update u;
        row =
            by_name-Change u u t.username t.username db.users
              (login p t.world t.username t.password db).1.users _ keyed h c h
            ∙ ground (arith, string_eq.same_iff u.id u.id);
        lock = c.lock;
        password_hash = c.keeps.password_hash u;
        active = c.keeps.disabled u ∙ on;
        keyed =
            IsKeyed-Change u u t.username t.username db.users
              (login p t.world t.username t.password db).1.users _ keyed h c;
        said = said;
      }

  -- The verdicts on the logins as an active user, whoever else logs in between, are those of an automaton
  -- that keeps a counter and a time, knows of each attempt whether the password was right and when it
  -- came, and sees no other user. The statements of the database succeed, and IDs are unique.
  pub verdicts-replay :
      (name : String) (ts : List Try) (u : User) (db : Db)
      → AreReliable ts
      → IsKeyed db.users
      → by_name name db.users ≡ some u
      → u.disabled ≡ false
      → verdicts name ts db ≡ replay (attempts u.password_hash name ts) (lock_of u)
  unfolding verdicts attempts replay
  verdicts-replay name [] u db sure keyed h on = refl
  verdicts-replay name (t ∷ ts) u db (now, later) keyed h on =
      elim (Bool-cases (t.username == name)) [
        | inl mine ↦
            let same : t.username ≡ name =
              ground (arith, mine, string_eq.same_iff t.username name) in
            let own =
              login-Own t u db now keyed (subst (λ n. by_name n db.users ≡ some u) (sym same) h)
                on in
            let rest =
              verdicts-replay name ts own.user (login p t.world t.username t.password db).1 later
                own.keyed
                (subst
                  (λ n.
                    by_name n (login p t.world t.username t.password db).1.users ≡ some own.user)
                  same own.row)
                own.active in
            rw mine (
              ap (λ v. v ∷ verdicts name ts (login p t.world t.username t.password db).1) own.said
              ∙ ap
                  (λ vs.
                    (attempt (p.check_password u.password_hash t.password) t.world.now
                      (lock_of u)).1
                    ∷ vs)
                  (rest
                    ∙ ap (λ h. replay (attempts h name ts) (lock_of own.user)) own.password_hash
                    ∙ ap (replay (attempts u.password_hash name ts)) own.lock))
        | inr other ↦
            let (key, row) = login-others t name u db now keyed h (
              ground (
                arith,
                other,
                string_eq.same_iff t.username name,
                string_eq.same_iff name t.username,
              )) in
            rw other (
              verdicts-replay name ts u (login p t.world t.username t.password db).1 later key row
                on)
      ]

  -- Wrong passwords for one active user, from a first one on between two times, get five tries and then
  -- one in every 15 minutes at most, whoever else logs in between. The statements of the database succeed,
  -- IDs are unique, and the user starts without failures.
  pub guesses-verdicts :
      (name : String) (ts : List Try) (u : User) (db : Db) (from to : ℕ)
      → AreReliable ts
      → IsKeyed db.users
      → by_name name db.users ≡ some u
      → u.disabled ≡ false
      → lock_of u ≡ record { failures = 0; until = none }
      → AreWrong from to (attempts u.password_hash name ts)
      → from ≤ to
      → guesses (verdicts name ts db) * lockout_duration
        ≤ max_failed_attempts * lockout_duration + (to - from)
  guesses-verdicts name ts u db from to sure keyed h on fresh w order =
      rw (verdicts-replay name ts u db sure keyed h on, fresh)
        (guesses-replay from to (attempts u.password_hash name ts) w order)
