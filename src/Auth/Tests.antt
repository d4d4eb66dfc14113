-- ===== src/Auth/Tests.antt =====
-- Two users, one of them behind a second factor, with passwords as their own hashes, and the theorems at
-- them.
use subnetree.Prelude.{
  ℕ, ◌+◌, ◌*◌, ◌-◌, ◌≤◌, ◌≡◌, ◌≢◌, refl, subst, Bool-cases, inl, inr, String, Bool, true, false,
  List, [], ◌∷◌, none, some, ◌==◌, string_eq, if◌then◌else◌, arith, ok, err,
}
use subnetree.Auth.Monad.{User, RefreshToken, Db, invalid_token, user_disabled}
use subnetree.Auth.Store.{World}
use subnetree.Auth.Store.Rows.{by_id, IsKeyed}
use subnetree.Auth.Service.{
  Primitives, TokenPair, pair, max_failed_attempts, lockout_duration, login, setup, refresh,
  update_user_account,
}
use subnetree.Auth.Service.Mfa.{complete_mfa_login}
use subnetree.Auth.Service.Lockout.{locked, wrong, replay, guesses}
use subnetree.Auth.Service.Lockout.Logins.{lock_of}
use subnetree.Auth.Service.Lockout.Runs.{Try, verdicts, attempts, verdicts-replay, guesses-verdicts}
use subnetree.Auth.Service.Rotation.{
  Call, log_in, refresh_pair, second_factor, clean, AreFresh, serve_all, refresh-serve_all,
}
use subnetree.Auth.Service.Accounts.{login-update_user_account, refresh-update_user_account}
use subnetree.Auth.Service.FirstUser.{setup-login}
use subnetree.Auth.Service.Factors.{login-mfa}
use subnetree.Auth.Service.Once.Runs.{AreOther}
use subnetree.Auth.Service.Once.{second_step, second_step-second_step}

abbrev plain : Primitives
plain = record {
  check_password = λ hash password. hash == password;
  hash_password = λ password. some password;
  password_length = λ password. 9;
  hash_token = λ token. token;
  validate_mfa_token = λ now token. if token == "mfa" then some "u2" else none;
  validate_totp = λ now code secret. code == secret;
  encrypt = λ secret. some secret;
  decrypt = λ secret. some secret;
  refresh_ttl = 604800;
}

abbrev at : ℕ → String → World
at t raw = record {
  now = t;
  fails = λ q. false;
  access_token = λ u. some "access";
  raw_refresh = some raw;
  new_id = raw;
  mfa_token = λ id. some "mfa";
}

abbrev row : String → String → Bool → User
row id name factor = record {
  id = id;
  username = name;
  email = name;
  password_hash = "open sesame";
  role = "viewer";
  last_login = none;
  disabled = false;
  failed_login_attempts = 0;
  locked_until = none;
  totp_enabled = factor;
  totp_verified = factor;
  totp_secret = some "000000";
}

abbrev ann : User
ann = row "u1" "ann" false

abbrev bob : User
bob = row "u2" "bob" true

abbrev token : RefreshToken
token = record { id = "t1"; user_id = "u1"; token_hash = "old"; expires_at = 5000; revoked = false }

abbrev tables : Db
tables = record {
  users = ann ∷ bob ∷ [];
  refresh_tokens = token ∷ [];
  mfa_tokens = record { token_hash = "mfa"; user_id = "u2"; expires_at = 5000 } ∷ [];
  recovery_codes = [];
}

tables-IsKeyed : IsKeyed tables.users
tables-IsKeyed name u h = elim (Bool-cases ("ann" == name)) [
  | inl t ↦
      let same : ann ≡ u = ground (arith, h, t) in
      subst (λ v. by_id v.id tables.users ≡ some v) same refl
  | inr f ↦ elim (Bool-cases ("bob" == name)) [
    | inl t ↦
        let same : bob ≡ u = ground (arith, h, f, t) in
        subst (λ v. by_id v.id tables.users ≡ some v) same refl
    | inr g ↦ absurd (ground (arith, h, f, g))
  ]
]

abbrev attempt_as : ℕ → String → String → Try
attempt_as t name password = record { world = at t "new"; username = name; password = password }

-- Five wrong passwords, with a login of the other user between them, and a right one too early.
abbrev burst : List Try
burst =
    attempt_as 10 "ann" "a"
    ∷ attempt_as 11 "ann" "b"
    ∷ attempt_as 12 "bob" "open sesame"
    ∷ attempt_as 13 "ann" "c"
    ∷ attempt_as 14 "ann" "d"
    ∷ attempt_as 15 "ann" "e"
    ∷ attempt_as 16 "ann" "open sesame"
    ∷ []

burst-verdicts :
    verdicts plain "ann" burst tables ≡ wrong ∷ wrong ∷ wrong ∷ wrong ∷ wrong ∷ locked ∷ []
unfolding verdicts
burst-verdicts = refl

verdicts-replay_example :
    verdicts plain "ann" burst tables
    ≡ replay (attempts plain "open sesame" "ann" burst) (lock_of ann)
verdicts-replay_example =
    verdicts-replay plain "ann" burst ann tables
      (λ q. refl, (λ q. refl, (λ q. refl, (λ q. refl, (λ q. refl, (λ q. refl, (λ q. refl, tt)))))))
      tables-IsKeyed refl refl

-- The five guesses of the burst, without its last line.
abbrev wrong_ones : List Try
wrong_ones =
    attempt_as 10 "ann" "a" ∷ attempt_as 12 "bob" "open sesame" ∷ attempt_as 13 "ann" "b" ∷ []

guesses-verdicts_example :
    guesses (verdicts plain "ann" wrong_ones tables) * lockout_duration
    ≤ max_failed_attempts * lockout_duration + (20 - 10)
unfolding attempts
guesses-verdicts_example =
    guesses-verdicts plain "ann" wrong_ones ann tables 10 20
      (λ q. refl, (λ q. refl, (λ q. refl, tt))) tables-IsKeyed refl refl refl
      (refl, omega arith, omega arith, (refl, omega arith, omega arith, tt)) (omega arith)

abbrev pair_of : String → TokenPair
pair_of raw = record { access_token = "access"; refresh_token = raw }

abbrev between : List (World × Call)
between =
    (at 21 "third", refresh_pair "second")
    ∷ (at 22 "fourth", log_in "ann" "open sesame")
    ∷ (at 9000 "x", clean)
    ∷ []

another : (s raw : String) → some s ≡ some raw → (s == "old") ≡ false → (raw == "old") ≡ false
another s raw e d = ground (arith, e, d)

between-AreFresh : AreFresh plain "old" between
between-AreFresh = (
  λ raw e. another "third" raw e refl,
  (λ raw e. another "fourth" raw e refl, (λ raw e. another "x" raw e refl, tt)),
)

refresh-serve_all_example :
    (refresh plain
      (at 9001 "y")
      "old"
      (serve_all plain between (refresh plain (at 20 "second") "old" tables).1)).0
    ≡ err invalid_token
refresh-serve_all_example =
    refresh-serve_all plain (at 20 "second") (at 9001 "y") "old" (pair_of "second") tables between
      refl refl refl (λ raw e. another "second" raw e refl) between-AreFresh
      (unfold refresh in refl)

login-update_user_account_example :
    login plain
      (at 30 "z")
      "ann"
      "open sesame"
      (update_user_account plain (at 20 "z") "u1" "ann" "viewer" true tables).1
    ≡ (err user_disabled, (update_user_account plain (at 20 "z") "u1" "ann" "viewer" true tables).1)
login-update_user_account_example =
    login-update_user_account plain (at 20 "z") (at 30 "z") "u1" "ann" "viewer" ann tables
      (λ q. refl) (λ q. refl) refl "ann" "open sesame" (record ann { disabled = true })
      (unfold update_user_account in refl) refl

refresh-update_user_account_example :
    refresh plain
      (at 30 "z")
      "old"
      (update_user_account plain (at 20 "z") "u1" "ann" "viewer" true tables).1
    ≡ (err invalid_token, (update_user_account plain (at 20 "z") "u1" "ann" "viewer" true tables).1)
refresh-update_user_account_example =
    refresh-update_user_account plain (at 20 "z") (at 30 "z") "u1" "ann" "viewer" ann tables
      (λ q. refl) (λ q. refl) refl "old" (record token { revoked = true })
      (unfold update_user_account in refl) refl

abbrev empty : Db
empty = record { users = []; refresh_tokens = []; mfa_tokens = []; recovery_codes = [] }

setup-login_example :
    (login plain
      (at 30 "z")
      "ann"
      "open sesame"
      (setup plain (at 20 "u1") "ann" "ann@home" "open sesame" empty).1).0
    ≡ ok (pair (pair_of "z"))
setup-login_example =
    setup-login plain (at 20 "u1") (at 30 "z") "ann" "ann@home" "open sesame" "open sesame" "access"
      "z" empty (λ q. refl) (λ q. refl) refl refl refl refl refl refl refl

login-mfa_example : (login plain (at 30 "z") "bob" "open sesame" tables).0 ≢ ok (pair (pair_of "z"))
login-mfa_example =
    login-mfa plain (at 30 "z") "bob" "open sesame" bob tables (pair_of "z") refl refl

-- A login that issues another token, and a second step with it.
abbrev second_login : List (World × Call)
second_login =
    (record (at 31 "v") { mfa_token = λ id. some "other" }, log_in "bob" "open sesame")
    ∷ (record (at 32 "v") { mfa_token = λ id. none }, second_factor "other" "000000")
    ∷ []

other_token :
    (s token : String) → some s ≡ some token → (s == "mfa") ≡ false → (token == "mfa") ≡ false
other_token s token e d = ground (arith, e, d)

second_login-AreOther : AreOther plain "mfa" second_login
second_login-AreOther =
    (λ id token e. other_token "other" token e refl, (λ id token e. absurd (cc e), tt))

second_step-second_step_example :
    (second_step plain (at 33 "w") true "mfa" "code" (
      serve_all plain second_login (second_step plain (at 30 "z") false "mfa" "000000" tables).1)).0
    ≢ ok (pair_of "w")
second_step-second_step_example =
    second_step-second_step plain (at 30 "z") (at 33 "w") "mfa" "000000" "code" false true tables
      second_login (pair_of "z") (pair_of "w") refl second_login-AreOther
      (unfold complete_mfa_login in refl)
