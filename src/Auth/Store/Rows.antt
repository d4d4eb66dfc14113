-- ===== src/Auth/Store/Rows.antt =====
-- Rows of auth_users as the statements find and change them.
use subnetree.Prelude.{
  ◌≡◌, refl, ap, subst, ◌∙◌, Option-cases, String, Bool, List, [], ◌∷◌, Option, none, some, ◌==◌,
  string_eq, if◌then◌else◌, arith, Bool-cases, inl, inr,
}
use subnetree.Auth.Monad.{User}
use subnetree.Auth.Store.{find, update_user}

-- An update that keeps what a test reads is seen through the test.
pub find-update_user :
    (test : User → Bool) (id : String) (f : User → User) (us : List User)
    → ((u : User) → test (f u) ≡ test u)
    → find test (update_user id f us)
      ≡ elim (find test us) [ none ↦ none | some u ↦ some (if u.id == id then f u else u) ]
find-update_user test id f [] h = refl
find-update_user test id f (u ∷ us) h =
    let same : test (if u.id == id then f u else u) ≡ test u = ground (arith, h u) in
    ground (arith, same, find-update_user test id f us h)

abbrev pub by_id : String → List User → Option User
by_id id us = find (λ u. u.id == id) us

abbrev pub by_name : String → List User → Option User
by_name name us = find (λ u. u.username == name) us

pub by_name-username :
    (name : String) (us : List User) (u : User) → by_name name us ≡ some u → u.username ≡ name
by_name-username name [] u h = absurd (cc h)
by_name-username name (v ∷ us) u h = elim (Bool-cases (v.username == name)) [
  | inl t ↦ ground (arith, h, t, string_eq.same_iff v.username name)
  | inr f ↦ by_name-username name us u (ground (arith, h, f))
]

pub by_id-id : (id : String) (us : List User) (u : User) → by_id id us ≡ some u → u.id ≡ id
by_id-id id [] u h = absurd (cc h)
by_id-id id (v ∷ us) u h = elim (Bool-cases (v.id == id)) [
  | inl t ↦ ground (arith, h, t, string_eq.same_iff v.id id)
  | inr f ↦ by_id-id id us u (ground (arith, h, f))
]

-- The ID is the primary key: the row of a name is the row of its ID.
abbrev pub IsKeyed : List User → Type 0
IsKeyed us = (name : String) (u : User) → by_name name us ≡ some u → by_id u.id us ≡ some u

-- An update that keeps what a login looks at before the lock.
pub record Keeps (f : User → User) : Type 0 where
  pub id : (u : User) → (f u).id ≡ u.id
  pub username : (u : User) → (f u).username ≡ u.username
  pub password_hash : (u : User) → (f u).password_hash ≡ u.password_hash
  pub disabled : (u : User) → (f u).disabled ≡ u.disabled

pub by_name-update_user :
    (f : User → User)
    → Keeps f
    → (name id : String) (us : List User)
    → by_name name (update_user id f us)
      ≡ elim (by_name name us) [ none ↦ none | some u ↦ some (if u.id == id then f u else u) ]
by_name-update_user f k name id us =
    find-update_user (λ u. u.username == name) id f us (λ u. ap (λ s. s == name) (k.username u))

pub by_id-update_user :
    (f : User → User)
    → Keeps f
    → (name id : String) (us : List User)
    → by_id name (update_user id f us)
      ≡ elim (by_id name us) [ none ↦ none | some u ↦ some (if u.id == id then f u else u) ]
by_id-update_user f k name id us =
    find-update_user (λ u. u.id == name) id f us (λ u. ap (λ s. s == name) (k.id u))

updated : String → (User → User) → User → User
updated id f u = if u.id == id then f u else u

pub IsKeyed-update_user :
    (f : User → User)
    → Keeps f
    → (id : String) (us : List User) → IsKeyed us
    → IsKeyed (update_user id f us)
unfolding updated
IsKeyed-update_user f k id us v name u h = elim (Option-cases (by_name name us)) [
  | inl n ↦ absurd (ground (arith, h, n, by_name-update_user f k name id us))
  | inr (w, e) ↦
      let same : updated id f w ≡ u = ground (arith, h, e, by_name-update_user f k name id us) in
      let own : (updated id f w).id ≡ w.id = ground (arith, k.id w) in
      let found : by_id w.id (update_user id f us) ≡ some (updated id f w) =
        ground (arith, by_id-update_user f k w.id id us, v name w e) in
      subst (λ x. by_id x.id (update_user id f us) ≡ some x) same
        (ap (λ i. by_id i (update_user id f us)) own ∙ found)
]

pub update_user-update_user :
    (f g : User → User)
    → Keeps f
    → (id : String) (us : List User)
    → update_user id g (update_user id f us) ≡ update_user id (λ u. g (f u)) us
update_user-update_user f g k id [] = refl
update_user-update_user f g k id (u ∷ us) =
    ground (arith, k.id u, update_user-update_user f g k id us)

pub update_user_same : (id : String) (us : List User) → update_user id (λ u. u) us ≡ us
update_user_same id [] = refl
update_user_same id (u ∷ us) = ground (arith, update_user_same id us)
