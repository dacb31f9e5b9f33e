-- ===== src/Auth/Uniqueness.antt =====
-- The user table under `create_user` and `bootstrap_admin` of backend/app/auth/users.py.
use mathlib.Core.Option.{some-injective}
use ap2web.Auth.Roles.{HttpError, admin_role, user_role, valid_roles}
use ap2web.Auth.State.{AuthState}
use ap2web.Auth.Sessions.{normalize_username}
use ap2web.Auth.Accounts.{
  Bootstrap, Policy, active_admin, bootstrap_admin, create_user, done, promote, refused, same_name,
  valid_password, valid_username,
}
use ap2web.Prelude.{
  Bool, Bool-cases, List, Option-cases, Result, Text, [], any, any-count, arith, count-append,
  count_of_none, count_where, err, false, first, if◌then◌else◌, inl, inr, is_empty, lower, member,
  ok, refl, some, text_eq, text_eq_iff, true, update_where, ℕ, ◌&&◌, ◌++◌, ◌==◌, ◌∙◌, ◌∷◌, ◌≡◌, ◌≤◌,
  ◌⊎◌,
}
use ap2web.Users.{User}

-- No two users have one name in any mixture of cases.
abbrev pub HasUniqueNames : List User → Type 0
HasUniqueNames users = (n : Text) → count_where (same_name n) users ≤ 1

same_name_trans :
    (n m : Text) (u : User) → text_eq (lower m) (lower n) ≡ true → same_name n u ≡ same_name m u
same_name_trans n m u e = rw ((text_eq_iff (lower m) (lower n)).0 e) refl

append-HasUniqueNames :
    (users : List User) (row : User)
    → HasUniqueNames users
    → any (same_name row.username) users ≡ false
    → HasUniqueNames (users ++ (row ∷ []))
append-HasUniqueNames users row unique fresh n = elim (Bool-cases (same_name n row)) [
  | inr e ↦ omega (arith, count-append (same_name n) users (row ∷ []), alone e, unique n)
  | inl e ↦ omega (arith, count-append (same_name n) users (row ∷ []), at_most, none_before e)
]
  where
    alone : same_name n row ≡ false → count_where (same_name n) (row ∷ []) ≡ 0
    alone e = rw e refl

    at_most : count_where (same_name n) (row ∷ []) ≤ 1
    at_most = elim (Bool-cases (same_name n row)) [
      | inl e ↦ rw e (omega arith)
      | inr e ↦ rw e (omega arith)
    ]

    same_test :
        (us : List User)
        → text_eq (lower row.username) (lower n) ≡ true
        → count_where (same_name n) us ≡ count_where (same_name row.username) us
    same_test [] e = refl
    same_test (u ∷ us) e = rw (same_name_trans n row.username u e, same_test us e) refl

    none_before : same_name n row ≡ true → count_where (same_name n) users ≡ 0
    none_before e =
        same_test users e
        ∙ count_of_none (same_name row.username) users
            (any-count (same_name row.username) users fresh)

module _ (policy : Policy) (hash : Text → Text) where
  -- Creating a user keeps the names unique whatever their case, on every outcome.
  pub create_user-HasUniqueNames :
      (now : ℕ) (username password role : Text) (s : AuthState)
      → HasUniqueNames s.users
      → HasUniqueNames (create_user policy hash now username password role s).1.users
  unfolding create_user
  create_user-HasUniqueNames now username password role s unique =
      elim (Bool-cases (valid_username policy (normalize_username username))) [
        | inr e ↦ rw e unique
        | inl e ↦ elim (Bool-cases (valid_password policy password)) [
          | inr f ↦ rw (e, f) unique
          | inl f ↦ elim (Bool-cases (any (same_name (normalize_username username)) s.users)) [
            | inl g ↦ rw (e, f, g) unique
            | inr g ↦ rw (e, f, g) (append-HasUniqueNames s.users _ unique g)
          ]
        ]
      ]

  any-last :
      (q : User → Bool) (us : List User) (u : User) → q u ≡ true → any q (us ++ (u ∷ [])) ≡ true
  any-last q [] u h = rw h refl
  any-last q (v ∷ us) u h = rw (any-last q us u h) (ground arith)

  any-promote :
      (q : User → Bool) (us : List User) {u : User}
      → first q us ≡ some u
      → any active_admin (update_where (λ x. x.id == u.id) promote us) ≡ true
  unfolding text_eq
  any-promote q [] h = cc
  any-promote q (v ∷ us) {u} h = elim (Bool-cases (v.id == u.id)) [
    | inl e ↦ rw e refl
    | inr e ↦ elim (Bool-cases (q v)) [
      | inl f ↦ absurd (clash u.id (rw (some-injective v u (rw f at h)) at e))
      | inr f ↦ rw e (rw (any-promote q us (rw f at h)) (ground arith))
    ]
  ]
    where
      clash : (n : ℕ) → (n == n) ≡ false → ⊥
      clash n e = ground arith

  new_admin :
      (text_eq (if member admin_role valid_roles then admin_role else user_role) admin_role
        && (1 == 1))
      ≡ true
  unfolding member text_eq
  new_admin = refl

  create_user-active_admin :
      (now : ℕ) (username password : Text) (s : AuthState) {uid : ℕ}
      → (create_user policy hash now username password admin_role s).0 ≡ ok uid
      → any active_admin (create_user policy hash now username password admin_role s).1.users ≡ true
  unfolding create_user
  create_user-active_admin now username password s h =
      elim (Bool-cases (valid_username policy (normalize_username username))) [
        | inr e ↦ cc (rw e at h)
        | inl e ↦ elim (Bool-cases (valid_password policy password)) [
          | inr f ↦ cc (rw (e, f) at h)
          | inl f ↦ elim (Bool-cases (any (same_name (normalize_username username)) s.users)) [
            | inl g ↦ cc (rw (e, f, g) at h)
            | inr g ↦ rw (e, f, g) (any-last active_admin s.users _ new_admin)
          ]
        ]
      ]

  made_one :
      (r : Result HttpError ℕ) (known : Bool) {b : Bool}
      → (let x : Bootstrap = elim r [
        | ok uid ↦ done true
        | err e ↦ if e.status_code == 409 && known then done false else refused e
      ] in
          x)
        ≡ done b
      → ((uid : ℕ) × (r ≡ ok uid)) ⊎ (known ≡ true)
  made_one (ok uid) known h = inl (uid, refl)
  made_one (err e) true h = inr refl
  made_one (err e) false h = elim (Bool-cases (e.status_code == 409)) [
    | inl f ↦ cc (rw f at h)
    | inr f ↦ cc (rw f at h)
  ]

  -- A bootstrap that was given a name and a password and that does not fail leaves an active
  -- administrator.
  pub bootstrap_admin-active_admin :
      (now : ℕ) (username password : Text) (s : AuthState) {b : Bool}
      → is_empty username ≡ false
      → is_empty password ≡ false
      → (bootstrap_admin policy hash now username password s).0 ≡ done b
      → any active_admin (bootstrap_admin policy hash now username password s).1.users ≡ true
  unfolding bootstrap_admin
  bootstrap_admin-active_admin now username password s name_given password_given h =
      elim (Bool-cases (any active_admin s.users)) [
        | inl e ↦ rw (name_given, password_given, e) e
        | inr e ↦ elim (Option-cases (first (same_name (normalize_username username)) s.users)) [
          | inr (u, found) ↦
              rw (name_given, password_given, e, found)
                (any-promote (same_name (normalize_username username)) s.users found)
          | inl found ↦
              rw (name_given, password_given, e, found)
                (finish (
                  made_one (tried.0) (any active_admin tried.1.users)
                    (rw (name_given, password_given, e, found) at h)))
        ]
      ]
    where
      tried : Result HttpError ℕ × AuthState
      tried = create_user policy hash now (normalize_username username) password admin_role s

      finish :
          ((uid : ℕ) × (tried.0 ≡ ok uid)) ⊎ (any active_admin tried.1.users ≡ true)
          → any active_admin tried.1.users ≡ true
      finish (inl (uid, made)) =
          create_user-active_admin now (normalize_username username) password s made
      finish (inr known) = known
