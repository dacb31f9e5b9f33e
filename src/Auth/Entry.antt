-- ===== src/Auth/Entry.antt =====
-- What a login answers, and for whom a request is resolved: `authenticate` of
-- backend/app/auth/sessions.py and `_resolve_user` of backend/app/auth/dependencies.py.
use mathlib.Core.Option.{some-injective}
use ap2web.Auth.Roles.{HttpError, effective_role, valid_roles}
use ap2web.Auth.State.{AuthState, active_flag, check_session_live, emit}
use ap2web.Auth.Sessions.{
  Draw, Tokens, authenticate, bad_credentials, db_user_by_name, login_failure, normalize_username,
  open_session, ttl_or,
}
use ap2web.Auth.Logout.{Claims}
use ap2web.Auth.Access.{
  Identity, active_named, extract_token, live_sid, resolve_claims, resolve_user, valid_claim,
  valid_subject,
}
use ap2web.Auth.Permissions.{effective_role-valid}
use ap2web.Prelude.{
  Bool, Bool-cases, List, Option, Option-cases, Result, Text, ap, codes, err, false, first, inl,
  inr, member, none, ok, refl, some, subst, sym, true, ℕ, ◌∙◌, ◌≡◌, ◌⊎◌,
}
use ap2web.Users.{User, named}

-- The password is right and the user active.
abbrev pub Grants : (Text → Text → Bool) → Text → Text → List User → Type 0
Grants verify username password users =
    (u : User) × (db_user_by_name (normalize_username username) users ≡ some u)
    × (verify password u.password_hash ≡ true)
    × (active_flag u.is_active ≡ true)

-- A login is granted, or it is refused with one and the same error and one and the same audit record,
-- whether the name is unknown, the password is wrong or the user is inactive. It is granted exactly
-- if the name is known, the password verifies and the user is active; the tokens then carry the
-- normalised name and the user's role.
pub authenticate-cases :
    (sha256 : Text → Text) (verify : Text → Text → Bool) (access_ttl refresh_ttl : ℕ) (d : Draw)
    (username password : Text) (ttl : Option ℕ) (s : AuthState)
    → let name = normalize_username username in
      let x = authenticate sha256 verify access_ttl refresh_ttl d username password ttl s in
      ((x ≡ (err bad_credentials, emit (login_failure name) s))
        × ¬ Grants verify username password s.users)
      ⊎ ((t : Tokens) × (x.0 ≡ ok t)
          × (t.username ≡ name)
          × ((g : Grants verify username password s.users) × (t.role ≡ effective_role g.0.role)))
unfolding authenticate open_session
authenticate-cases sha256 verify access_ttl refresh_ttl d username password ttl s =
    elim (Option-cases (db_user_by_name (normalize_username username) s.users)) [
      | inl e ↦ inl (rw (e, authenticate) refl, λ (u, known, right, live). cc (rw e at known))
      | inr (u, e) ↦ elim (Bool-cases (verify password u.password_hash)) [
        | inr wrong ↦ inl (
          rw (e, authenticate) (rw wrong refl),
          λ (v, known, right, live).
              clash
                (subst (λ w. verify password w.password_hash ≡ true)
                  (sym (some-injective u v (rw e at known))) right)
                wrong,
        )
        | inl right ↦ elim (Bool-cases (active_flag u.is_active)) [
          | inr inactive ↦ inl (
            rw (e, authenticate) (rw (right, inactive) refl),
            λ (v, known, verified, live).
                clash
                  (subst (λ w. active_flag w.is_active ≡ true)
                    (sym (some-injective u v (rw e at known))) live)
                  inactive,
          )
          | inl live ↦ inr (
            (open_session sha256 verify access_ttl refresh_ttl d u.id (normalize_username username)
                (effective_role u.role) (codes "login.success") d.family (ttl_or refresh_ttl ttl)
                s).0,
            rw (e, authenticate) (rw (right, live) refl),
            refl,
            ((u, e, right, live), refl),
          )
        ]
      ]
    ]
  where
    clash : {b : Bool} → b ≡ true → b ≡ false → ⊥
    clash t f = cc

-- The row of an identity: the session is live, and the user is known under the identity's name and
-- active.
abbrev pub Backed : ℕ → Identity → AuthState → Type 0
Backed now i s =
    (check_session_live now i.session_id s ≡ true)
    × ((u : User) × (first (named i.username) s.users ≡ some u)
        × (active_flag u.is_active ≡ true)
        × (i.user_id ≡ u.id)
        × (i.role ≡ effective_role u.role))

module _ (decode : Text → Result HttpError Claims) where
  live_sid_live :
      (now : ℕ) (o : Option ℕ) (s : AuthState) {sid : ℕ}
      → live_sid now o s ≡ some sid
      → check_session_live now sid s ≡ true
  live_sid_live now none s h = cc
  live_sid_live now (some n) s {sid} h = elim (Bool-cases (check_session_live now n s)) [
    | inl e ↦ subst (λ k. check_session_live now k s ≡ true) (some-injective n sid (rw e at h)) e
    | inr e ↦ cc (rw e at h)
  ]

  active_named_active :
      (name : Text) (users : List User) {u : User}
      → active_named name users ≡ some u
      → (first (named name) users ≡ some u) × (active_flag u.is_active ≡ true)
  active_named_active name users {u} h = elim (Option-cases (first (named name) users)) [
    | inl e ↦ cc (rw (e, active_named) at h)
    | inr (v, e) ↦ elim (Bool-cases (active_flag v.is_active)) [
      | inr f ↦ cc (rw f at rw (e, active_named) at h)
      | inl f ↦
          let same = some-injective v u (rw f at rw (e, active_named) at h) in
          (e ∙ ap some same, subst (λ w. active_flag w.is_active ≡ true) same f)
    ]
  ]

  resolve_claims-Backed :
      (now : ℕ) (c : Claims) (s : AuthState) {i : Identity}
      → (resolve_claims decode now c s).0 ≡ ok i
      → Backed now i s × (member i.role valid_roles ≡ true)
  unfolding resolve_claims
  resolve_claims-Backed now c s {i} h = elim (Option-cases (valid_subject c.sub)) [
    | inl e ↦ cc (rw (e, resolve_claims) at h)
    | inr (sub, e) ↦ elim (Bool-cases (valid_claim c.role)) [
      | inr bad ↦ cc (rw bad at rw (e, resolve_claims) at h)
      | inl good ↦ elim (Option-cases (live_sid now c.sid s)) [
        | inl dead ↦ cc (rw (good, dead) at rw (e, resolve_claims) at h)
        | inr (sid, live) ↦ elim (Option-cases (active_named sub s.users)) [
          | inl gone ↦ cc (rw (good, live, gone) at rw (e, resolve_claims) at h)
          | inr (u, known) ↦
              let (found, active) = active_named_active sub s.users known in
              subst (λ j. Backed now j s × (member j.role valid_roles ≡ true))
                (ok-injective (rw (good, live, known) at rw (e, resolve_claims) at h))
                (
                  (live_sid_live now c.sid s live, (u, found, active, refl, refl)),
                  effective_role-valid u.role,
                )
        ]
      ]
    ]
  ]
    where
      ok-injective : {a b : Identity} → ◌≡◌ {A = Result HttpError Identity} (ok a) (ok b) → a ≡ b
      ok-injective p = cc

  -- A request that is resolved has a session that is live, neither revoked nor expired, and a user who
  -- is known and active; the identity's role is that user's, not the token's, and a valid one.
  pub resolve_user-Backed :
      (now : ℕ) (credentials cookie : Text) (s : AuthState) {i : Identity}
      → (resolve_user decode now credentials cookie s).0 ≡ ok i
      → Backed now i s × (member i.role valid_roles ≡ true)
  unfolding resolve_user
  resolve_user-Backed now credentials cookie s {i} h =
      elim (Option-cases (extract_token credentials cookie)) [
        | inl e ↦ cc (rw (e, resolve_user) at h)
        | inr (token, e) ↦ decoded (decode token) (rw (e, resolve_user) at h)
      ]
    where
      decoded :
          (r : Result HttpError Claims)
          → (let x : Result HttpError Identity × AuthState = elim r [
            | err e ↦ (err e, s)
            | ok c ↦ resolve_claims decode now c s
          ] in
              x).0
            ≡ ok i
          → Backed now i s × (member i.role valid_roles ≡ true)
      decoded (err e) f = cc
      decoded (ok c) f = resolve_claims-Backed now c s f
