-- ===== src/Auth/Runs.antt =====
-- Sequences of the calls of backend/app/auth: a session that is revoked stays revoked.
use ap2web.Auth.Roles.{HttpError}
use ap2web.Auth.State.{AuthState, Session, check_session_live, has_sid}
use ap2web.Auth.Sessions.{Draw, authenticate, normalize_username, refresh_session}
use ap2web.Auth.Logout.{Claims, Credentials, logout_session}
use ap2web.Auth.Access.{
  Identity, active_named, extract_token, live_sid, resolve_claims, resolve_user, valid_claim,
  valid_subject,
}
use ap2web.Auth.Accounts.{Policy, create_user, same_name, valid_password, valid_username}
use ap2web.Auth.Evolution.{Evolves-self, Evolves-trans, Sound, first-Evolves, touch_session-Sound}
use ap2web.Auth.Steps.{authenticate-Sound, logout-Sound, refresh-Sound}
use ap2web.Prelude.{
  Bool, Bool-cases, Option, Option-cases, Result, Text, any, err, false, first, inl, inr, is_some,
  ok, refl, some, true, ℕ, ◌≡◌,
}

-- One call, with what the call draws and reads from outside.
pub data Step (sha256 : Text → Text) (verify : Text → Text → Bool) (access_ttl refresh_ttl : ℕ)
    (decode_access : Text → Option Claims) (decode : Text → Result HttpError Claims)
    : AuthState → AuthState → Type 0 where
  login :
      (d : Draw) (username password : Text) (ttl : Option ℕ) (s : AuthState)
      → Step sha256 verify access_ttl refresh_ttl decode_access decode s
          (authenticate sha256 verify access_ttl refresh_ttl d username password ttl s).1
  refresh :
      (d : Draw) (raw : Text) (s : AuthState)
      → Step sha256 verify access_ttl refresh_ttl decode_access decode s
          (refresh_session sha256 verify access_ttl refresh_ttl d raw s).1
  logout :
      (now : ℕ) (c : Credentials) (s : AuthState)
      → Step sha256 verify access_ttl refresh_ttl decode_access decode s
          (logout_session sha256 decode_access now c s).1
  request :
      (now : ℕ) (credentials cookie : Text) (s : AuthState)
      → Step sha256 verify access_ttl refresh_ttl decode_access decode s
          (resolve_user decode now credentials cookie s).1
  register :
      (policy : Policy) (hash : Text → Text) (now : ℕ) (username password role : Text)
      (s : AuthState)
      → Step sha256 verify access_ttl refresh_ttl decode_access decode s
          (create_user policy hash now username password role s).1

module _ (sha256 : Text → Text) (verify : Text → Text → Bool) (access_ttl refresh_ttl : ℕ)
    (decode_access : Text → Option Claims) (decode : Text → Result HttpError Claims) where
  abbrev pub Call : AuthState → AuthState → Type 0
  Call = Step sha256 verify access_ttl refresh_ttl decode_access decode

  pub data Run (s : AuthState) : AuthState → Type 0 where
    here : Run s s
    next : {t u : AuthState} → Run s t → Call t u → Run s u

  resolve-Sound :
      (now : ℕ) (credentials cookie : Text) (s : AuthState)
      → Sound s (resolve_user decode now credentials cookie s).1
  unfolding resolve_user resolve_claims
  resolve-Sound now credentials cookie s = elim (Option-cases (extract_token credentials cookie)) [
    | inl e ↦ rw (e, resolve_user) (Evolves-self s.sessions)
    | inr (token, e) ↦ rw (e, resolve_user) (decoded (decode token))
  ]
    where
      checked : (c : Claims) → Sound s (resolve_claims decode now c s).1
      checked c = elim (Option-cases (valid_subject c.sub)) [
        | inl e ↦ rw (e, resolve_claims) (Evolves-self s.sessions)
        | inr (sub, e) ↦ elim (Bool-cases (valid_claim c.role)) [
          | inr bad ↦ rw (e, resolve_claims) (rw bad (Evolves-self s.sessions))
          | inl good ↦ elim (Option-cases (live_sid now c.sid s)) [
            | inl dead ↦ rw (e, resolve_claims) (rw (good, dead) (Evolves-self s.sessions))
            | inr (sid, live) ↦ elim (Option-cases (active_named sub s.users)) [
              | inl gone ↦ rw (e, resolve_claims) (rw (good, live, gone) (Evolves-self s.sessions))
              | inr (u, known) ↦
                  rw (e, resolve_claims) (rw (good, live, known) (touch_session-Sound now sid s))
            ]
          ]
        ]
      ]

      decoded :
          (r : Result HttpError Claims)
          → Sound s
              (let x : Result HttpError Identity × AuthState = elim r [
                | err e ↦ (err e, s)
                | ok c ↦ resolve_claims decode now c s
              ] in
                x).1
      decoded (err e) = Evolves-self s.sessions
      decoded (ok c) = checked c

  create_user-sessions :
      (policy : Policy) (hash : Text → Text) (now : ℕ) (username password role : Text)
      (s : AuthState)
      → Sound s (create_user policy hash now username password role s).1
  unfolding create_user
  create_user-sessions policy hash now username password role s =
      elim (Bool-cases (valid_username policy (normalize_username username))) [
        | inr e ↦ rw e (Evolves-self s.sessions)
        | inl e ↦ elim (Bool-cases (valid_password policy password)) [
          | inr f ↦ rw (e, f) (Evolves-self s.sessions)
          | inl f ↦ elim (Bool-cases (any (same_name (normalize_username username)) s.users)) [
            | inl g ↦ rw (e, f, g) (Evolves-self s.sessions)
            | inr g ↦ rw (e, f, g) (Evolves-self s.sessions)
          ]
        ]
      ]

  Call-Sound : {s t : AuthState} → Call s t → Sound s t
  Call-Sound (Step.login d username password ttl s) =
      authenticate-Sound sha256 verify access_ttl refresh_ttl d username password ttl s
  Call-Sound (Step.refresh d raw s) = refresh-Sound sha256 verify access_ttl refresh_ttl d raw s
  Call-Sound (Step.logout now c s) = logout-Sound sha256 decode_access now c s
  Call-Sound (Step.request now credentials cookie s) = resolve-Sound now credentials cookie s
  Call-Sound (Step.register policy hash now username password role s) =
      create_user-sessions policy hash now username password role s

  Run-Sound : {s t : AuthState} → Run s t → Sound s t
  Run-Sound {s} here = Evolves-self s.sessions
  Run-Sound {s} (next {t} {u} r c) =
      Evolves-trans s.sessions t.sessions u.sessions (Run-Sound r) (Call-Sound c)

  -- Revocation is final: a session that is found and revoked is dead for every later check, at any
  -- time and after any sequence of logins, refreshes, logouts, requests and registrations.
  pub check_session_live-Run :
      {s t : AuthState} (now sid : ℕ) {r : Session}
      → Run s t
      → first (has_sid sid) s.sessions ≡ some r
      → is_some r.revoked_at ≡ true
      → check_session_live now sid t ≡ false
  unfolding check_session_live
  check_session_live-Run {s} {t} now sid {r} run found gone =
      let (y, later, keeps) =
        first-Evolves sid s.sessions t.sessions {x = r} (Run-Sound run) found in
      rw (later, check_session_live) (rw (keeps.revoked gone) refl)
