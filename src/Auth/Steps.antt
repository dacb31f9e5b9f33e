-- ===== src/Auth/Steps.antt =====
-- The authentication calls of backend/app/auth as steps, and what every sequence of them keeps.
use ap2web.Auth.Roles.{effective_role}
use ap2web.Auth.State.{
  AuthState, Session, active_flag, create_session_row, has_sid, revoke_session, session_by_refresh,
  touch_session,
}
use ap2web.Auth.Sessions.{
  Draw, active_user, authenticate, db_user_by_name, is_expired, normalize_username, open_session,
  refresh_session, rotate, ttl_or,
}
use ap2web.Auth.Logout.{
  Claims, Credentials, bearer, live_in_family, logout_by_access, logout_by_refresh, logout_by_sid,
  logout_session, revoke_each, sid_of,
}
use ap2web.Auth.Evolution.{
  Evolves-self, Evolves-trans, Sound, create_session_row-Sound, revoke_family-Sound,
  revoke_session-Sound, touch_session-Sound,
}
use ap2web.Prelude.{
  Bool, Bool-cases, List, Option, Option-cases, Text, [], codes, drop, false, first, if◌then◌else◌,
  inl, inr, is_empty, is_some, lower, none, not, select, some, starts_with, strip, true, ℕ, ◌||◌,
  ◌∷◌,
}
use ap2web.Users.{User}

module _ (sha256 : Text → Text) (verify : Text → Text → Bool) (access_ttl refresh_ttl : ℕ) where
  pub open_session-Sound :
      (d : Draw) (user : ℕ) (name role action family : Text) (ttl : ℕ) (s : AuthState)
      → Sound s
          (open_session sha256 verify access_ttl refresh_ttl d user name role action family ttl s).1
  unfolding open_session
  open_session-Sound d user name role action family ttl s =
      Evolves-trans s.sessions created.sessions (touch_session d.now row created).sessions
        (create_session_row-Sound sha256 d.now user d.refresh_raw ttl family d.ip d.ua s)
        (touch_session-Sound d.now row created)
    where
      made : ℕ × AuthState
      made = create_session_row sha256 d.now user d.refresh_raw ttl family d.ip d.ua s

      row : ℕ
      row = made.0

      created : AuthState
      created = made.1

  pub authenticate-Sound :
      (d : Draw) (username password : Text) (ttl : Option ℕ) (s : AuthState)
      → Sound s (authenticate sha256 verify access_ttl refresh_ttl d username password ttl s).1
  unfolding authenticate
  authenticate-Sound d username password ttl s =
      elim (Option-cases (db_user_by_name (normalize_username username) s.users)) [
        | inl e ↦ rw (e, authenticate) (Evolves-self s.sessions)
        | inr (u, e) ↦ elim (Bool-cases (verify password u.password_hash)) [
          | inr wrong ↦ rw (e, authenticate) (rw wrong (Evolves-self s.sessions))
          | inl right ↦ elim (Bool-cases (active_flag u.is_active)) [
            | inr inactive ↦ rw (e, authenticate) (rw (right, inactive) (Evolves-self s.sessions))
            | inl live ↦
                rw (e, authenticate)
                  (rw (right, live)
                    (open_session-Sound d u.id (normalize_username username) (effective_role u.role)
                      (codes "login.success") d.family (ttl_or refresh_ttl ttl) s))
          ]
        ]
      ]

  pub rotate-Sound :
      (d : Draw) (r : Session) (u : User) (s : AuthState)
      → Sound s (rotate sha256 verify access_ttl refresh_ttl d r u s).1
  unfolding rotate
  rotate-Sound d r u s =
      Evolves-trans s.sessions revoked.sessions
        (open_session sha256 verify access_ttl refresh_ttl d r.user_id u.username
          (effective_role u.role) (codes "auth.refresh") r.family_id refresh_ttl revoked).1.sessions
        (revoke_session-Sound d.now r.id (codes "rotated") s)
        (open_session-Sound d r.user_id u.username (effective_role u.role) (codes "auth.refresh")
          r.family_id refresh_ttl revoked)
    where
      revoked : AuthState
      revoked = revoke_session d.now r.id (codes "rotated") s

  pub refresh-Sound :
      (d : Draw) (raw : Text) (s : AuthState)
      → Sound s (refresh_session sha256 verify access_ttl refresh_ttl d raw s).1
  unfolding refresh_session
  refresh-Sound d raw s = elim (Option-cases (session_by_refresh sha256 raw s)) [
    | inl e ↦ rw (e, refresh_session) (Evolves-self s.sessions)
    | inr (r, e) ↦ elim (Bool-cases (is_some r.revoked_at)) [
      | inl reused ↦
          rw (e, refresh_session)
            (rw reused (revoke_family-Sound d.now r.family_id (codes "reuse_detected") s))
      | inr live ↦ elim (Bool-cases (is_expired d.now r)) [
        | inl expired ↦ rw (e, refresh_session) (rw (live, expired) (Evolves-self s.sessions))
        | inr in_time ↦ elim (Option-cases (active_user s.users r.user_id)) [
          | inl gone ↦
              rw (e, refresh_session)
                (rw (live, in_time, gone)
                  (revoke_family-Sound d.now r.family_id (codes "user_inactive") s))
          | inr (u, active) ↦
              rw (e, refresh_session) (rw (live, in_time, active) (rotate-Sound d r u s))
        ]
      ]
    ]
  ]

module _ (sha256 : Text → Text) (decode_access : Text → Option Claims) where
  pub revoke_each-Sound :
      (now : ℕ) (rs : List Session) (s : AuthState) → Sound s (revoke_each now rs s)
  unfolding revoke_each
  revoke_each-Sound now [] s = Evolves-self s.sessions
  revoke_each-Sound now (r ∷ rs) s =
      Evolves-trans s.sessions next.sessions (revoke_each now rs next).sessions
        (revoke_session-Sound now r.id (codes "logout") s) (revoke_each-Sound now rs next)
    where
      next : AuthState
      next = revoke_session now r.id (codes "logout") s

  pub by_refresh-Sound :
      (now : ℕ) (raw : Text) (s : AuthState)
      → Sound s (logout_by_refresh sha256 decode_access now raw s).1
  unfolding logout_by_refresh
  by_refresh-Sound now raw s = elim (Option-cases (session_by_refresh sha256 raw s)) [
    | inl e ↦ rw (e, logout_by_refresh) (Evolves-self s.sessions)
    | inr (r, e) ↦ elim (Bool-cases (is_empty r.family_id)) [
      | inl alone ↦
          rw (e, logout_by_refresh) (rw alone (revoke_session-Sound now r.id (codes "logout") s))
      | inr family ↦ rw (e, logout_by_refresh) (rw family (both r))
    ]
  ]
    where
      both :
          (r : Session)
          → let s1 = revoke_session now r.id (codes "logout") s in
            Sound s (revoke_each now (select (live_in_family r.family_id) s1.sessions) s1)
      both r =
          let s1 = revoke_session now r.id (codes "logout") s in
          let siblings = select (live_in_family r.family_id) s1.sessions in
          Evolves-trans s.sessions s1.sessions (revoke_each now siblings s1).sessions
            (revoke_session-Sound now r.id (codes "logout") s) (revoke_each-Sound now siblings s1)

  pub by_sid-Sound :
      (now sid : ℕ) (s : AuthState) → Sound s (logout_by_sid sha256 decode_access now sid s).1
  unfolding logout_by_sid
  by_sid-Sound now sid s = elim (Option-cases (first (has_sid sid) s.sessions)) [
    | inl e ↦ rw (e, logout_by_sid) (Evolves-self s.sessions)
    | inr (r, e) ↦ elim (Bool-cases (is_empty r.family_id)) [
      | inl alone ↦
          rw (e, logout_by_sid) (rw alone (revoke_session-Sound now sid (codes "logout") s))
      | inr family ↦
          rw (e, logout_by_sid) (rw family (revoke_family-Sound now r.family_id (codes "logout") s))
    ]
  ]

  pub by_access-Sound :
      (now : ℕ) (c : Credentials) (s : AuthState)
      → Sound s (logout_by_access sha256 decode_access now c s).1
  unfolding logout_by_access
  by_access-Sound now c s =
      either (not (is_empty c.access_cookie) || starts_with (lower c.authorization) bearer) (
        sid_of sha256 decode_access
          (if is_empty c.access_cookie then strip (drop 7 c.authorization) else c.access_cookie))
    where
      either :
          (b : Bool) (o : Option ℕ)
          → Sound s
              (let r : ℕ × AuthState =
                  if b
                  then (elim o [
                    | none ↦ (0, s)
                    | some sid ↦ logout_by_sid sha256 decode_access now sid s
                  ])
                  else (0, s) in
                r).1
      either false o = Evolves-self s.sessions
      either true none = Evolves-self s.sessions
      either true (some sid) = by_sid-Sound now sid s

  pub logout-Sound :
      (now : ℕ) (c : Credentials) (s : AuthState)
      → Sound s (logout_session sha256 decode_access now c s).1
  unfolding logout_session
  logout-Sound now c s = elim (Bool-cases (is_empty c.refresh_cookie)) [
    | inl e ↦ rw e (by_access-Sound now c s)
    | inr e ↦ rw e (by_refresh-Sound now c.refresh_cookie s)
  ]
