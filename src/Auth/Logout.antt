-- ===== src/Auth/Logout.antt =====
-- `logout_session` of backend/app/auth/sessions.py.
use ap2web.Auth.State.{
  AuthState, Session, emit, has_sid, in_family, revoke_family, revoke_session, session_by_refresh,
}
use ap2web.Auth.Sessions.{event}
use ap2web.Prelude.{
  Bool, List, Option, Text, [], codes, drop, first, if◌then◌else◌, is_empty, is_some, length, lower,
  none, not, select, some, starts_with, strip, true, ℕ, ◌&&◌, ◌+◌, ◌||◌, ◌∷◌,
}

-- The claims of an access token that decoded; `sid` may be missing.
pub record Claims : Type 0 where
  pub sub : Option Text
  pub role : Option Text
  pub sid : Option ℕ

-- What the request carries: the refresh cookie, the access cookie, the Authorization header.
pub record Credentials : Type 0 where
  pub refresh_cookie : Text
  pub access_cookie : Text
  pub authorization : Text

abbrev pub live_in_family : Text → Session → Bool
live_in_family f r = in_family f r && not (is_some r.revoked_at)

-- The loop over the siblings.
unfoldable pub revoke_each : ℕ → List Session → AuthState → AuthState
unfolding revoke_session
revoke_each now [] s = s
revoke_each now (r ∷ rs) s = revoke_each now rs (revoke_session now r.id (codes "logout") s)

abbrev pub bearer : Text
bearer = codes "bearer "

-- The number of sessions revoked, and the state.
module _ (sha256 : Text → Text) (decode : Text → Option Claims) where
  -- With a refresh cookie.
  unfoldable pub logout_by_refresh : ℕ → Text → AuthState → ℕ × AuthState
  unfolding session_by_refresh revoke_session revoke_each
  logout_by_refresh now raw s = elim (session_by_refresh sha256 raw s) [
    | none ↦ (0, s)
    | some r ↦
        let s1 = revoke_session now r.id (codes "logout") s in
        if is_empty r.family_id
        then (1, s1)
        else (let siblings = select (live_in_family r.family_id) s1.sessions in
            (1 + length siblings, revoke_each now siblings s1))
  ]

  -- The session that the `sid` of an access token names.
  unfoldable pub logout_by_sid : ℕ → ℕ → AuthState → ℕ × AuthState
  unfolding revoke_session revoke_family
  logout_by_sid now sid s = elim (first (has_sid sid) s.sessions) [
    | none ↦ (0, s)
    | some r ↦
        if is_empty r.family_id
        then (1, revoke_session now sid (codes "logout") s)
        else (1, revoke_family now r.family_id (codes "logout") s)
  ]

  abbrev pub sid_of : Text → Option ℕ
  sid_of raw = elim (decode raw) [ none ↦ none | some c ↦ c.sid ]

  -- With an access token: the cookie, or the text behind "Bearer ".
  unfoldable pub logout_by_access : ℕ → Credentials → AuthState → ℕ × AuthState
  unfolding logout_by_sid strip starts_with lower
  logout_by_access now c s =
      if not (is_empty c.access_cookie) || starts_with (lower c.authorization) bearer
      then (let raw =
            if is_empty c.access_cookie then strip (drop 7 c.authorization) else c.access_cookie in
          elim (sid_of raw) [ none ↦ (0, s) | some sid ↦ logout_by_sid now sid s ])
      else (0, s)

  unfoldable pub logout_session : ℕ → Credentials → AuthState → ℕ × AuthState
  unfolding logout_by_refresh logout_by_access
  logout_session now c s =
      let (n, s') =
        if is_empty c.refresh_cookie
        then logout_by_access now c s
        else logout_by_refresh now c.refresh_cookie s in
      (n, emit (event (codes "logout") true none none) s')
