-- ===== src/Auth/Sessions.antt =====
-- `authenticate` and `refresh_session` of backend/app/auth/sessions.py. Random tokens, the hash and
-- the password check are arguments.
use ap2web.Auth.Roles.{HttpError, effective_role}
use ap2web.Auth.State.{
  AuditEvent, AuthState, Session, active_flag, create_session_row, emit, revoke_family,
  revoke_session, session_by_refresh, touch_session,
}
use ap2web.Prelude.{
  Bool, List, Option, Result, Text, codes, err, false, first, if◌then◌else◌, is_some, lower, ltb,
  none, not, ok, some, strip, true, ℕ, ◌==◌,
}
use ap2web.Users.{User, named}

-- What a request brings, and the randomness that its handling draws.
pub record Draw : Type 0 where
  pub now : ℕ
  pub refresh_raw : Text
  pub family : Text
  pub csrf : Text
  pub ip : Option Text
  pub ua : Option Text

-- The dict that a login or a refresh returns; the access token is its claims.
pub record Tokens : Type 0 where
  pub username : Text
  pub role : Text
  pub session_id : ℕ
  pub refresh_token : Text
  pub csrf_token : Text
  pub expires_in : ℕ

abbrev pub unauthorized : Text → HttpError
unauthorized d = record { status_code = 401; detail = d }

abbrev pub bad_credentials : HttpError
bad_credentials = unauthorized (codes "Credenciais inválidas")

abbrev pub invalid_session : HttpError
invalid_session = unauthorized (codes "Sessão inválida")

abbrev pub expired_session : HttpError
expired_session = unauthorized (codes "Sessão expirada")

abbrev pub event : Text → Bool → Option Text → Option Text → AuditEvent
event action success code name = record {
  action = action;
  success = success;
  error_code = code;
  username = name;
}

abbrev pub login_failure : Text → AuditEvent
login_failure name = event (codes "login.failure") false (some (codes "AUTH_FAILED")) none

-- `(username or "").strip().lower()`
unfoldable pub normalize_username : Text → Text
unfolding lower strip
normalize_username name = lower (strip name)

-- `_db_user_by_name`
unfoldable pub db_user_by_name : Text → List User → Option User
unfolding normalize_username
db_user_by_name name users = first (named (normalize_username name)) users

abbrev pub is_expired : ℕ → Session → Bool
is_expired now r = elim r.expires_at [ none ↦ false | some e ↦ ltb e now ]

abbrev pub has_user_id : ℕ → User → Bool
has_user_id uid u = u.id == uid

abbrev pub active_user : List User → ℕ → Option User
active_user users uid = elim (first (has_user_id uid) users) [
  | none ↦ none
  | some u ↦ if active_flag u.is_active then some u else none
]

-- `session_ttl or refresh_token_ttl_seconds`
abbrev pub ttl_or : ℕ → Option ℕ → ℕ
ttl_or default none = default
ttl_or default (some n) = if n == 0 then default else n

module _ (sha256 : Text → Text) (verify : Text → Text → Bool) (access_ttl refresh_ttl : ℕ) where
  -- The session row, the tokens and the audit record of a success.
  unfoldable pub open_session :
      Draw → ℕ → Text → Text → Text → Text → ℕ → AuthState → Tokens × AuthState
  unfolding create_session_row touch_session
  open_session d user name role action family ttl s =
      let (sid, s1) = create_session_row sha256 d.now user d.refresh_raw ttl family d.ip d.ua s in
      let s2 = touch_session d.now sid s1 in
      (
        record {
          username = name;
          role = role;
          session_id = sid;
          refresh_token = d.refresh_raw;
          csrf_token = d.csrf;
          expires_in = access_ttl;
        },
        emit (event action true none (some name)) s2,
      )

  unfoldable pub authenticate :
      Draw → Text → Text → Option ℕ → AuthState → Result HttpError Tokens × AuthState
  unfolding db_user_by_name normalize_username effective_role open_session
  authenticate d username password session_ttl s =
      let name = normalize_username username in
      let refused : Result HttpError Tokens × AuthState =
        (err bad_credentials, emit (login_failure name) s) in
      elim (db_user_by_name name s.users) [
        | none ↦ refused
        | some u ↦
            if not (verify password u.password_hash)
            then refused
            else if not (active_flag u.is_active)
            then refused
            else (let (t, s') =
                  open_session d u.id name (effective_role u.role) (codes "login.success") d.family
                    (ttl_or refresh_ttl session_ttl) s in
                (ok t, s'))
      ]

  -- The rotation of a session that is live, for a user who is active.
  unfoldable pub rotate : Draw → Session → User → AuthState → Tokens × AuthState
  unfolding revoke_session effective_role open_session
  rotate d r u s =
      open_session d r.user_id u.username (effective_role u.role) (codes "auth.refresh") r.family_id
        refresh_ttl (revoke_session d.now r.id (codes "rotated") s)

  unfoldable pub refresh_session : Draw → Text → AuthState → Result HttpError Tokens × AuthState
  unfolding session_by_refresh revoke_family rotate
  refresh_session d raw s = elim (session_by_refresh sha256 raw s) [
    | none ↦ (
      err invalid_session,
      emit (event (codes "auth.refresh_failure") false (some (codes "REFRESH_INVALID")) none) s,
    )
    | some r ↦
        if is_some r.revoked_at
        then (
          err invalid_session,
          emit (event (codes "auth.refresh_reuse") false (some (codes "REFRESH_REUSE")) none)
              (revoke_family d.now r.family_id (codes "reuse_detected") s),
        )
        else if is_expired d.now r
        then (
          err expired_session,
          emit (event (codes "auth.refresh_failure") false (some (codes "REFRESH_EXPIRED")) none) s,
        )
        else elim (active_user s.users r.user_id) [
          | none ↦ (err invalid_session, revoke_family d.now r.family_id (codes "user_inactive") s)
          | some u ↦ let (t, s') = rotate d r u s in (ok t, s')
        ]
  ]
