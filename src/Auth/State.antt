-- ===== src/Auth/State.antt =====
-- The state of backend/app/auth: the `users` and `auth_sessions` tables
-- (backend/app/db/schema.py), the audit events emitted so far, and the statements of
-- backend/app/auth/tokens.py. Times are seconds since the epoch; the ISO texts sort like them.
use ap2web.Prelude.{
  Bool, List, Option, Text, [], false, first, is_some, leb, none, not, some, suc, text_eq, true,
  update_where, ℕ, ◌&&◌, ◌++◌, ◌+◌, ◌==◌, ◌∷◌,
}
use ap2web.Users.{User}

pub record Session : Type 0 where
  pub id : ℕ
  pub user_id : ℕ
  pub refresh_token_hash : Text
  pub family_id : Text
  pub expires_at : Option ℕ
  pub revoked_at : Option ℕ
  pub revoked_reason : Option Text
  pub ip_address : Option Text
  pub user_agent : Option Text
  pub created_at : ℕ
  pub last_used_at : Option ℕ

-- What `security.audit_event` is called with; metadata and request data are left out.
pub record AuditEvent : Type 0 where
  pub action : Text
  pub success : Bool
  pub error_code : Option Text
  pub username : Option Text

pub record AuthState : Type 0 where
  pub users : List User
  pub sessions : List Session
  pub next_session : ℕ
  pub next_user : ℕ
  pub audit : List AuditEvent

-- `security.audit_event`
abbrev pub emit : AuditEvent → AuthState → AuthState
emit e s = record s { audit = s.audit ++ (e ∷ []) }

abbrev pub has_hash : Text → Session → Bool
has_hash h r = text_eq r.refresh_token_hash h

abbrev pub in_family : Text → Session → Bool
in_family f r = text_eq r.family_id f

abbrev pub has_sid : ℕ → Session → Bool
has_sid sid r = r.id == sid

abbrev pub revoke : ℕ → Text → Session → Session
revoke now reason r = record r { revoked_at = some now; revoked_reason = some reason }

-- `_session_by_refresh`
unfoldable pub session_by_refresh : (Text → Text) → Text → AuthState → Option Session
session_by_refresh sha256 raw s = first (has_hash (sha256 raw)) s.sessions

-- `_revoke_session`
unfoldable pub revoke_session : ℕ → ℕ → Text → AuthState → AuthState
revoke_session now sid reason s = record s {
  sessions = update_where (has_sid sid) (revoke now reason) s.sessions;
}

-- `_revoke_family`
unfoldable pub revoke_family : ℕ → Text → Text → AuthState → AuthState
revoke_family now family reason s = record s {
  sessions = update_where (in_family family) (revoke now reason) s.sessions;
}

-- `_touch_session`
unfoldable pub touch_session : ℕ → ℕ → AuthState → AuthState
touch_session now sid s = record s {
  sessions = update_where (has_sid sid) (λ r. record r { last_used_at = some now }) s.sessions;
}

-- `_create_session_row`: the new id and the state.
unfoldable pub create_session_row :
    (Text → Text) → ℕ → ℕ → Text → ℕ → Text → Option Text → Option Text → AuthState → ℕ × AuthState
create_session_row sha256 now user refresh_raw ttl family ip ua s =
    let row : Session = record {
      id = s.next_session;
      user_id = user;
      refresh_token_hash = sha256 refresh_raw;
      family_id = family;
      expires_at = some (now + ttl);
      revoked_at = none;
      revoked_reason = none;
      ip_address = ip;
      user_agent = ua;
      created_at = now;
      last_used_at = none;
    } in
    (
      s.next_session,
      record s { sessions = s.sessions ++ (row ∷ []); next_session = suc s.next_session },
    )

-- `_check_session_live`, on a row.
abbrev pub is_live : ℕ → Session → Bool
is_live now r =
    not (is_some r.revoked_at) && elim r.expires_at [ none ↦ false | some e ↦ leb now e ]

unfoldable pub check_session_live : ℕ → ℕ → AuthState → Bool
check_session_live now sid s = elim (first (has_sid sid) s.sessions) [
  | none ↦ false
  | some r ↦ is_live now r
]

-- `is_active in (None, 1, True)`
abbrev pub active_flag : Option ℕ → Bool
active_flag none = true
active_flag (some n) = n == 1
