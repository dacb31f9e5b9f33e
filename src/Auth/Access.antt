-- ===== src/Auth/Access.antt =====
-- `_extract_token` and `_resolve_user` of backend/app/auth/dependencies.py. The strict decoding of an
-- access token is an argument: its claims, or the error that it raises.
use ap2web.Auth.Roles.{HttpError, effective_role, valid_roles}
use ap2web.Auth.State.{AuthState, active_flag, check_session_live, touch_session}
use ap2web.Auth.Sessions.{invalid_session, unauthorized}
use ap2web.Auth.Logout.{Claims}
use ap2web.Prelude.{
  Bool, List, Option, Result, Text, codes, err, first, if◌then◌else◌, is_empty, lower, member, none,
  not, ok, some, strip, true, ℕ,
}
use ap2web.Users.{User, named}

-- The resolved user.
pub record Identity : Type 0 where
  pub username : Text
  pub role : Text
  pub user_id : ℕ
  pub session_id : ℕ

abbrev pub not_authenticated : HttpError
not_authenticated = unauthorized (codes "Não autenticado")

abbrev pub invalid_token : HttpError
invalid_token = unauthorized (codes "Token inválido")

-- The bearer credentials, else the access cookie; empty texts count as missing.
unfoldable pub extract_token : Text → Text → Option Text
extract_token credentials cookie =
    if not (is_empty credentials)
    then some credentials
    else if not (is_empty cookie)
    then some cookie
    else none

abbrev pub valid_subject : Option Text → Option Text
valid_subject none = none
valid_subject (some t) = if is_empty (strip t) then none else some t

abbrev pub valid_claim : Option Text → Bool
valid_claim none = true
valid_claim (some r) = member (lower r) valid_roles

abbrev pub live_sid : ℕ → Option ℕ → AuthState → Option ℕ
live_sid now none s = none
live_sid now (some sid) s = if check_session_live now sid s then some sid else none

abbrev pub active_named : Text → List User → Option User
active_named name users = elim (first (named name) users) [
  | none ↦ none
  | some u ↦ if active_flag u.is_active then some u else none
]

module _ (decode : Text → Result HttpError Claims) where
  -- The checks behind the decoding.
  unfoldable pub resolve_claims : ℕ → Claims → AuthState → Result HttpError Identity × AuthState
  unfolding strip lower member check_session_live touch_session effective_role
  resolve_claims now c s = elim (valid_subject c.sub) [
    | none ↦ (err invalid_token, s)
    | some sub ↦
        if not (valid_claim c.role) then (err invalid_token, s) else elim (live_sid now c.sid s) [
          | none ↦ (err invalid_session, s)
          | some sid ↦ elim (active_named sub s.users) [
            | none ↦ (err not_authenticated, s)
            | some u ↦ (
              ok (record {
                username = sub;
                role = effective_role u.role;
                user_id = u.id;
                session_id = sid;
              }),
              touch_session now sid s,
            )
          ]
        ]
  ]

  unfoldable pub resolve_user : ℕ → Text → Text → AuthState → Result HttpError Identity × AuthState
  unfolding extract_token resolve_claims
  resolve_user now credentials cookie s = elim (extract_token credentials cookie) [
    | none ↦ (err not_authenticated, s)
    | some token ↦ elim (decode token) [ err e ↦ (err e, s) | ok c ↦ resolve_claims now c s ]
  ]
