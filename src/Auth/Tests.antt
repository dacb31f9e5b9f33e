-- ===== src/Auth/Tests.antt =====
-- Concrete runs of the model of backend/app/auth.
use ap2web.Auth.Roles.{HttpError, effective_role, valid_roles}
use ap2web.Auth.Password.{hash_password, verify_password, verify_password-hash_password}
use ap2web.Auth.State.{
  AuthState, Session, check_session_live, emit, in_family, revoke, session_by_refresh,
}
use ap2web.Auth.Sessions.{
  Draw, Tokens, authenticate, bad_credentials, invalid_session, login_failure, normalize_username,
  refresh_session, rotate,
}
use ap2web.Auth.Logout.{Claims}
use ap2web.Auth.Access.{Identity, resolve_user}
use ap2web.Auth.Accounts.{Policy, bootstrap_admin, create_user, done, same_name}
use ap2web.Auth.Rotation.{DeadIn, Opened, refresh_session-refresh_session}
use ap2web.Auth.Entry.{Backed, Grants, authenticate-cases, resolve_user-Backed}
use ap2web.Auth.Uniqueness.{HasUniqueNames, create_user-HasUniqueNames}
use ap2web.Auth.Runs.{Run, Step, check_session_live-Run}
use ap2web.Prelude.{
  All, Bool-cases, Option, Result, Text, [], arith, codes, err, false, inl, inr, member, none, ok,
  refl, some, text_eq, true, update_where, ℕ, ◌∷◌, ◌≡◌, ◌⊎◌,
}
use ap2web.Users.{User, role_of}

-- Hashes that a reader can follow: a text is its own digest.
abbrev plain : Text → Text
plain t = t

abbrev no_claims : Text → Option Claims
no_claims t = none

abbrev alice : User
alice = record {
  id = 1;
  username = codes "alice";
  password_hash = codes "pw";
  role = some (codes "user");
  is_active = some 1;
  created_at = 0;
}

abbrev alice_session : Session
alice_session = record {
  id = 1;
  user_id = 1;
  refresh_token_hash = codes "old";
  family_id = codes "fam";
  expires_at = some 100;
  revoked_at = none;
  revoked_reason = none;
  ip_address = none;
  user_agent = none;
  created_at = 0;
  last_used_at = none;
}

abbrev start : AuthState
start = record {
  users = alice ∷ [];
  sessions = alice_session ∷ [];
  next_session = 2;
  next_user = 2;
  audit = [];
}

abbrev draw : Draw
draw = record {
  now = 10;
  refresh_raw = codes "new";
  family = codes "other";
  csrf = codes "csrf";
  ip = none;
  ua = none;
}

abbrev after_logout : AuthState
after_logout = record start { sessions = revoke 10 (codes "logout") alice_session ∷ [] }

abbrev policy : Policy
policy = record { username_min = 3; username_max = 32; password_min = 8; password_max = 128 }

abbrev claims : Claims
claims = record { sub = some (codes "alice"); role = none; sid = some 1 }

abbrev decode_claims : Text → Result HttpError Claims
decode_claims t = ok claims

abbrev digest : Text → Text → ℕ → Text
digest password salt n = password

abbrev show : ℕ → Text
show n = codes "10000"

abbrev to_int : Text → Option ℕ
to_int t = some 10000

verify_password-hash_password_example :
    verify_password digest show to_int
      (codes "pw")
      (hash_password digest show to_int 10000 (codes "pw") (codes "salt"))
    ≡ true
verify_password-hash_password_example =
    verify_password-hash_password digest show to_int 10000 (codes "pw") (codes "salt") refl refl
      refl refl refl refl (omega arith) (omega arith)

check_session_live-Run_example :
    check_session_live 11 1
      (authenticate plain text_eq 1800 604800 draw (codes "alice") (codes "pw") none after_logout).1
    ≡ false
check_session_live-Run_example =
    check_session_live-Run plain text_eq 1800 604800 no_claims decode_claims 11 1
      (Run.next Run.here (Step.login draw (codes "alice") (codes "pw") none after_logout)) refl refl

refreshed :
    (refresh_session plain text_eq 1800 604800 draw (codes "old") start).0
    ≡ ok (rotate plain text_eq 1800 604800 draw alice_session alice start).0
unfolding refresh_session session_by_refresh text_eq rotate
refreshed = refl

refresh_session-refresh_session_example :
    let again =
      refresh_session plain text_eq 1800 604800 draw
        (codes "old")
        (refresh_session plain text_eq 1800 604800 draw (codes "old") start).1 in
    (again.0 ≡ err invalid_session)
    × ((r : Session) × (session_by_refresh plain (codes "old") start ≡ some r)
        × Opened plain r.family_id
            (rotate plain text_eq 1800 604800 draw alice_session alice start).0
            (refresh_session plain text_eq 1800 604800 draw (codes "old") start).1.sessions
        × (again.1.sessions
            ≡ update_where
                (in_family r.family_id)
                (revoke draw.now (codes "reuse_detected"))
                (refresh_session plain text_eq 1800 604800 draw (codes "old") start).1.sessions)
        × All (DeadIn r.family_id) again.1.sessions)
refresh_session-refresh_session_example =
    refresh_session-refresh_session plain text_eq 1800 604800 draw draw (codes "old") start
      refreshed

authenticate-cases_example :
    let x = authenticate plain text_eq 1800 604800 draw (codes " Alice") (codes "pw") none start in
    ((x ≡ (err bad_credentials, emit (login_failure (normalize_username (codes " Alice"))) start))
      × ¬ Grants text_eq (codes " Alice") (codes "pw") start.users)
    ⊎ ((t : Tokens) × (x.0 ≡ ok t)
        × (t.username ≡ normalize_username (codes " Alice"))
        × ((g : Grants text_eq (codes " Alice") (codes "pw") start.users) × (t.role
              ≡ effective_role g.0.role)))
authenticate-cases_example =
    authenticate-cases plain text_eq 1800 604800 draw (codes " Alice") (codes "pw") none start

abbrev alice_identity : Identity
alice_identity = record {
  username = codes "alice";
  role = codes "user";
  user_id = 1;
  session_id = 1;
}

resolved : (resolve_user decode_claims 10 (codes "token") [] start).0 ≡ ok alice_identity
unfolding resolve_user role_of
resolved = refl

resolve_user-Backed_example :
    Backed 10 alice_identity start × (member alice_identity.role valid_roles ≡ true)
resolve_user-Backed_example = resolve_user-Backed decode_claims 10 (codes "token") [] start resolved

start-HasUniqueNames : HasUniqueNames start.users
start-HasUniqueNames n = elim (Bool-cases (same_name n alice)) [
  | inl e ↦ rw e (omega arith)
  | inr e ↦ rw e (omega arith)
]

create_user-HasUniqueNames_example :
    HasUniqueNames
      (create_user policy plain 10 (codes "Bob") (codes "longenough") (codes "user") start).1.users
create_user-HasUniqueNames_example =
    create_user-HasUniqueNames policy plain 10 (codes "Bob") (codes "longenough") (codes "user")
      start start-HasUniqueNames

promoted :
    (bootstrap_admin policy plain 10 (codes "Alice") (codes "longenough") start).0 ≡ done true
unfolding bootstrap_admin
promoted = refl
