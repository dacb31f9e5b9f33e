-- ===== src/Auth/Accounts.antt =====
-- `create_user` and `bootstrap_admin` of backend/app/auth/users.py, with the policies of
-- backend/app/auth/password.py. The database's other failures are left out.
use ap2web.Auth.Roles.{HttpError, admin_role, user_role, valid_roles}
use ap2web.Auth.State.{AuthState}
use ap2web.Auth.Sessions.{normalize_username}
use ap2web.Prelude.{
  Bool, Result, Text, [], any, codes, err, false, first, if◌then◌else◌, is_empty, leb, length,
  lower, member, none, not, ok, some, strip, suc, text_eq, true, update_where, ℕ, ◌&&◌, ◌++◌, ◌==◌,
  ◌||◌, ◌∷◌,
}
use ap2web.Users.{User}

pub record Policy : Type 0 where
  pub username_min : ℕ
  pub username_max : ℕ
  pub password_min : ℕ
  pub password_max : ℕ

-- `[A-Za-z0-9._-]`
unfoldable pub username_code : ℕ → Bool
username_code c =
    (leb b'A' c && leb c b'Z')
    || (leb b'a' c && leb c b'z')
    || (leb b'0' c && leb c b'9')
    || c == b'.'
    || c == b'_'
    || c == b'-'

abbrev pub all_codes : (ℕ → Bool) → Text → Bool
all_codes p [] = true
all_codes p (c ∷ s) = p c && all_codes p s

-- `_valid_username`; the pattern `^[…]+$` also lets one line feed stand at the end, which `strip`
-- has removed.
unfoldable pub valid_username : Policy → Text → Bool
unfolding strip username_code
valid_username p name =
    let u = strip name in
    leb p.username_min (length u)
    && leb (length u) p.username_max
    && (not (is_empty u) && all_codes username_code u)

-- `_valid_password`
unfoldable pub valid_password : Policy → Text → Bool
unfolding strip
valid_password p password =
    if is_empty password || is_empty (strip password)
    then false
    else leb p.password_min (length password) && leb (length password) p.password_max

abbrev pub bad_username : HttpError
bad_username = record { status_code = 400; detail = codes "username" }

abbrev pub bad_password : HttpError
bad_password = record { status_code = 400; detail = codes "password" }

abbrev pub user_exists : HttpError
user_exists = record { status_code = 409; detail = codes "Usuário já existe" }

-- `LOWER(username)=LOWER(?)`
abbrev pub same_name : Text → User → Bool
same_name name u = text_eq (lower u.username) (lower name)

-- What the bootstrap answers or raises.
pub data Bootstrap : Type 0 where
  done : Bool → Bootstrap
  incomplete : Bootstrap
  refused : HttpError → Bootstrap

-- `role='admin' AND is_active=1`
abbrev pub active_admin : User → Bool
active_admin u =
    elim u.role [ none ↦ false | some r ↦ text_eq r admin_role ]
    && elim u.is_active [ none ↦ false | some n ↦ n == 1 ]

abbrev pub promote : User → User
promote u = record u { role = some admin_role; is_active = some 1 }

module _ (policy : Policy) (hash : Text → Text) where
  unfoldable pub create_user : ℕ → Text → Text → Text → AuthState → Result HttpError ℕ × AuthState
  unfolding normalize_username valid_username valid_password member lower
  create_user now username password role s =
      let name = normalize_username username in
      if not (valid_username policy name)
      then (err bad_username, s)
      else if not (valid_password policy password)
      then (err bad_password, s)
      else if any (same_name name) s.users
      then (err user_exists, s)
      else (let row : User = record {
        id = s.next_user;
        username = name;
        password_hash = hash password;
        role = some (if member role valid_roles then role else user_role);
        is_active = some 1;
        created_at = now;
      } in
          (ok s.next_user, record s { users = s.users ++ (row ∷ []); next_user = suc s.next_user }))

  unfoldable pub bootstrap_admin : ℕ → Text → Text → AuthState → Bootstrap × AuthState
  unfolding normalize_username create_user
  bootstrap_admin now username password s =
      if is_empty username && is_empty password
      then (done false, s)
      else if is_empty username || is_empty password
      then (incomplete, s)
      else if any active_admin s.users
      then (done false, s)
      else (let name = normalize_username username in
          elim (first (same_name name) s.users) [
            | some u ↦
                (done true, record s { users = update_where (λ x. x.id == u.id) promote s.users })
            | none ↦
                let (r, s') = create_user now name password admin_role s in
                (
                  elim r [
                    | ok uid ↦ done true
                    | err e ↦
                        if e.status_code == 409 && any active_admin s'.users
                        then done false
                        else refused e
                  ],
                  s',
                )
          ])
