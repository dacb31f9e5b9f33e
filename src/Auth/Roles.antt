-- ===== src/Auth/Roles.antt =====
-- The roles and the permissions table of backend/app/auth/core.py, and the checks of
-- backend/app/auth/dependencies.py on them.
use ap2web.Prelude.{
  Bool, List, Option, Result, Text, [], codes, err, false, if◌then◌else◌, lower, map, member, not,
  ok, some, text_eq, true, ℕ, ◌++◌, ◌||◌, ◌∷◌,
}
use ap2web.Users.{role_of}

abbrev pub user_role : Text
user_role = codes "user"

abbrev pub operator_role : Text
operator_role = codes "operator"

abbrev pub admin_role : Text
admin_role = codes "admin"

-- `VALID_ROLES`
abbrev pub valid_roles : List Text
valid_roles = user_role ∷ operator_role ∷ admin_role ∷ []

abbrev pub read_permissions : List Text
read_permissions =
    codes "read:leagues"
    ∷ codes "read:teams"
    ∷ codes "read:matches"
    ∷ codes "read:predictions"
    ∷ codes "read:history"
    ∷ codes "read:jobs"
    ∷ codes "read:market"
    ∷ codes "read:risk"
    ∷ []

-- `PERMISSIONS.get(role, set())`
unfoldable pub permissions : Text → List Text
permissions role =
    if text_eq role user_role
    then read_permissions
    else if text_eq role operator_role
    then read_permissions ++ (codes "sync:data" ∷ codes "sync:league" ∷ codes "job:cancel" ∷ [])
    else if text_eq role admin_role
    then codes "*" ∷ []
    else []

-- The role of a row or of a caller: `(role or "user").lower()`, and "user" if that is no role.
unfoldable pub effective_role : Option Text → Text
effective_role r = if member (role_of r) valid_roles then role_of r else user_role

unfoldable pub has_permission : Option Text → Text → Bool
has_permission r perm =
    if not (member (role_of r) valid_roles)
    then false
    else if text_eq (role_of r) admin_role
    then true
    else member perm (permissions (role_of r))

pub record HttpError : Type 0 where
  pub status_code : ℕ
  pub detail : Text

abbrev pub forbidden : HttpError
forbidden = record { status_code = 403; detail = codes "Permissão negada" }

-- The checker of `require_permission`, on the role of the resolved user and with the setting
-- `enforce_roles`: whether the request goes on.
unfoldable pub require_permission : Bool → Text → Option Text → Result HttpError (Unit {0})
require_permission enforced perm r =
    if not (member (role_of r) valid_roles)
    then err forbidden
    else if not (has_permission (some (role_of r)) perm)
    then (if not enforced then ok tt else err forbidden)
    else ok tt

-- The checker of `require_role`.
unfoldable pub require_role : Bool → List Text → Option Text → Result HttpError (Unit {0})
require_role enforced allowed_roles r =
    if text_eq (role_of r) admin_role || member (role_of r) (map lower allowed_roles)
    then ok tt
    else if not enforced
    then ok tt
    else err forbidden
