-- ===== src/Auth/Permissions.antt =====
-- The permission checks of backend/app/auth/dependencies.py against each other.
use ap2web.Auth.Roles.{
  HttpError, admin_role, effective_role, has_permission, operator_role, permissions,
  require_permission, user_role, valid_roles,
}
use ap2web.Prelude.{
  Bool, Bool-cases, Option, Result, Text, [], arith, err, false, if◌then◌else◌, inl, inr, lower,
  lower_idem, member, none, ok, refl, some, text_eq, true, ◌∷◌, ◌≡◌,
}
use ap2web.Users.{role_of}

-- Reading a role twice is reading it once.
role_of_idem : (r : Option Text) → role_of (some (role_of r)) ≡ role_of r
unfolding role_of lower
role_of_idem none = refl
role_of_idem (some []) = refl
role_of_idem (some (c ∷ s)) = lower_idem (c ∷ s)

pub effective_role-valid : (r : Option Text) → member (effective_role r) valid_roles ≡ true
unfolding effective_role member text_eq
effective_role-valid r = elim (Bool-cases (member (role_of r) valid_roles)) [
  | inl e ↦ rw e e
  | inr e ↦ rw e refl
]

abbrev pub passes : Result HttpError (Unit {0}) → Bool
passes (ok a) = true
passes (err e) = false

-- With enforcement the dependency lets a request pass exactly if the role has the permission;
-- without it, exactly if the role is a valid one.
pub require_permission-has_permission :
    (perm : Text) (r : Option Text)
    → (passes (require_permission true perm r) ≡ has_permission r perm)
      × (passes (require_permission false perm r) ≡ member (role_of r) valid_roles)
unfolding require_permission has_permission
require_permission-has_permission perm r = rw (role_of_idem r) (ground arith)

read_is_operator :
    (perm : Text)
    → member perm (permissions user_role) ≡ true
    → member perm (permissions operator_role) ≡ true
unfolding permissions member
read_is_operator perm h = ground arith

has_permission_known :
    (role perm : Text)
    → role_of (some role) ≡ role
    → member role valid_roles ≡ true
    → has_permission (some role) perm
      ≡ (if text_eq role admin_role then true else member perm (permissions role))
unfolding has_permission
has_permission_known role perm e v = rw (e, v) refl

-- The permissions grow from user to operator to admin, an admin has each of them, and a role that is
-- not in the table has none.
pub has_permission-order :
    (perm : Text) (r : Option Text)
    → (has_permission (some user_role) perm ≡ true
        → has_permission (some operator_role) perm ≡ true)
      × (has_permission (some admin_role) perm ≡ true)
      × (member (role_of r) valid_roles ≡ false → has_permission r perm ≡ false)
unfolding has_permission role_of lower member permissions text_eq
has_permission-order perm r = (λ h. read_is_operator perm h, refl, λ e. rw e refl)
