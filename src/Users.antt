-- ===== src/Users.antt =====
-- The `users` table (backend/app/db/schema.py), and the role that a row or a caller's dict stands
-- for.
use ap2web.Prelude.{
  Bool, List, Option, Text, codes, first, if◌then◌else◌, is_empty, lower, none, some, text_eq, ℕ,
}

pub record User : Type 0 where
  pub id : ℕ
  pub username : Text
  pub password_hash : Text
  pub role : Option Text
  pub is_active : Option ℕ
  pub created_at : ℕ

-- `(value or "user").lower()`
unfoldable pub role_of : Option Text → Text
unfolding lower
role_of none = codes "user"
role_of (some r) = if is_empty r then codes "user" else lower r

abbrev pub named : Text → User → Bool
named name u = text_eq u.username name

-- `_user_id_by_name` of backend/app/jobs/registry.py.
unfoldable pub user_id_by_name : Text → List User → Option ℕ
user_id_by_name name users = elim (first (named name) users) [ none ↦ none | some u ↦ some u.id ]

-- The dict of the authenticated caller that handlers are given.
pub record Caller : Type 0 where
  pub role : Option Text
  pub username : Option Text
  pub user_id : Option ℕ
