-- ===== src/Config/Env.antt =====
-- The readers of environment values of backend/app/config.py. The environment is a function; `int`
-- on texts and the reading of a file are arguments.
use ap2web.Prelude.{
  Bool, List, Option, Text, [], codes, if◌then◌else◌, is_empty, lower, ltb, map, member, none, not,
  select, some, split_on, strip, ℕ, ◌++◌, ◌∷◌,
}

abbrev pub Environ : Type 0
Environ = Text → Option Text

-- What `int` returns.
pub data ℤ : Type 0 where
  pos : ℕ → ℤ
  negsuc : ℕ → ℤ

-- `value or default`
abbrev pub or_text : Option Text → Text → Text
or_text none default = default
or_text (some t) default = if is_empty t then default else t

-- `_as_bool`
unfoldable pub as_bool : Option Text → Bool → Bool
unfolding lower strip member
as_bool none default = default
as_bool (some t) default =
    member (lower (strip t)) (codes "1" ∷ codes "true" ∷ codes "yes" ∷ codes "on" ∷ [])

-- The two clamps of `_as_int`, whose bounds are natural numbers at every call.
unfoldable pub clamp : ℕ → ℕ → ℤ → ℕ
clamp lo hi (negsuc n) = if ltb hi lo then hi else lo
clamp lo hi (pos n) = let v = if ltb n lo then lo else n in if ltb hi v then hi else v

abbrev pub parsed : (Text → Option ℤ) → Option Text → ℕ → ℤ
parsed to_int none default = pos default
parsed to_int (some t) default = elim (to_int t) [ none ↦ pos default | some z ↦ z ]

-- `_as_int`
unfoldable pub as_int : (Text → Option ℤ) → Option Text → ℕ → ℕ → ℕ → ℕ
unfolding clamp
as_int to_int value default lo hi = clamp lo hi (parsed to_int value default)

abbrev pub full : Text → Bool
full t = not (is_empty t)

-- `[part.strip() for part in text.split(",") if part.strip()]`
unfoldable pub split_list : Text → List Text
unfolding split_on strip
split_list t = select full (map strip (split_on b',' t))

-- `_parse_origins`
unfoldable pub parse_origins : Option Text → Text → List Text
unfolding split_list strip
parse_origins none default = split_list default
parse_origins (some t) default = if is_empty (strip t) then split_list default else split_list t

-- `read_env_value`: a value, else the content of the file that `NAME_FILE` names; `none` when that
-- file cannot be read.
unfoldable pub read_env_value : (Text → Option Text) → Environ → Text → Option Text
unfolding strip
read_env_value read_file env name =
    let value = strip (or_text (env name) []) in
    let file_path = strip (or_text (env (name ++ codes "_FILE")) []) in
    if not (is_empty value)
    then some value
    else if is_empty file_path
    then some []
    else elim (read_file file_path) [ none ↦ none | some t ↦ some (strip t) ]
