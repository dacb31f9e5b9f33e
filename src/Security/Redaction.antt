-- ===== src/Security/Redaction.antt =====
-- `redact` of backend/app/security/audit.py: the removal of secrets from a nested value. Keys are
-- texts; `_hash_value` is an argument.
use ap2web.Prelude.{
  Bool, Bool-cases, List, Option, Text, [], arith, codes, false, if◌then◌else◌, inl, inr, is_empty,
  length, length-append, length-take, lower, ltb, member, none, refl, some, strip, suc, take, true,
  zero, ℕ, ◌++◌, ◌<◌, ◌∷◌, ◌≡◌, ◌≤◌, ◌⊎◌,
}

mutual
  -- A JSON value; numbers, booleans and null are the atoms.
  pub data Value : Type 0 where
    text : Text → Value
    atom : ℕ → Value
    array : Values → Value
    dict : Fields → Value

  pub data Values : Type 0 where
    no_values : Values
    value : Value → Values → Values

  pub data Fields : Type 0 where
    no_fields : Fields
    field : Text → Value → Fields → Fields

-- `_SENSITIVE_KEYS`
abbrev pub sensitive_keys : List Text
sensitive_keys =
    codes "password"
    ∷ codes "passwd"
    ∷ codes "pwd"
    ∷ codes "secret"
    ∷ codes "token"
    ∷ codes "access_token"
    ∷ codes "refresh_token"
    ∷ codes "csrf"
    ∷ codes "csrf_token"
    ∷ codes "cookie"
    ∷ codes "authorization"
    ∷ codes "api_key"
    ∷ codes "apikey"
    ∷ codes "auth"
    ∷ []

unfoldable pub is_sensitive : Text → Bool
unfolding lower strip member
is_sensitive key = member (lower (strip key)) sensitive_keys

module _ (hash : Text → Text) where
  -- What stands in for the value of a sensitive key.
  unfoldable pub hidden : Value → Value
  hidden (text t) =
      if is_empty t then text (codes "[redacted]") else text (codes "sha256:" ++ take 16 (hash t))
  hidden v = text (codes "[redacted]")

  abbrev pub shortened : Text → Text
  shortened t = if ltb 500 (length t) then take 500 t ++ codes "…[truncated]" else t

  -- `_recursive_redact`, by the depth that is left of its 8.
  unfoldable mutual
    pub recursive_redact : ℕ → Value → Value
    recursive_redact zero v = text (codes "[truncated]")
    recursive_redact (suc n) (text t) = text (shortened t)
    recursive_redact (suc n) (atom k) = atom k
    recursive_redact (suc n) (array vs) = array (redact_values n vs)
    recursive_redact (suc n) (dict fs) = dict (redact_fields n fs)

    pub redact_values : ℕ → Values → Values
    redact_values n no_values = no_values
    redact_values n (value v vs) = value (recursive_redact n v) (redact_values n vs)

    pub redact_fields : ℕ → Fields → Fields
    redact_fields n no_fields = no_fields
    redact_fields n (field k v fs) =
        field k (if is_sensitive k then hidden v else recursive_redact n v) (redact_fields n fs)

  -- `redact`: nothing for metadata that is missing or empty.
  unfoldable pub redact : Fields → Option Value
  unfolding recursive_redact
  redact no_fields = none
  redact (field k v fs) = some (recursive_redact 8 (dict (field k v fs)))

  -- What stands for the secret `v`: the start of the hash of that very text, or a mark.
  abbrev pub Masks : Value → Value → Type 0
  Masks (text []) w = w ≡ text (codes "[redacted]")
  Masks (text (c ∷ t)) w = w ≡ text (codes "sha256:" ++ take 16 (hash (c ∷ t)))
  Masks v w = w ≡ text (codes "[redacted]")

  -- `u` is the text `t`, or its first 500 characters and a mark, and so never long.
  abbrev pub Cuts : Text → Text → Type 0
  Cuts t u =
      (((length t ≤ 500) × (u ≡ t)) ⊎ ((500 < length t) × (u ≡ take 500 t ++ codes "…[truncated]")))
      × (length u ≤ 512)

  -- `w` is what may be shown of `v`, with `n` levels of nesting left: its shape, keys and atoms are
  -- kept, the value of a sensitive key is masked, and what lies deeper is a mark.
  mutual
    pub IsRedactionOf : ℕ → Value → Value → Type 0
    IsRedactionOf zero v w = w ≡ text (codes "[truncated]")
    IsRedactionOf (suc n) (text t) w = (u : Text) × (w ≡ text u) × Cuts t u
    IsRedactionOf (suc n) (atom k) w = w ≡ atom k
    IsRedactionOf (suc n) (array vs) w = (ws : Values) × (w ≡ array ws) × AreRedactionsOf n vs ws
    IsRedactionOf (suc n) (dict fs) w =
        (gs : Fields) × (w ≡ dict gs) × FieldsAreRedactionsOf n fs gs

    pub AreRedactionsOf : ℕ → Values → Values → Type 0
    AreRedactionsOf n no_values ws = ws ≡ no_values
    AreRedactionsOf n (value v vs) ws =
        (x : Value) × (xs : Values) × (ws ≡ value x xs)
        × IsRedactionOf n v x
        × AreRedactionsOf n vs xs

    pub FieldsAreRedactionsOf : ℕ → Fields → Fields → Type 0
    FieldsAreRedactionsOf n no_fields gs = gs ≡ no_fields
    FieldsAreRedactionsOf n (field k v fs) gs =
        (x : Value) × (hs : Fields) × (gs ≡ field k x hs)
        × (((is_sensitive k ≡ true) × Masks v x) ⊎ ((is_sensitive k ≡ false) × IsRedactionOf n v x))
        × FieldsAreRedactionsOf n fs hs

  hidden-Masks : (v : Value) → Masks v (hidden v)
  unfolding hidden
  hidden-Masks (text []) = refl
  hidden-Masks (text (c ∷ t)) = refl
  hidden-Masks (atom k) = refl
  hidden-Masks (array vs) = refl
  hidden-Masks (dict fs) = refl

  shortened-Cuts : (t : Text) → Cuts t (shortened t)
  shortened-Cuts t = elim (Bool-cases (ltb 500 (length t))) [
    | inl e ↦
        rw (e, shortened)
          (
            inr (ground arith, refl),
            omega (arith, length-append (take 500 t) (codes "…[truncated]"), length-take 500 t),
          )
    | inr e ↦ rw (e, shortened) (inl (ground arith, refl), ground arith)
  ]

  mutual
    unfolding recursive_redact redact_values redact_fields IsRedactionOf AreRedactionsOf
        FieldsAreRedactionsOf

    recursive_redact-IsRedactionOf : (n : ℕ) (v : Value) → IsRedactionOf n v (recursive_redact n v)
    recursive_redact-IsRedactionOf zero v = refl
    recursive_redact-IsRedactionOf (suc n) (text t) = (shortened t, refl, shortened-Cuts t)
    recursive_redact-IsRedactionOf (suc n) (atom k) = refl
    recursive_redact-IsRedactionOf (suc n) (array vs) =
        (redact_values n vs, refl, redact_values-AreRedactionsOf n vs)
    recursive_redact-IsRedactionOf (suc n) (dict fs) =
        (redact_fields n fs, refl, redact_fields-FieldsAreRedactionsOf n fs)

    redact_values-AreRedactionsOf :
        (n : ℕ) (vs : Values) → AreRedactionsOf n vs (redact_values n vs)
    redact_values-AreRedactionsOf n no_values = refl
    redact_values-AreRedactionsOf n (value v vs) = (
      recursive_redact n v,
      redact_values n vs,
      refl,
      recursive_redact-IsRedactionOf n v,
      redact_values-AreRedactionsOf n vs,
    )

    redact_fields-FieldsAreRedactionsOf :
        (n : ℕ) (fs : Fields) → FieldsAreRedactionsOf n fs (redact_fields n fs)
    redact_fields-FieldsAreRedactionsOf n no_fields = refl
    redact_fields-FieldsAreRedactionsOf n (field k v fs) =
        let inner = recursive_redact-IsRedactionOf n v in
        (
          if is_sensitive k then hidden v else recursive_redact n v,
          redact_fields n fs,
          refl,
          elim (Bool-cases (is_sensitive k)) [
            | inl e ↦ rw e (inl (refl, hidden-Masks v))
            | inr e ↦ rw e (inr (refl, inner))
          ],
          redact_fields-FieldsAreRedactionsOf n fs,
        )

  -- Of metadata that is not empty every key is kept, at any nesting: the value of a sensitive key is
  -- replaced by the first 16 characters of the hash of that value, or by a mark where it is empty or
  -- not a text; every other text is kept, or cut to 500 characters and a mark; all else is as it was.
  -- What lies eight levels deep is replaced by a mark. Of empty metadata nothing is kept.
  pub redact-IsRedacted :
      (fs : Fields)
      → ((fs ≡ no_fields) × (redact fs ≡ none))
        ⊎ ((gs : Fields) × (redact fs ≡ some (dict gs)) × FieldsAreRedactionsOf 7 fs gs)
  unfolding redact
  redact-IsRedacted no_fields = inl (refl, refl)
  redact-IsRedacted (field k v fs) =
      let all = field k v fs in
      inr (redact_fields 7 all, opened all, redact_fields-FieldsAreRedactionsOf 7 all)
    where
      opened :
          (xs : Fields)
          → ◌≡◌ {A = Option Value}
              (some (recursive_redact 8 (dict xs)))
              (some (dict (redact_fields 7 xs)))
      opened xs = refl
