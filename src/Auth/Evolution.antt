-- ===== src/Auth/Evolution.antt =====
-- How the sessions of backend/app/auth change: each keeps its identity, and a revocation is final.
use mathlib.Core.Option.{some-injective}
use ap2web.Auth.State.{
  AuthState, Session, create_session_row, has_sid, in_family, revoke, revoke_family, revoke_session,
  touch_session,
}
use ap2web.Prelude.{
  Bool, Bool-cases, List, Option, Text, [], arith, first, inl, inr, is_some, refl, some, subst,
  true, update_where, ℕ, ◌++◌, ◌==◌, ◌∙◌, ◌∷◌, ◌≡◌,
}

-- The row `x` has become `y`.
pub record Keeps (x y : Session) : Type 0 where
  pub same_id : y.id ≡ x.id
  pub same_user : y.user_id ≡ x.user_id
  pub same_hash : y.refresh_token_hash ≡ x.refresh_token_hash
  pub same_family : y.family_id ≡ x.family_id
  pub same_expiry : y.expires_at ≡ x.expires_at
  pub revoked : is_some x.revoked_at ≡ true → is_some y.revoked_at ≡ true

abbrev pub Evolves : List Session → List Session → Type 0
Evolves [] ys = Unit
Evolves (x ∷ xs) [] = ⊥
Evolves (x ∷ xs) (y ∷ ys) = Keeps x y × Evolves xs ys

Keeps-self : (x : Session) → Keeps x x
Keeps-self x = record {
  same_id = refl;
  same_user = refl;
  same_hash = refl;
  same_family = refl;
  same_expiry = refl;
  revoked = λ h. h;
}

Keeps-trans : (x y z : Session) → Keeps x y → Keeps y z → Keeps x z
Keeps-trans x y z a b = record {
  same_id = b.same_id ∙ a.same_id;
  same_user = b.same_user ∙ a.same_user;
  same_hash = b.same_hash ∙ a.same_hash;
  same_family = b.same_family ∙ a.same_family;
  same_expiry = b.same_expiry ∙ a.same_expiry;
  revoked = λ h. b.revoked (a.revoked h);
}

pub Evolves-self : (xs : List Session) → Evolves xs xs
Evolves-self [] = tt
Evolves-self (x ∷ xs) = (Keeps-self x, Evolves-self xs)

pub Evolves-trans : (xs ys zs : List Session) → Evolves xs ys → Evolves ys zs → Evolves xs zs
Evolves-trans [] ys zs a b = tt
Evolves-trans (x ∷ xs) [] zs a b = absurd a
Evolves-trans (x ∷ xs) (y ∷ ys) [] a b = absurd b
Evolves-trans (x ∷ xs) (y ∷ ys) (z ∷ zs) a b =
    (Keeps-trans x y z a.0 b.0, Evolves-trans xs ys zs a.1 b.1)

append-Evolves : (xs ys : List Session) → Evolves xs (xs ++ ys)
append-Evolves [] ys = tt
append-Evolves (x ∷ xs) ys = (Keeps-self x, append-Evolves xs ys)

update-Evolves :
    (p : Session → Bool) (f : Session → Session) (xs : List Session)
    → ((x : Session) → Keeps x (f x))
    → Evolves xs (update_where p f xs)
update-Evolves p f [] h = tt
update-Evolves p f (x ∷ xs) h = elim (Bool-cases (p x)) [
  | inl e ↦ rw e (h x, update-Evolves p f xs h)
  | inr e ↦ rw e (Keeps-self x, update-Evolves p f xs h)
]

revoke-Keeps : (now : ℕ) (reason : Text) (x : Session) → Keeps x (revoke now reason x)
revoke-Keeps now reason x = ground arith

touch-Keeps : (now : ℕ) (x : Session) → Keeps x (record x { last_used_at = some now })
touch-Keeps now x = ground arith

-- The state's sessions have evolved.
abbrev pub Sound : AuthState → AuthState → Type 0
Sound s t = Evolves s.sessions t.sessions

pub revoke_session-Sound :
    (now sid : ℕ) (reason : Text) (s : AuthState) → Sound s (revoke_session now sid reason s)
unfolding revoke_session
revoke_session-Sound now sid reason s =
    update-Evolves (has_sid sid) (revoke now reason) s.sessions (revoke-Keeps now reason)

pub revoke_family-Sound :
    (now : ℕ) (family reason : Text) (s : AuthState) → Sound s (revoke_family now family reason s)
unfolding revoke_family
revoke_family-Sound now family reason s =
    update-Evolves (in_family family) (revoke now reason) s.sessions (revoke-Keeps now reason)

pub touch_session-Sound : (now sid : ℕ) (s : AuthState) → Sound s (touch_session now sid s)
unfolding touch_session
touch_session-Sound now sid s =
    update-Evolves (has_sid sid) (λ r. record r { last_used_at = some now }) s.sessions
      (touch-Keeps now)

pub create_session_row-Sound :
    (sha256 : Text → Text) (now user : ℕ) (raw : Text) (ttl : ℕ) (family : Text)
    (ip ua : Option Text) (s : AuthState)
    → Sound s (create_session_row sha256 now user raw ttl family ip ua s).1
unfolding create_session_row
create_session_row-Sound sha256 now user raw ttl family ip ua s = append-Evolves s.sessions _

-- A session that is found is found later too, as its successor.
pub first-Evolves :
    (sid : ℕ) (xs ys : List Session) {x : Session}
    → Evolves xs ys
    → first (has_sid sid) xs ≡ some x
    → (y : Session) × (first (has_sid sid) ys ≡ some y) × Keeps x y
first-Evolves sid [] ys e h = cc
first-Evolves sid (w ∷ xs) [] e h = absurd e
first-Evolves sid (w ∷ xs) (y ∷ ys) {x} e h = elim (Bool-cases (w.id == sid)) [
  | inl hit ↦ (
    y,
    rw (e.0.same_id) (rw hit refl),
    subst (λ u. Keeps u y) (some-injective w x (rw hit at h)) (e.0),
  )
  | inr miss ↦
      let (z, found, keeps) = first-Evolves sid xs ys {x = x} (e.1) (rw miss at h) in
      (z, rw (e.0.same_id) (rw miss found), keeps)
]
