-- ===== src/Auth/Rotation.antt =====
-- The rotation of refresh tokens in backend/app/auth/sessions.py, and the reuse of an old one.
use mathlib.Core.Option.{some-injective}
use ap2web.Auth.Roles.{HttpError, effective_role}
use ap2web.Auth.State.{
  AuthState, Session, create_session_row, has_hash, has_sid, in_family, revoke, revoke_family,
  revoke_session, session_by_refresh, touch_session,
}
use ap2web.Auth.Sessions.{
  Draw, Tokens, active_user, invalid_session, is_expired, open_session, refresh_session, rotate,
}
use ap2web.Auth.Evolution.{Evolves, Keeps}
use ap2web.Auth.Steps.{open_session-Sound}
use ap2web.Prelude.{
  All, Bool, Bool-cases, List, Option-cases, Result, Text, [], ap, arith, codes, err, false, first,
  inl, inr, is_some, none, ok, refl, some, subst, sym, true, update_where, ℕ, ◌++◌, ◌+◌, ◌==◌, ◌∙◌,
  ◌∷◌, ◌≡◌,
}
use ap2web.Users.{User}

-- A revoked row, if it is one of the family.
abbrev pub DeadIn : Text → Session → Type 0
DeadIn family x = in_family family x ≡ true → is_some x.revoked_at ≡ true

first-hash-Evolves :
    (h : Text) (xs ys : List Session) {x : Session}
    → Evolves xs ys
    → first (has_hash h) xs ≡ some x
    → (y : Session) × (first (has_hash h) ys ≡ some y) × Keeps x y
first-hash-Evolves h [] ys e f = cc
first-hash-Evolves h (w ∷ xs) [] e f = absurd e
first-hash-Evolves h (w ∷ xs) (y ∷ ys) {x} e f = elim (Bool-cases (has_hash h w)) [
  | inl hit ↦ (
    y,
    rw (e.0.same_hash) (rw hit refl),
    subst (λ u. Keeps u y) (some-injective w x (rw hit at f)) (e.0),
  )
  | inr miss ↦
      let (z, found, keeps) = first-hash-Evolves h xs ys {x = x} (e.1) (rw miss at f) in
      (z, rw (e.0.same_hash) (rw miss found), keeps)
]

first-hash-revoke :
    (h : Text) (now : ℕ) (reason : Text) (xs : List Session) {x : Session}
    → first (has_hash h) xs ≡ some x
    → first (has_hash h) (update_where (has_sid x.id) (revoke now reason) xs)
      ≡ some (revoke now reason x)
first-hash-revoke h now reason [] f = cc
first-hash-revoke h now reason (w ∷ xs) {x} f = elim (Bool-cases (has_hash h w)) [
  | inl hit ↦
      let same = some-injective w x (rw hit at f) in
      subst
        (λ u.
          first (has_hash h) (update_where (has_sid u.id) (revoke now reason) (w ∷ xs))
          ≡ some (revoke now reason u))
        same (rw (at_id w.id) (rw hit refl))
  | inr miss ↦ elim (Bool-cases (w.id == x.id)) [
    | inl e ↦ rw e (rw miss (first-hash-revoke h now reason xs (rw miss at f)))
    | inr e ↦ rw e (rw miss (first-hash-revoke h now reason xs (rw miss at f)))
  ]
]
  where
    at_id : (n : ℕ) → (n == n) ≡ true
    at_id n = ground arith

family-revoked :
    (now : ℕ) (family reason : Text) (xs : List Session)
    → All (DeadIn family) (update_where (in_family family) (revoke now reason) xs)
family-revoked now family reason [] = tt
family-revoked now family reason (x ∷ xs) = elim (Bool-cases (in_family family x)) [
  | inl e ↦ rw e (λ h. refl, family-revoked now family reason xs)
  | inr e ↦ rw e (λ h. cc (rw e at h), family-revoked now family reason xs)
]

update_where-append :
    (p : Session → Bool) (f : Session → Session) (xs ys : List Session)
    → update_where p f (xs ++ ys) ≡ update_where p f xs ++ update_where p f ys
update_where-append p f [] ys = refl
update_where-append p f (x ∷ xs) ys = elim (Bool-cases (p x)) [
  | inl e ↦ rw (e, update_where-append p f xs ys) refl
  | inr e ↦ rw (e, update_where-append p f xs ys) refl
]

ok-injective : {a b : Tokens} → ◌≡◌ {A = Result HttpError Tokens} (ok a) (ok b) → a ≡ b
ok-injective h = cc

-- The last row is a session of the family that is not revoked, and the tokens are its tokens.
abbrev pub Opened : (Text → Text) → Text → Tokens → List Session → Type 0
Opened sha256 family t rows =
    (x : Session) × (older : List Session) × (rows ≡ older ++ (x ∷ []))
    × (x.id ≡ t.session_id)
    × (x.refresh_token_hash ≡ sha256 t.refresh_token)
    × (x.family_id ≡ family)
    × (x.revoked_at ≡ none)

module _ (sha256 : Text → Text) (verify : Text → Text → Bool) (access_ttl refresh_ttl : ℕ) where
  -- A token whose session is revoked is refused, and takes its family along.
  reuse_detected :
      (d : Draw) (raw : Text) (s : AuthState) {r : Session}
      → session_by_refresh sha256 raw s ≡ some r
      → is_some r.revoked_at ≡ true
      → let x = refresh_session sha256 verify access_ttl refresh_ttl d raw s in
        (x.0 ≡ err invalid_session)
        × (x.1.sessions
            ≡ update_where
                (in_family r.family_id)
                (revoke d.now (codes "reuse_detected"))
                s.sessions)
        × All (DeadIn r.family_id) x.1.sessions
  unfolding refresh_session revoke_family
  reuse_detected d raw s {r} found gone =
      rw (found, refresh_session)
        (rw gone (refl, refl, family-revoked d.now r.family_id (codes "reuse_detected") s.sessions))

  granted_tokens :
      (d : Draw) (raw : Text) (s : AuthState) {r : Session} {u : User}
      → session_by_refresh sha256 raw s ≡ some r
      → is_some r.revoked_at ≡ false
      → is_expired d.now r ≡ false
      → active_user s.users r.user_id ≡ some u
      → (refresh_session sha256 verify access_ttl refresh_ttl d raw s).0
        ≡ ok ((rotate sha256 verify access_ttl refresh_ttl d r u s).0)
  unfolding refresh_session
  granted_tokens d raw s e live in_time active =
      rw (e, refresh_session) (rw (live, in_time, active) refl)

  granted_state :
      (d : Draw) (raw : Text) (s : AuthState) {r : Session} {u : User}
      → session_by_refresh sha256 raw s ≡ some r
      → is_some r.revoked_at ≡ false
      → is_expired d.now r ≡ false
      → active_user s.users r.user_id ≡ some u
      → (refresh_session sha256 verify access_ttl refresh_ttl d raw s).1
        ≡ (rotate sha256 verify access_ttl refresh_ttl d r u s).1
  unfolding refresh_session
  granted_state d raw s e live in_time active =
      rw (e, refresh_session) (rw (live, in_time, active) refl)

  granted :
      (d : Draw) (raw : Text) (s : AuthState) {t : Tokens}
      → (refresh_session sha256 verify access_ttl refresh_ttl d raw s).0 ≡ ok t
      → (r : Session) × (u : User) × (session_by_refresh sha256 raw s ≡ some r)
        × (is_some r.revoked_at ≡ false)
        × (is_expired d.now r ≡ false)
        × (active_user s.users r.user_id ≡ some u)
  unfolding refresh_session
  granted d raw s h = elim (Option-cases (session_by_refresh sha256 raw s)) [
    | inl e ↦ cc (rw (e, refresh_session) at h)
    | inr (r, e) ↦ elim (Bool-cases (is_some r.revoked_at)) [
      | inl gone ↦ cc (rw gone at rw (e, refresh_session) at h)
      | inr live ↦ elim (Bool-cases (is_expired d.now r)) [
        | inl late ↦ cc (rw (live, late) at rw (e, refresh_session) at h)
        | inr in_time ↦ elim (Option-cases (active_user s.users r.user_id)) [
          | inl lost ↦ cc (rw (live, in_time, lost) at rw (e, refresh_session) at h)
          | inr (u, active) ↦ (r, u, e, live, in_time, active)
        ]
      ]
    ]
  ]

  rotate-session_by_refresh :
      (d : Draw) (raw : Text) (s : AuthState) (r : Session) (u : User)
      → session_by_refresh sha256 raw s ≡ some r
      → (y : Session) × (session_by_refresh sha256 raw
            (rotate sha256 verify access_ttl refresh_ttl d r u s).1
          ≡ some y)
        × Keeps (revoke d.now (codes "rotated") r) y
  unfolding session_by_refresh rotate revoke_session
  rotate-session_by_refresh d raw s r u found =
      first-hash-Evolves (sha256 raw) before.sessions after.sessions
        (open_session-Sound sha256 verify access_ttl refresh_ttl d r.user_id u.username
          (effective_role u.role) (codes "auth.refresh") r.family_id refresh_ttl before)
        (first-hash-revoke (sha256 raw) d.now (codes "rotated") s.sessions found)
    where
      before : AuthState
      before = revoke_session d.now r.id (codes "rotated") s

      after : AuthState
      after =
          (open_session sha256 verify access_ttl refresh_ttl d r.user_id u.username
            (effective_role u.role) (codes "auth.refresh") r.family_id refresh_ttl before).1

  -- The row that the rotation opens, behind all the others.
  rotate-Opened :
      (d : Draw) (r : Session) (u : User) (s : AuthState)
      → let x = rotate sha256 verify access_ttl refresh_ttl d r u s in
        Opened sha256 r.family_id x.0 x.1.sessions
  unfolding rotate open_session create_session_row touch_session revoke_session
  rotate-Opened d r u s =
      let older = update_where (has_sid r.id) (revoke d.now (codes "rotated")) s.sessions in
      let touch = λ (w : Session). record w { last_used_at = some d.now } in
      (
        touch fresh,
        update_where (has_sid s.next_session) touch older,
        update_where-append (has_sid s.next_session) touch older (fresh ∷ [])
            ∙ ap (λ (w : Session). update_where (has_sid s.next_session) touch older ++ (w ∷ []))
                (rw (self s.next_session) refl),
        refl,
        refl,
        refl,
        refl,
      )
    where
      fresh : Session
      fresh = record {
        id = s.next_session;
        user_id = r.user_id;
        refresh_token_hash = sha256 d.refresh_raw;
        family_id = r.family_id;
        expires_at = some (d.now + refresh_ttl);
        revoked_at = none;
        revoked_reason = none;
        ip_address = d.ip;
        user_agent = d.ua;
        created_at = d.now;
        last_used_at = none;
      }

      self : (n : ℕ) → (n == n) ≡ true
      self n = ground arith

  -- A refresh token works once: a refresh that succeeds opens a session of the tokens that it
  -- returns, in the old token's family. A second refresh with the old token is refused as an invalid
  -- session, and revokes every session of that family, the one just opened included, and no other.
  pub refresh_session-refresh_session :
      (d e : Draw) (raw : Text) (s : AuthState) {t : Tokens}
      → (refresh_session sha256 verify access_ttl refresh_ttl d raw s).0 ≡ ok t
      → let again =
          refresh_session sha256 verify access_ttl refresh_ttl e raw
            (refresh_session sha256 verify access_ttl refresh_ttl d raw s).1 in
        (again.0 ≡ err invalid_session)
        × ((r : Session) × (session_by_refresh sha256 raw s ≡ some r)
            × Opened sha256 r.family_id t
                (refresh_session sha256 verify access_ttl refresh_ttl d raw s).1.sessions
            × (again.1.sessions
                ≡ update_where
                    (in_family r.family_id)
                    (revoke e.now (codes "reuse_detected"))
                    (refresh_session sha256 verify access_ttl refresh_ttl d raw s).1.sessions)
            × All (DeadIn r.family_id) again.1.sessions)
  refresh_session-refresh_session d e raw s {t} h =
      let (r, u, found, live, in_time, active) = granted d raw s {t = t} h in
      let same = granted_state d raw s found live in_time active in
      let tokens = ok-injective (sym h ∙ granted_tokens d raw s found live in_time active) in
      let (y, later, keeps) = rotate-session_by_refresh d raw s r u found in
      let (denied, swept, dead) =
        reuse_detected e raw (rotate sha256 verify access_ttl refresh_ttl d r u s).1 later
          (keeps.revoked refl) in
      rw same (
        denied,
        (
          r,
          found,
          rw tokens (rotate-Opened d r u s),
          subst
              (λ f.
                (refresh_session sha256 verify access_ttl refresh_ttl e raw
                  (rotate sha256 verify access_ttl refresh_ttl d r u s).1).1.sessions
                ≡ update_where (in_family f) (revoke e.now (codes "reuse_detected"))
                    (rotate sha256 verify access_ttl refresh_ttl d r u s).1.sessions)
              keeps.same_family swept,
          subst
              (λ f.
                All (DeadIn f)
                  (refresh_session sha256 verify access_ttl refresh_ttl e raw
                    (rotate sha256 verify access_ttl refresh_ttl d r u s).1).1.sessions)
              keeps.same_family dead,
        ),
      )
