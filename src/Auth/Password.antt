-- ===== src/Auth/Password.antt =====
-- backend/app/auth/password.py: stored password hashes `iterations$salt$digest`. The key derivation
-- `pbkdf2_hmac(…).hex()`, and `str` and `int` on numbers, are arguments.
use ap2web.Prelude.{
  Bool, Bool-cases, List, Option, Text, [], arith, false, if◌then◌else◌, inl, inr, is_empty, leb,
  none, not, refl, some, split_on, text_eq, text_eq_self, true, ℕ, ◌&&◌, ◌++◌, ◌==◌, ◌||◌, ◌∷◌, ◌≡◌,
  ◌≤◌,
}

abbrev pub dollar : ℕ
dollar = b'$'

module _ (pbkdf2 : Text → Text → ℕ → Text) (show : ℕ → Text) (to_int : Text → Option ℕ) where
  unfoldable pub hash_password : ℕ → Text → Text → Text
  hash_password iterations password salt =
      show iterations ++ (dollar ∷ (salt ++ (dollar ∷ pbkdf2 password salt iterations)))

  -- The check of one parsed hash.
  unfoldable pub verify_parts : Text → Option ℕ → Text → Text → Bool
  unfolding text_eq
  verify_parts password none salt digest = false
  verify_parts password (some iterations) salt digest =
      if not (leb 10000 iterations && leb iterations 10000000) || (is_empty salt || is_empty digest)
      then false
      else text_eq (pbkdf2 password salt iterations) digest

  verify_split : Text → List Text → Bool
  unfolding verify_parts
  verify_split password (i ∷ salt ∷ digest ∷ []) = verify_parts password (to_int i) salt digest
  verify_split password (salt ∷ digest ∷ []) = verify_parts password (some 100000) salt digest
  verify_split password parts = false

  unfoldable pub verify_password : Text → Text → Bool
  unfolding verify_split split_on
  verify_password password stored = verify_split password (split_on dollar stored)

abbrev pub has_code : ℕ → Text → Bool
has_code d [] = false
has_code d (c ∷ s) = c == d || has_code d s

split_on_plain : (d : ℕ) (s : Text) → has_code d s ≡ false → split_on d s ≡ s ∷ []
unfolding split_on
split_on_plain d [] h = refl
split_on_plain d (c ∷ s) h = elim (Bool-cases (c == d)) [
  | inl e ↦ cc (rw e at h)
  | inr e ↦ rw (e, split_on_plain d s (rw e at h)) refl
]

split_on_append :
    (d : ℕ) (s t : Text) → has_code d s ≡ false → split_on d (s ++ (d ∷ t)) ≡ s ∷ split_on d t
unfolding split_on
split_on_append d [] t h = elim (Bool-cases (d == d)) [
  | inl e ↦ rw e refl
  | inr e ↦ absurd (ground arith)
]
split_on_append d (c ∷ s) t h = elim (Bool-cases (c == d)) [
  | inl e ↦ cc (rw e at h)
  | inr e ↦ rw (e, split_on_append d s t (rw e at h)) refl
]

-- A password verifies against its own hash: for an iteration count in the accepted range and a salt
-- and a digest that are not empty and hold no `$`, where `int` reads back what `str` prints.
pub verify_password-hash_password :
    (pbkdf2 : Text → Text → ℕ → Text) (show : ℕ → Text) (to_int : Text → Option ℕ) (iterations : ℕ)
    (password salt : Text)
    → to_int (show iterations) ≡ some iterations
    → has_code dollar (show iterations) ≡ false
    → has_code dollar salt ≡ false
    → has_code dollar (pbkdf2 password salt iterations) ≡ false
    → is_empty salt ≡ false
    → is_empty (pbkdf2 password salt iterations) ≡ false
    → 10000 ≤ iterations
    → iterations ≤ 10000000
    → verify_password pbkdf2 show to_int password
        (hash_password pbkdf2 show to_int iterations password salt)
      ≡ true
unfolding verify_password hash_password
verify_password-hash_password pbkdf2 show to_int iterations password salt parses n_plain s_plain
      d_plain s_full d_full lo hi =
    rw
      (
        split_on_append dollar (show iterations) (salt ++ (dollar ∷ digest)) n_plain,
        split_on_append dollar salt digest s_plain,
        split_on_plain dollar digest d_plain,
      )
      (rw (parses, verify_parts) (rw (in_range, s_full, d_full) (text_eq_self digest)))
  where
    digest : Text
    digest = pbkdf2 password salt iterations

    in_range : (leb 10000 iterations && leb iterations 10000000) ≡ true
    in_range = ground arith
