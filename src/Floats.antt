-- ===== src/Floats.antt =====
-- The floating-point operations that the program uses, as an argument of the models: a type with
-- Python's `+ - * /`, comparisons, `round`, `math` and the reading of a text. `decimal n k` is the
-- literal of the digits `n` with `k` of them behind the point.
use ap2web.Prelude.{
  Bool, List, Option, Text, [], if◌then◌else◌, leb, ltb, none, true, ℕ, ◌∷◌, ◌+◌, ◌-◌, ◌*◌, ◌/◌,
  ◌==◌,
}

pub record Floats (F : Type 0) : Type 0 where
  pub decimal : ℕ → ℕ → F
  pub add : F → F → F
  pub sub : F → F → F
  pub mul : F → F → F
  pub div : F → F → F
  pub lt : F → F → Bool
  pub le : F → F → Bool
  pub same : F → F → Bool
  pub round : F → ℕ → F
  pub log : F → F
  pub exp : F → F
  pub is_finite : F → Bool
  pub of_text : Text → Option F

module _ {F : Type 0} (o : Floats F) where
  -- A number as a float.
  abbrev pub of_nat : ℕ → F
  of_nat n = o.decimal n 0

  -- `max(a, b)` and `min(a, b)`, which return their first argument unless the second is larger, or
  -- smaller.
  abbrev pub larger : F → F → F
  larger a b = if o.lt a b then b else a

  abbrev pub lesser : F → F → F
  lesser a b = if o.lt b a then b else a

  -- `sum(xs)`, from the left.
  unfoldable pub sum_from : F → List F → F
  sum_from acc [] = acc
  sum_from acc (x ∷ xs) = sum_from (o.add acc x) xs

  abbrev pub sum : List F → F
  sum xs = sum_from (of_nat 0) xs

-- An arithmetic of whole numbers, without logarithms, for examples.
abbrev pub whole : Floats ℕ
whole = record {
  decimal = λ n k. n;
  add = λ a b. a + b;
  sub = λ a b. a - b;
  mul = λ a b. a * b;
  div = λ a b. a / b;
  lt = ltb;
  le = leb;
  same = λ a b. a == b;
  round = λ a k. a;
  log = λ a. 0;
  exp = λ a. a;
  is_finite = λ a. true;
  of_text = λ t. none;
}
