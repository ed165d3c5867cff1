-- ===== src/Matching/Scores.antt =====
-- Scores as exact fractions: the source computes them in floating point.
use ats_smart_backend.Prelude.{ℕ, ◌+◌, ◌*◌, ◌≤◌, ◌≡◌, refl, arith}
use native.Mathlib.Nat.{mul-le-mul_right}

pub record Fraction : Type 0 where
  pub num : ℕ
  pub den : ℕ

unfoldable pub whole : ℕ → Fraction
whole n = record { num = n; den = 1 }

-- `ratio * weight`, for a ratio of two counts
unfoldable pub weighted : ℕ → ℕ → ℕ → Fraction
weighted weight part of_all = record { num = part * weight; den = of_all }

unfoldable pub plus : Fraction → Fraction → Fraction
plus x y = record { num = x.num * y.den + y.num * x.den; den = x.den * y.den }

-- A score of some part of `weight` points
unfoldable pub AtMost : ℕ → Fraction → Type 0
AtMost weight x = x.num ≤ weight * x.den

-- A score that is as good, counted out of the same number
unfoldable pub AtLeast : Fraction → Fraction → Type 0
AtLeast x y = (x.den ≡ y.den) × (x.num ≤ y.num)

pub whole-AtMost : (n : ℕ) → AtMost n (whole n)
unfolding AtMost whole
whole-AtMost n = omega arith

pub none-AtMost : (n : ℕ) → AtMost n (whole 0)
unfolding AtMost whole
none-AtMost n = omega arith

pub weighted-AtMost :
    (weight part of_all : ℕ) → part ≤ of_all → AtMost weight (weighted weight part of_all)
unfolding AtMost weighted
weighted-AtMost weight part of_all h = grind arith

pub plus-AtMost : (v w : ℕ) (x y : Fraction) → AtMost v x → AtMost w y → AtMost (v + w) (plus x y)
unfolding AtMost plus
plus-AtMost v w x y h k = grind (arith, mul-le-mul_right y.den h, mul-le-mul_right x.den k)

pub AtLeast-refl : (x : Fraction) → AtLeast x x
unfolding AtLeast
AtLeast-refl x = (refl, omega arith)

pub weighted-AtLeast :
    (weight part more of_all : ℕ)
    → part ≤ more
    → AtLeast (weighted weight part of_all) (weighted weight more of_all)
unfolding AtLeast weighted
weighted-AtLeast weight part more of_all h = (refl, grind arith)

pub plus-AtLeast :
    (x x' y y' : Fraction) → AtLeast x x' → AtLeast y y' → AtLeast (plus x y) (plus x' y')
unfolding AtLeast plus
plus-AtLeast x x' y y' h k = (grind arith, grind arith)
