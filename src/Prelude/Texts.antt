-- ===== src/Prelude/Texts.antt =====
-- Texts as lists of code points; which ones are white space is a parameter.
use Prim.Native.Nat.{ℕ}
use Prim.Native.Char.{code}
use Prim.Native.String.{String}
use mathlib.Core.Path.{◌≡◌, refl}
use mathlib.Core.Bool.{Bool, true, false, false≢true, ◌&&◌}
use mathlib.Core.List.{List, [], ◌∷◌, reverse}
use native.Mathlib.Omega.{arith}
use ats_smart_backend.Prelude.Tests.{◌==◌, if◌then◌else◌}

-- The code points of a text.
abbrev pub codes : String → List ℕ
codes String.[] = []
codes (String.◌∷◌ c s) = code c ∷ codes s

abbrev pub eq_codes : List ℕ → List ℕ → Bool
eq_codes [] [] = true
eq_codes (x ∷ xs) (y ∷ ys) = x == y && eq_codes xs ys
eq_codes _ _ = false

abbrev pub starts_with : List ℕ → List ℕ → Bool
starts_with [] text = true
starts_with (p ∷ ps) [] = false
starts_with (p ∷ ps) (c ∷ cs) = p == c && starts_with ps cs

pub eq_codes_refl : (t : List ℕ) → eq_codes t t ≡ true
eq_codes_refl [] = refl
eq_codes_refl (c ∷ t) = ground (arith, eq_codes_refl t)

pub eq_codes_eq : (s t : List ℕ) → eq_codes s t ≡ true → s ≡ t
eq_codes_eq [] [] h = refl
eq_codes_eq [] (d ∷ t) h = absurd (false≢true h)
eq_codes_eq (c ∷ s) [] h = absurd (false≢true h)
eq_codes_eq (c ∷ s) (d ∷ t) h = grind (arith, eq_codes_eq s t)

module _ (is_space : ℕ → Bool) where
  unfoldable pub lstrip : List ℕ → List ℕ
  lstrip [] = []
  lstrip (c ∷ cs) = let rest = lstrip cs in if is_space c then rest else c ∷ cs

  unfoldable pub strip : List ℕ → List ℕ
  unfolding lstrip
  strip text = reverse (lstrip (reverse (lstrip text)))
