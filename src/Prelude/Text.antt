-- ===== src/Prelude/Text.antt =====
-- Python's string operations that the models call, over native strings.
use Prim.Native.Nat.{ℕ, zero, suc, ◌/◌, ◌%◌}
use Prim.Native.String.{String, ◌++◌ as append}
use mathlib.Core.Path.{◌≡◌}
use mathlib.Core.Logic.{inl, inr}
use mathlib.Core.Bool.{false}
use mathlib.Core.List.{List, [], ◌∷◌}
use package.text.Mathlib.Text.{◌==◌ as str_eq}
use package.text.Mathlib.TextEquality.{eq_iff as str_eq_iff}
use package.text.Mathlib.TextPositions.{eq_refl as str_eq_refl}
use rest_api_plagiarism.Prelude.Tests.{Bool-cases}

-- Concatenation of two texts.
abbrev pub str_append : String → String → String
str_append s t = append s t

digit : ℕ → String
digit zero = "0"
digit (suc zero) = "1"
digit (suc (suc zero)) = "2"
digit (suc (suc (suc zero))) = "3"
digit (suc (suc (suc (suc zero)))) = "4"
digit (suc (suc (suc (suc (suc zero))))) = "5"
digit (suc (suc (suc (suc (suc (suc zero)))))) = "6"
digit (suc (suc (suc (suc (suc (suc (suc zero))))))) = "7"
digit (suc (suc (suc (suc (suc (suc (suc (suc zero)))))))) = "8"
digit (suc (suc (suc (suc (suc (suc (suc (suc (suc n))))))))) = "9"

-- The decimal digits of `n`; a number has fewer digits than the fuel `n + 1`.
digits_of : ℕ → ℕ → String
digits_of zero n = ""
digits_of (suc fuel) n = elim (n / 10) [
  | zero ↦ digit n
  | suc q ↦ str_append (digits_of fuel (suc q)) (digit (n % 10))
]

-- `str(n)`
unfoldable pub str : ℕ → String
unfolding digits_of digit
str n = digits_of (suc n) n

-- `sep.join(parts)`
unfoldable pub join : String → List String → String
join sep [] = ""
join sep (s ∷ []) = s
join sep (s ∷ t ∷ rest) = str_append s (str_append sep (join sep (t ∷ rest)))

-- The test of two texts is symmetric where it fails.
pub str_eq_flip : (s t : String) → str_eq s t ≡ false → str_eq t s ≡ false
str_eq_flip s t h = elim (Bool-cases (str_eq t s)) [
  | inr n ↦ n
  | inl y ↦ let e = (str_eq_iff t s).0 y in let h' = rw (e, str_eq_refl s) at h in absurd (cc)
]
