-- ===== src/Examples/Strokes.antt =====
-- Ids that are distinct: the count in strokes.
use durex.Prelude.{
  ℕ, zero, suc, ◌≤◌, ◌≡◌, refl, sym, ap, ◌∙◌, inl, inr, String, false, arith, ◌==◌, eq_iff,
  Bool-cases,
}

-- the count in unary
abbrev pub strokes_of : ℕ → String
strokes_of zero = String.[]
strokes_of (suc n) = String.◌∷◌ "|" (strokes_of n)

abbrev pub how_many : String → ℕ
how_many String.[] = 0
how_many (String.◌∷◌ c s) = suc (how_many s)

pub how_many-strokes_of : (n : ℕ) → how_many (strokes_of n) ≡ n
how_many-strokes_of zero = refl
how_many-strokes_of (suc n) = ap suc (how_many-strokes_of n)

pub strokes_of_distinct : (i j : ℕ) → suc i ≤ j → (strokes_of i == strokes_of j) ≡ false
strokes_of_distinct i j h = elim (Bool-cases (strokes_of i == strokes_of j)) [
  | inl e ↦
      let same : i ≡ j =
        sym (how_many-strokes_of i)
        ∙ ap how_many ((eq_iff (strokes_of i) (strokes_of j)).0 e)
        ∙ how_many-strokes_of j in
      absurd (omega arith)
  | inr e ↦ e
]
