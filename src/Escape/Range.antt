-- ===== src/Escape/Range.antt =====
-- cps_api_range_split: the calls that it makes.
use native.Mathlib.Nat.{mod-eq_of_lt}
use opx_cps.Common.{
  ◌⊎◌, ℕ, zero, suc, ◌+◌, ◌≤◌, ◌<◌, ◌≡◌, refl, sym, ◌∙◌, inl, inr, Bool, true, false, List, [], ◌∷◌,
  Option, some, arith, ltb, Bool-cases,
}
use opx_cps.Escape.{word, step_to, split_from, range_split}

-- The calls run from `a` to `b`, each where the last one ended, none empty or longer than `step`.
abbrev pub Covers : ℕ → ℕ → List (ℕ × ℕ) → ℕ → Type 0
Covers step a [] b = a ≡ b
Covers step a ((x, y) ∷ calls) b = (x ≡ a) × (a < y) × (y ≤ a + step) × Covers step y calls b

-- Every call but the last answered true, and the last one answered `b`.
abbrev pub Answers : (ℕ → ℕ → Bool) → List (ℕ × ℕ) → Bool → Type 0
Answers range [] b = b ≡ true
Answers range ((x, y) ∷ []) b = range x y ≡ b
Answers range ((x, y) ∷ c ∷ calls) b = (range x y ≡ true) × Answers range (c ∷ calls) b

Answers-cons :
    (range : ℕ → ℕ → Bool) (x y : ℕ) (calls : List (ℕ × ℕ)) (b : Bool)
    → range x y ≡ true
    → Answers range calls b
    → Answers range ((x, y) ∷ calls) b
Answers-cons range x y [] b e a = e ∙ sym a
Answers-cons range x y (c ∷ calls) b e a = (e, a)

-- What the split returns: it stops at `stop`, which is the end unless a call has refused.
abbrev pub Splits : (ℕ → ℕ → Bool) → ℕ → ℕ → ℕ → Option (Bool × List (ℕ × ℕ)) → Type 0
Splits range total step from r =
    (b : Bool) × (calls : List (ℕ × ℕ)) × (stop : ℕ) × (r ≡ some (b, calls))
    × Covers step from calls stop
    × (stop ≤ total)
    × ((b ≡ false) ⊎ (stop ≡ total))
    × Answers range calls b

module _ (range : ℕ → ℕ → Bool) (total step : ℕ) (pos : 0 < step) (fits : total + step ≤ word) where
  step_lt :
      (ix : ℕ)
      → ix < total
      → (ix < step_to total step ix)
        × (step_to total step ix ≤ total)
        × (step_to total step ix ≤ ix + step)
  step_lt ix h = rw (mod-eq_of_lt {n = ix + step} {m = word} (omega arith)) (ground arith)

  split_from-Splits :
      (fuel ix : ℕ)
      → ix ≤ total
      → total < fuel + ix
      → Splits range total step ix (split_from fuel total step range ix)
  unfolding split_from
  split_from-Splits zero ix le h = absurd (omega arith)
  split_from-Splits (suc fuel) ix le h = elim (Bool-cases (ltb ix total)) [
    | inr ended ↦ (true, [], ix, rw ended, refl, le, inr (ground arith), refl)
    | inl more ↦
        let (grows, within, short) = step_lt ix (ground arith) in
        elim (Bool-cases (range ix (step_to total step ix))) [
          | inr stops ↦ (
            false,
            (ix, step_to total step ix) ∷ [],
            step_to total step ix,
            rw (more, stops),
            (refl, grows, short, refl),
            within,
            inl refl,
            stops,
          )
          | inl goes ↦
              let (b, calls, stop, e, covers, le', full, answers) =
                split_from-Splits fuel (step_to total step ix) within (omega arith) in
              (
                b,
                (ix, step_to total step ix) ∷ calls,
                stop,
                rw (more, goes, e),
                (refl, grows, short, covers),
                le',
                full,
                Answers-cons range ix (step_to total step ix) calls b goes answers,
              )
        ]
  ]

  -- With a positive step and no wrap-around, `total + 1` rounds are enough; the calls of `range`
  -- run from 0 without gap or overlap, none longer than `step`; all but the last answered true;
  -- the result is the last answer (true where there is no call), and if it is true the calls reach
  -- `total`.
  pub range_split-Splits :
      (fuel : ℕ) → total < fuel → Splits range total step 0 (range_split fuel total step range)
  unfolding range_split
  range_split-Splits fuel h = split_from-Splits fuel 0 (omega arith) (omega arith)
