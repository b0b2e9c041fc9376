-- ===== src/Object/Without.antt =====
-- Lists of attributes, and what is left of them without an identifier.
use opx_cps.Common.{
  ℕ, suc, ◌<◌, ◌≡◌, refl, ap, ◌⊎◌, inl, inr, Bool, true, false, ◌||◌, List, [], ◌∷◌, ◌++◌, none,
  some, arith, length, ◌==◌, if◌then◌else◌, Bool-cases,
}
use opx_cps.Object.{word}
use opx_cps.Object.Encode.{Attr, Fits}
use opx_cps.Object.Find.{from_first}

-- Whether an attribute has the identifier; the attributes without the first one that has it, and
-- without all that have it.
abbrev pub has : ℕ → List Attr → Bool
has t [] = false
has t ((u, d) ∷ xs) = (u == t) || has t xs

abbrev pub drop_first : ℕ → List Attr → List Attr
drop_first t [] = []
drop_first t ((u, d) ∷ xs) = let rest = drop_first t xs in if u == t then xs else (u, d) ∷ rest

abbrev pub without : ℕ → List Attr → List Attr
without t [] = []
without t ((u, d) ∷ xs) = let rest = without t xs in if u == t then rest else (u, d) ∷ rest

pub without-drop_first : (t : ℕ) (xs : List Attr) → without t (drop_first t xs) ≡ without t xs
without-drop_first t [] = refl
without-drop_first t ((u, d) ∷ xs) = ground (arith, without-drop_first t xs)

pub without_none : (t : ℕ) (xs : List Attr) → has t xs ≡ false → without t xs ≡ xs
without_none t [] h = refl
without_none t ((u, d) ∷ xs) h = ground (arith, without_none t xs)

pub drop_first_none : (t : ℕ) (xs : List Attr) → has t xs ≡ false → drop_first t xs ≡ xs
drop_first_none t [] h = refl
drop_first_none t ((u, d) ∷ xs) h = ground (arith, drop_first_none t xs)

pub length-drop_first :
    (t : ℕ) (xs : List Attr) → has t xs ≡ true → suc (length (drop_first t xs)) ≡ length xs
length-drop_first t [] h = cc
length-drop_first t ((u, d) ∷ xs) h = ground (arith, length-drop_first t xs)

pub drop_first-Fits : (t : ℕ) (xs : List Attr) → Fits xs → Fits (drop_first t xs)
drop_first-Fits t [] f = tt
drop_first-Fits t ((u, d) ∷ xs) f = elim (Bool-cases (u == t)) [
  | inl hit ↦ rw hit f.2
  | inr miss ↦ rw miss (f.0, f.1, drop_first-Fits t xs f.2)
]

-- The first attribute with the identifier, and what stands before and behind it.
abbrev pub Splits : ℕ → List Attr → Type 0
Splits t xs =
    (pre : List Attr) × (u : ℕ) × (d : List ℕ) × (rest : List Attr) × (xs ≡ pre ++ (u, d) ∷ rest)
    × (from_first t xs ≡ some ((u, d) ∷ rest))
    × (drop_first t xs ≡ pre ++ rest)
    × (u < word)
    × (length d < word)

pub first_cases :
    (t : ℕ) (xs : List Attr)
    → Fits xs
    → ((has t xs ≡ false) × (from_first t xs ≡ none) × (drop_first t xs ≡ xs))
      ⊎ ((has t xs ≡ true) × Splits t xs)
unfolding from_first
first_cases t [] f = inl (refl, refl, refl)
first_cases t ((u, d) ∷ xs) f = elim (Bool-cases (u == t)) [
  | inl hit ↦ inr (rw hit, ([], u, d, xs, refl, rw hit, rw hit, f.0, f.1))
  | inr miss ↦ elim (first_cases t xs f.2) [
    | inl (a, b, c) ↦ inl (rw miss a, rw miss b, rw miss (ap (λ r. (u, d) ∷ r) c))
    | inr (a, (pre, v, e, rest, whole, from, gone, small, short)) ↦ inr (
      rw miss a,
      (
        (u, d) ∷ pre,
        v,
        e,
        rest,
        ap (λ r. (u, d) ∷ r) whole,
        rw miss from,
        rw miss (ap (λ r. (u, d) ∷ r) gone),
        small,
        short,
      ),
    )
  ]
]
