-- ===== src/Common/Lists.antt =====
-- Lists measured, indexed and cut by native numbers, under the library's names.
use Prim.Native.Nat.{ℕ, zero, suc, ◌+◌, ◌-◌, ◌<◌, ◌≤◌, min}
use mathlib.Core.Path.{◌≡◌, refl, ap, sym, ◌∙◌}
use mathlib.Core.Bool.{Bool}
use mathlib.Core.List.{List, [], ◌∷◌, ◌++◌, append_assoc}
use mathlib.Core.Option.{Option, none, some}
use native.Mathlib.Omega.{arith}
use opx_cps.Common.Tests.{if◌then◌else◌}

module _ {ℓ} {A : Type ℓ} where
  abbrev pub length : List A → ℕ
  length [] = 0
  length (x ∷ xs) = suc (length xs)

  abbrev pub get_elem? : List A → ℕ → Option A
  get_elem? [] i = none
  get_elem? (x ∷ xs) zero = some x
  get_elem? (x ∷ xs) (suc i) = get_elem? xs i

  abbrev pub get_or : List A → ℕ → A → A
  get_or [] i d = d
  get_or (x ∷ xs) zero d = x
  get_or (x ∷ xs) (suc i) d = get_or xs i d

  -- A write out of bounds changes nothing.
  abbrev pub set : List A → ℕ → A → List A
  set [] i v = []
  set (x ∷ xs) zero v = v ∷ xs
  set (x ∷ xs) (suc i) v = x ∷ set xs i v

  abbrev pub take : ℕ → List A → List A
  take zero xs = []
  take (suc n) [] = []
  take (suc n) (x ∷ xs) = x ∷ take n xs

  abbrev pub drop : ℕ → List A → List A
  drop zero xs = xs
  drop (suc n) [] = []
  drop (suc n) (x ∷ xs) = drop n xs

  abbrev pub replicate : ℕ → A → List A
  replicate zero a = []
  replicate (suc n) a = a ∷ replicate n a

  -- The entries that pass a Boolean test.
  abbrev pub keep_if : (A → Bool) → List A → List A
  keep_if p [] = []
  keep_if p (x ∷ xs) = let rest = keep_if p xs in if p x then x ∷ rest else rest

  pub length-append : (xs ys : List A) → length (xs ++ ys) ≡ length xs + length ys
  length-append [] ys = omega arith
  length-append (x ∷ xs) ys = omega (arith, length-append xs ys)

  pub length-replicate : (n : ℕ) (a : A) → length (replicate n a) ≡ n
  length-replicate zero a = refl
  length-replicate (suc n) a = ap suc (length-replicate n a)

  pub length-set : (xs : List A) (i : ℕ) (v : A) → length (set xs i v) ≡ length xs
  length-set [] i v = refl
  length-set (x ∷ xs) zero v = refl
  length-set (x ∷ xs) (suc i) v = ap suc (length-set xs i v)

  pub length-take : (n : ℕ) (xs : List A) → length (take n xs) ≡ min n (length xs)
  length-take zero xs = omega arith
  length-take (suc n) [] = omega arith
  length-take (suc n) (x ∷ xs) = omega (arith, length-take n xs)

  pub length-drop : (n : ℕ) (xs : List A) → length (drop n xs) ≡ length xs - n
  length-drop zero xs = omega arith
  length-drop (suc n) [] = omega arith
  length-drop (suc n) (x ∷ xs) = omega (arith, length-drop n xs)

  pub take-append-drop : (n : ℕ) (xs : List A) → take n xs ++ drop n xs ≡ xs
  take-append-drop zero xs = refl
  take-append-drop (suc n) [] = refl
  take-append-drop (suc n) (x ∷ xs) = rw (take-append-drop n xs)

  -- A cut at the end of the first part.
  pub take-append_length : (xs ys : List A) → take (length xs) (xs ++ ys) ≡ xs
  take-append_length [] ys = refl
  take-append_length (x ∷ xs) ys = ap (λ r. x ∷ r) (take-append_length xs ys)

  pub drop-append_length : (xs ys : List A) → drop (length xs) (xs ++ ys) ≡ ys
  drop-append_length [] ys = refl
  drop-append_length (x ∷ xs) ys = drop-append_length xs ys

  pub take_all : (n : ℕ) (xs : List A) → length xs ≤ n → take n xs ≡ xs
  take_all zero [] h = refl
  take_all (suc n) [] h = refl
  take_all zero (x ∷ xs) h = absurd (omega arith)
  take_all (suc n) (x ∷ xs) h = ap (λ r. x ∷ r) (take_all n xs (omega arith))

  -- A write just behind the first part.
  pub set-append_length :
      (xs : List A) (x y : A) (ys : List A) → set (xs ++ x ∷ ys) (length xs) y ≡ xs ++ y ∷ ys
  set-append_length [] x y ys = refl
  set-append_length (z ∷ xs) x y ys = ap (λ r. z ∷ r) (set-append_length xs x y ys)

  pub replicate-snoc : (n : ℕ) (a : A) → replicate n a ++ a ∷ [] ≡ a ∷ replicate n a
  replicate-snoc zero a = refl
  replicate-snoc (suc n) a = ap (λ r. a ∷ r) (replicate-snoc n a)

  -- `std::vector::resize`: the tail is cut off, or filled with the default value.
  abbrev pub resize : A → ℕ → List A → List A
  resize d n xs = take n xs ++ replicate (n - length xs) d

  pub resize_more :
      (d : A) (k n : ℕ) (xs : List A) → n ≡ length xs + k → resize d n xs ≡ xs ++ replicate k d
  resize_more d k n xs h =
      let e : n - length xs ≡ k = omega arith in rw (take_all n xs (omega arith), e)

  -- A write at the end of what is taken adds it there.
  pub take-set_next :
      (xs : List A) (n : ℕ) (v : A)
      → n < length xs
      → take (suc n) (set xs n v) ≡ take n xs ++ v ∷ []
  take-set_next [] n v h = absurd (omega arith)
  take-set_next (x ∷ xs) zero v h = refl
  take-set_next (x ∷ xs) (suc n) v h = ap (λ r. x ∷ r) (take-set_next xs n v (omega arith))

  -- A position within the list has an entry.
  pub get_elem?_lt : (xs : List A) (i : ℕ) → i < length xs → (x : A) × (get_elem? xs i ≡ some x)
  get_elem?_lt [] i h = absurd (omega arith)
  get_elem?_lt (x ∷ xs) zero h = (x, refl)
  get_elem?_lt (x ∷ xs) (suc i) h = get_elem?_lt xs i (omega arith)

  -- The entry just behind the first part, and the list without it.
  pub get_elem?-append_length :
      (xs : List A) (y : A) (ys : List A) → get_elem? (xs ++ y ∷ ys) (length xs) ≡ some y
  get_elem?-append_length [] y ys = refl
  get_elem?-append_length (x ∷ xs) y ys = get_elem?-append_length xs y ys

  -- `erase(begin() + i)`.
  abbrev pub remove_index : ℕ → List A → List A
  remove_index i [] = []
  remove_index zero (x ∷ xs) = xs
  remove_index (suc i) (x ∷ xs) = x ∷ remove_index i xs

  pub remove_index-append_length :
      (xs : List A) (y : A) (ys : List A) → remove_index (length xs) (xs ++ y ∷ ys) ≡ xs ++ ys
  remove_index-append_length [] y ys = refl
  remove_index-append_length (x ∷ xs) y ys = ap (λ r. x ∷ r) (remove_index-append_length xs y ys)

  -- A loop that stands behind `xs` goes on behind one more entry.
  pub at_next {κ} :
      {B : Type κ} (loop : ℕ → List A → B) (xs : List A) (y : A) (ys : List A)
      → loop (suc (length xs)) (xs ++ y ∷ ys) ≡ loop (length (xs ++ y ∷ [])) ((xs ++ y ∷ []) ++ ys)
  at_next loop xs y ys =
      let size : suc (length xs) ≡ length (xs ++ y ∷ []) =
        omega (arith, length-append xs (y ∷ [])) in
      ap (λ n. loop n (xs ++ y ∷ ys)) size
      ∙ ap (loop (length (xs ++ y ∷ []))) (sym (append_assoc xs (y ∷ []) ys))
