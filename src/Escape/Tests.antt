-- ===== src/Escape/Tests.antt =====
-- Witnesses for bytes that go into database keys, on concrete data.
use opx_cps.Common.{ℕ, ◌≡◌, refl, Bool, List, [], ◌∷◌, arith, length, ltb}
use opx_cps.Escape.{special, escape, db_key_copy_with_escape, range_split}
use opx_cps.Escape.Copy.{db_key_copy_with_escape_lem}
use opx_cps.Escape.Range.{Splits, range_split-Splits}

-- "a*b"
abbrev with_star : List ℕ
with_star = 97 ∷ 42 ∷ 98 ∷ []

db_key_copy_with_escape_lem_example :
    db_key_copy_with_escape (7 ∷ []) with_star ≡ 7 ∷ 97 ∷ 92 ∷ 42 ∷ 98 ∷ []
unfolding escape special
db_key_copy_with_escape_lem_example = db_key_copy_with_escape_lem (7 ∷ []) with_star

-- A big-endian host of numbers of two bytes.
abbrev swap_bytes : List ℕ → List ℕ
swap_bytes (x ∷ y ∷ []) = y ∷ x ∷ []
swap_bytes b = b

length-swap_bytes : (b : List ℕ) → length (swap_bytes b) ≡ length b
length-swap_bytes [] = refl
length-swap_bytes (x ∷ []) = refl
length-swap_bytes (x ∷ y ∷ []) = refl
length-swap_bytes (x ∷ y ∷ z ∷ b) = refl

abbrev port : List ℕ
port = 1 ∷ 63 ∷ []

abbrev room : List ℕ
room = 0 ∷ 0 ∷ 0 ∷ 0 ∷ 0 ∷ []

-- All calls below 6 answer true.
abbrev below_six : ℕ → ℕ → Bool
below_six from to = ltb from 6

range_split-Splits_example : Splits below_six 10 4 0 (range_split 11 10 4 below_six)
range_split-Splits_example =
    range_split-Splits below_six 10 4 (omega arith) (omega arith) 11 (omega arith)
