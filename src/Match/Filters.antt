-- ===== src/Match/Filters.antt =====
-- The comparison of two attributes: cps_api_object_attrs_compare of src/cps_api_object_attr.cpp.
use opx_cps.Common.{
  ℕ, ◌+◌, ◌-◌, ◌%◌, ◌^◌, ◌<◌, ◌≡◌, ◌≢◌, refl, ap, subst, inl, inr, Bool, true, false, ◌&&◌, List,
  [], ◌∷◌, ◌++◌, Option, none, some, arith, length, take-append_length, take, ltb, ◌==◌,
  if◌then◌else◌, Bool-cases,
}
use opx_cps.Dictionary.{same_name}
use opx_cps.Nodes.Texts.{same_iff}
use opx_cps.Object.{word, Tlv}
use opx_cps.Object.Encode.{Attr, attribute}
use opx_cps.Match.{Steps, alike}

-- Identifiers fit into 64 bits, and lengths into 32.
abbrev pub Short : List Attr → Type 0
Short [] = Unit
Short ((t, d) ∷ xs) = (t < word) × (length d < 2 ^ 32) × Short xs

-- The value of the first attribute with the identifier.
abbrev pub first_value : ℕ → List Attr → Option (List ℕ)
first_value t [] = none
first_value t ((u, d) ∷ xs) = let rest = first_value t xs in if u == t then some d else rest

same_length : (d e : List ℕ) → same_name d e ≡ true → length d ≡ length e
same_length d e h = ap length ((same_iff d e).0 h)

differ : (n m : ℕ) → n < 2 ^ 32 → m < 2 ^ 32 → n ≢ m → ((n + 2 ^ 64 - m) % 2 ^ 32 == 0) ≡ false
differ n m hn hm h = ground arith

equal : (n : ℕ) → ((n + 2 ^ 64 - n) % 2 ^ 32 == 0) ≡ true
equal n = ground arith

and_true : (b : Bool) → (b && true) ≡ b
and_true true = refl
and_true false = refl

and_false : (b : Bool) → (b && false) ≡ false
and_false true = refl
and_false false = refl

compared :
    (d e r s : List ℕ)
    → length d < 2 ^ 32
    → length e < 2 ^ 32
    → (same_name
          (take (if ltb (length e) (length d) then length e else length d) (d ++ r))
          (take (if ltb (length e) (length d) then length e else length d) (e ++ s))
        && ((length d + 2 ^ 64 - length e) % 2 ^ 32 == 0))
      ≡ same_name d e
compared d e r s hd he = elim (Bool-cases (length e == length d)) [
  | inl one ↦
      let q : length e ≡ length d = ground (arith, one) in
      let no_less : ltb (length d) (length d) ≡ false = ground arith in
      let behind : take (length d) (e ++ s) ≡ e =
        subst (λ n. take n (e ++ s) ≡ e) q (take-append_length e s) in
      rw (q, no_less, take-append_length d r, behind, equal (length d)) (and_true (same_name d e))
  | inr two ↦
      let apart : same_name d e ≡ false = ground (arith, two, same_length d e) in
      let h : length d ≢ length e = λ q. absurd (ground (arith, two, q)) in
      rw (apart, differ (length d) (length e) hd he h) (and_false _)
]

module _ (tlv : Tlv) (steps : Steps tlv) where
  pub value_len-attribute :
      (t : ℕ) (d r : List ℕ)
      → t < word
      → length d < word
      → steps.value_len (attribute tlv t d ++ r) ≡ length d
  unfolding attribute
  value_len-attribute = steps.value_len_lem

  pub value_at-attribute :
      (t : ℕ) (d r : List ℕ)
      → t < word
      → length d < word
      → steps.value_at (attribute tlv t d ++ r) ≡ d ++ r
  unfolding attribute
  value_at-attribute = steps.value_at_lem

  pub alike-attribute :
      (t u : ℕ) (d e r s : List ℕ)
      → t < word
      → u < word
      → length d < 2 ^ 32
      → length e < 2 ^ 32
      → alike tlv steps (attribute tlv t d ++ r) (attribute tlv u e ++ s) ≡ same_name d e
  unfolding alike
  alike-attribute t u d e r s ht hu hd he =
      rw
        (
          value_len-attribute t d r ht (omega arith),
          value_len-attribute u e s hu (omega arith),
          value_at-attribute t d r ht (omega arith),
          value_at-attribute u e s hu (omega arith),
        )
        (compared d e r s hd he)
