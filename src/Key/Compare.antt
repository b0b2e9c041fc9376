-- ===== src/Key/Compare.antt =====
-- cps_api_key_array_matches and cps_api_key_matches: when the result is 0.
use opx_cps.Common.{
  append-nil, dec_lt, ℕ, zero, suc, ◌*◌, ◌/◌, ◌≤◌, ◌<◌, ◌%◌, ◌≡◌, ◌≢◌, ◌↔◌, refl, sym, ap, ◌∙◌,
  Bool, true, false, ◌&&◌, List, [], ◌∷◌, ◌++◌, arith, length, length-append, ℤ, pos, negsuc,
  is_zero, ◌==◌,
}
use opx_cps.Key.{Key, elems, elem_mod, bytes, memcmp, key_array_matches, key_matches}

-- Every element is a word of 32 bits.
abbrev pub Words : List ℕ → Type 0
Words [] = Unit
Words (x ∷ xs) = (x < elem_mod) × Words xs

-- The first `n` elements are there on both sides and agree.
abbrev agree : ℕ → List ℕ → List ℕ → Bool
agree zero xs ys = true
agree (suc n) (x ∷ xs) (y ∷ ys) = (x == y) && agree n xs ys
agree (suc n) _ _ = true

memcmp_byte :
    (n x y : ℕ) (xs ys : List ℕ)
    → is_zero (memcmp (suc n) (x ∷ xs) (y ∷ ys)) ≡ ((x == y) && is_zero (memcmp n xs ys))
unfolding memcmp
memcmp_byte n x y xs ys = ground arith

same_bytes :
    (x y : ℕ)
    → x < elem_mod
    → y < elem_mod
    → ((x % 256 == y % 256)
        && ((x / 256 % 256 == y / 256 % 256)
            && ((x / 65536 % 256 == y / 65536 % 256)
                && (x / 16777216 % 256 == y / 16777216 % 256))))
      ≡ (x == y)
same_bytes x y h k = ground arith

memcmp-bytes :
    (n : ℕ) (xs ys : List ℕ)
    → n ≤ length xs
    → n ≤ length ys
    → Words xs
    → Words ys
    → is_zero (memcmp (4 * n) (bytes xs) (bytes ys)) ≡ agree n xs ys
unfolding bytes
memcmp-bytes zero xs ys p q h k = unfold memcmp in refl
memcmp-bytes (suc n) [] ys p q h k = absurd (omega arith)
memcmp-bytes (suc n) (x ∷ xs) [] p q h k = absurd (omega arith)
memcmp-bytes (suc n) (x ∷ xs) (y ∷ ys) p q h k =
    let four : 4 * suc n ≡ suc (suc (suc (suc (4 * n)))) = omega arith in
    rw four (
      simp memcmp_byte (
        ground (
          arith,
          same_bytes x y h.0 k.0,
          memcmp-bytes n xs ys (omega arith) (omega arith) h.1 k.1,
        )))

-- The text `ys` is a prefix of `xs`.
abbrev pub Extends : List ℕ → List ℕ → Type 0
Extends xs ys = (r : List ℕ) × (xs ≡ ys ++ r)

agree-Extends :
    (n : ℕ) (xs ys : List ℕ)
    → n ≡ length ys
    → n ≤ length xs
    → (agree n xs ys ≡ true) ↔ Extends xs ys
agree-Extends zero xs [] e h = ((λ _. (xs, refl)), λ _. refl)
agree-Extends zero xs (y ∷ ys) e h = absurd (omega arith)
agree-Extends (suc n) xs [] e h = absurd (omega arith)
agree-Extends (suc n) [] (y ∷ ys) e h = absurd (omega arith)
agree-Extends (suc n) (x ∷ xs) (y ∷ ys) e h = (
  (λ t.
      let (r, p) = (agree-Extends n xs ys (omega arith) (omega arith)).0 (ground arith) in
      (r, ground arith)),
  (λ t.
      let sub = (agree-Extends n xs ys (omega arith) (omega arith)).1 (t.0, ground (arith, t.1)) in
      ground (arith, t.1)),
)

Extends-length : (xs ys : List ℕ) → Extends xs ys → length ys ≤ length xs
Extends-length xs ys (r, e) = omega (arith, ap length e, length-append ys r)

pub zero_iff : (z : ℤ) → (is_zero z ≡ true) ↔ (z ≡ pos 0)
zero_iff (pos n) = (ground arith, ground arith)
zero_iff (negsuc n) = (ground arith, ground arith)

-- Enough elements to compare: the comparison looks at all of `ys` and decides the prefix.
decides :
    (xs ys : List ℕ)
    → Words xs
    → Words ys
    → length ys ≤ length xs
    → (memcmp (4 * length ys) (bytes xs) (bytes ys) ≡ pos 0) ↔ Extends xs ys
decides xs ys h k le =
    let e = memcmp-bytes (length ys) xs ys le (omega arith) h k in
    let z = zero_iff (memcmp (4 * length ys) (bytes xs) (bytes ys)) in
    let a = agree-Extends (length ys) xs ys refl le in
    ((λ m. a.0 (sym e ∙ z.1 m)), (λ p. z.0 (e ∙ a.1 p)))

-- The three ways through the function.
matches_long :
    (xs ys : List ℕ)
    → length ys ≤ length xs
    → key_array_matches xs ys false ≡ memcmp (4 * length ys) (bytes xs) (bytes ys)
unfolding key_array_matches
matches_long xs ys le = ground arith

matches_short :
    (xs ys : List ℕ) (exact : Bool) → length xs < length ys → key_array_matches xs ys exact ≢ pos 0
unfolding key_array_matches
matches_short xs ys exact lt e = ground arith

matches_same_length :
    (xs ys : List ℕ)
    → length ys ≡ length xs
    → key_array_matches xs ys true ≡ memcmp (4 * length ys) (bytes xs) (bytes ys)
unfolding key_array_matches
matches_same_length xs ys same = ground arith

matches_longer : (xs ys : List ℕ) → length ys < length xs → key_array_matches xs ys true ≢ pos 0
unfolding key_array_matches
matches_longer xs ys lt e = ground arith

nil_of_length : (r : List ℕ) → length r ≡ 0 → r ≡ []
nil_of_length [] e = refl
nil_of_length (x ∷ r) e = absurd (omega arith)

-- Without `exact`, for elements that are words, the result is 0 exactly if the comparison's elements
-- are a prefix of the key's.
pub key_matches_prefix :
    (k c : Key)
    → Words (elems k)
    → Words (elems c)
    → (key_matches k c false ≡ pos 0) ↔ Extends (elems k) (elems c)
unfolding key_matches
key_matches_prefix k c hk hc = elim (dec_lt (length (elems k)) (length (elems c))) [
  | yes short ↦ (
    (λ e. absurd (matches_short (elems k) (elems c) false short e)),
    (λ p. absurd (omega (arith, Extends-length (elems k) (elems c) p))),
  )
  | no long ↦
      rw (matches_long (elems k) (elems c) (omega arith))
        (decides (elems k) (elems c) hk hc (omega arith))
]

pub array_matches_exact :
    (xs ys : List ℕ) → Words xs → Words ys → (key_array_matches xs ys true ≡ pos 0) ↔ (xs ≡ ys)
array_matches_exact xs ys h k = elim (dec_lt (length xs) (length ys)) [
  | yes short ↦
      ((λ e. absurd (matches_short xs ys true short e)), (λ p. absurd (omega (arith, ap length p))))
  | no long ↦ elim (dec_lt (length ys) (length xs)) [
    | yes longer ↦
        ((λ e. absurd (matches_longer xs ys longer e)), (λ p. absurd (omega (arith, ap length p))))
    | no level ↦
        let same : length ys ≡ length xs = omega arith in
        let d = decides xs ys h k (omega arith) in
        let m = matches_same_length xs ys same in
        (
          (λ e.
              let (r, p) = d.0 (sym m ∙ e) in
              let empty = nil_of_length r (omega (arith, ap length p, length-append ys r)) in
              p ∙ ap (λ t. ys ++ t) empty ∙ append-nil ys),
          (λ p. m ∙ d.1 ([], p ∙ sym (append-nil ys))),
        )
  ]
]

-- With `exact`, for elements that are words, the result is 0 exactly if the elements are the same.
pub key_matches_exact :
    (k c : Key)
    → Words (elems k)
    → Words (elems c)
    → (key_matches k c true ≡ pos 0) ↔ (elems k ≡ elems c)
unfolding key_matches
key_matches_exact k c = array_matches_exact (elems k) (elems c)
