-- ===== src/Key/Edit.antt =====
-- Insertion into a key and removal from it.
use native.Mathlib.Numerals.{add-one}
use opx_cps.Common.{
  ℕ, zero, suc, ◌+◌, ◌-◌, ◌≤◌, ◌<◌, ◌%◌, ◌≡◌, ◌⊎◌, inl, inr, Bool-cases, leb, subst, refl, sym, ap,
  ◌∙◌, true, false, List, [], ◌∷◌, ◌++◌, some, arith, length, set, take, drop, length-take,
  length-drop, length-append, length-set,
}
use opx_cps.Key.{
  Key, elems, IsValid, max_key_len, elem_mod, move, key_set_len, key_set, key_insert_element,
  key_remove_element,
}

take_within : (n : ℕ) (xs rest : List ℕ) → n ≤ length xs → take n (take n xs ++ rest) ≡ take n xs
take_within zero xs rest h = refl
take_within (suc n) [] rest h = absurd (omega arith)
take_within (suc n) (x ∷ xs) rest h = ap (λ r. x ∷ r) (take_within n xs rest (omega arith))

-- Moving the elements from `ix` on up by one and writing at `ix` inserts there.
insert_slots :
    (xs rest : List ℕ) (ix n len v : ℕ)
    → len ≡ ix + n
    → len < length xs
    → take (suc len) (set (take (suc ix) xs ++ take n (drop ix xs) ++ rest) ix v)
      ≡ take ix (take len xs) ++ v ∷ drop ix (take len xs)
insert_slots [] rest ix n len v e h = absurd (omega arith)
insert_slots (x ∷ xs) rest zero n len v e h =
    let same : n ≡ len = omega arith in
    rw same (ap (λ r. v ∷ r) (take_within len (x ∷ xs) rest (omega arith)))
insert_slots (x ∷ xs) rest (suc ix) n zero v e h = absurd (omega arith)
insert_slots (x ∷ xs) rest (suc ix) n (suc len) v e h =
    ap (λ r. x ∷ r) (insert_slots xs rest ix n len v (omega arith) (omega arith))

-- Moving the elements behind `ix` down by one removes the one at `ix`.
remove_slots :
    (xs rest : List ℕ) (ix n len : ℕ)
    → len ≡ ix + n
    → len < length xs
    → take len (take ix xs ++ take n (drop (suc ix) xs) ++ rest)
      ≡ take ix (take (suc len) xs) ++ drop (suc ix) (take (suc len) xs)
remove_slots [] rest ix n len e h = absurd (omega arith)
remove_slots (x ∷ xs) rest zero n len e h =
    let same : n ≡ len = omega arith in rw same (take_within len xs rest (omega arith))
remove_slots (x ∷ xs) rest (suc ix) n zero e h = absurd (omega arith)
remove_slots (x ∷ xs) rest (suc ix) n (suc len) e h =
    ap (λ r. x ∷ r) (remove_slots xs rest ix n len (omega arith) (omega arith))

length-move :
    (xs : List ℕ) (to from n : ℕ)
    → to + n ≤ length xs
    → from + n ≤ length xs
    → length (move xs to from n) ≡ length xs
length-move xs to from n h k =
    let whole : length (move xs to from n)
        ≡ length (take to xs ++ take n (drop from xs)) + length (drop (to + n) xs) =
      length-append (take to xs ++ take n (drop from xs)) (drop (to + n) xs) in
    let first : length (take to xs ++ take n (drop from xs))
        ≡ length (take to xs) + length (take n (drop from xs)) =
      length-append (take to xs) (take n (drop from xs)) in
    omega (
      arith,
      whole,
      first,
      length-take to xs,
      length-take n (drop from xs),
      length-drop from xs,
      length-drop (to + n) xs,
    )

-- The list with `v` put in at position `ix`, and the list without the entry at `ix`.
abbrev pub insert_at : ℕ → ℕ → List ℕ → List ℕ
insert_at ix v xs = take ix xs ++ v ∷ drop ix xs

abbrev pub remove_at : ℕ → List ℕ → List ℕ
remove_at ix xs = take ix xs ++ drop (suc ix) xs

-- In a valid key with fewer than 61 elements, an insertion at a position up to the length
-- succeeds: no assertion fails, the elements are the old ones with the new one, cut to a word, at
-- that position, the attribute is kept, and the key is valid again.
pub key_insert_element_success :
    (k : Key) (ix v : ℕ)
    → IsValid k
    → k.len + 1 < max_key_len
    → ix ≤ k.len
    → (k' : Key) × (key_insert_element k ix v ≡ some (true, k'))
      × (elems k' ≡ insert_at ix (v % elem_mod) (elems k))
      × (k'.attr ≡ k.attr)
      × IsValid k'
unfolding key_insert_element key_set_len key_set
key_insert_element_success k ix v valid room le = (
  record {
    len = k.len + 1;
    attr = k.attr;
    slots = set (move k.slots (ix + 1) ix (k.len - ix)) ix (v % elem_mod);
  },
  ground arith,
  rw (add-one k.len, add-one ix)
      (insert_slots k.slots _ ix (k.len - ix) k.len (v % elem_mod) (omega arith)
        (omega (arith, valid.size))),
  refl,
  record {
    size =
        length-set (move k.slots (ix + 1) ix (k.len - ix)) ix (v % elem_mod)
        ∙ length-move k.slots (ix + 1) ix (k.len - ix) (omega (arith, valid.size))
            (omega (arith, valid.size))
        ∙ valid.size;
    short = room;
  },
)

-- An insertion into a key with 61 elements, or behind the end, answers false and changes nothing.
pub key_insert_element_failure :
    (k : Key) (ix v : ℕ)
    → (max_key_len ≤ k.len + 1) ⊎ (k.len < ix)
    → key_insert_element k ix v ≡ some (false, k)
unfolding key_insert_element
key_insert_element_failure k ix v h = ground arith

-- A removal from a valid key never fails an assertion. At a position below the length the
-- elements are the old ones without that one; at any other the key is unchanged. The key stays
-- valid and keeps its attribute.
pub key_remove_element_lem :
    (k : Key) (ix : ℕ)
    → IsValid k
    → (k' : Key) × (key_remove_element k ix ≡ some k')
      × ((ix < k.len) × (elems k' ≡ remove_at ix (elems k)) ⊎ (k.len ≤ ix) × (k' ≡ k))
      × (k'.attr ≡ k.attr)
      × IsValid k'
unfolding key_remove_element key_set_len
key_remove_element_lem k ix valid = elim (Bool-cases (leb k.len ix)) [
  | inl outside ↦ (k, rw outside, inr (ground arith, refl), refl, valid)
  | inr inside ↦
      let one_more : k.len ≡ suc (k.len - 1) = ground arith in
      (
        record {
          len = k.len - 1;
          attr = k.attr;
          slots = move k.slots ix (ix + 1) (k.len - 1 - ix);
        },
        ground arith,
        inl (
          ground arith,
          subst
              (λ n.
                take (k.len - 1) (move k.slots ix (ix + 1) (k.len - 1 - ix))
                ≡ remove_at ix (take n k.slots))
              (sym one_more)
              (rw (add-one ix) (
                remove_slots k.slots _ ix (k.len - 1 - ix) (k.len - 1) (ground (arith, inside))
                  (ground (arith, inside, valid.size, valid.short)))),
        ),
        refl,
        record {
          size =
              length-move k.slots ix (ix + 1) (k.len - 1 - ix) (ground (arith, valid.size))
                (ground (arith, valid.size))
              ∙ valid.size;
          short = ground (arith, valid.short);
        },
      )
]
