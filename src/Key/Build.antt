-- ===== src/Key/Build.antt =====
-- Keys built from attribute identifiers and from qualifier, category and subcategory.
use native.Mathlib.Numerals.{add-one}
use opx_cps.Common.{
  inr, inl, dec_lt, ◌⊎◌, false, ◌==◌, true, append-nil, ltb, take-set_next, ℕ, ◌+◌, ◌≤◌, ◌<◌, ◌%◌,
  ◌≡◌, ◌≢◌, refl, sym, ap, ◌∙◌, List, [], ◌∷◌, ◌++◌, none, some, map, arith, length, set, take,
  length-set, append_assoc, Option-cases, ltb,
}
use opx_cps.Key.{
  Key, elems, IsValid, max_key_len, elem_mod, key_set_len, key_set, key_set_attr, write_elems,
  key_init_from_attr_array, set_instances, put_position, key_init,
}

abbrev pub words : List ℕ → List ℕ
words = map (λ id. id % elem_mod)

-- The slots with the identifiers written from a position on, while there is room.
abbrev written : List ℕ → ℕ → List ℕ → List ℕ
written slots dest [] = slots
written slots dest (id ∷ ids) = written (set slots dest (id % elem_mod)) (dest + 1) ids

length-written : (ids slots : List ℕ) (dest : ℕ) → length (written slots dest ids) ≡ length slots
length-written [] slots dest = refl
length-written (id ∷ ids) slots dest =
    length-written ids (set slots dest (id % elem_mod)) (dest + 1) ∙ length-set slots dest _

take-written :
    (ids slots : List ℕ) (dest n : ℕ)
    → n ≡ length ids + dest
    → n ≤ length slots
    → take n (written slots dest ids) ≡ take dest slots ++ words ids
take-written [] slots dest n e h =
    let same : n ≡ dest = omega arith in rw same (sym (append-nil (take dest slots)))
take-written (id ∷ ids) slots dest n e h =
    take-written ids (set slots dest (id % elem_mod)) (dest + 1) n (omega arith)
      (omega (arith, length-set slots dest (id % elem_mod)))
    ∙ ap (λ t. t ++ words ids)
        (ap (λ m. take m (set slots dest (id % elem_mod))) (add-one dest)
          ∙ take-set_next slots dest (id % elem_mod) (omega arith))
    ∙ append_assoc (take dest slots) (id % elem_mod ∷ []) (words ids)

write_elems-written :
    (ids slots : List ℕ) (dest : ℕ)
    → length ids + dest ≤ length slots
    → write_elems slots dest ids ≡ some (written slots dest ids)
unfolding write_elems
write_elems-written [] slots dest h = refl
write_elems-written (id ∷ ids) slots dest h =
    let room : ltb dest (length slots) ≡ true = ground arith in
    rw room (
      write_elems-written ids (set slots dest (id % elem_mod)) (dest + 1)
        (omega (arith, length-set slots dest (id % elem_mod))))

-- From a key with its 62 slots, the key has the elements of the first `offset` slots and then the
-- identifiers, each cut to a word, if these are fewer than 62 together. Otherwise there is no key: an
-- assertion fails, or the loop writes behind the slots before.
pub key_init_from_attr_array_lem :
    (k : Key) (ids : List ℕ) (offset : ℕ)
    → length k.slots ≡ max_key_len
    → ((length ids + offset < max_key_len)
        × ((k' : Key) × (key_init_from_attr_array k ids offset ≡ some k')
            × (elems k' ≡ take offset k.slots ++ words ids)
            × IsValid k'))
      ⊎ ((max_key_len ≤ length ids + offset) × (key_init_from_attr_array k ids offset ≡ none))
unfolding key_init_from_attr_array key_set_len
key_init_from_attr_array_lem k ids offset size = elim (dec_lt (length ids + offset) max_key_len) [
  | yes fits ↦ inl (
    fits,
    (
      record { len = length ids + offset; attr = k.attr; slots = written k.slots offset ids },
      rw (write_elems-written ids k.slots offset (omega (arith, size)), key_init_from_attr_array)
          (ground arith),
      take-written ids k.slots offset _ refl (omega (arith, size)),
      record { size = length-written ids k.slots offset ∙ size; short = fits },
    ),
  )
  | no long ↦ elim (Option-cases (write_elems k.slots offset ids)) [
    | inl behind ↦ inr (omega arith, rw (behind, key_init_from_attr_array) refl)
    | inr (slots, inside) ↦ inr (omega arith, rw (inside, key_init_from_attr_array) (ground arith))
  ]
]

set_instances-written :
    (k : Key) (at : ℕ) (vals : List ℕ)
    → at + length vals ≤ max_key_len
    → set_instances k at vals ≡ some (record k { slots = written k.slots at vals })
unfolding set_instances key_set
set_instances-written k at [] h = refl
set_instances-written k at (v ∷ vals) h =
    let inside : ltb at max_key_len ≡ true = ground arith in
    rw inside (
      set_instances-written (record k { slots = set k.slots at (v % elem_mod) }) (at + 1) vals
        (omega arith))

take_three :
    (xs : List ℕ) (a b c : ℕ)
    → 3 ≤ length xs
    → take 3 (set (set (set xs 0 a) 1 b) 2 c) ≡ a ∷ b ∷ c ∷ []
take_three [] a b c h = absurd (omega arith)
take_three (x ∷ []) a b c h = absurd (omega arith)
take_three (x ∷ y ∷ []) a b c h = absurd (omega arith)
take_three (x ∷ y ∷ z ∷ xs) a b c h = refl

-- With qualifier, category and subcategory all different from 0 and at most 58 instances, the
-- elements are these three and then the instances, each cut to a word, and the attribute is 0.
pub key_init_full :
    (k : Key) (qual cat subcat : ℕ) (insts : List ℕ)
    → IsValid k
    → qual ≢ 0
    → cat ≢ 0
    → subcat ≢ 0
    → 3 + length insts < max_key_len
    → (k' : Key) × (key_init k qual cat subcat insts ≡ some k')
      × (elems k' ≡ words (qual ∷ cat ∷ subcat ∷ insts))
      × (k'.attr ≡ 0)
      × IsValid k'
unfolding key_init put_position key_set_attr key_set key_set_len
key_init_full k qual cat subcat insts valid hq hc hs room = (
  record { len = 3 + length insts; attr = 0; slots = filled },
  (let q : (qual == 0) ≡ false = ground arith in
      let t : (cat == 0) ≡ false = ground arith in
      let u : (subcat == 0) ≡ false = ground arith in
      rw (q, t, u, set_instances-written start 3 insts (omega arith)) (ground arith)),
  take-written insts start.slots 3 (3 + length insts) (omega arith)
        (omega (arith, size, valid.size))
      ∙ ap (λ t. t ++ words insts)
          (take_three k.slots (qual % elem_mod) (cat % elem_mod) (subcat % elem_mod)
            (omega (arith, valid.size))),
  refl,
  record { size = length-written insts start.slots 3 ∙ size ∙ valid.size; short = room },
)
  where
    start : Key
    start = record {
      len = k.len;
      attr = 0;
      slots = set (set (set k.slots 0 (qual % elem_mod)) 1 (cat % elem_mod)) 2 (subcat % elem_mod);
    }

    filled : List ℕ
    filled = written start.slots 3 insts

    size : length start.slots ≡ length k.slots
    size =
        length-set (set (set k.slots 0 (qual % elem_mod)) 1 (cat % elem_mod)) 2 (subcat % elem_mod)
        ∙ length-set (set k.slots 0 (qual % elem_mod)) 1 (cat % elem_mod)
        ∙ length-set k.slots 0 (qual % elem_mod)
