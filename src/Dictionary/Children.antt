-- ===== src/Dictionary/Children.antt =====
-- The classes below a path: cps_class_map_level of src/metadata/cps_class_map_query.cpp.
use opx_cps.Common.{
  ◌⊎◌, ltb→lt, ℕ, ◌+◌, ◌≤◌, ◌≡◌, ◌↔◌, refl, sym, ap, ◌∙◌, inl, inr, Bool, true, false, not, ◌&&◌,
  List, [], ◌∷◌, ◌++◌, arith, length, ltb, ◌==◌, if◌then◌else◌, Bool-cases, ==_iff, length-append,
}
use opx_cps.Dictionary.{Node, Dict}

-- The loop of cps_attr_id_key_compare_match, over the shorter of the paths.
unfoldable pub compare_loop : List ℕ → List ℕ → Bool
compare_loop xs [] = true
compare_loop [] (y ∷ ys) = true
compare_loop (x ∷ xs) (y ∷ ys) = if x == y then compare_loop xs ys else false

-- cps_attr_id_key_compare_match
unfoldable pub key_compare_match : List ℕ → List ℕ → Bool
unfolding compare_loop
key_compare_match ids_a ids_b =
    if ltb (length ids_a) (length ids_b) then false else compare_loop ids_a ids_b

-- What __cps_dict_walk_fun__ tests; `current_level` asks for the children only.
unfoldable pub at_level : List ℕ → Bool → Node → Bool
unfolding key_compare_match
at_level ids current_level n =
    if current_level && not (length n.ids == length ids + 1)
    then false
    else key_compare_match n.ids ids

-- The walk, which adds each class that passes the test to the list.
unfoldable pub walk_level : List ℕ → Bool → List (ℕ × Node) → List Node → List Node
walk_level ids current_level [] details = details
walk_level ids current_level ((i, n) ∷ m) details =
    walk_level ids current_level m
      (if at_level ids current_level n then details ++ n ∷ [] else details)

-- cps_class_map_level
unfoldable pub map_level : List ℕ → List Node → Bool → Dict → List Node
unfolding walk_level
map_level ids details only_children d = walk_level ids only_children d.class_def details

loop_iff :
    (xs ys : List ℕ)
    → length ys ≤ length xs
    → (compare_loop xs ys ≡ true) ↔ ((rest : List ℕ) × (xs ≡ ys ++ rest))
unfolding compare_loop
loop_iff xs [] h = ((λ e. (xs, refl)), (λ r. refl))
loop_iff [] (y ∷ ys) h = absurd (omega arith)
loop_iff (x ∷ xs) (y ∷ ys) h =
    let below = loop_iff xs ys (omega arith) in
    elim (Bool-cases (x == y)) [
      | inr t ↦
          ((λ e. absurd (cc (e, differ t))), (λ r. absurd (cc (t, (==_iff x y).1 (heads r.0 r.1)))))
      | inl t ↦ (
        (λ e.
            let r = below.0 (sym (agree t) ∙ e) in
            (r.0, ap (λ l. x ∷ l) r.1 ∙ ap (λ z. z ∷ (ys ++ r.0)) ((==_iff x y).0 t))),
        (λ r. agree t ∙ below.1 (r.0, tails r.0 r.1)),
      )
    ]
  where
    differ : (x == y) ≡ false → compare_loop (x ∷ xs) (y ∷ ys) ≡ false
    differ t = rw t refl

    agree : (x == y) ≡ true → compare_loop (x ∷ xs) (y ∷ ys) ≡ compare_loop xs ys
    agree t = rw t refl

    heads : (rest : List ℕ) → x ∷ xs ≡ y ∷ ys ++ rest → x ≡ y
    heads rest e = cc

    tails : (rest : List ℕ) → x ∷ xs ≡ y ∷ ys ++ rest → xs ≡ ys ++ rest
    tails rest e = cc

-- One path matches another one exactly if it extends it.
pub key_compare_match_iff :
    (ids_a ids_b : List ℕ)
    → (key_compare_match ids_a ids_b ≡ true) ↔ ((rest : List ℕ) × (ids_a ≡ ids_b ++ rest))
unfolding key_compare_match
key_compare_match_iff ids_a ids_b = elim (Bool-cases (ltb (length ids_a) (length ids_b))) [
  | inl t ↦ (
    (λ e. absurd (ground (arith, t, e))),
    (λ r. absurd (omega (arith, ltb→lt _ _ t, ap length r.1, length-append ids_b r.0))),
  )
  | inr t ↦
      let loop = loop_iff ids_a ids_b (ground arith) in
      ((λ e. loop.0 (ground (arith, t, e))), (λ r. rw t (loop.1 r)))
]

-- A class is listed below a path exactly if its own path extends it, and, where only children are
-- asked for, by one identifier.
pub at_level_iff :
    (ids : List ℕ) (current_level : Bool) (n : Node)
    → (at_level ids current_level n ≡ true)
      ↔ ((rest : List ℕ) × (n.ids ≡ ids ++ rest) × ((current_level ≡ false) ⊎ (length rest ≡ 1)))
unfolding at_level
at_level_iff ids false n =
    let m = key_compare_match_iff n.ids ids in
    ((λ e. let r = m.0 e in (r.0, r.1, inl refl)), (λ r. m.1 (r.0, r.1)))
at_level_iff ids true n = elim (Bool-cases (length n.ids == length ids + 1)) [
  | inr t ↦ (
    (λ e. absurd (ground (arith, t, e))),
    (λ r. elim r.2 [
      | inl never ↦ absurd (ground (arith, never))
      | inr one ↦ absurd (
          cc (
            t,
            (==_iff (length n.ids) (length ids + 1)).1
                (omega (arith, one, ap length r.1, length-append ids r.0)),
          ))
    ]),
  )
  | inl t ↦
      let m = key_compare_match_iff n.ids ids in
      (
        (λ e.
            let r = m.0 (ground (arith, t, e)) in
            (
              r.0,
              r.1,
              inr (omega (arith, ap length r.1, length-append ids r.0, (==_iff _ _).0 t)),
            )),
        (λ r. rw t (m.1 (r.0, r.1))),
      )
]
