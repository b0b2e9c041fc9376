-- ===== src/Service/Order.antt =====
-- The order of the registered functions: insert_functions, and which function a request reaches.
use opx_cps.Common.{
  ℕ, ◌≤◌, ◌<◌, ◌≡◌, ◌↔◌, ◌⊎◌, inl, inr, refl, sym, ap, ◌∙◌, subst, dec_lt, true, false, List, [],
  ◌∷◌, ◌++◌, append_assoc, Option, none, some, arith, length, length-append, ltb, Bool-cases,
  Option-cases,
}
use opx_cps.Key.{Key, elems, key_matches}
use opx_cps.Key.Compare.{Words, Extends, key_matches_prefix, zero_iff}
use opx_cps.Service.{Functions, matches, find_function, insert_functions}

-- A key whose elements are words, and whose length is that of its elements.
pub record IsSound (k : Key) : Type 0 where
  pub words : Words (elems k)
  pub size : length (elems k) ≡ k.len

matches_iff :
    (k c : Key) → IsSound k → IsSound c → (matches k c ≡ true) ↔ Extends (elems k) (elems c)
matches_iff k c hk hc =
    let z = zero_iff (key_matches k c false) in
    let p = key_matches_prefix k c hk.words hc.words in ((λ m. p.0 (z.0 m)), (λ e. z.1 (p.1 e)))

Extends-trans : (xs ys zs : List ℕ) → Extends xs ys → Extends ys zs → Extends xs zs
Extends-trans xs ys zs (r, e) (s, f) = (s ++ r, e ∙ ap (λ t. t ++ r) f ∙ append_assoc zs s r)

Extends-le : (xs ys : List ℕ) → Extends xs ys → length ys ≤ length xs
Extends-le xs ys (r, e) = omega (arith, ap length e, length-append ys r)

-- Of two prefixes of a list, the longer one extends the shorter one.
prefixes : (p q r s : List ℕ) → p ++ r ≡ q ++ s → length p ≤ length q → Extends q p
prefixes [] q r s e h = (q, refl)
prefixes (x ∷ p) [] r s e h = absurd (omega arith)
prefixes (x ∷ p) (y ∷ q) r s e h =
    let (t, f) = prefixes p q r s (cc (e)) (omega arith) in
    let heads : x ≡ y = cc (e) in (t, λ i. sym heads i ∷ f i)

module _ {W : Type 0} where
  abbrev pub In : Functions W → List (Functions W) → Type 0
  In p [] = ⊥
  In p (x ∷ xs) = (p ≡ x) ⊎ In p xs

  -- The functions after a series of registrations.
  pub data Registered : List (Functions W) → Type 0 where
    empty : Registered []
    added :
        {ps : List (Functions W)} (fun : Functions W)
        → IsSound fun.key
        → Registered ps
        → Registered (insert_functions fun ps)

  abbrev size : Functions W → ℕ
  size p = length (elems p.key)

  abbrev Longer : Functions W → Functions W → Type 0
  Longer q p = Extends (elems q.key) (elems p.key)

  -- No function stands behind one whose key is a shorter prefix of its own.
  abbrev Ordered : List (Functions W) → Type 0
  Ordered [] = Unit
  Ordered (p ∷ ps) = ((q : Functions W) → In q ps → Longer q p → size q ≤ size p) × Ordered ps

  -- A function is put in front of the first one whose key is a prefix of its own and no longer.
  insert_cases :
      (fun it : Functions W) (its : List (Functions W))
      → ((insert_functions fun (it ∷ its) ≡ fun ∷ it ∷ its) × (matches fun.key it.key ≡ true))
        ⊎ ((insert_functions fun (it ∷ its) ≡ it ∷ insert_functions fun its)
            × ((matches fun.key it.key ≡ false) ⊎ (fun.key.len < it.key.len)))
  unfolding insert_functions
  insert_cases fun it its = elim (Bool-cases (matches fun.key it.key)) [
    | inr miss ↦ inr (rw miss refl, inl miss)
    | inl found ↦ elim (Bool-cases (ltb fun.key.len it.key.len)) [
      | inl shorter ↦ inr (rw found (rw shorter refl), inr (ground arith))
      | inr level ↦ inl (rw found (rw level refl), found)
    ]
  ]

  In-insert :
      (q fun : Functions W) (ps : List (Functions W))
      → In q (insert_functions fun ps)
      → (q ≡ fun) ⊎ In q ps
  In-insert q fun [] h =
      let h' : (q ≡ fun) ⊎ ⊥ = unfold insert_functions in h in
      elim h' [ inl e ↦ inl e | inr no_more ↦ elim no_more [ ] ]
  In-insert q fun (it ∷ its) h = elim (insert_cases fun it its) [
    | inl (e, m) ↦ subst (In q) e h
    | inr (e, m) ↦ elim (subst (In q) e h) [
      | inl same ↦ inr (inl same)
      | inr later ↦ elim (In-insert q fun its later) [
        | inl same ↦ inl same
        | inr old ↦ inr (inr old)
      ]
    ]
  ]

  -- A function that its own key's prefix would have to stand behind.
  passed-le :
      (fun it : Functions W)
      → IsSound fun.key
      → IsSound it.key
      → (matches fun.key it.key ≡ false) ⊎ (fun.key.len < it.key.len)
      → Longer fun it
      → size fun ≤ size it
  passed-le fun it v w (inl miss) e = absurd (cc (miss, (matches_iff fun.key it.key v w).1 e))
  passed-le fun it v w (inr short) e = omega (arith, v.size, w.size)

  insert-Ordered :
      (fun : Functions W) (ps : List (Functions W))
      → IsSound fun.key
      → ((q : Functions W) → In q ps → IsSound q.key)
      → Ordered ps
      → Ordered (insert_functions fun ps)
  insert-Ordered fun [] v vs o = unfold insert_functions in ((λ q h. elim h [ ]), tt)
  insert-Ordered fun (it ∷ its) v vs o = elim (insert_cases fun it its) [
    | inl (e, m) ↦
        let below : Longer fun it = (matches_iff fun.key it.key v (vs it (inl refl))).0 m in
        let shorter : size it ≤ size fun = Extends-le _ _ below in
        subst Ordered (sym e) (
          (λ q h longer. elim h [
            | inl same ↦ rw same shorter
            | inr later ↦
                let le = o.0 q later (Extends-trans _ _ _ longer below) in
                omega (arith, le, shorter)
          ]),
          o,
        )
    | inr (e, m) ↦
        let rest = insert-Ordered fun its v (λ q h. vs q (inr h)) o.1 in
        subst Ordered (sym e) (
          (λ q h longer. elim (In-insert q fun its h) [
            | inl same ↦
                subst (λ x. size x ≤ size it) (sym same)
                  (passed-le fun it v (vs it (inl refl)) m (subst (λ x. Longer x it) same longer))
            | inr later ↦ o.0 q later longer
          ]),
          rest,
        )
  ]

  Registered-Ordered :
      {ps : List (Functions W)}
      → Registered ps
      → Ordered ps × ((q : Functions W) → In q ps → IsSound q.key)
  Registered-Ordered empty = (tt, λ q h. elim h [ ])
  Registered-Ordered (added {ps} fun v r) =
      let (o, vs) = Registered-Ordered r in
      (
        insert-Ordered fun ps v vs o,
        (λ q h. elim (In-insert q fun ps h) [
          | inl same ↦ subst (λ x. IsSound x.key) (sym same) v
          | inr old ↦ vs q old
        ]),
      )

  -- A function that has the handler, with a key that is a prefix of `key`.
  abbrev pub Serves : {F : Type 0} → (Functions W → Option F) → Key → Functions W → Type 0
  Serves {F} get key p = (f : F) × (get p ≡ some f) × Extends (elems key) (elems p.key)

  -- The outcome of a search.
  abbrev pub Longest : {F : Type 0} → (Functions W → Option F) → Key → List (Functions W) → Type 0
  Longest {F} get key ps =
      ((find_function get key ps ≡ none) × ((q : Functions W) → In q ps → Serves get key q → ⊥))
      ⊎ ((f : F) × (p : Functions W) × (find_function get key ps ≡ some f)
          × (get p ≡ some f)
          × In p ps
          × Extends (elems key) (elems p.key)
          × ((q : Functions W)
              → In q ps
              → Serves get key q
              → length (elems q.key) ≤ length (elems p.key)))

  passed_over :
      {F : Type 0} (get : Functions W → Option F) (key : Key) (p : Functions W)
      (ps : List (Functions W))
      → find_function get key (p ∷ ps) ≡ find_function get key ps
      → (Serves get key p → ⊥)
      → Longest get key ps
      → Longest get key (p ∷ ps)
  passed_over get key p ps e miss (inl both) = inl (
    e ∙ both.0,
    λ q h v. elim h [
      | inl same ↦ miss (subst (Serves get key) same v)
      | inr later ↦ both.1 q later v
    ],
  )
  passed_over get key p ps e miss (inr (f, x, found, g, at, ext, most)) = inr (
    f,
    x,
    e ∙ found,
    g,
    inr at,
    ext,
    λ q h v. elim h [
      | inl same ↦ absurd (miss (subst (Serves get key) same v))
      | inr later ↦ most q later v
    ],
  )

  Ordered-Longest :
      {F : Type 0} (get : Functions W → Option F) (key : Key) (ps : List (Functions W))
      → IsSound key
      → Ordered ps
      → ((q : Functions W) → In q ps → IsSound q.key)
      → Longest get key ps
  unfolding find_function
  Ordered-Longest get key [] v o vs = inl (refl, λ q h. elim h [ ])
  Ordered-Longest get key (p ∷ ps) v o vs =
      let ih = Ordered-Longest get key ps v o.1 (λ q h. vs q (inr h)) in
      elim (Option-cases (get p)) [
        | inl e ↦
            passed_over get key p ps (rw (e, find_function) refl) (λ s. absurd (cc (e, s.1))) ih
        | inr (f, e) ↦ elim (Bool-cases (matches key p.key)) [
          | inr miss ↦
              passed_over get key p ps (rw (e, find_function) (rw miss refl))
                (λ s. absurd (cc (miss, (matches_iff key p.key v (vs p (inl refl))).1 s.2))) ih
          | inl m ↦
              let ext = (matches_iff key p.key v (vs p (inl refl))).0 m in
              inr (
                f,
                p,
                rw (e, find_function) (rw m refl),
                e,
                inl refl,
                ext,
                λ q h s. elim h [
                  | inl same ↦ rw same (omega arith)
                  | inr later ↦ elim (dec_lt (size p) (size q)) [
                    | yes more ↦
                        let longer =
                          prefixes (elems p.key) (elems q.key) ext.0 s.2.0 (sym ext.1 ∙ s.2.1)
                            (omega arith) in
                        let le = o.0 q later longer in absurd (omega (arith, le, more))
                    | no enough ↦ omega arith
                  ]
                ],
              )
        ]
      ]

  -- After registrations of keys whose elements are words and as many as their lengths say, a request
  -- with such a key reaches the function with the longest key, of all that have the handler and a key
  -- that is a prefix of the request's; it reaches none only if there is none.
  pub find_function-Longest :
      {F : Type 0} (get : Functions W → Option F) (key : Key) (ps : List (Functions W))
      → IsSound key
      → Registered ps
      → Longest get key ps
  find_function-Longest get key ps v r =
      let (o, vs) = Registered-Ordered r in Ordered-Longest get key ps v o vs
