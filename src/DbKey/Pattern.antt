-- ===== src/DbKey/Pattern.antt =====
-- The keys of objects and the patterns that find them.
use opx_cps.Common.{
  ℕ, ◌≡◌, ◌↔◌, inl, inr, refl, sym, ap, ◌∙◌, Bool, true, false, ◌||◌, List, [], ◌∷◌, ◌++◌,
  append_assoc, append-nil, none, some, arith, Option-cases,
}
use opx_cps.Escape.{special, escape, star, db_key_copy_with_escape, vector_util_append}
use opx_cps.Escape.Copy.{db_key_copy_with_escape_lem}
use opx_cps.Escape.Match.{Glob, matches-escape-star}
use opx_cps.DbKey.{
  KeyAttrs, is_star, separator, key_bytes, put_attrs, attrs_loop, get_instance_key_attrs,
  append_attrs, dbkey_from_instance_key,
}

escape-append : (p q : List ℕ) → escape (p ++ q) ≡ escape p ++ escape q
unfolding escape
escape-append [] q = refl
escape-append (c ∷ p) q = ground (arith, escape-append p q)

-- Each text behind a separator.
joined : List (List ℕ) → List ℕ
joined [] = []
joined (d ∷ ds) = separator ++ (d ++ joined ds)

joined-append : (xs ys : List (List ℕ)) → joined (xs ++ ys) ≡ joined xs ++ joined ys
unfolding joined
joined-append [] ys = refl
joined-append (d ∷ xs) ys =
    ap (λ r. separator ++ r)
      (ap (λ r. d ++ r) (joined-append xs ys) ∙ sym (append_assoc d (joined xs) (joined ys)))

put_attrs-plain :
    (ds : List (List ℕ)) (lst : List ℕ) → put_attrs vector_util_append lst ds ≡ lst ++ joined ds
unfolding put_attrs joined vector_util_append
put_attrs-plain [] lst = sym (append-nil lst)
put_attrs-plain (d ∷ ds) lst =
    put_attrs-plain ds (lst ++ separator ++ d)
    ∙ append_assoc (lst ++ separator) d (joined ds)
    ∙ append_assoc lst separator (d ++ joined ds)

escape-separator : escape separator ≡ separator
unfolding escape special
escape-separator = refl

put_attrs-escape :
    (ds : List (List ℕ)) (lst : List ℕ)
    → put_attrs db_key_copy_with_escape (escape lst) ds ≡ escape (lst ++ joined ds)
unfolding put_attrs joined vector_util_append
put_attrs-escape [] lst = ap escape (sym (append-nil lst))
put_attrs-escape (d ∷ ds) lst =
    ap (λ l. put_attrs db_key_copy_with_escape l ds) one
    ∙ put_attrs-escape ds (lst ++ separator ++ d)
    ∙ ap escape (
        append_assoc (lst ++ separator) d (joined ds) ∙ append_assoc lst separator (d ++ joined ds))
  where
    one : db_key_copy_with_escape (escape lst ++ separator) d ≡ escape (lst ++ separator ++ d)
    one =
        db_key_copy_with_escape_lem (escape lst ++ separator) d
        ∙ ap (λ l. l ++ escape d)
            (sym (escape-append lst separator ∙ ap (λ t. escape lst ++ t) escape-separator))
        ∙ sym (escape-append (lst ++ separator) d)

module _ {O : Type 0} (info : KeyAttrs O) where
  -- The data of the key attributes that the object has.
  unfoldable pub present : O → List ℕ → List (List ℕ)
  present o [] = []
  present o (id ∷ ids) =
      let rest = present o ids in elim (info.key_data o id) [ none ↦ rest | some d ↦ d ∷ rest ]

  abbrev pub attrs_of : O → List (List ℕ)
  attrs_of o = present o (info.key_ids o)

  pub attrs_loop-present :
      (o : O) (ids : List ℕ) (lst : List (List ℕ)) (w : Bool)
      → (attrs_loop info o ids (lst, w)).0 ≡ lst ++ present o ids
  unfolding attrs_loop present
  attrs_loop-present o [] lst w = sym (append-nil lst)
  attrs_loop-present o (id ∷ ids) lst w = elim (Option-cases (info.key_data o id)) [
    | inl e ↦ rw (e, attrs_loop, present) (attrs_loop-present o ids lst w)
    | inr (d, e) ↦
        rw (e, attrs_loop, present)
          (attrs_loop-present o ids (lst ++ d ∷ []) (w || is_star d)
            ∙ append_assoc lst (d ∷ []) (present o ids))
  ]

  plain_key :
      (o : O)
      → dbkey_from_instance_key info [] o false ≡ key_bytes (info.key o) ++ joined (attrs_of o)
  unfolding dbkey_from_instance_key append_attrs get_instance_key_attrs vector_util_append
  plain_key o =
      ap (λ ds. put_attrs vector_util_append (key_bytes (info.key o)) ds)
        (attrs_loop-present o (info.key_ids o) [] false)
      ∙ put_attrs-plain (attrs_of o) (key_bytes (info.key o))

  pattern_key :
      (o : O)
      → info.has_wildcard_attrs o ≡ false
      → dbkey_from_instance_key info [] o true
        ≡ escape (key_bytes (info.key o) ++ joined (attrs_of o)) ++ star ∷ []
  unfolding dbkey_from_instance_key append_attrs get_instance_key_attrs vector_util_append
  pattern_key o h = rw h (
      ap (λ ds. put_attrs db_key_copy_with_escape start ds ++ star ∷ [])
        (attrs_loop-present o (info.key_ids o) [] false)
      ∙ ap (λ k. put_attrs db_key_copy_with_escape k (attrs_of o) ++ star ∷ [])
          (db_key_copy_with_escape_lem [] (key_bytes (info.key o)))
      ∙ ap (λ k. k ++ star ∷ []) (put_attrs-escape (attrs_of o) (key_bytes (info.key o))))
    where
      start : List ℕ
      start = db_key_copy_with_escape [] (key_bytes (info.key o))

  module _ (g : Glob) where
    -- For an object whose attributes are no patterns, the escaped key is a pattern for exactly the
    -- bytes that begin with the object's plain key.
    pub dbkey_from_instance_key-pattern :
        (o : O) (s : List ℕ)
        → info.has_wildcard_attrs o ≡ false
        → (g.matches (dbkey_from_instance_key info [] o true) s ≡ true)
          ↔ ((r : List ℕ) × (s ≡ dbkey_from_instance_key info [] o false ++ r))
    dbkey_from_instance_key-pattern o s h =
        rw (pattern_key o h, plain_key o)
          (matches-escape-star g (key_bytes (info.key o) ++ joined (attrs_of o)) s)

    -- The escaped key of an object whose attributes are no patterns matches the plain key of every
    -- object that has the same key and whose key attributes begin with those of the first.
    pub dbkey_from_instance_key-finds :
        (p o : O) (more : List (List ℕ))
        → info.has_wildcard_attrs p ≡ false
        → info.key o ≡ info.key p
        → attrs_of o ≡ attrs_of p ++ more
        → g.matches
            (dbkey_from_instance_key info [] p true)
            (dbkey_from_instance_key info [] o false)
          ≡ true
    dbkey_from_instance_key-finds p o more h same begins =
        (dbkey_from_instance_key-pattern p (dbkey_from_instance_key info [] o false) h).1
          (joined more, longer)
      where
        longer :
            dbkey_from_instance_key info [] o false
            ≡ dbkey_from_instance_key info [] p false ++ joined more
        longer =
            plain_key o
            ∙ ap (λ k. key_bytes k ++ joined (attrs_of o)) same
            ∙ ap (λ ds. key_bytes (info.key p) ++ joined ds) begins
            ∙ ap (λ t. key_bytes (info.key p) ++ t) (joined-append (attrs_of p) more)
            ∙ sym (append_assoc (key_bytes (info.key p)) (joined (attrs_of p)) (joined more))
            ∙ ap (λ t. t ++ joined more) (sym (plain_key p))
