-- ===== src/Escape/Attr.antt =====
-- cps_api_attr_create_escaped: what it writes, and where.
use native.Mathlib.Numerals.{add-one}
use opx_cps.Common.{
  take-set_next, append_assoc, append-nil, subst, if◌then◌else◌, ◌⊎◌, ℕ, ◌+◌, ◌*◌, ◌<◌, ◌≤◌, ◌≡◌,
  refl, sym, ap, ◌∙◌, inl, inr, Bool, true, false, List, [], ◌∷◌, ◌++◌, none, some, arith, length,
  set, take, length-set, length-append, ltb,
}
use opx_cps.Escape.{
  special, escape, backslash, AttrType, bin, u16, u32, u64, type_size, to_little_endian, attr_put,
  attr_copy, attr_create_escaped,
}
use opx_cps.Escape.Copy.{escape-cons}

length-escape-le : (p : List ℕ) → length (escape p) ≤ 2 * length p
unfolding escape
length-escape-le [] = omega arith
length-escape-le (c ∷ p) = ground (arith, length-escape-le p)

-- What a step of the copy has done: the destination `out` holds `written` behind its first `count`
-- bytes, and has kept its size.
record Wrote (attr : List ℕ) (count : ℕ) (written : List ℕ) (r : List ℕ × ℕ) : Type 0 where
  pub size : length r.0 ≡ length attr
  pub count' : r.1 ≡ count + length written
  pub content : take r.1 r.0 ≡ take count attr ++ written

Wrote-append :
    (attr : List ℕ) (count : ℕ) (first second : List ℕ) (mid r : List ℕ × ℕ)
    → Wrote attr count first mid
    → Wrote mid.0 mid.1 second r
    → Wrote attr count (first ++ second) r
Wrote-append attr count first second mid r v w = record {
  size = w.size ∙ v.size;
  count' = omega (arith, v.count', w.count', length-append first second);
  content =
      w.content ∙ ap (λ t. t ++ second) v.content ∙ append_assoc (take count attr) first second;
}

Wrote-one :
    (attr : List ℕ) (count v : ℕ)
    → count < length attr
    → Wrote attr count (v ∷ []) (set attr count v, count + 1)
Wrote-one attr count v h = record {
  size = length-set attr count v;
  count' = refl;
  content = rw (add-one count) (take-set_next attr count v h);
}

attr_put-Wrote :
    (c : ℕ) (attr : List ℕ) (count : ℕ)
    → count + length (escape (c ∷ [])) ≤ length attr
    → Wrote attr count (escape (c ∷ [])) (attr_put c (attr, count))
unfolding attr_put escape
attr_put-Wrote c attr count = go (special c)
  where
    go :
        (b : Bool)
        → count + length (if b then backslash ∷ c ∷ [] else c ∷ []) ≤ length attr
        → Wrote attr count (if b then backslash ∷ c ∷ [] else c ∷ []) (
            if b
            then (set (set attr count backslash) (count + 1) c, count + 2)
            else (set attr count c, count + 1))
    go false h = Wrote-one attr count c (omega arith)
    go true h =
        let two : count + 2 ≡ count + 1 + 1 = omega arith in
        rw two (
          Wrote-append attr count (backslash ∷ []) (c ∷ []) (set attr count backslash, count + 1) _
            (Wrote-one attr count backslash (omega arith))
            (Wrote-one (set attr count backslash) (count + 1) c
              (omega (arith, length-set attr count backslash))))

attr_copy-Wrote :
    (buff attr : List ℕ) (count : ℕ)
    → count + length (escape buff) ≤ length attr
    → Wrote attr count (escape buff) (attr_copy buff (attr, count))
unfolding attr_copy escape
attr_copy-Wrote [] attr count h = record {
  size = refl;
  count' = omega arith;
  content = sym (append-nil (take count attr));
}
attr_copy-Wrote (c ∷ buff) attr count h =
    let parts : length (escape (c ∷ buff)) ≡ length (escape (c ∷ [])) + length (escape buff) =
      ap length (escape-cons c buff) ∙ length-append (escape (c ∷ [])) (escape buff) in
    let put = attr_put-Wrote c attr count (omega arith) in
    let mid = attr_put c (attr, count) in
    subst (λ w. Wrote attr count w (attr_copy buff mid)) (sym (escape-cons c buff))
      (Wrote-append attr count (escape (c ∷ [])) (escape buff) mid (attr_copy buff mid) put
        (attr_copy-Wrote buff mid.0 mid.1 (omega (arith, put.size, put.count'))))

-- The size that the source asks of the data of a type.
abbrev pub Fits : AttrType → List ℕ → Type 0
Fits type buff = elim (type_size type) [ none ↦ Unit | some n ↦ length buff ≡ n ]

-- The bytes that are copied: numbers in little-endian order, all else as it stands.
abbrev pub encoded : (List ℕ → List ℕ) → AttrType → List ℕ → List ℕ
encoded htole type buff = elim (type_size type) [ none ↦ buff | some n ↦ htole buff ]

module _ (htole : List ℕ → List ℕ) (keeps_size : (b : List ℕ) → length (htole b) ≡ length b) where
  encodes :
      (type : AttrType) (buff : List ℕ)
      → Fits type buff
      → (to_little_endian htole type buff ≡ some (encoded htole type buff))
        × (length (encoded htole type buff) ≡ length buff)
  unfolding to_little_endian
  encodes bin buff f = (refl, refl)
  encodes u16 buff f = (ground arith, keeps_size buff)
  encodes u32 buff f = (ground arith, keeps_size buff)
  encodes u64 buff f = (ground arith, keeps_size buff)

  -- With a destination of `attr_len` bytes or more, data of the size that its type asks for, and
  -- `attr_len` at least twice that size, the call succeeds; the bytes counted by the new
  -- `attr_len` are the data with its special bytes escaped, they are no more than the old
  -- `attr_len`, and the destination keeps its size.
  pub attr_create_escaped_success :
      (type : AttrType) (buff attr : List ℕ) (attr_len : ℕ)
      → attr_len ≤ length attr
      → Fits type buff
      → 2 * length buff ≤ attr_len
      → let r = attr_create_escaped htole type buff attr attr_len in
        (r.done ≡ true)
        × (take r.attr_len r.attr ≡ escape (encoded htole type buff))
        × (r.attr_len ≤ attr_len)
        × (length r.attr ≡ length attr)
  unfolding attr_create_escaped
  attr_create_escaped_success type buff attr attr_len room fits twice =
      let (e, n) = encodes type buff fits in
      let small = length-escape-le (encoded htole type buff) in
      let w = attr_copy-Wrote (encoded htole type buff) attr 0 (omega arith) in
      let at_most : ltb attr_len (2 * length buff) ≡ false = ground arith in
      rw (at_most, attr_create_escaped)
        (rw (e, attr_create_escaped) (refl, w.content, omega (arith, w.count'), w.size))

  -- With `attr_len` less than twice the size of the data, or data that have not the size that their
  -- type asks for, the call fails, and neither the destination nor `attr_len` has changed.
  pub attr_create_escaped_failure :
      (type : AttrType) (buff attr : List ℕ) (attr_len : ℕ)
      → (attr_len < 2 * length buff) ⊎ ¬ Fits type buff
      → attr_create_escaped htole type buff attr attr_len
        ≡ record { done = false; attr = attr; attr_len = attr_len }
  unfolding attr_create_escaped to_little_endian
  attr_create_escaped_failure type buff attr attr_len (inl h) = ground arith
  attr_create_escaped_failure bin buff attr attr_len (inr h) = absurd (h tt)
  attr_create_escaped_failure u16 buff attr attr_len (inr h) = ground arith
  attr_create_escaped_failure u32 buff attr attr_len (inr h) = ground arith
  attr_create_escaped_failure u64 buff attr attr_len (inr h) = ground arith
