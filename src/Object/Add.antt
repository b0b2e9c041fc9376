-- ===== src/Object/Add.antt =====
-- Adding an attribute, and the room for it.
use opx_cps.Common.{
  ◌%◌, ◌⊎◌, ℕ, ◌+◌, ◌-◌, ◌≤◌, ◌<◌, ◌%◌, ◌≡◌, refl, ap, sym, ◌∙◌, inl, inr, true, List, [], ◌∷◌,
  ◌++◌, some, arith, length, take, drop, resize, ltb, Bool-cases,
}
use opx_cps.Object.{
  word, Tlv, Object, used, used_len, obj_realloc, reserve_space, realloc_step, add_attribute,
}
use opx_cps.Object.Buffer.{take-take_append, length-resize, splice, length-splice, take-splice}
use opx_cps.Object.Encode.{
  add-attribute, Attr, Fits-append, Holds, IsValid, attribute, encode, encode-append, encode_one,
  length-attribute,
}

-- An object with the same key and ownership, the same bytes in use, and room for `n` more.
pub record Grown (o p : Object) (n : ℕ) : Type 0 where
  pub valid : IsValid p
  pub same_use : used_len p ≡ used_len o
  pub same_bytes : used p ≡ used o
  pub same_key : p.key ≡ o.key
  pub same_owner : p.allocated ≡ o.allocated
  pub room : n ≤ p.remain

pub realloc-Grown :
    (o : Object) (n m : ℕ)
    → IsValid o
    → o.allocated ≡ true
    → m < word
    → used_len o + n ≤ m
    → (p : Object) × (obj_realloc o m ≡ some p) × Grown o p n × (p.len ≡ m)
unfolding obj_realloc
realloc-Grown o n m v own small fit = (
  record o { len = m; remain = (o.remain + m + word - o.len) % word; buffer = resize 0 m o.buffer },
  rw own,
  record {
    valid = record {
      size = length-resize m o.buffer;
      room = omega (arith, v.room, v.small);
      small = small;
    };
    same_use = kept;
    same_bytes =
        ap (λ u. take u (resize 0 m o.buffer)) kept
        ∙ take-take_append (used_len o) m o.buffer _ (omega arith)
            (omega (arith, v.size, v.room, v.small));
    same_key = refl;
    same_owner = refl;
    room = omega (arith, v.room, v.small);
  },
  refl,
)
  where
    kept : (m + word - (o.remain + m + word - o.len) % word) % word ≡ used_len o
    kept = omega (arith, v.room, v.small, small, fit)

reserve_space-Grown :
    (o : Object) (n : ℕ)
    → IsValid o
    → (o.allocated ≡ true) × (n + used_len o + realloc_step < word) ⊎ (n ≤ o.remain)
    → (p : Object) × (reserve_space o n ≡ some p) × Grown o p n
unfolding reserve_space
reserve_space-Grown o n v can = elim (Bool-cases (ltb o.remain n)) [
  | inr enough ↦ (
    o,
    rw enough,
    record {
      valid = v;
      same_use = refl;
      same_bytes = refl;
      same_key = refl;
      same_owner = refl;
      room = ground arith;
    },
  )
  | inl short ↦
      let (own, small) = must can short in
      let (p, e, g, _) =
        realloc-Grown o n (n + used_len o + realloc_step) v own small (omega arith) in
      let no_wrap : (n + used_len o + realloc_step) % word ≡ n + used_len o + realloc_step =
        omega (arith, small) in
      (p, rw (short, no_wrap) e, g)
]
  where
    must :
        (o.allocated ≡ true) × (n + used_len o + realloc_step < word) ⊎ (n ≤ o.remain)
        → ltb o.remain n ≡ true
        → (o.allocated ≡ true) × (n + used_len o + realloc_step < word)
    must (inl both) short = both
    must (inr fits) short = absurd (ground arith)

module _ (tlv : Tlv) where
  -- The object with an attribute written behind those in use.
  placed : Object → ℕ → List ℕ → Object
  placed p t d = record p {
    buffer = splice (used_len p) (attribute tlv t d) p.buffer;
    remain = p.remain - (tlv.hdr_len + length d);
  }

  module _ (p : Object) (t : ℕ) (d : List ℕ) (v : IsValid p)
      (h : tlv.hdr_len + length d ≤ p.remain) where
    inside : used_len p + length (attribute tlv t d) ≤ length p.buffer
    inside = omega (arith, length-attribute tlv t d, v.room, v.small, v.size, h)

    placed-IsValid : IsValid (placed p t d)
    unfolding placed
    placed-IsValid = record {
      size = length-splice (used_len p) (attribute tlv t d) p.buffer inside ∙ v.size;
      room = omega (arith, v.room);
      small = v.small;
    }

    used-placed : used (placed p t d) ≡ used p ++ attribute tlv t d
    unfolding placed
    used-placed =
        ap (λ n. take n (splice (used_len p) (attribute tlv t d) p.buffer)) count
        ∙ take-splice (used_len p) (attribute tlv t d) p.buffer inside
      where
        count :
            (p.len + word - (p.remain - (tlv.hdr_len + length d))) % word
            ≡ used_len p + length (attribute tlv t d)
        count = omega (arith, length-attribute tlv t d, v.room, v.small, h)

    add-placed :
        t < word
        → length d < word
        → tlv.add (drop (used_len p) p.buffer) p.remain t d
          ≡ some (
            attribute tlv t d ++ drop (length (attribute tlv t d)) (drop (used_len p) p.buffer),
            p.remain - (tlv.hdr_len + length d),
          )
    add-placed ht hd =
        rw (length-attribute tlv t d)
          (add-attribute tlv (drop (used_len p) p.buffer) p.remain t d ht hd h)

  -- To an object that owns its buffer, or that has room, an attribute is added behind the others;
  -- the key is kept.
  pub add_attribute-Holds :
      (o : Object) (xs : List Attr) (t : ℕ) (d : List ℕ)
      → Holds tlv o xs
      → t < word
      → length d < word
      → (o.allocated ≡ true) × (length d + tlv.hdr_len + used_len o + realloc_step < word)
        ⊎ (length d + tlv.hdr_len ≤ o.remain)
      → (p : Object) × (add_attribute tlv o t d ≡ some p)
        × Holds tlv p (xs ++ (t, d) ∷ [])
        × (p.key ≡ o.key)
  unfolding add_attribute placed
  add_attribute-Holds o xs t d h ht hd can =
      let need = length d + tlv.hdr_len in
      let no_wrap : (length d + tlv.hdr_len) % word ≡ length d + tlv.hdr_len =
        omega (arith, fits_word can, h.valid.room, h.valid.small) in
      let (p, e, g) = reserve_space-Grown o need h.valid can in
      let added = add-placed p t d g.valid (omega (arith, g.room)) ht hd in
      (
        placed p t d,
        rw (no_wrap, add_attribute) (rw (e, add_attribute) (rw added)),
        record {
          valid = placed-IsValid p t d g.valid (omega (arith, g.room));
          fits = Fits-append xs ((t, d) ∷ []) h.fits (ht, hd, tt);
          content =
              used-placed p t d g.valid (omega (arith, g.room))
              ∙ ap (λ b. b ++ attribute tlv t d) (g.same_bytes ∙ h.content)
              ∙ ap (λ b. encode tlv xs ++ b) (sym (encode_one tlv t d))
              ∙ sym (encode-append tlv xs ((t, d) ∷ []));
        },
        g.same_key,
      )
    where
      fits_word :
          (o.allocated ≡ true) × (length d + tlv.hdr_len + used_len o + realloc_step < word)
            ⊎ (length d + tlv.hdr_len ≤ o.remain)
          → length d + tlv.hdr_len < word
      fits_word (inl both) = omega (arith, both.1)
      fits_word (inr fits) = omega (arith, fits, h.valid.room, h.valid.small)
