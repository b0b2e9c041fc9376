-- ===== src/Object/Merge/Appended.antt =====
-- The end of cps_api_object_attr_merge: the bytes of one object behind those of another.
use opx_cps.Common.{
  ℕ, ◌+◌, ◌-◌, ◌%◌, ◌≤◌, ◌<◌, ◌≡◌, refl, sym, ap, ◌∙◌, inl, inr, true, List, ◌++◌, some, arith,
  length, take, ltb, if◌then◌else◌, Bool-cases,
}
use opx_cps.Object.{word, Tlv, Object, used, used_len, obj_realloc}
use opx_cps.Object.Buffer.{splice, length-splice, take-splice}
use opx_cps.Object.Encode.{Attr, Fits, Fits-append, Holds, IsValid, encode, encode-append}
use opx_cps.Object.Copy.{length-used}
use opx_cps.Object.Add.{realloc-Grown}
use opx_cps.Object.Merge.{append_used}

module _ (tlv : Tlv) where
  appended : Object → List ℕ → ℕ → Object
  appended p bytes amt = record p {
    buffer = splice (used_len p) bytes p.buffer;
    remain = (p.remain + word - amt) % word;
  }

  appended-Holds :
      (p src : Object) (xs ys : List Attr)
      → IsValid p
      → used p ≡ encode tlv xs
      → Fits xs
      → Holds tlv src ys
      → used_len src ≤ p.remain
      → Holds tlv (appended p (used src) (used_len src)) (xs ++ ys)
  unfolding appended
  appended-Holds p src xs ys v content fits h room = record {
    valid = record {
      size = length-splice (used_len p) (used src) p.buffer inside ∙ v.size;
      room = omega (arith, v.room, v.small, room);
      small = v.small;
    };
    fits = Fits-append xs ys fits h.fits;
    content =
        ap (λ n. take n (splice (used_len p) (used src) p.buffer)) total
        ∙ take-splice (used_len p) (used src) p.buffer inside
        ∙ ap (λ b. b ++ used src) content
        ∙ ap (λ b. encode tlv xs ++ b) h.content
        ∙ sym (encode-append tlv xs ys);
  }
    where
      count : length (used src) ≡ used_len src
      count = length-used src h.valid

      inside : used_len p + length (used src) ≤ length p.buffer
      inside = omega (arith, count, v.size, v.room, v.small, room)

      total :
          (p.len + word - (p.remain + word - used_len src) % word) % word
          ≡ used_len p + length (used src)
      total = omega (arith, count, v.room, v.small, room)

  append_used-appended :
      (attr_len : List ℕ → ℕ) (dest src p : Object) (tot : ℕ)
      → (used_len src + used_len dest) % word ≡ tot
      → (if ltb dest.len tot then obj_realloc dest tot else some dest) ≡ some p
      → append_used tlv attr_len dest src ≡ (true, appended p (used src) (used_len src))
  unfolding append_used appended
  append_used-appended attr_len dest src p tot whole e =
      rw (whole, append_used) (rw (e, append_used) refl)

  pub append_used-Holds :
      (attr_len : List ℕ → ℕ) (dest src : Object) (xs ys : List Attr)
      → Holds tlv dest xs
      → Holds tlv src ys
      → (dest.allocated ≡ true) × (used_len src + used_len dest < word)
      → (o : Object) × (append_used tlv attr_len dest src ≡ (true, o))
        × Holds tlv o (xs ++ ys)
        × (o.key ≡ dest.key)
  unfolding appended
  append_used-Holds attr_len dest src xs ys h k (own, small) =
      let whole : (used_len src + used_len dest) % word ≡ used_len src + used_len dest =
        omega (arith, small) in
      elim (Bool-cases (ltb dest.len (used_len src + used_len dest))) [
        | inr enough ↦ (
          appended dest (used src) (used_len src),
          append_used-appended attr_len dest src dest _ whole (rw enough refl),
          appended-Holds dest src xs ys h.valid h.content h.fits k
              (ground (arith, h.valid.room, h.valid.small)),
          refl,
        )
        | inl few ↦
            let (p, e, g, le) =
              realloc-Grown dest (used_len src) (used_len src + used_len dest) h.valid own small
                (omega arith) in
            (
              appended p (used src) (used_len src),
              append_used-appended attr_len dest src p _ whole (rw few e),
              appended-Holds p src xs ys g.valid (g.same_bytes ∙ h.content) h.fits k g.room,
              g.same_key,
            )
      ]
