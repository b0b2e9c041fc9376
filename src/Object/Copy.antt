-- ===== src/Object/Copy.antt =====
-- Copies of objects: cps_api_object_clone, and the way through an array of bytes and back.
use opx_cps.Common.{
  take_all, resize, take-append_length, ℕ, ◌+◌, ◌-◌, ◌≤◌, ◌<◌, ◌%◌, ◌≡◌, refl, ap, ◌∙◌, ◌⊎◌, inl,
  inr, true, false, List, ◌++◌, some, arith, length, length-append, length-take, length-drop, take,
  drop, ltb, Bool-cases,
}
use opx_cps.Key.{Key}
use opx_cps.Object.{
  word, Tlv, Object, used, used_len, obj_realloc, object_clone, data_size, to_array_len,
  array_to_object,
}
use opx_cps.Object.Buffer.{length-resize}
use opx_cps.Object.Encode.{Attr, Holds, IsValid}

-- An object whose buffer begins with the `n` bytes `b` and has them in use.
abbrev filled : Object → Key → List ℕ → ℕ → ℕ → Object
filled d key b n remain = record d { key = key; buffer = b ++ drop n d.buffer; remain = remain }

module _ (d : Object) (key : Key) (b : List ℕ) (n remain : ℕ) (count : length b ≡ n)
    (size : length d.buffer ≡ d.len) (fits : n + remain ≡ d.len) (small : d.len < word) where
  filled-IsValid : IsValid (filled d key b n remain)
  filled-IsValid = record {
    size = omega (arith, whole, length-drop n d.buffer, size, fits, count);
    room = omega (arith, fits);
    small = small;
  }
    where
      whole : length (filled d key b n remain).buffer ≡ length b + length (drop n d.buffer)
      whole = length-append b (drop n d.buffer)

  used-filled : used (filled d key b n remain) ≡ b
  used-filled =
      ap (λ k. take k (b ++ drop n d.buffer)) in_use ∙ take-append_length b (drop n d.buffer)
    where
      in_use : used_len (filled d key b n remain) ≡ length b
      in_use = omega (arith, fits, small, count)

pub length-used : (o : Object) → IsValid o → length (used o) ≡ used_len o
length-used o v = omega (arith, length-take (used_len o) o.buffer, v.size, v.room, v.small)

-- The buffer that a clone makes in a target with too small a one.
abbrev grown : Object → ℕ → Object
grown dest n = record dest {
  len = n;
  remain = (dest.remain + n + word - dest.len) % word;
  buffer = resize 0 n dest.buffer;
}

abbrev clone_into : Object → Object → Object
clone_into d src = filled d src.key (used src) (used_len src) ((d.len + word - used_len src) % word)

object_clone_enough :
    (dest src : Object)
    → ltb dest.len (used_len src) ≡ false
    → object_clone dest src ≡ some (clone_into dest src)
unfolding object_clone
object_clone_enough dest src h = rw (object_clone, h) refl

object_clone-grown :
    (dest src : Object)
    → ltb dest.len (used_len src) ≡ true
    → dest.allocated ≡ true
    → object_clone dest src ≡ some (clone_into (grown dest src.len) src)
unfolding object_clone obj_realloc
object_clone-grown dest src h own = rw (object_clone, h, own) refl

-- The object that is read from the array of another one.
abbrev read_back : Object → Object → Object
read_back dest src =
    filled (grown (record dest { remain = dest.len }) (to_array_len src)) src.key (used src)
      (used_len src) data_size

array_to_object_lem :
    (dest src : Object)
    → IsValid src
    → dest.allocated ≡ true
    → array_to_object src.key (used src) (to_array_len src) dest ≡ some (read_back dest src)
unfolding array_to_object to_array_len obj_realloc
array_to_object_lem dest src v own = rw (long, own, count, whole, rest) refl
  where
    long : ltb (to_array_len src) data_size ≡ false
    long = ground arith

    count : to_array_len src - data_size ≡ used_len src
    count = omega arith

    rest : to_array_len src - to_array_len src + data_size ≡ data_size
    rest = omega arith

    whole : take (used_len src) (used src) ≡ used src
    whole = take_all (used_len src) (used src) (omega (arith, length-used src v))

module _ (tlv : Tlv) where
  filled-Holds :
      (d src : Object) (xs : List Attr) (remain : ℕ)
      → Holds tlv src xs
      → length d.buffer ≡ d.len
      → used_len src + remain ≡ d.len
      → d.len < word
      → Holds tlv (filled d src.key (used src) (used_len src) remain) xs
  filled-Holds d src xs remain h size fits small = record {
    valid = filled-IsValid d src.key (used src) (used_len src) remain count size fits small;
    fits = h.fits;
    content =
        used-filled d src.key (used src) (used_len src) remain count size fits small ∙ h.content;
  }
    where
      count : length (used src) ≡ used_len src
      count = length-used src h.valid

  -- A clone into a valid object that owns its buffer, or whose buffer is large enough, succeeds; the
  -- target then has the key and the attributes of the source.
  pub object_clone-Holds :
      (dest src : Object) (xs : List Attr)
      → IsValid dest
      → Holds tlv src xs
      → (dest.allocated ≡ true) ⊎ (used_len src ≤ dest.len)
      → (d : Object) × (object_clone dest src ≡ some d) × Holds tlv d xs × (d.key ≡ src.key)
  object_clone-Holds dest src xs v h can = elim (Bool-cases (ltb dest.len (used_len src))) [
    | inl few ↦
        let own : dest.allocated ≡ true = elim can [
          | inl own ↦ own
          | inr room ↦ absurd (ground arith)
        ] in
        (
          clone_into (grown dest src.len) src,
          object_clone-grown dest src few own,
          filled-Holds (grown dest src.len) src xs ((src.len + word - used_len src) % word) h
              (length-resize src.len dest.buffer) (omega (arith, h.valid.room, h.valid.small))
              h.valid.small,
          refl,
        )
    | inr enough ↦
        let room : used_len src ≤ dest.len = ground arith in
        (
          clone_into dest src,
          object_clone_enough dest src enough,
          filled-Holds dest src xs ((dest.len + word - used_len src) % word) h v.size
              (omega (arith, v.small)) v.small,
          refl,
        )
  ]

  length_lem : (o : Object) → used_len o + data_size ≡ to_array_len o
  unfolding to_array_len
  length_lem o = refl

  -- An object that is made into an array and back: if the target owns its buffer, and the array's
  -- length fits into 64 bits, the target has the key and the attributes of the source.
  pub array-round_trip :
      (dest src : Object) (xs : List Attr)
      → Holds tlv src xs
      → dest.allocated ≡ true
      → to_array_len src < word
      → (d : Object) × (array_to_object src.key (used src) (to_array_len src) dest ≡ some d)
        × Holds tlv d xs
        × (d.key ≡ src.key)
  array-round_trip dest src xs h own small = (
    read_back dest src,
    array_to_object_lem dest src h.valid own,
    filled-Holds (grown (record dest { remain = dest.len }) (to_array_len src)) src xs data_size h
        (length-resize (to_array_len src) dest.buffer) (length_lem src) small,
    refl,
  )
