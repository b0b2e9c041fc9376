-- ===== src/Object/Encode.antt =====
-- Attributes in a buffer: what a well-formed object holds.
use opx_cps.Common.{
  drop, some, ℕ, ◌+◌, ◌-◌, ◌≤◌, ◌<◌, ◌≡◌, refl, ap, sym, ◌∙◌, List, [], ◌∷◌, ◌++◌, append_assoc,
  append-nil, arith, length, length-append,
}
use opx_cps.Object.{word, Tlv, Object, used_len, used}

-- The identifier and the data.
abbrev pub Attr : Type 0
Attr = ℕ × List ℕ

-- Identifiers and lengths fit into their 64 bits.
abbrev pub Fits : List Attr → Type 0
Fits [] = Unit
Fits ((t, d) ∷ xs) = (t < word) × (length d < word) × Fits xs

-- The length is that of the buffer, and the attributes fit into it.
pub record IsValid (o : Object) : Type 0 where
  pub size : length o.buffer ≡ o.len
  pub room : o.remain ≤ o.len
  pub small : o.len < word

pub used_len-IsValid : (o : Object) → IsValid o → used_len o ≡ o.len - o.remain
used_len-IsValid o v = omega (arith, v.room, v.small)

module _ (tlv : Tlv) where
  unfoldable pub attribute : ℕ → List ℕ → List ℕ
  attribute t d = tlv.header t (length d) ++ d

  unfoldable pub encode : List Attr → List ℕ
  encode [] = []
  encode ((t, d) ∷ xs) = attribute t d ++ encode xs

  -- The object is well formed, and its bytes in use are these attributes.
  pub record Holds (o : Object) (xs : List Attr) : Type 0 where
    pub valid : IsValid o
    pub fits : Fits xs
    pub content : used o ≡ encode xs

  pub length-attribute : (t : ℕ) (d : List ℕ) → length (attribute t d) ≡ tlv.hdr_len + length d
  unfolding attribute
  length-attribute t d =
      omega (arith, length-append (tlv.header t (length d)) d, tlv.header_length t (length d))

  -- The laws of the encoding, for an attribute in front of other bytes.
  pub tag-attribute :
      (t : ℕ) (d rest : List ℕ) → t < word → length d < word → tlv.tag (attribute t d ++ rest) ≡ t
  unfolding attribute
  tag-attribute = tlv.tag_lem

  pub total_len-attribute :
      (t : ℕ) (d rest : List ℕ)
      → t < word
      → length d < word
      → tlv.total_len (attribute t d ++ rest) ≡ length (attribute t d)
  unfolding attribute
  total_len-attribute t d rest h k = tlv.total_len_lem t d rest h k ∙ sym (length-attribute t d)

  pub next-attribute :
      (t : ℕ) (d rest : List ℕ)
      → t < word
      → length d < word
      → tlv.next (attribute t d ++ rest) ≡ rest
  unfolding attribute
  next-attribute = tlv.next_lem

  pub add-attribute :
      (memory : List ℕ) (remain t : ℕ) (d : List ℕ)
      → t < word
      → length d < word
      → tlv.hdr_len + length d ≤ remain
      → tlv.add memory remain t d
        ≡ some (
          attribute t d ++ drop (tlv.hdr_len + length d) memory,
          remain - (tlv.hdr_len + length d),
        )
  unfolding attribute
  add-attribute = tlv.add_lem

  pub encode-append : (xs ys : List Attr) → encode (xs ++ ys) ≡ encode xs ++ encode ys
  unfolding encode
  encode-append [] ys = refl
  encode-append ((t, d) ∷ xs) ys =
      ap (λ r. attribute t d ++ r) (encode-append xs ys)
      ∙ sym (append_assoc (attribute t d) (encode xs) (encode ys))

  pub encode_one : (t : ℕ) (d : List ℕ) → encode ((t, d) ∷ []) ≡ attribute t d
  unfolding encode
  encode_one t d = append-nil (attribute t d)

  pub encode-cons :
      (t : ℕ) (d : List ℕ) (xs : List Attr) → encode ((t, d) ∷ xs) ≡ attribute t d ++ encode xs
  unfolding encode
  encode-cons t d xs = refl

  pub encode-nil : encode [] ≡ []
  unfolding encode
  encode-nil = refl

  -- Each attribute takes a byte or more.
  pub length-le-encode : (xs : List Attr) → length xs ≤ length (encode xs)
  unfolding encode
  length-le-encode [] = omega arith
  length-le-encode ((t, d) ∷ xs) = omega (
    arith,
    length-le-encode xs,
    length-append (attribute t d) (encode xs),
    length-attribute t d,
    tlv.hdr_len_pos,
  )

pub Fits-append : (xs ys : List Attr) → Fits xs → Fits ys → Fits (xs ++ ys)
Fits-append [] ys f g = g
Fits-append (a ∷ xs) ys f g = (f.0, f.1, Fits-append xs ys f.2 g)
