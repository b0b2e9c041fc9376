-- ===== src/Object/Sample.antt =====
-- A concrete `Tlv` and an object with three attributes, for tests.
use opx_cps.Common.{
  ℕ, suc, ◌+◌, ◌-◌, ◌<◌, ◌≤◌, ◌≡◌, refl, true, List, [], ◌∷◌, ◌++◌, Option, none, some, arith,
  length, drop, replicate, leb, if◌then◌else◌,
}
use opx_cps.Key.{Key}
use opx_cps.Object.{word, Tlv, Object}
use opx_cps.Object.Encode.{Attr, Holds, attribute, encode}

-- An encoding with one cell for the tag and one for the length.
abbrev pub length_at : List ℕ → ℕ
length_at (t ∷ n ∷ b) = 2 + n
length_at b = 2

abbrev pub tag_at : List ℕ → ℕ
tag_at [] = 0
tag_at (t ∷ b) = t

pub drop-append : (d rest : List ℕ) → drop (length d) (d ++ rest) ≡ rest
drop-append [] rest = refl
drop-append (x ∷ d) rest = drop-append d rest

pub drop-pair :
    (t : ℕ) (d rest : List ℕ) → drop (2 + length d) ((t ∷ length d ∷ []) ++ d ++ rest) ≡ rest
drop-pair t d rest =
    let two_more : 2 + length d ≡ suc (suc (length d)) = omega arith in
    rw two_more (drop-append d rest)

abbrev pub put : List ℕ → ℕ → ℕ → List ℕ → Option (List ℕ × ℕ)
put memory remain t d =
    if leb (2 + length d) remain
    then some ((t ∷ length d ∷ []) ++ d ++ drop (2 + length d) memory, remain - (2 + length d))
    else none

pub put_lem :
    (memory : List ℕ) (remain t : ℕ) (d : List ℕ)
    → t < word
    → length d < word
    → 2 + length d ≤ remain
    → put memory remain t d
      ≡ some ((t ∷ length d ∷ []) ++ d ++ drop (2 + length d) memory, remain - (2 + length d))
put_lem memory remain t d ht hd h = let e : leb (2 + length d) remain ≡ true = ground arith in rw e

abbrev pub tlv : Tlv
tlv = record {
  hdr_len = 2;
  header = λ t n. t ∷ n ∷ [];
  tag = tag_at;
  total_len = length_at;
  next = λ b. drop (length_at b) b;
  add = put;
  hdr_len_pos = omega arith;
  header_length = λ t n. refl;
  tag_lem = λ t d rest h k. refl;
  total_len_lem = λ t d rest h k. refl;
  next_lem = λ t d rest h k. drop-pair t d rest;
  add_lem = put_lem;
}

abbrev pub key : Key
key = record { len = 1; attr = 0; slots = 7 ∷ replicate 61 0 }

-- Three attributes, two with identifier 4, in ten bytes of twelve.
abbrev pub object : Object
object = record {
  len = 12;
  remain = 2;
  allocated = true;
  key = key;
  buffer = 4 ∷ 1 ∷ 11 ∷ 5 ∷ 2 ∷ 21 ∷ 22 ∷ 4 ∷ 1 ∷ 12 ∷ 0 ∷ 0 ∷ [];
}

abbrev pub attrs : List Attr
attrs = (4, 11 ∷ []) ∷ (5, 21 ∷ 22 ∷ []) ∷ (4, 12 ∷ []) ∷ []

pub object-Holds : Holds tlv object attrs
unfolding encode attribute
object-Holds = record {
  valid = record { size = refl; room = omega arith; small = omega arith };
  fits = (omega arith, omega arith, (omega arith, omega arith, (omega arith, omega arith, tt)));
  content = refl;
}
