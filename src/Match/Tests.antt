-- ===== src/Match/Tests.antt =====
-- A filter and an object, with key attributes.
use opx_cps.Common.{ℕ, ◌-◌, ◌≡◌, refl, true, false, List, [], ◌∷◌, some, arith, drop}
use opx_cps.Object.{Object}
use opx_cps.Object.Encode.{Attr, Holds, attribute, encode}
use opx_cps.Object.Sample.{tlv, key, length_at}
use opx_cps.Match.{Steps, key_attrs_id, matches_filter}
use opx_cps.Match.Wanted.{wanted}
use opx_cps.Match.Objects.{inside, Readable, matches_filter-wanted}

abbrev size_at : List ℕ → ℕ
size_at (t ∷ n ∷ b) = n
size_at b = 0

abbrev steps : Steps tlv
steps = record {
  value_at = drop 2;
  value_len = size_at;
  rest_len = λ m n. n - length_at m;
  value_at_lem = λ t d rest h k. refl;
  value_len_lem = λ t d rest h k. refl;
  rest_len_lem = λ t d rest n h k. omega arith;
}

abbrev filter_attrs : List Attr
filter_attrs = (key_attrs_id, 4 ∷ 1 ∷ 11 ∷ []) ∷ (5, 21 ∷ []) ∷ []

abbrev filter : Object
filter = record {
  len = 8;
  remain = 0;
  allocated = true;
  key = key;
  buffer = key_attrs_id ∷ 3 ∷ 4 ∷ 1 ∷ 11 ∷ 5 ∷ 1 ∷ 21 ∷ [];
}

abbrev object_attrs : List Attr
object_attrs = (6, []) ∷ (key_attrs_id, 4 ∷ 1 ∷ 11 ∷ []) ∷ (5, 21 ∷ []) ∷ []

-- The object has one byte that is not in use.
abbrev object : Object
object = record {
  len = 11;
  remain = 1;
  allocated = true;
  key = key;
  buffer = 6 ∷ 0 ∷ key_attrs_id ∷ 3 ∷ 4 ∷ 1 ∷ 11 ∷ 5 ∷ 1 ∷ 21 ∷ 0 ∷ [];
}

filter-Holds : Holds tlv filter filter_attrs
unfolding encode attribute
filter-Holds = record {
  valid = record { size = refl; room = omega arith; small = omega arith };
  fits = (omega arith, omega arith, (omega arith, omega arith, tt));
  content = refl;
}

object-Holds : Holds tlv object object_attrs
unfolding encode attribute
object-Holds = record {
  valid = record { size = refl; room = omega arith; small = omega arith };
  fits = (omega arith, omega arith, (omega arith, omega arith, (omega arith, omega arith, tt)));
  content = refl;
}

-- The one attribute inside of a key attribute.
abbrev keys : List ℕ → List Attr
keys (t ∷ n ∷ x ∷ []) = (t, x ∷ []) ∷ []
keys d = []

key-Readable : Readable tlv keys 1 (4 ∷ 1 ∷ 11 ∷ [])
unfolding encode attribute
key-Readable = record {
  content = refl;
  short = (omega arith, omega arith, tt);
  unkeyed = (refl, tt);
  few = omega arith;
}

matches_filter-wanted_example :
    matches_filter tlv steps (λ t. false) (λ t. false) true 10 filter object
    ≡ some (
        wanted tlv steps
          (λ t. false)
          (λ t. false)
          true
          (inside tlv steps (λ t. false) (λ t. false) true keys)
          filter_attrs
          object_attrs)
matches_filter-wanted_example =
    matches_filter-wanted tlv steps (λ t. false) (λ t. false) true keys 1 10 filter object
      filter_attrs object_attrs (λ t. refl) filter-Holds object-Holds
      (omega arith, omega arith, (omega arith, omega arith, tt))
      (omega arith, omega arith, (omega arith, omega arith, (omega arith, omega arith, tt)))
      ((λ h. key-Readable), ((λ h. absurd (cc h)), tt))
      ((λ h. absurd (cc h)), ((λ h. key-Readable), ((λ h. absurd (cc h)), tt))) (omega arith)
