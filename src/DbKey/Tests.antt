-- ===== src/DbKey/Tests.antt =====
-- Witnesses for the keys of the database, on concrete data.
use opx_cps.Common.{ℕ, ◌≡◌, refl, true, false, List, [], ◌∷◌, get_elem?, replicate}
use opx_cps.Escape.SmallGlob.{small_glob}
use opx_cps.DbKey.{KeyAttrs, dbkey_from_instance_key}
use opx_cps.DbKey.Pattern.{present, dbkey_from_instance_key-finds}

-- An object is the data of its key attributes 0, 1, and so on; there are to be two.
abbrev info : KeyAttrs (List (List ℕ))
info = record {
  key = λ o. record { len = 1; attr = 0; slots = 63 ∷ replicate 61 0 };
  key_ids = λ o. 0 ∷ 1 ∷ [];
  key_data = λ o id. get_elem? o id;
  has_wildcard_attrs = λ o. false;
}

abbrev interface : List (List ℕ)
interface = (101 ∷ 42 ∷ []) ∷ (9 ∷ []) ∷ []

abbrev filter : List (List ℕ)
filter = (101 ∷ 42 ∷ []) ∷ []

dbkey_from_instance_key-finds_example :
    small_glob.matches
      (dbkey_from_instance_key info [] filter true)
      (dbkey_from_instance_key info [] interface false)
    ≡ true
unfolding present
dbkey_from_instance_key-finds_example =
    dbkey_from_instance_key-finds info small_glob filter interface ((9 ∷ []) ∷ []) refl refl refl
