-- ===== src/Object/Codes.antt =====
-- Attributes that carry a number: cps_api_object_set_return_code, cps_api_object_return_code,
-- cps_api_object_exact_match and cps_api_object_get_exact_match_flag of
-- src/non-core/cps_api_object_tools.cpp.
use opx_cps.Common.{
  ℕ, ◌+◌, ◌*◌, ◌≡◌, ◌<◌, Bool, true, false, not, List, ◌++◌, [], Option, none, some, length, get_or,
  ◌==◌, if◌then◌else◌,
}
use opx_cps.Key.{le_bytes}
use opx_cps.Object.{Tlv, Object, word, used, attr_delete, add_attribute}

-- std_tlv_data, the bytes from the value on, and std_tlv_efind for a path of one identifier, with
-- what is documented of them.
pub record Values (tlv : Tlv) : Type 0 where
  pub efind : List ℕ → ℕ → Option (List ℕ)
  pub efind_nil : (t : ℕ) → efind [] t ≡ none
  pub efind_lem :
      (u t : ℕ) (d rest : List ℕ)
      → t < word
      → length d < word
      → efind (tlv.header t (length d) ++ d ++ rest) u
        ≡ (if t == u then some (tlv.header t (length d) ++ d ++ rest) else efind rest u)
  pub value : List ℕ → List ℕ
  pub value_lem :
      (t : ℕ) (d rest : List ℕ)
      → t < word
      → length d < word
      → value (tlv.header t (length d) ++ d ++ rest) ≡ d ++ rest

abbrev pub return_code_id : ℕ
return_code_id = 131105

abbrev pub exact_match_id : ℕ
exact_match_id = 131098

-- The 32-bit number at a pointer, on a little-endian host.
unfoldable pub number_at : List ℕ → ℕ
number_at b = get_or b 0 0 + 256 * get_or b 1 0 + 65536 * get_or b 2 0 + 16777216 * get_or b 3 0

module _ (tlv : Tlv) where
  -- cps_api_object_attr_add_u32; `none` outside: the fuel ran out in what was called before.
  unfoldable pub attr_add_u32 : Object → ℕ → ℕ → Option Object
  attr_add_u32 o id n = add_attribute tlv o id (le_bytes n)

  -- The result, and the object, which keeps the deletion where the addition fails.
  unfoldable pub set_number : ℕ → Object → ℕ → Option (Bool × Object)
  unfolding attr_add_u32
  set_number id o n = elim (attr_delete tlv o id) [
    | none ↦ none
    | some (was, p) ↦ elim (attr_add_u32 p id n) [
      | none ↦ some (false, p)
      | some q ↦ some (true, q)
    ]
  ]

  -- A return code is given as the 32 bits that stand for it.
  unfoldable pub set_return_code : Object → ℕ → Option (Bool × Object)
  unfolding set_number
  set_return_code o rc = set_number return_code_id o rc

  unfoldable pub exact_match : Object → Bool → Option (Bool × Object)
  unfolding set_number
  exact_match o have =
      if not have
      then elim (attr_delete tlv o exact_match_id) [ none ↦ none | some (was, p) ↦ some (true, p) ]
      else set_number exact_match_id o 1

  -- cps_api_object_get_data as a pointer to a number: `none` for a null pointer.
  unfoldable pub get_number : Values tlv → ℕ → Object → Option ℕ
  unfolding number_at
  get_number values id o = elim (values.efind (used o) id) [
    | none ↦ none
    | some at ↦ some (number_at (values.value at))
  ]

  unfoldable pub return_code : Values tlv → Object → Option ℕ
  unfolding get_number
  return_code values o = get_number values return_code_id o

  unfoldable pub get_exact_match_flag : Values tlv → Object → Bool
  unfolding get_number
  get_exact_match_flag values o = elim (get_number values exact_match_id o) [
    | none ↦ false
    | some n ↦ not (n == 0)
  ]
