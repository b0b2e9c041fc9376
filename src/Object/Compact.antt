-- ===== src/Object/Compact.antt =====
-- cps_api_object_compact of src/non-core/cps_api_object_tools.cpp: the temporary attributes of an
-- object are deleted. `temporary` is cps_api_attr_id_is_temporary.
pub mod Skips
use opx_cps.Common.{ℕ, zero, suc, Bool, List, Option, none, some, length, leb, if◌then◌else◌}
use opx_cps.Object.{Tlv, Object, used, attr_delete}

module _ (tlv : Tlv) (temporary : ℕ → Bool) where
  -- The loop. After a deletion the iterator is put to the start, and the step of the loop then takes
  -- it to the attribute behind that. `none`: the fuel ran out.
  unfoldable pub compact_from : ℕ → Object → List ℕ → Option Object
  compact_from zero o it = none
  compact_from (suc fuel) o it =
      let onward = compact_from fuel o (tlv.next it) in
      let again : Option Object = elim (attr_delete tlv o (tlv.tag it)) [
        | none ↦ none
        | some r ↦ compact_from fuel r.1 (tlv.next (used r.1))
      ] in
      if leb tlv.hdr_len (length it)
      then if temporary (tlv.tag it) then again else onward
      else some o

  unfoldable pub compact : ℕ → Object → Option Object
  compact fuel o = compact_from fuel o (used o)
