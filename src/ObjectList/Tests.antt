-- ===== src/ObjectList/Tests.antt =====
-- Witnesses for lists of objects, on concrete data.
use opx_cps.Common.{ℕ, ◌≡◌, List, [], ◌∷◌, Option, none, some}
use opx_cps.Object.{Object}
use opx_cps.Object.Sample.{tlv, key, object, attrs, object-Holds}
use opx_cps.ObjectList.{list_clone}
use opx_cps.ObjectList.Clone.{Alike, list_clone-Alike}

abbrev numbers : List (Option ℕ)
numbers = some 1 ∷ none ∷ some 3 ∷ some 4 ∷ []

list_clone-Alike_example :
    (copy : List (Option Object)) × (list_clone key (none ∷ some object ∷ []) ≡ some copy)
    × Alike tlv (none ∷ some object ∷ []) copy
list_clone-Alike_example =
    list_clone-Alike tlv key (none ∷ some object ∷ []) ((attrs, object-Holds), tt)
