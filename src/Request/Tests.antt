-- ===== src/Request/Tests.antt =====
-- Witnesses for get requests, on concrete data.
use opx_cps.Common.{
  ◌+◌, ℕ, ◌≡◌, refl, Bool, true, false, [], ◌∷◌, ◌++◌, none, some, replicate, ◌==◌,
}
use opx_cps.Key.{Key}
use opx_cps.Operation.{Object, ret_ok}
use opx_cps.Request.{GetParams, Source, ret_err, filter_list_as_needed, get}
use opx_cps.Request.Filter.{filter_list_as_needed_lem}
use opx_cps.Request.Get.{gather, behind, all_filters, get-gather_keys}

abbrev key : Key
key = record { len = 0; attr = 0; slots = replicate 62 0 }

abbrev object : ℕ → Object ℕ
object n = record { key = key; attrs = n }

abbrev match : Object ℕ → Object ℕ → Bool
match o p = o.attrs == p.attrs

filter_list_as_needed_lem_example :
    filter_list_as_needed true
      (match (object 1))
      ((some (object 7) ∷ []) ++ (some (object 1) ∷ none ∷ some (object 2) ∷ []))
      1
      4
    ≡ (some (object 7) ∷ []) ++ (some (object 1) ∷ [])
filter_list_as_needed_lem_example =
    filter_list_as_needed_lem true (match (object 1)) (some (object 7) ∷ [])
      (some (object 1) ∷ none ∷ some (object 2) ∷ [])

-- The attributes are a number, 1 for an exact filter. The database answers with objects 1 and 2,
-- whatever is asked.
abbrev source : Source ℕ ℕ
source = record {
  db_get = λ ix filters w. (ret_ok, some (object 1) ∷ some (object 2) ∷ [], w + 1);
  service_get = λ ix filters w. (ret_err, [], w);
  owned_by_service = λ w o. false;
  continue_on_failure = λ a. false;
  exact_match = λ a. a == 1;
  matches = match;
  no_attrs = 0;
}

abbrev plain : GetParams ℕ
plain = record { keys = []; filters = object 1 ∷ object 0 ∷ []; list = [] }

abbrev keyed : GetParams ℕ
keyed = record { keys = key ∷ []; filters = object 1 ∷ []; list = [] }

get-gather_keys_example :
    get source keyed 0
    ≡ behind source []
        (gather source (λ _. false) 2 0 (all_filters source keyed.filters (key ∷ [])) ret_err 0)
get-gather_keys_example = get-gather_keys source keyed key [] 0 refl
