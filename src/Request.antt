-- ===== src/Request.antt =====
-- Get requests: src/cps_api_operation_common.cpp (cps_api_get, _filter_list_as_needed,
-- cps_api_get_request_init and .._close) and the lists of src/cps_api_object.cpp that they use.
-- A list of objects is a list of pointers; `none` is a null pointer.
pub mod Filter
pub mod Get
mod Tests
use opx_cps.Common.{
  ◌||◌, ℕ, zero, suc, ◌+◌, ◌-◌, ◌≡◌, Bool, true, false, not, ◌&&◌, List, [], ◌∷◌, ◌++◌, Option,
  none, some, map, length, get_elem?, set, remove_index, resize, leb, if◌then◌else◌, ℤ, pos,
  is_zero,
}
use opx_cps.Key.{Key}
use opx_cps.Operation.{Object}

abbrev pub Objects : Type 0 → Type 0
Objects A = List (Option (Object A))

module _ {A : Type 0} where
  -- cps_api_object_list_get: null out of range.
  unfoldable pub list_get : Objects A → ℕ → Option (Object A)
  list_get list ix = elim (get_elem? list ix) [ none ↦ none | some o ↦ o ]

  -- cps_api_object_list_set: the list grows where the position is behind its end.
  unfoldable pub list_set : Objects A → ℕ → Option (Object A) → Objects A
  list_set list ix o = set (if leb (length list) ix then resize none (ix + 1) list else list) ix o

  -- cps_api_object_list_remove: out of range, nothing.
  unfoldable pub list_remove : Objects A → ℕ → Objects A
  list_remove list ix = if leb (length list) ix then list else remove_index ix list

  -- The first loop of `_filter_list_as_needed`, for `count` positions from `from` on: what does
  -- not match becomes null.
  null_loop : (Object A → Bool) → ℕ → ℕ → Objects A → Objects A
  null_loop matches zero from results = results
  null_loop matches (suc count) from results =
      null_loop matches count (suc from) (elim (list_get results from) [
        | none ↦ results
        | some o ↦ if matches o then results else list_set results from none
      ])

  -- The second loop, for `count` entries behind `walker`: nulls are removed.
  remove_loop : ℕ → ℕ → Objects A → Objects A
  remove_loop zero walker results = results
  remove_loop (suc count) walker results = elim (list_get results walker) [
    | none ↦ remove_loop count walker (list_remove results walker)
    | some o ↦ remove_loop count (suc walker) results
  ]

  unfoldable pub filter_list_as_needed : Bool → (Object A → Bool) → Objects A → ℕ → ℕ → Objects A
  unfolding null_loop remove_loop
  filter_list_as_needed exact matches results from to =
      let nulled = null_loop matches (to - from) from results in
      if exact then remove_loop (length nulled - from) from nulled else results

-- cps_api_get_params_t
pub record GetParams (A : Type 0) : Type 0 where
  pub keys : List Key
  pub filters : List (Object A)
  pub list : Objects A

-- What answers the filter at a position: the return code and the objects that are put behind the
-- request's list; and what a filter says of itself.
pub record Source (A W : Type 0) : Type 0 where
  pub db_get : ℕ → List (Object A) → W → ℤ × Objects A × W
  pub service_get : ℕ → List (Object A) → W → ℤ × Objects A × W
  pub owned_by_service : W → Object A → Bool
  pub continue_on_failure : A → Bool
  pub exact_match : A → Bool
  pub matches : Object A → Object A → Bool
  pub no_attrs : A

-- `param->list` and, where the parameters were copied, `new_req.list`.
pub record Lists (A : Type 0) : Type 0 where
  pub caller : Objects A
  pub copy : Objects A

-- cps_api_ret_code_ERR
abbrev pub ret_err : ℤ
ret_err = pos 1

module _ {A W : Type 0} (src : Source A W) where
  unfoldable pub fetch : ℕ → Object A → List (Object A) → W → ℤ × Objects A × W
  fetch ix o filters w =
      if src.owned_by_service w o then src.service_get ix filters w else src.db_get ix filters w

  -- The new objects go behind the list of the request in use, the copy's or the caller's.
  unfoldable pub add_new : Bool → Objects A → Lists A → Lists A
  add_new copied new l =
      if copied then record l { copy = l.copy ++ new } else record l { caller = l.caller ++ new }

  -- The filter is run over the caller's list.
  unfoldable pub filter_caller : Object A → ℕ → Lists A → Lists A
  filter_caller o from l = record l {
    caller =
        filter_list_as_needed (src.exact_match o.attrs) (src.matches o) l.caller from
          (length l.caller);
  }

  -- `left` rounds from the filter at `ix` on. `none`: STD_ASSERT has failed.
  unfoldable pub get_loop :
      ℕ → ℕ → Bool → List (Object A) → ℤ → Lists A → W → Option (ℤ × Lists A × W)
  get_loop zero ix copied filters rc l w = some (rc, l, w)
  get_loop (suc left) ix copied filters rc l w = elim (get_elem? filters ix) [
    | none ↦ none
    | some o ↦
        let r = fetch ix o filters w in
        let l1 = add_new copied r.1 l in
        let l2 = filter_caller o (length l.caller) l1 in
        let rest = get_loop left (suc ix) copied filters r.0 l2 r.2 in
        if is_zero r.0 || src.continue_on_failure o.attrs then rest else some (r.0, l1, r.2)
  ]

  -- cps_api_get: the result, `param->list` and the state.
  unfoldable pub get : GetParams A → W → Option (ℤ × Objects A × W)
  get p w = elim p.keys [
    | [] ↦
        elim (get_loop (length p.filters) 0 false p.filters ret_err
          (record { caller = p.list; copy = [] }) w) [
            | none ↦ none
            | some r ↦ some (r.0, r.1.caller, r.2)
          ]
    | k ∷ ks ↦
        let filters =
          p.filters ++ map (λ key. record { key = key; attrs = src.no_attrs }) (k ∷ ks) in
        elim (get_loop (length filters) 0 true filters ret_err
          (record { caller = []; copy = p.list }) w) [
            | none ↦ none
            | some r ↦ some (r.0, r.1.copy, r.2)
          ]
  ]
