-- ===== src/Request/Get.antt =====
-- cps_api_get: the objects that a caller is given.
use opx_cps.Common.{
  ℕ, zero, suc, ◌≡◌, refl, ap, sym, ◌∙◌, Bool, true, false, ◌||◌, List, [], ◌∷◌, ◌++◌, append_assoc,
  append-nil, Option, none, some, map, length, get_elem?, keep_if, if◌then◌else◌, inl, inr,
  Bool-cases, Option-cases, ℤ, is_zero,
}
use opx_cps.Key.{Key}
use opx_cps.Operation.{Object}
use opx_cps.Request.{
  Objects, GetParams, Source, Lists, ret_err, filter_list_as_needed, fetch, add_new, filter_caller,
  get_loop, get,
}
use opx_cps.Request.Filter.{accepted, filter_list_as_needed_lem}

module _ {A W : Type 0} (src : Source A W) where
  -- The objects that `left` filters from position `ix` on bring. A filter with `exact` keeps what it
  -- accepts. A filter that fails, and does not say that the request goes on, is the last one, and
  -- what it brought is kept whole.
  pub gather : (A → Bool) → ℕ → ℕ → List (Object A) → ℤ → W → Option (ℤ × Objects A × W)
  gather exact zero ix filters rc w = some (rc, [], w)
  gather exact (suc left) ix filters rc w = elim (get_elem? filters ix) [
    | none ↦ none
    | some o ↦
        let r = fetch src ix o filters w in
        let kept = if exact o.attrs then keep_if (accepted (src.matches o)) r.1 else r.1 in
        let rest = gather exact left (suc ix) filters r.0 r.2 in
        if is_zero r.0 || src.continue_on_failure o.attrs
        then (elim rest [ none ↦ none | some s ↦ some (s.0, kept ++ s.1, s.2) ])
        else some (r.0, r.1, r.2)
  ]

  abbrev pub behind : Objects A → Option (ℤ × Objects A × W) → Option (ℤ × Objects A × W)
  behind list none = none
  behind list (some s) = some (s.0, list ++ s.1, s.2)

  abbrev caller_of : Option (ℤ × Lists A × W) → Option (ℤ × Objects A × W)
  caller_of none = none
  caller_of (some r) = some (r.0, r.1.caller, r.2)

  abbrev copy_of : Option (ℤ × Lists A × W) → Option (ℤ × Objects A × W)
  copy_of none = none
  copy_of (some r) = some (r.0, r.1.copy, r.2)

  behind-append :
      (list kept : Objects A) (r : Option (ℤ × Objects A × W))
      → behind (list ++ kept) r
        ≡ behind list (elim r [ none ↦ none | some s ↦ some (s.0, kept ++ s.1, s.2) ])
  behind-append list kept none = refl
  behind-append list kept (some s) = ap (λ l. some (s.0, l, s.2)) (append_assoc list kept s.1)

  get_loop-caller :
      (left ix : ℕ) (filters : List (Object A)) (rc : ℤ) (list copy : Objects A) (w : W)
      → caller_of (get_loop src left ix false filters rc (record { caller = list; copy = copy }) w)
        ≡ behind list (gather src.exact_match left ix filters rc w)
  unfolding get_loop gather add_new filter_caller
  get_loop-caller zero ix filters rc list copy w = ap (λ l. some (rc, l, w)) (sym (append-nil list))
  get_loop-caller (suc left) ix filters rc list copy w =
      elim (Option-cases (get_elem? filters ix)) [
        | inl e ↦ rw (e, get_loop, gather)
        | inr (o, e) ↦
            let r = fetch src ix o filters w in
            let kept =
              if src.exact_match o.attrs then keep_if (accepted (src.matches o)) r.1 else r.1 in
            let filtered =
              filter_list_as_needed_lem (src.exact_match o.attrs) (src.matches o) list r.1 in
            elim (Bool-cases (is_zero r.0 || src.continue_on_failure o.attrs)) [
              | inl onward ↦
                  rw (e, get_loop, gather)
                    (rw (onward, filtered)
                      (get_loop-caller left (suc ix) filters r.0 (list ++ kept) copy r.2
                        ∙ behind-append list kept
                            (gather src.exact_match left (suc ix) filters r.0 r.2)))
              | inr ends ↦ rw (e, get_loop, gather) (rw ends)
            ]
      ]

  nothing_filtered :
      (exact : Bool) (matches : Object A → Bool) → filter_list_as_needed exact matches [] 0 0 ≡ []
  nothing_filtered true matches = filter_list_as_needed_lem true matches [] []
  nothing_filtered false matches = filter_list_as_needed_lem false matches [] []

  get_loop-copy :
      (left ix : ℕ) (filters : List (Object A)) (rc : ℤ) (list : Objects A) (w : W)
      → copy_of (get_loop src left ix true filters rc (record { caller = []; copy = list }) w)
        ≡ behind list (gather (λ _. false) left ix filters rc w)
  unfolding get_loop gather add_new filter_caller
  get_loop-copy zero ix filters rc list w = ap (λ l. some (rc, l, w)) (sym (append-nil list))
  get_loop-copy (suc left) ix filters rc list w = elim (Option-cases (get_elem? filters ix)) [
    | inl e ↦ rw (e, get_loop, gather)
    | inr (o, e) ↦
        let r = fetch src ix o filters w in
        let filtered = nothing_filtered (src.exact_match o.attrs) (src.matches o) in
        elim (Bool-cases (is_zero r.0 || src.continue_on_failure o.attrs)) [
          | inl onward ↦
              rw (e, get_loop, gather)
                (rw (onward, filtered)
                  (get_loop-copy left (suc ix) filters r.0 (list ++ r.1) r.2
                    ∙ behind-append list r.1 (gather (λ _. false) left (suc ix) filters r.0 r.2)))
          | inr ends ↦ rw (e, get_loop, gather) (rw ends)
        ]
  ]

  -- The filters of a request: its own, and an object for each key.
  abbrev pub all_filters : List (Object A) → List Key → List (Object A)
  all_filters filters keys = filters ++ map (λ key. record { key = key; attrs = src.no_attrs }) keys

  -- A request without keys leaves the caller's list with the gathered objects behind what it had,
  -- those of an exact filter only if they match.
  pub get-gather :
      (p : GetParams A) (w : W)
      → p.keys ≡ []
      → get src p w
        ≡ behind p.list (gather src.exact_match (length p.filters) 0 p.filters ret_err w)
  unfolding get
  get-gather p w e =
      rw (e, get) (get_loop-caller (length p.filters) 0 p.filters ret_err p.list [] w)

  -- A request with keys leaves it with all objects gathered: no filter is applied, not even that of
  -- an exact filter, since the filter runs over a list that has been swapped away.
  pub get-gather_keys :
      (p : GetParams A) (k : Key) (ks : List Key) (w : W)
      → p.keys ≡ k ∷ ks
      → get src p w
        ≡ behind p.list (
            gather
              (λ _. false)
              (length (all_filters p.filters (k ∷ ks)))
              0
              (all_filters p.filters (k ∷ ks))
              ret_err
              w)
  unfolding get
  get-gather_keys p k ks w e =
      rw (e, get)
        (get_loop-copy (length (all_filters p.filters (k ∷ ks))) 0 (all_filters p.filters (k ∷ ks))
          ret_err p.list w)
