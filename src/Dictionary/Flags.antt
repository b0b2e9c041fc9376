-- ===== src/Dictionary/Flags.antt =====
-- The library's flags: src/metadata/cps_dictionary.cpp, from cps_api_add_flag_set_handler to
-- cps_api_set_library_flags. `W` is what the handlers change. A handler reads the flags as they are
-- when it is called; that it sets flags itself is not modelled, nor that memory runs out.
use opx_cps.Common.{
  ℕ, ◌≡◌, ◌≢◌, refl, ap, ◌∙◌, Bool, true, false, List, [], ◌∷◌, ◌++◌, Option, none, some,
  if◌then◌else◌, ◌==◌, length, ℤ, arith,
}
use opx_cps.Operation.{ret_ok}
use opx_cps.Dictionary.{same_name, look_up, assign}
use opx_cps.Dictionary.Maps.{look_up-assign_self, same_name_refl}

abbrev pub Params : Type 0
Params = List (List ℕ × List ℕ)

abbrev pub Handler : Type 0 → Type 0
Handler W = Params → List ℕ → W → W

pub record Flags (W : Type 0) : Type 0 where
  pub params : Params
  pub handlers : List (Handler W)
  pub handler_map : List (List ℕ × List (Handler W))

-- cps_api_get_library_flag_value: the empty string for a flag that is not set.
unfoldable pub flag_value : List ℕ → Params → List ℕ
flag_value flag ps = elim (look_up same_name flag ps) [ none ↦ [] | some v ↦ v ]

module _ {W : Type 0} where
  -- `(*_parameter_handler_map)[what]`
  unfoldable pub specific : List ℕ → Flags W → List (Handler W)
  specific what s = elim (look_up same_name what s.handler_map) [ none ↦ [] | some l ↦ l ]

  -- cps_api_add_flag_set_handler; without a flag the handler is for all of them.
  unfoldable pub add_flag_set_handler : Option (List ℕ) → Handler W → Flags W → Flags W
  add_flag_set_handler none h s = record s { handlers = s.handlers ++ h ∷ [] }
  add_flag_set_handler (some what) h s = record s {
    handler_map = assign same_name what (specific what s ++ h ∷ []) s.handler_map;
  }

  unfoldable pub run : List (Handler W) → Params → List ℕ → W → W
  run [] ps param w = w
  run (h ∷ hs) ps param w = run hs ps param (h ps param w)

  -- __trigger_param_callback. The look-up enters an empty list for a flag that has no handlers.
  unfoldable pub trigger : List ℕ → Flags W → W → Flags W × W
  trigger param s w = (
    record s { handler_map = assign same_name param (specific param s) s.handler_map },
    run s.handlers s.params param (run (specific param s) s.params param w),
  )

  -- cps_api_get_library_flags; `val` is what the caller's buffer holds, and `safestrncpy` copies into
  -- it as much as it has room for.
  unfoldable pub get_library_flags :
      (List ℕ → ℕ → List ℕ) → List ℕ → List ℕ → ℕ → Flags W → Bool × List ℕ
  get_library_flags safestrncpy flag val val_size s = elim (look_up same_name val s.params) [
    | none ↦ (false, val)
    | some v ↦ (true, safestrncpy v val_size)
  ]

  -- cps_api_set_library_flags; a null value leaves the flag as it is.
  unfoldable pub set_library_flags : List ℕ → Option (List ℕ) → Flags W → W → ℤ × Flags W × W
  set_library_flags flag val s w =
      let s' : Flags W = elim val [
        | none ↦ s
        | some v ↦ record s { params = assign same_name flag v s.params }
      ] in
      let t = trigger flag s' w in (ret_ok, t.0, t.1)

  -- cps_api_update_ssize_on_param_change; `put` sets the caller's variable to what strtol reads.
  unfoldable pub ssize_handler : (List ℕ → W → W) → Handler W
  ssize_handler put ps param w = let v = flag_value param ps in if length v == 0 then w else put v w

  unfoldable pub update_ssize_on_param_change :
      List ℕ → (List ℕ → W → W) → Flags W → W → Flags W × W
  update_ssize_on_param_change param put s w =
      let s' = add_flag_set_handler (some param) (ssize_handler put) s in
      if length (flag_value param s.params) == 0 then (s', w) else trigger param s' w

  run-append :
      (xs ys : List (Handler W)) (ps : Params) (param : List ℕ) (w : W)
      → run (xs ++ ys) ps param w ≡ run ys ps param (run xs ps param w)
  unfolding run
  run-append [] ys ps param w = refl
  run-append (x ∷ xs) ys ps param w = run-append xs ys ps param (x ps param w)

  puts :
      (flag val : List ℕ) (put : List ℕ → W → W) (ps : Params) (w : W)
      → look_up same_name flag ps ≡ some val
      → val ≢ []
      → run (ssize_handler put ∷ []) ps flag w ≡ put val w
  unfolding run ssize_handler flag_value
  puts flag [] put ps w h ne = absurd (ne refl)
  puts flag (x ∷ val) put ps w h ne = rw (h, flag_value) (rw (positive x val) refl)
    where
      positive : (y : ℕ) (ys : List ℕ) → (length (y ∷ ys) == 0) ≡ false
      positive y ys = ground arith

  -- A variable that follows a flag: after it is registered, and a value that is not empty is set, the
  -- flag has the value, and the variable is set from it, after the other handlers of the flag and
  -- before those for all flags.
  pub set_library_flags-put :
      (flag val : List ℕ) (put : List ℕ → W → W) (s : Flags W) (w : W)
      → val ≢ []
      → let s1 = add_flag_set_handler (some flag) (ssize_handler put) s in
        let r = set_library_flags flag (some val) s1 w in
        let ps = r.1.params in
        (flag_value flag ps ≡ val)
        × (r.2 ≡ run s.handlers ps flag (put val (run (specific flag s) ps flag w)))
  unfolding set_library_flags add_flag_set_handler trigger specific flag_value
  set_library_flags-put flag val put s w ne =
      let ps : Params = assign same_name flag val s.params in
      let here : look_up same_name flag ps ≡ some val =
        look_up-assign_self same_name flag val s.params (same_name_refl flag) in
      let own : specific flag (add_flag_set_handler (some flag) (ssize_handler put) s)
          ≡ specific flag s ++ ssize_handler put ∷ [] =
        rw
          (
            look_up-assign_self same_name flag (specific flag s ++ ssize_handler put ∷ [])
                s.handler_map (same_name_refl flag),
            specific,
          )
          refl in
      (
        rw (here, flag_value) refl,
        ap (λ l. run s.handlers ps flag (run l ps flag w)) own
            ∙ ap (run s.handlers ps flag) (
                run-append (specific flag s) (ssize_handler put ∷ []) ps flag w
                ∙ puts flag val put ps (run (specific flag s) ps flag w) here ne),
      )
