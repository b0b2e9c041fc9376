-- ===== src/Tools/Gets.antt =====
-- cps_api_get_objs of src/non-core/cps_api_operation_tools.cpp: a get request that is made again until
-- it succeeds. `none`: the fuel ran out, or a request is undefined.
use opx_cps.Common.{
  ℕ, zero, suc, ◌-◌, ◌<◌, ◌≡◌, refl, ap, ◌∙◌, ◌⊎◌, inl, inr, Bool, true, false, ◌||◌, [], ◌∷◌,
  Option, none, some, arith, ltb, ◌==◌, if◌then◌else◌, ℤ, is_zero,
}
use opx_cps.Key.Compare.{zero_iff}
use opx_cps.Operation.{Object, ret_ok}
use opx_cps.Request.{Objects, Source, get}

module _ {A W : Type 0} (src : Source A W) (filt : Object A) where
  -- One request with a clone of the filter, whose list is the caller's: the results of an attempt
  -- that has failed stay there.
  unfoldable pub attempt : Objects A × W → Option (ℤ × Objects A × W)
  attempt s = get src (record { keys = []; filters = filt ∷ []; list = s.0 }) s.1

  unfoldable pub get_objs_loop : ℕ → Bool → ℕ → ℤ → Objects A × W → Option (ℤ × Objects A × W)
  unfolding attempt
  get_objs_loop zero inf retry_count rc s = none
  get_objs_loop (suc fuel) inf retry_count rc s =
      let tried : Option (ℤ × Objects A × W) = elim (attempt s) [
        | none ↦ none
        | some r ↦
            let rest =
              get_objs_loop fuel inf (if inf then retry_count else retry_count - 1) r.0
                (r.1, r.2) in
            if is_zero r.0 then some r else rest
      ] in
      if inf || ltb 0 retry_count then tried else some (rc, s.0, s.1)

  -- cps_api_get_objs; without a number of attempts there is no end to them.
  unfoldable pub get_objs : ℕ → Objects A → ℕ → W → Option (ℤ × Objects A × W)
  unfolding get_objs_loop
  get_objs fuel obj_list retry_count w =
      get_objs_loop fuel (retry_count == 0) retry_count ret_ok (obj_list, w)

  -- `k` attempts that fail, each on what the last one left, and then one that succeeds.
  pub data Recovers : ℕ → Objects A × W → Objects A × W → Type 0 where
    succeeds :
        (s : Objects A × W) (l : Objects A) (w : W) (rc : ℤ)
        → attempt s ≡ some (rc, l, w)
        → is_zero rc ≡ true
        → Recovers 0 s (l, w)
    fails :
        (k : ℕ) (s s' : Objects A × W) (l : Objects A) (w : W) (rc : ℤ)
        → attempt s ≡ some (rc, l, w)
        → is_zero rc ≡ false
        → Recovers k (l, w) s'
        → Recovers (suc k) s s'

  loop_success :
      (fuel count : ℕ) (inf : Bool) (rc r : ℤ) (s : Objects A × W) (l : Objects A) (w : W)
      → (inf || ltb 0 count) ≡ true
      → attempt s ≡ some (r, l, w)
      → is_zero r ≡ true
      → get_objs_loop (suc fuel) inf count rc s ≡ some (r, l, w)
  unfolding get_objs_loop
  loop_success fuel count inf rc r s l w more e ok =
      rw (more, get_objs_loop) (rw (e, get_objs_loop) (rw (ok, get_objs_loop) refl))

  loop_failure :
      (fuel count : ℕ) (inf : Bool) (rc r : ℤ) (s : Objects A × W) (l : Objects A) (w : W)
      → (inf || ltb 0 count) ≡ true
      → attempt s ≡ some (r, l, w)
      → is_zero r ≡ false
      → get_objs_loop (suc fuel) inf count rc s
        ≡ get_objs_loop fuel inf (if inf then count else count - 1) r (l, w)
  unfolding get_objs_loop
  loop_failure fuel count inf rc r s l w more e bad =
      rw (more, get_objs_loop) (rw (e, get_objs_loop) (rw (bad, get_objs_loop) refl))

  -- There are attempts left: no end of them, or more than `k`.
  Enough : Bool → ℕ → ℕ → Type 0
  Enough inf count k = (inf ≡ true) ⊎ ((inf ≡ false) × (k < count))

  more_left : (inf : Bool) (count k : ℕ) → Enough inf count k → (inf || ltb 0 count) ≡ true
  unfolding Enough
  more_left inf count k (inl e) = rw e refl
  more_left inf count k (inr (e, lt)) = rw e (ground arith)

  fewer_left :
      (inf : Bool) (count k : ℕ)
      → Enough inf count (suc k)
      → Enough inf (if inf then count else count - 1) k
  unfolding Enough
  fewer_left inf count k (inl e) = inl e
  fewer_left inf count k (inr (e, lt)) = rw e (inr (refl, omega arith))

  loop-Recovers :
      (fuel count k : ℕ) (inf : Bool) (rc : ℤ) (s s' : Objects A × W)
      → Recovers k s s'
      → Enough inf count k
      → k < fuel
      → get_objs_loop fuel inf count rc s ≡ some (ret_ok, s'.0, s'.1)
  loop-Recovers zero count k inf rc s s' r h lt = absurd (omega arith)
  loop-Recovers (suc fuel) count k inf rc s s' (succeeds s0 l w r e ok) h lt =
      loop_success fuel count inf rc r s l w (more_left inf count 0 h) e ok
      ∙ ap (λ z. some (z, l, w)) ((zero_iff r).0 ok)
  loop-Recovers (suc fuel) count k inf rc s s' (fails m s0 s1 l w r e bad more) h lt =
      loop_failure fuel count inf rc r s l w (more_left inf count (suc m) h) e bad
      ∙ loop-Recovers fuel (if inf then count else count - 1) m inf r (l, w) s' more
          (fewer_left inf count m h) (omega arith)

  -- If an attempt succeeds after `k` that fail, and the caller asks for more than `k` attempts, or for
  -- attempts without an end, then the call returns 0, with what that attempt has left; fuel above `k`
  -- is enough.
  pub get_objs-Recovers :
      (fuel retry_count k : ℕ) (obj_list : Objects A) (w : W) (s' : Objects A × W)
      → Recovers k (obj_list, w) s'
      → (retry_count ≡ 0) ⊎ (k < retry_count)
      → k < fuel
      → get_objs fuel obj_list retry_count w ≡ some (ret_ok, s'.0, s'.1)
  unfolding get_objs Enough
  get_objs-Recovers fuel retry_count k obj_list w s' r h lt =
      loop-Recovers fuel retry_count k (retry_count == 0) ret_ok (obj_list, w) s' r
        (elim h [ inl z ↦ inl (ground arith) | inr more ↦ inr (ground arith, more) ]) lt
