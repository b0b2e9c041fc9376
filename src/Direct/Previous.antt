-- ===== src/Direct/Previous.antt =====
-- What a set finds of the object before: src/db/cps_api_db_direct.cpp.
use opx_cps.Common.{◌≡◌, refl, inl, inr, true, List, pos, is_zero, Bool-cases}
use opx_cps.Key.{elems, key_matches}
use opx_cps.Key.Compare.{Words, zero_iff, key_matches_exact}
use opx_cps.Operation.{Object, ret_ok}
use opx_cps.Direct.{Db}
use opx_cps.Direct.One.{pre_load_into_prev, pre_load_into_prev_for_set}

module _ {A W N G : Type 0} (db : Db A W N G) where
  -- Whatever the nodes answer, what a set is merged into has exactly the key of the object, if the
  -- elements of that key are 64-bit words; the result is 0.
  pub pre_load_into_prev_for_set-key :
      (nodes : List N) (obj prev : Object A) (w : W)
      → Words (elems obj.key)
      → let r = pre_load_into_prev_for_set db nodes obj prev w in
        (r.0 ≡ ret_ok) × (key_matches obj.key r.1.key true ≡ pos 0)
  unfolding pre_load_into_prev_for_set
  pre_load_into_prev_for_set-key nodes obj prev w words =
      elim (Bool-cases
        (is_zero (key_matches obj.key (pre_load_into_prev db nodes obj prev w).1.key true))) [
          | inl e ↦ rw (e, pre_load_into_prev_for_set) (refl, (zero_iff _).0 e)
          | inr e ↦
              rw (e, pre_load_into_prev_for_set)
                (refl, (key_matches_exact obj.key obj.key words words).1 refl)
        ]
