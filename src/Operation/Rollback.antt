-- ===== src/Operation/Rollback.antt =====
-- The second loop of cps_api_commit, the rollback.
use opx_cps.Common.{
  ℕ, zero, suc, ◌≤◌, ◌≡◌, refl, Bool, true, false, List, [], ◌∷◌, some, arith, length, get_elem?,
  get_elem?_lt, ℤ, is_zero, if◌then◌else◌,
}
use opx_cps.Operation.{Object, State, Backend, Call, rolled_back, republish, rollback_loop}

-- The roll-backs of the objects below a position, the last one first.
abbrev pub countdown : ℕ → List Call
countdown zero = []
countdown (suc ix) = rolled_back ix ∷ countdown ix

module _ {A W : Type 0} (be : Backend A W) where
  rolled-length :
      (service : Bool) (ix : ℕ) (s : State A W)
      → length (if service then be.service_rollback ix s else be.db_rollback ix s).1.change_list
        ≡ length s.change_list
  rolled-length true ix s = be.service_rollback_length ix s
  rolled-length false ix s = be.db_rollback_length ix s

  quiet :
      (rc : ℤ) (o : Object A) (ix : ℕ) (w : W)
      → is_zero rc ≡ false
      → republish be rc o ix w ≡ ([], w)
  unfolding republish
  quiet rc o ix w e = rw e

  -- The rollbacks of the objects below a position, the last one first, each by the one who owns the
  -- object, on the state that the one before has left.
  pub data Unwound : ℕ → State A W → State A W → Type 0 where
    nothing : (s : State A W) → Unwound 0 s s
    one_more :
        (ix : ℕ) (s s' : State A W) (o : Object A)
        → get_elem? s.change_list ix ≡ some o
        → Unwound ix
            (if be.owned_by_service s.world o
              then be.service_rollback ix s
              else be.db_rollback ix s).1
            s'
        → Unwound (suc ix) s s'

  -- After a failure the loop rolls back every object below its start, each once, from the last one
  -- down, and publishes nothing.
  pub rollback_loop-countdown :
      (ix : ℕ) (rc : ℤ) (s : State A W)
      → is_zero rc ≡ false
      → ix ≤ length s.change_list
      → (s' : State A W) × (rollback_loop be ix rc s ≡ some (countdown ix, s')) × Unwound ix s s'
  unfolding rollback_loop
  rollback_loop-countdown zero rc s e h = (s, refl, nothing s)
  rollback_loop-countdown (suc ix) rc s e h =
      let (o, at) = get_elem?_lt s.change_list ix (omega arith) in
      let service = be.owned_by_service s.world o in
      let r = if service then be.service_rollback ix s else be.db_rollback ix s in
      let same = rolled-length service ix s in
      let (o', at') = get_elem?_lt r.1.change_list ix (omega arith) in
      let (s', rest, undone) = rollback_loop-countdown ix rc r.1 e (omega arith) in
      (s', rw (at, at', quiet rc o' ix r.1.world e, rest) refl, one_more ix s s' o at undone)
