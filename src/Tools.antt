-- ===== src/Tools.antt =====
-- Tools for requests: cps_api_commit_one of src/non-core/cps_api_operation_tools.cpp. The pauses between the attempts are
-- not modelled. `none`: the fuel ran out, or an assertion of cps_api_commit failed.
pub mod Gets
mod Tests
use opx_cps.Common.{
  ◌∙◌, ℕ, zero, suc, ◌-◌, ◌<◌, ◌≡◌, refl, inl, inr, Bool, true, false, ◌||◌, List, Option, none,
  some, arith, ltb, ◌==◌, if◌then◌else◌, remove_index, ℤ, is_zero, Bool-cases,
}
use opx_cps.Request.{ret_err}
use opx_cps.Operation.{Object, State, Backend, Call, commit, transaction_init, tran_op_append}
use opx_cps.Operation.Commit.{commit-Outcomes}

module _ {A W : Type 0} (be : Backend A W) where
  retry_loop : ℕ → Bool → ℕ → ℤ → State A W → Option (ℤ × State A W)
  retry_loop zero inf retry_count rc s = none
  retry_loop (suc fuel) inf retry_count rc s =
      let tried : Option (ℤ × State A W) = elim (commit be s) [
        | none ↦ none
        | some r ↦
            let rest = retry_loop fuel inf (if inf then retry_count else retry_count - 1) r.0 r.2 in
            if is_zero r.0 then some (r.0, r.2) else rest
      ] in
      if inf || ltb 0 retry_count then tried else some (rc, s)

  -- The object is removed from the list at the end, since its owner frees it.
  pub commit_one : ℕ → ℕ → Object A → ℕ → W → Option (ℤ × State A W)
  commit_one fuel type obj retry_count w =
      let tr = tran_op_append type transaction_init obj in
      let run =
        retry_loop fuel (retry_count == 0) retry_count ret_err
          (record { transaction = tr; world = w }) in
      elim run [
        | none ↦ none
        | some (rc, s) ↦ some (
          rc,
          record s {
            transaction = record s.transaction { change_list = remove_index 0 s.change_list };
          },
        )
      ]

  -- At most `n` commits, each on the state that the last one left. All but the last have failed; the
  -- last one succeeded, or it was the `n`-th. The result is that of the last one.
  pub data Tries : ℕ → State A W → ℤ → State A W → Type 0 where
    succeeds :
        (n : ℕ) (s s' : State A W) (rc : ℤ) (cs : List Call)
        → commit be s ≡ some (rc, cs, s')
        → is_zero rc ≡ true
        → Tries (suc n) s rc s'
    gives_up :
        (s s' : State A W) (rc : ℤ) (cs : List Call)
        → commit be s ≡ some (rc, cs, s')
        → is_zero rc ≡ false
        → Tries 1 s rc s'
    again :
        (n : ℕ) (s s' s'' : State A W) (rc rc' : ℤ) (cs : List Call)
        → commit be s ≡ some (rc, cs, s')
        → is_zero rc ≡ false
        → Tries (suc n) s' rc' s''
        → Tries (suc (suc n)) s rc' s''

  retry_loop_end :
      (fuel : ℕ) (rc : ℤ) (s : State A W) → retry_loop (suc fuel) false 0 rc s ≡ some (rc, s)
  unfolding retry_loop
  retry_loop_end fuel rc s = refl

  retry_loop_success :
      (fuel n : ℕ) (rc r : ℤ) (cs : List Call) (s s' : State A W)
      → commit be s ≡ some (r, cs, s')
      → is_zero r ≡ true
      → retry_loop (suc fuel) false (suc n) rc s ≡ some (r, s')
  unfolding retry_loop
  retry_loop_success fuel n rc r cs s s' e ok =
      let more : ltb 0 (suc n) ≡ true = ground arith in
      rw (more, retry_loop) (rw (e, retry_loop) (rw ok refl))

  retry_loop_failure :
      (fuel n : ℕ) (rc r : ℤ) (cs : List Call) (s s' : State A W)
      → commit be s ≡ some (r, cs, s')
      → is_zero r ≡ false
      → retry_loop (suc fuel) false (suc n) rc s ≡ retry_loop fuel false n r s'
  unfolding retry_loop
  retry_loop_failure fuel n rc r cs s s' e bad =
      let more : ltb 0 (suc n) ≡ true = ground arith in
      let fewer : suc n - 1 ≡ n = omega arith in
      rw (more, retry_loop) (rw (e, retry_loop) (rw (bad, fewer) refl))

  retry_loop-Tries :
      (fuel n : ℕ) (rc : ℤ) (s : State A W)
      → suc n < fuel
      → (r : ℤ) × (s' : State A W) × (retry_loop fuel false (suc n) rc s ≡ some (r, s'))
        × Tries (suc n) s r s'
  retry_loop-Tries zero n rc s h = absurd (omega arith)
  retry_loop-Tries (suc zero) n rc s h = absurd (omega arith)
  retry_loop-Tries (suc (suc fuel)) zero rc s h =
      let (r, cs, s', e, _) = commit-Outcomes be s in
      elim (Bool-cases (is_zero r)) [
        | inl ok ↦
            (r, s', retry_loop_success (suc fuel) 0 rc r cs s s' e ok, succeeds 0 s s' r cs e ok)
        | inr bad ↦ (
          r,
          s',
          retry_loop_failure (suc fuel) 0 rc r cs s s' e bad ∙ retry_loop_end fuel r s',
          gives_up s s' r cs e bad,
        )
      ]
  retry_loop-Tries (suc (suc fuel)) (suc n) rc s h =
      let (r, cs, s', e, _) = commit-Outcomes be s in
      let (q, t, e', more) = retry_loop-Tries (suc fuel) n r s' (omega arith) in
      elim (Bool-cases (is_zero r)) [
        | inl ok ↦ (
          r,
          s',
          retry_loop_success (suc fuel) (suc n) rc r cs s s' e ok,
          succeeds (suc n) s s' r cs e ok,
        )
        | inr bad ↦ (
          q,
          t,
          retry_loop_failure (suc fuel) (suc n) rc r cs s s' e bad ∙ e',
          again n s s' t r q cs e bad more,
        )
      ]

  -- The transaction that is committed, and what is left of a state when the object is taken out.
  abbrev pub start : ℕ → Object A → W → State A W
  start type obj w = record { transaction = tran_op_append type transaction_init obj; world = w }

  abbrev pub without_first : State A W → State A W
  without_first s = record s {
    transaction = record s.transaction { change_list = remove_index 0 s.change_list };
  }

  commit_one_lem :
      (fuel type n : ℕ) (obj : Object A) (w : W) (rc : ℤ) (s : State A W)
      → retry_loop fuel false (suc n) ret_err (start type obj w) ≡ some (rc, s)
      → commit_one fuel type obj (suc n) w ≡ some (rc, without_first s)
  unfolding commit_one
  commit_one_lem fuel type n obj w rc s e =
      let finite : (suc n == 0) ≡ false = ground arith in
      rw (finite, commit_one) (rw (e, commit_one) refl)

  -- With a number of retries other than 0, and fuel above that number, the call returns, and no
  -- assertion fails. It makes at most that many attempts and stops at the first that succeeds; the
  -- result is that of the last attempt, and the object is no longer in the list.
  pub commit_one-Tries :
      (fuel type n : ℕ) (obj : Object A) (w : W)
      → suc n < fuel
      → (rc : ℤ) × (s : State A W) × (commit_one fuel type obj (suc n) w
          ≡ some (rc, without_first s))
        × Tries (suc n) (start type obj w) rc s
  commit_one-Tries fuel type n obj w h =
      let (rc, s, e, tries) = retry_loop-Tries fuel n ret_err (start type obj w) h in
      (rc, s, commit_one_lem fuel type n obj w rc s e, tries)
