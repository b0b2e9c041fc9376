-- ===== src/Operation.antt =====
-- Transactions: src/cps_api_operation_common.cpp (cps_api_commit and what builds a transaction).
-- The components that carry a request out, for database objects
-- (cps_api_db_operation_commit, .._rollback) and for services (cps_api_process_commit_request,
-- cps_api_process_rollback_request), are the interface `Backend`, with the metadata queries and the
-- publication. `W` is all state outside the transaction.
pub mod Commit
pub mod Rollback
pub mod Sample
mod Tests
use opx_cps.Common.{
  ℕ, zero, suc, ◌+◌, ◌≡◌, Bool, true, false, not, ◌&&◌, List, [], ◌∷◌, ◌++◌, Option, none, some,
  length, get_elem?, set, ◌==◌, if◌then◌else◌, ℤ, pos, is_zero,
}
use opx_cps.Key.{Key, key_set_attr}

-- An object is its key and its attributes.
pub record Object (A : Type 0) : Type 0 where
  pub key : Key
  pub attrs : A

-- cps_api_operation_types_t
abbrev pub oper_delete : ℕ
oper_delete = 1

abbrev pub oper_create : ℕ
oper_create = 2

abbrev pub oper_set : ℕ
oper_set = 3

abbrev pub oper_action : ℕ
oper_action = 4

abbrev pub ret_ok : ℤ
ret_ok = pos 0

unfoldable pub type_operation : {A : Type 0} → Object A → ℕ
type_operation o = o.key.attr

unfoldable pub set_type_operation : {A : Type 0} → ℕ → Object A → Object A
set_type_operation op o = record o { key = record o.key { attr = op } }

-- cps_api_transaction_params_t
pub record Transaction (A : Type 0) : Type 0 where
  pub change_list : List (Object A)
  pub prev : List (Object A)

-- A transaction and the state outside it.
pub record State (A W : Type 0) : Type 0 where
  pub transaction : Transaction A
  pub open transaction use *
  pub world : W

pub transaction_init : {A : Type 0} → Transaction A
transaction_init = record { change_list = []; prev = [] }

-- cps_api_set, cps_api_create, cps_api_delete and cps_api_action, by the operation.
unfoldable pub tran_op_append : {A : Type 0} → ℕ → Transaction A → Object A → Transaction A
unfolding set_type_operation
tran_op_append op t o = record t { change_list = t.change_list ++ set_type_operation op o ∷ [] }

-- What carries out the requests for the object at a position, with its laws: a request keeps the
-- number of objects in the transaction.
pub record Backend (A W : Type 0) : Type 0 where
  pub db_commit : ℕ → State A W → ℤ × State A W
  pub service_commit : ℕ → State A W → ℤ × State A W
  pub db_rollback : ℕ → State A W → ℤ × State A W
  pub service_rollback : ℕ → State A W → ℤ × State A W
  pub owned_by_service : W → Object A → Bool
  pub has_auto_events : W → Object A → Bool
  pub continue_on_failure : A → Bool
  pub delete_failed_nodes : A → A
  pub publish : Object A → W → W
  pub db_commit_length :
      (ix : ℕ) (s : State A W) → length (db_commit ix s).1.change_list ≡ length s.change_list
  pub service_commit_length :
      (ix : ℕ) (s : State A W) → length (service_commit ix s).1.change_list ≡ length s.change_list
  pub db_rollback_length :
      (ix : ℕ) (s : State A W) → length (db_rollback ix s).1.change_list ≡ length s.change_list
  pub service_rollback_length :
      (ix : ℕ) (s : State A W) → length (service_rollback ix s).1.change_list ≡ length s.change_list

-- The calls that a commit makes, each with the position of its object. A commit says whether the
-- object is a service's and what was returned.
pub data Call : Type 0 where
  committed : ℕ → Bool → ℤ → Call
  published : ℕ → Call
  rolled_back : ℕ → Call

infixl 5 ◌>>=◌
abbrev pub ◌>>=◌ {ℓ κ} : {A : Type ℓ} {B : Type κ} → Option A → (A → Option B) → Option B
none >>= f = none
some a >>= f = f a

-- `rc`, the position where a loop stopped, the calls made, and the state.
pub record Outcome (A W : Type 0) : Type 0 where
  pub rc : ℤ
  pub ix : ℕ
  pub calls : List Call
  pub state : State A W

module _ {A W : Type 0} (be : Backend A W) where
  -- What follows the request for the object at `ix`: on failure, whether to go on; on success, the
  -- publication of a service's object. The result is `rc`, the calls, and the state.
  after_commit : ℕ → Bool → ℤ → Object A → State A W → ℤ × List Call × State A W
  after_commit ix service rc o s =
      let call = committed ix service rc in
      if is_zero rc
      then if service && be.has_auto_events s.world o && not (type_operation o == oper_action)
        then (ret_ok, call ∷ published ix ∷ [], record s { world = be.publish o s.world })
        else (ret_ok, call ∷ [], s)
      else if be.continue_on_failure o.attrs
      then (ret_ok, call ∷ [], s)
      else (rc, call ∷ [], s)

  -- One round of the first loop. `none`: there is no object at `ix`, and STD_ASSERT fails.
  pub commit_at : ℕ → State A W → Option (ℤ × List Call × State A W)
  commit_at ix s = do
    o ← get_elem? s.change_list ix
    let cleaned = record o { attrs = be.delete_failed_nodes o.attrs }
    let s1 = record s {
      transaction = record s.transaction { change_list = set s.change_list ix cleaned };
    }
    let service = be.owned_by_service s1.world cleaned
    let r = if service then be.service_commit ix s1 else be.db_commit ix s1
    o' ← get_elem? r.1.change_list ix
    some (after_commit ix service r.0 o' r.1)

  -- `left` rounds of the first loop from position `ix` on.
  pub commit_loop : ℕ → ℕ → State A W → Option (Outcome A W)
  commit_loop zero ix s = some (record { rc = ret_ok; ix = ix; calls = []; state = s })
  commit_loop (suc left) ix s = do
    r ← commit_at ix s
    let rest = commit_loop left (suc ix) r.2
    let stopped = some (record { rc = r.0; ix = ix; calls = r.1; state = r.2 })
    (if is_zero r.0
        then (rest >>= λ out. some (record out { calls = r.1 ++ out.calls }))
        else stopped)

  -- The publication of the second loop: it stands under the test that `rc` is OK.
  republish : ℤ → Object A → ℕ → W → List Call × W
  republish rc o ix w =
      let op_type = type_operation o in
      let back =
        if op_type == oper_create
        then oper_delete
        else if op_type == oper_delete
        then oper_create
        else oper_set in
      if is_zero rc && not (op_type == oper_action)
      then (published ix ∷ [], be.publish (set_type_operation back o) w)
      else ([], w)

  -- The second loop: from the position below `mx` down to the first.
  pub rollback_loop : ℕ → ℤ → State A W → Option (List Call × State A W)
  rollback_loop zero rc s = some ([], s)
  rollback_loop (suc ix) rc s = do
    o ← get_elem? s.change_list ix
    let r = if be.owned_by_service s.world o then be.service_rollback ix s else be.db_rollback ix s
    o' ← get_elem? r.1.change_list ix
    let (calls, w) = republish rc o' ix r.1.world
    (rest, s') ← rollback_loop ix rc (record r.1 { world = w })
    some (rolled_back ix ∷ calls ++ rest, s')

  -- cps_api_commit: the result, the calls made, oldest first, and the state.
  pub commit : State A W → Option (ℤ × List Call × State A W)
  commit s = do
    out ← commit_loop (length s.change_list) 0 s
    let undone = rollback_loop out.ix out.rc out.state
    (if is_zero out.rc
        then some (out.rc, out.calls, out.state)
        else (undone >>= λ r. some (out.rc, out.calls ++ r.0, r.1)))
