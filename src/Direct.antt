-- ===== src/Direct.antt =====
-- Database operations: src/db/cps_api_db_direct.cpp and src/db/cps_api_db_operations.cpp.
-- `Db` is what they call: the nodes of a group (cps_api_db_get_node_group), a connection from the
-- cache (cps_db::connection_request, whose destructor is `release`), and the requests that go over a
-- connection. `N` are the addresses of nodes, `G` the names of groups, and `W` is all other state.
-- The lists of objects have no null pointers here. A return code that a call changes through a pointer is passed in and out.
-- The source reads three parameters that the library's flags set: `Retry` has them.
pub mod One
pub mod Bulk
pub mod Fetch
pub mod Operations
pub mod Attempts
pub mod Stores
pub mod Previous
pub mod Unstored
pub mod Database
mod Tests
use opx_cps.Common.{
  ℕ, zero, suc, ◌+◌, ◌≡◌, Bool, true, false, not, ◌&&◌, List, [], ◌∷◌, Option, none, some, ltb, leb,
  ◌==◌, if◌then◌else◌, ℤ, pos, is_zero,
}
use opx_cps.Operation.{Object, ret_ok}
use opx_cps.Request.{Objects, ret_err}

-- cps_api_ret_code_COMMUNICATION_ERROR, .._NO_EXIST and .._PARAM_INVALID
abbrev pub communication_error : ℤ
communication_error = pos 6

abbrev pub no_exist : ℤ
no_exist = pos 7

abbrev pub param_invalid : ℤ
param_invalid = pos 9

-- Equality of return codes, none of which is negative.
unfoldable pub is_code : ℕ → ℤ → Bool
is_code n (pos m) = m == n
is_code n (ℤ.negsuc m) = false

pub record Db (A W N G : Type 0) : Type 0 where
  pub group_of : Object A → G
  pub default_group : G
  pub node_group : G → W → Option (List N)
  pub request : N → W → Bool × W
  pub release : N → W → W
  -- The key, the return code and the object to fill.
  pub get_object : N → List ℕ → ℤ → Object A → W → Bool × ℤ × Object A × W
  pub delete_object : N → Object A → ℤ → W → Bool × ℤ × W
  pub store_object : N → Object A → W → Bool × W
  pub publish : N → Object A → W → Bool × W
  pub merge_objects : N → List (Object A) → ℤ → W → Bool × ℤ × List (Object A) × W
  pub delete_object_list : N → List (Object A) → W → Bool × W
  pub store_objects : N → List (Object A) → W → Bool × W
  -- The filter, the results so far, and the return code.
  pub get_objects : N → Object A → List (Object A) → ℤ → W → Bool × ℤ × List (Object A) × W
  pub get_object_list : N → List (Object A) → ℤ → W → Bool × ℤ × List (Object A) × W
  -- cps_db::dbkey_from_instance_key
  pub instance_key : Object A → List ℕ
  pub blank : A
  -- cps_api_object_attr_merge, into a clone of the first, with repeated attributes removed.
  pub merge : A → A → Option A
  pub continue_on_failure : A → Bool
  pub has_auto_events : W → Object A → Bool
  -- What tells of a node: whether it is the local one, its name written into an object
  -- (cps_api_key_set_node), and the object about a connection that has failed.
  pub is_local : N → Bool
  pub set_node : N → Object A → Object A
  pub conn_event_enabled : A → Bool
  pub connection_entry : N → G → Object A

-- "cps.db.ignore-comm-failure" and "cps.db.comm-failure-retry"
pub record Retry : Type 0 where
  pub ignore_communication_errors : ℕ
  pub communication_error_retry : ℕ

-- _handle_retry_request: whether an operation with this result is tried again. The pause is not
-- modelled.
unfoldable pub handle_retry_request : Retry → ℤ → ℕ → Bool
unfolding is_code
handle_retry_request p rc retry_count =
    is_code 6 rc
    && not (p.ignore_communication_errors == 0)
    && ltb retry_count p.communication_error_retry

-- The loops of cps_api_db_commit_one, cps_api_db_commit_bulk, cps_api_db_get and
-- cps_api_db_get_bulk: the result of the last attempt. `none`: the fuel ran out.
unfoldable pub retry_from : {S : Type 0} → Retry → (S → ℤ × S) → ℕ → ℕ → S → Option (ℤ × S)
retry_from p attempt zero count s = none
retry_from p attempt (suc fuel) count s =
    let r = attempt s in
    let rest = retry_from p attempt fuel (count + 1) r.1 in
    if handle_retry_request p r.0 count then rest else some r

unfoldable pub retry_request : {S : Type 0} → Retry → (S → ℤ × S) → ℕ → S → Option (ℤ × S)
retry_request p attempt fuel s = retry_from p attempt fuel 0 s
