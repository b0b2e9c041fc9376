-- ===== src/Tools/Tests.antt =====
-- Witnesses for the tools, on concrete data.
use opx_cps.Common.{true, ◌+◌, refl, inr, [], ◌==◌, if◌then◌else◌, ℕ, ◌≡◌, Bool, false, some, arith}
use opx_cps.Operation.{ret_ok, Object}
use opx_cps.Operation.Sample.{key}
use opx_cps.Request.{Source, ret_err, get, get_loop, fetch, add_new, filter_caller}
use opx_cps.Tools.Gets.{attempt, get_objs, Recovers, succeeds, fails, get_objs-Recovers}

abbrev object : Object Bool
object = record { key = key 0; attrs = false }

abbrev filter : Object ℕ
filter = record { key = key 0; attrs = 0 }

-- The state counts the requests; the first fails, and the second finds nothing.
abbrev source : Source ℕ ℕ
source = record {
  db_get = λ ix filters w. (if w == 0 then ret_err else ret_ok, [], w + 1);
  service_get = λ ix filters w. (ret_err, [], w);
  owned_by_service = λ w o. false;
  continue_on_failure = λ a. false;
  exact_match = λ a. false;
  matches = λ o p. true;
  no_attrs = 0;
}

second_try : Recovers source filter 1 ([], 0) ([], 2)
unfolding attempt get get_loop fetch add_new filter_caller opx_cps.Request.filter_list_as_needed
second_try = fails 0 ([], 0) ([], 2) [] 1 ret_err refl refl (succeeds ([], 1) [] 2 ret_ok refl refl)

get_objs-Recovers_example : get_objs source filter 2 [] 2 0 ≡ some (ret_ok, [], 2)
get_objs-Recovers_example =
    get_objs-Recovers source filter 2 2 1 [] 0 ([], 2) second_try (inr (omega arith)) (omega arith)
