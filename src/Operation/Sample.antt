-- ===== src/Operation/Sample.antt =====
-- A concrete `Backend`, for tests.
use opx_cps.Common.{ℕ, ◌+◌, refl, Bool, true, replicate, ◌==◌, if◌then◌else◌, pos}
use opx_cps.Key.{Key}
use opx_cps.Operation.{Backend, oper_create, ret_ok}

abbrev pub key : ℕ → Key
key op = record { len = 0; attr = op; slots = replicate 62 0 }

-- The attributes are whether to go on after a failure; the outside counts publications. The object
-- at position 2 cannot be set.
abbrev pub backend : Backend Bool ℕ
backend = record {
  db_commit = λ ix s. (if ix == 2 then pos 1 else ret_ok, s);
  service_commit = λ ix s. (ret_ok, s);
  db_rollback = λ ix s. (ret_ok, s);
  service_rollback = λ ix s. (ret_ok, s);
  owned_by_service = λ w o. o.key.attr == oper_create;
  has_auto_events = λ w o. true;
  continue_on_failure = λ a. a;
  delete_failed_nodes = λ a. a;
  publish = λ o w. w + 1;
  db_commit_length = λ ix s. refl;
  service_commit_length = λ ix s. refl;
  db_rollback_length = λ ix s. refl;
  service_rollback_length = λ ix s. refl;
}
