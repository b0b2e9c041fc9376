-- ===== src/Direct/Tests.antt =====
-- Tests and witnesses of the database operations.
use opx_cps.Common.{
  ℕ, ◌+◌, ◌%◌, ◌<◌, ◌≡◌, ◌≤◌, ◌⊎◌, refl, inl, Bool, true, false, arith, [], ◌∷◌, none, some, ltb,
  ◌==◌, if◌then◌else◌, ℤ, replicate,
}
use opx_cps.Key.{Key, elems, key_matches}
use opx_cps.Operation.{type_operation, Object, State, ret_ok}
use opx_cps.Request.{ret_err}
use opx_cps.Direct.{
  retry_from, handle_retry_request, Db, Retry, communication_error, is_code, retry_request,
}
use opx_cps.Direct.One.{
  pre_hook, handler, set_loop, publish_loop, pre_load_into_prev, load_loop, create_loop,
  handle_create, handle_set, pre_load_into_prev_for_set, db_commit_one,
}
use opx_cps.Direct.Operations.{operation_rollback}
use opx_cps.Direct.Attempts.{Tried, Over, retry_request-Over}
use opx_cps.Direct.Stores.{Visits, Means}
use opx_cps.Direct.Stores.Handlers.{handle_create-Means, handle_set-Means}
use opx_cps.Direct.Unstored.{operation_rollback-Unstored}

-- A key with the element 7.
abbrev key_of : ℕ → Key
key_of op = record { len = 1; attr = op; slots = 7 ∷ replicate 61 0 }

-- The attributes are whether to go on after a failure, and the state counts what is stored and
-- published. Node 0 cannot be reached, and node 1 stores nothing.
abbrev db : Db Bool ℕ ℕ ℕ
db = record {
  group_of = λ o. 0;
  default_group = 0;
  node_group = λ g w. if g == 0 then some (0 ∷ 1 ∷ 2 ∷ []) else none;
  request = λ n w. (ltb 0 n, w);
  release = λ n w. w;
  get_object = λ n k rc o w. (n == 2, rc, record { key = key_of 0; attrs = true }, w);
  delete_object = λ n o rc w. (true, ret_ok, w);
  store_object = λ n o w. (n == 2, if n == 2 then w + 1 else w);
  publish = λ n o w. (true, w + 10);
  merge_objects = λ n os rc w. (true, ret_ok, os, w);
  delete_object_list = λ n os w. (true, w);
  store_objects = λ n os w. (true, w + 1);
  get_objects = λ n f os rc w. (true, ret_ok, os, w);
  get_object_list = λ n os rc w. (true, ret_ok, os, w);
  instance_key = λ o. [];
  blank = false;
  merge = λ a b. if a then some b else none;
  continue_on_failure = λ a. a;
  has_auto_events = λ w o. true;
  is_local = λ n. n == 2;
  set_node = λ n o. o;
  conn_event_enabled = λ a. a;
  connection_entry = λ n g. record { key = key_of 0; attrs = false };
}

abbrev object : ℕ → Bool → Object Bool
object op go_on = record { key = key_of op; attrs = go_on }

create_test : (db_commit_one db 2 (object 2 true) (object 0 false) true 0).3 ≡ 21
unfolding db_commit_one pre_hook handler handle_create create_loop handle_set set_loop publish_loop
    pre_load_into_prev_for_set pre_load_into_prev load_loop
create_test = refl

create_stopped :
    (db_commit_one db 2 (object 2 false) (object 0 false) true 0).0 ≡ communication_error
unfolding db_commit_one pre_hook handler handle_create create_loop handle_set set_loop publish_loop
    pre_load_into_prev_for_set pre_load_into_prev load_loop
create_stopped = refl

set_test : (db_commit_one db 3 (object 3 true) (object 0 false) false 0).0 ≡ ret_ok
unfolding db_commit_one pre_hook handler handle_set set_loop publish_loop pre_load_into_prev_for_set
    pre_load_into_prev load_loop key_matches opx_cps.Key.key_array_matches is_code
    opx_cps.Key.memcmp opx_cps.Key.bytes
set_test = refl

no_group_test : (db_commit_one db 4 (object 3 true) (object 0 false) false 0).0 ≡ ret_err
unfolding db_commit_one
no_group_test = refl

abbrev retry : Retry
retry = record { ignore_communication_errors = 1; communication_error_retry = 2 }

-- Fails with a communication error until the state is 5.
abbrev attempt : ℕ → ℤ × ℕ
attempt s = (if s == 5 then ret_ok else communication_error, s + 1)

retry_test : retry_request retry attempt 3 4 ≡ some (ret_ok, 6)
unfolding retry_request retry_from handle_retry_request
retry_test = refl

retry_request-Over_example :
    (n : ℕ) × (rc : ℤ) × (s' : ℕ) × (retry_request retry attempt 3 0 ≡ some (rc, s'))
    × Tried attempt n 0 rc s'
    × (n ≤ 2)
    × ((n ≡ 0) ⊎ (0 < 1))
    × Over attempt retry n rc
retry_request-Over_example = retry_request-Over attempt retry 3 0 (omega arith)

handle_create-Means_example :
    let r = handle_create db (0 ∷ 1 ∷ 2 ∷ []) (object 2 true) 0 in
    (k : ℕ) × (stopped : Bool) × Visits db (object 2 true) true (0 ∷ 1 ∷ 2 ∷ []) 0 k stopped r.1
    × Means db (object 2 true) true k stopped r.0
handle_create-Means_example = handle_create-Means db (0 ∷ 1 ∷ 2 ∷ []) (object 2 true) 0

handle_set-Means_example :
    ((db.merge true false ≡ none)
      × (handle_set db (1 ∷ []) (object 3 false) (object 0 true) 0 ≡ (ret_err, 0)))
    ⊎ ((attrs : Bool) × (db.merge true false ≡ some attrs)
        × ((k : ℕ) × (stopped : Bool) × Visits db
              (object 0 attrs)
              false
              (1 ∷ [])
              0
              k
              stopped
              (handle_set db (1 ∷ []) (object 3 false) (object 0 true) 0).1
            × Means db
                (object 0 attrs)
                false
                k
                stopped
                (handle_set db (1 ∷ []) (object 3 false) (object 0 true) 0).0))
handle_set-Means_example = handle_set-Means db (1 ∷ []) (object 3 false) (object 0 true) 0

abbrev state : State Bool ℕ
state = record {
  transaction = record { change_list = object 1 true ∷ []; prev = object 0 true ∷ [] };
  world = 0;
}

deletion : type_operation (object 1 true) ≡ 1
unfolding type_operation
deletion = refl

-- Publications add 10 to the state, and what is stored 1.
operation_rollback-Unstored_example :
    (rc : ℤ) × (s' : State Bool ℕ) × (operation_rollback db retry (key_of 0) 3 0 state
      ≡ some (rc, s'))
    × (s'.world % 10 ≡ 0)
operation_rollback-Unstored_example =
    operation_rollback-Unstored db (λ w. w % 10 ≡ 0) retry (key_of 0) 3 0 state (object 1 true)
      (object 0 true)
      (record {
        request = λ n w p. p;
        release = λ n w p. p;
        get_object = λ n k rc o w p. p;
        delete_object = λ n o rc w p. p;
        publish = λ n o w p. omega (arith, p);
      })
      refl refl (inl deletion) (omega arith) refl
