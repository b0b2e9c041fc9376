-- ===== src/Operation/Tests.antt =====
-- Witnesses for transactions, on concrete data.
use opx_cps.Common.{ℕ, ◌≡◌, Bool, false, List, [], ◌∷◌, some, ℤ}
use opx_cps.Operation.{State, Call, commit, oper_create, oper_set}
use opx_cps.Operation.Sample.{key, backend}
use opx_cps.Operation.Commit.{Outcomes, commit-Outcomes}

abbrev start : State Bool ℕ
start = record {
  transaction = record {
    change_list =
        record { key = key oper_create; attrs = false }
        ∷ record { key = key oper_set; attrs = false }
        ∷ record { key = key oper_set; attrs = false }
        ∷ [];
    prev = [];
  };
  world = 0;
}

commit-Outcomes_example :
    (rc : ℤ) × (cs : List Call) × (s : State Bool ℕ) × (commit backend start ≡ some (rc, cs, s))
    × Outcomes backend start rc cs s
commit-Outcomes_example = commit-Outcomes backend start
