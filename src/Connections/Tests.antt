-- ===== src/Connections/Tests.antt =====
-- Tests and witnesses of the cache of connections.
use opx_cps.Common.{ℕ, ◌+◌, ◌≡◌, refl, true, false, List, [], ◌∷◌, some, none, ◌⊎◌, ◌==◌, not}
use opx_cps.Dictionary.{look_up, same_name, assign}
use opx_cps.Connections.{Link, Limits, Pool, get, put, pop_loop, validate}
use opx_cps.Connections.Bounds.{Bounded, start, put_back, Reachable-Bounded}
use opx_cps.Connections.Checked.{Taken, Made, Drained, attempts, get-Checked}

-- Connections are numbers, of which 3 does not answer; all are due for a check.
abbrev link : Link ℕ ℕ
link = record {
  connect = λ node w. (some (w + 10), w + 1);
  addr = λ c. [];
  connection_valid = λ c w. true;
  ping = λ c w. (not (c == 3), w);
  used_within = λ c w. true;
  is_local_node = λ node. false;
}

abbrev limits : Limits
limits = record { retry_local = 2; retry_remote = 1; max_connections = 2 }

abbrev node : List ℕ
node = 1 ∷ []

abbrev pool : Pool ℕ
pool = (node, 3 ∷ 4 ∷ []) ∷ []

abbrev no_pool : Pool ℕ
no_pool = []

stale_test : (get link limits node true pool 0).0 ≡ some 4
unfolding get pop_loop validate look_up same_name
stale_test = refl

get-Checked_example :
    let r = get link limits node true pool 0 in
    ((conns : List ℕ) × (left : List ℕ) × (look_up same_name node pool ≡ some conns)
      × Taken link true conns 0 4 left r.2
      × (r.1 ≡ assign same_name node left pool))
    ⊎ ((u : ℕ) × Made link node (attempts link limits node) u 4 r.2
        × (((look_up same_name node pool ≡ none) × (u ≡ 0) × (r.1 ≡ pool))
            ⊎ ((conns : List ℕ) × (look_up same_name node pool ≡ some conns)
                × Drained link true conns 0 u
                × (r.1 ≡ assign same_name node [] pool))))
get-Checked_example = get-Checked link limits node true pool 0 4 stale_test

Reachable-Bounded_example : Bounded link 2 (put link limits node 5 no_pool 0)
Reachable-Bounded_example =
    Reachable-Bounded link limits (put link limits node 5 no_pool 0)
      (put_back no_pool node 5 0 start)
