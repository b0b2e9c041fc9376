-- ===== src/Connections/Bounds.antt =====
-- How many connections the cache keeps:
-- src/db/cps_api_db_connection_tools.cpp.
use opx_cps.Common.{
  ℕ, ◌≤◌, ◌≡◌, subst, inl, inr, Bool, not, List, [], ◌∷◌, some, arith, length, ltb, if◌then◌else◌,
  Bool-cases, Option-cases,
}
use opx_cps.Dictionary.{same_name, look_up, assign}
use opx_cps.Connections.{Link, Limits, Pool, validate, pop_loop, get, put, remove}

module _ {C W : Type 0} (link : Link C W) where
  -- No node has more connections in the pool than the limit.
  abbrev pub Bounded : ℕ → Pool C → Type 0
  Bounded m [] = Unit
  Bounded m ((name, conns) ∷ pool) = (length conns ≤ m) × Bounded m pool

  assign-Bounded :
      (m : ℕ) (name : List ℕ) (conns : List C) (pool : Pool C)
      → length conns ≤ m
      → Bounded m pool
      → Bounded m (assign same_name name conns pool)
  unfolding assign
  assign-Bounded m name conns [] le b = (le, tt)
  assign-Bounded m name conns ((other, old) ∷ pool) le b =
      elim (Bool-cases (same_name other name)) [
        | inl t ↦ rw t (le, b.1)
        | inr t ↦ rw t (b.0, assign-Bounded m name conns pool le b.1)
      ]

  look_up-Bounded :
      (m : ℕ) (name : List ℕ) (pool : Pool C) (conns : List C)
      → Bounded m pool
      → look_up same_name name pool ≡ some conns
      → length conns ≤ m
  unfolding look_up
  look_up-Bounded m name [] conns b e = cc
  look_up-Bounded m name ((other, old) ∷ pool) conns b e =
      elim (Bool-cases (same_name other name)) [
        | inl t ↦
            let same : old ≡ conns = ground (arith, t, e) in subst (λ l. length l ≤ m) same b.0
        | inr t ↦ look_up-Bounded m name pool conns b.1 (ground (arith, t, e))
      ]

  pop_loop-length :
      (check_alive : Bool) (conns : List C) (w : W)
      → length (pop_loop link check_alive conns w).1 ≤ length conns
  unfolding pop_loop
  pop_loop-length check_alive [] w = omega arith
  pop_loop-length check_alive (d ∷ ds) w =
      ground (arith, pop_loop-length check_alive ds (validate link d w).1)

  get-Bounded :
      (limits : Limits) (m : ℕ) (name : List ℕ) (check_alive : Bool) (pool : Pool C) (w : W)
      → Bounded m pool
      → Bounded m (get link limits name check_alive pool w).1
  unfolding get
  get-Bounded limits m name check_alive pool w b =
      elim (Option-cases (look_up same_name name pool)) [
        | inl f ↦ rw (f, get) b
        | inr (conns, f) ↦
            let left =
              assign-Bounded m name (pop_loop link check_alive conns w).1 pool
                (omega (
                  arith,
                  pop_loop-length check_alive conns w,
                  look_up-Bounded m name pool conns b f,
                ))
                b in
            elim (Option-cases (pop_loop link check_alive conns w).0) [
              | inl g ↦ rw (f, get) (rw (g, get) left)
              | inr (d, g) ↦ rw (f, get) (rw (g, get) left)
            ]
      ]

  put-Bounded :
      (limits : Limits) (name : List ℕ) (c : C) (pool : Pool C) (w : W)
      → Bounded limits.max_connections pool
      → Bounded limits.max_connections (put link limits name c pool w)
  unfolding put
  put-Bounded limits name c pool w b = elim (Option-cases (look_up same_name name pool)) [
    | inl f ↦ rw (f, put) (kept [] (omega arith))
    | inr (conns, f) ↦
        rw (f, put) (kept conns (look_up-Bounded limits.max_connections name pool conns b f))
  ]
    where
      kept :
          (conns : List C)
          → length conns ≤ limits.max_connections
          → Bounded limits.max_connections (
              if not (link.connection_valid c w)
              then pool
              else if ltb (length conns) limits.max_connections
              then assign same_name name (c ∷ conns) pool
              else assign same_name name conns pool)
      kept conns le = elim (Bool-cases (not (link.connection_valid c w))) [
        | inl t ↦ rw t b
        | inr t ↦ rw t (elim (Bool-cases (ltb (length conns) limits.max_connections)) [
          | inl room ↦
              rw room (assign-Bounded limits.max_connections name (c ∷ conns) pool (ground arith) b)
          | inr full ↦ rw full (assign-Bounded limits.max_connections name conns pool le b)
        ])
      ]

  remove-Bounded :
      (m : ℕ) (name : List ℕ) (pool : Pool C) → Bounded m pool → Bounded m (remove name pool)
  unfolding remove
  remove-Bounded m name [] b = tt
  remove-Bounded m name ((other, conns) ∷ pool) b = elim (Bool-cases (same_name other name)) [
    | inl t ↦ rw t b.1
    | inr t ↦ rw t (b.0, remove-Bounded m name pool b.1)
  ]

  -- The pools that come about from an empty one, whatever happens outside between the operations.
  pub data Reachable (limits : Limits) : Pool C → Type 0 where
    start : Reachable limits []
    given_out :
        (pool : Pool C) (name : List ℕ) (check_alive : Bool) (w : W)
        → Reachable limits pool
        → Reachable limits (get link limits name check_alive pool w).1
    put_back :
        (pool : Pool C) (name : List ℕ) (c : C) (w : W)
        → Reachable limits pool
        → Reachable limits (put link limits name c pool w)
    removed :
        (pool : Pool C) (name : List ℕ)
        → Reachable limits pool
        → Reachable limits (remove name pool)

  -- In every pool that comes about while the limit stays the same, no node has more connections than
  -- the limit.
  pub Reachable-Bounded :
      (limits : Limits) (pool : Pool C)
      → Reachable limits pool
      → Bounded limits.max_connections pool
  Reachable-Bounded limits pool start = tt
  Reachable-Bounded limits pool (given_out before name check_alive w r) =
      get-Bounded limits limits.max_connections name check_alive before w
        (Reachable-Bounded limits before r)
  Reachable-Bounded limits pool (put_back before name c w r) =
      put-Bounded limits name c before w (Reachable-Bounded limits before r)
  Reachable-Bounded limits pool (removed before name r) =
      remove-Bounded limits.max_connections name before (Reachable-Bounded limits before r)
