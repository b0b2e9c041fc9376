-- ===== src/Connections/Checked.antt =====
-- What the cache of connections gives out:
-- src/db/cps_api_db_connection_tools.cpp.
use opx_cps.Common.{
  ℕ, zero, suc, ◌≡◌, refl, ◌⊎◌, subst, inl, inr, Bool, true, false, List, [], ◌∷◌, Option, none,
  some, Bool-cases, Option-cases, arith, ap, if◌then◌else◌,
}
use opx_cps.Dictionary.{same_name, look_up, assign}
use opx_cps.Connections.{
  Link, Limits, Pool, validate, countdown, create_validated_connection, pop_loop, get,
}

module _ {C W : Type 0} (link : Link C W) where
  -- The connection that is taken from those that the cache has, those left, and the outside after
  -- it. Nobody asked for a check, or none was due at that moment, or the connection passed it at that
  -- moment; each one before it failed its check.
  pub data Taken (check_alive : Bool) : List C → W → C → List C → W → Type 0 where
    unasked :
        (c : C) (cs : List C) (w : W) → check_alive ≡ false → Taken check_alive (c ∷ cs) w c cs w
    not_due :
        (c : C) (cs : List C) (w : W)
        → link.used_within c w ≡ false
        → Taken check_alive (c ∷ cs) w c cs w
    passed :
        (c : C) (cs : List C) (w : W)
        → link.used_within c w ≡ true
        → (validate link c w).0 ≡ true
        → Taken check_alive (c ∷ cs) w c cs (validate link c w).1
    past :
        (d c : C) (cs left : List C) (w v : W)
        → check_alive ≡ true
        → link.used_within d w ≡ true
        → (validate link d w).0 ≡ false
        → Taken check_alive cs (validate link d w).1 c left v
        → Taken check_alive (d ∷ cs) w c left v

  -- All connections that the cache had have failed their checks.
  pub data Drained (check_alive : Bool) : List C → W → W → Type 0 where
    empty : (w : W) → Drained check_alive [] w w
    failed :
        (d : C) (cs : List C) (w v : W)
        → check_alive ≡ true
        → link.used_within d w ≡ true
        → (validate link d w).0 ≡ false
        → Drained check_alive cs (validate link d w).1 v
        → Drained check_alive (d ∷ cs) w v

  -- A new connection within a number of attempts: it passed its check right after it was made, and
  -- each attempt before it made none, or one that failed.
  pub data Made (node : List ℕ) : ℕ → W → C → W → Type 0 where
    good :
        (n : ℕ) (w : W) (c : C)
        → (link.connect node w).0 ≡ some c
        → (validate link c (link.connect node w).1).0 ≡ true
        → Made node (suc n) w c (validate link c (link.connect node w).1).1
    unmade :
        (n : ℕ) (w : W) (c : C) (v : W)
        → (link.connect node w).0 ≡ none
        → Made node n (link.connect node w).1 c v
        → Made node (suc n) w c v
    bad :
        (n : ℕ) (w : W) (d c : C) (v : W)
        → (link.connect node w).0 ≡ some d
        → (validate link d (link.connect node w).1).0 ≡ false
        → Made node n (validate link d (link.connect node w).1).1 c v
        → Made node (suc n) w c v

  countdown-Made :
      (n : ℕ) (node : List ℕ) (w : W) (c : C)
      → (countdown link n node w).0 ≡ some c
      → Made node n w c (countdown link n node w).1
  unfolding countdown
  countdown-Made zero node w c e = cc
  countdown-Made (suc n) node w c e = elim (Option-cases (link.connect node w).0) [
    | inl f ↦
        rw (f, countdown)
          (unmade n w c _ f
            (countdown-Made n node (link.connect node w).1 c (ground (arith, f, e))))
    | inr (d, f) ↦ elim (Bool-cases (validate link d (link.connect node w).1).0) [
      | inl ok ↦
          let same : d ≡ c = ground (arith, f, ok, e) in
          subst (λ z. Made node (suc n) w z (countdown link (suc n) node w).1) same
            (rw (f, ok, countdown) (good n w d f ok))
      | inr no_good ↦
          rw (f, no_good, countdown)
            (bad n w d c _ f no_good (
              countdown-Made n node (validate link d (link.connect node w).1).1 c
                (ground (arith, f, no_good, e))))
    ]
  ]

  -- What the loop over the cached connections leaves.
  abbrev Popped : Bool → List C → W → Option C × List C × W → Type 0
  Popped check_alive conns w r =
      ((c : C) × (r.0 ≡ some c) × Taken check_alive conns w c r.1 r.2)
      ⊎ ((r.0 ≡ none) × (r.1 ≡ []) × Drained check_alive conns w r.2)

  pop_loop-Popped :
      (check_alive : Bool) (conns : List C) (w : W)
      → Popped check_alive conns w (pop_loop link check_alive conns w)
  unfolding pop_loop
  pop_loop-Popped check_alive [] w = inr (refl, refl, empty w)
  pop_loop-Popped false (d ∷ ds) w = inl (d, refl, unasked d ds w refl)
  pop_loop-Popped true (d ∷ ds) w = elim (Bool-cases (link.used_within d w)) [
    | inr early ↦ rw (early, pop_loop) (inl (d, refl, not_due d ds w early))
    | inl due ↦ elim (Bool-cases (validate link d w).0) [
      | inl ok ↦ rw (due, ok, pop_loop) (inl (d, refl, passed d ds w due ok))
      | inr no_good ↦
          rw (due, no_good, pop_loop)
            (elim (pop_loop-Popped true ds (validate link d w).1) [
              | inl (c, e, t) ↦ inl (c, e, past d c ds _ w _ refl due no_good t)
              | inr (e, left, t) ↦ inr (e, left, failed d ds w _ refl due no_good t)
            ])
    ]
  ]

  -- The attempts for a node.
  abbrev pub attempts : Limits → List ℕ → ℕ
  attempts limits name = if link.is_local_node name then limits.retry_local else limits.retry_remote

  -- A connection that the cache gives out is one that it had for the node, or a new one. One that it
  -- had is taken out; a check was not asked for, or not due for it, or it passed it, and all before
  -- it had failed theirs and are taken out too. A new one has passed its check right after it was
  -- made, also where nobody asked, within the attempts for the node; then the cache had none for
  -- the node, or all of them failed their checks and are taken out.
  pub get-Checked :
      (limits : Limits) (name : List ℕ) (check_alive : Bool) (pool : Pool C) (w : W) (c : C)
      → let r = get link limits name check_alive pool w in
        r.0 ≡ some c
        → ((conns : List C) × (left : List C) × (look_up same_name name pool ≡ some conns)
            × Taken check_alive conns w c left r.2
            × (r.1 ≡ assign same_name name left pool))
          ⊎ ((u : W) × Made name (attempts limits name) u c r.2
              × (((look_up same_name name pool ≡ none) × (u ≡ w) × (r.1 ≡ pool))
                  ⊎ ((conns : List C) × (look_up same_name name pool ≡ some conns)
                      × Drained check_alive conns w u
                      × (r.1 ≡ assign same_name name [] pool))))
  unfolding get create_validated_connection
  get-Checked limits name check_alive pool w c e =
      elim (Option-cases (look_up same_name name pool)) [
        | inl f ↦
            let made = countdown-Made (attempts limits name) name w c (ground (arith, f, e)) in
            rw (f, get) (inr (w, made, inl (refl, refl, refl)))
        | inr (conns, f) ↦ elim (pop_loop-Popped check_alive conns w) [
          | inl (d, g, t) ↦
              let left = pop_loop link check_alive conns w in
              let same : d ≡ c = ground (arith, f, g, e) in
              rw (f, get)
                (rw (g, get)
                  (inl (
                    conns,
                    left.1,
                    refl,
                    subst (λ z. Taken check_alive conns w z left.1 left.2) same t,
                    refl,
                  )))
          | inr (g, nothing, t) ↦
              let u = (pop_loop link check_alive conns w).2 in
              let made = countdown-Made (attempts limits name) name u c (ground (arith, f, g, e)) in
              rw (f, get)
                (rw (g, get)
                  (inr (
                    u,
                    made,
                    inr (conns, refl, t, ap (λ l. assign same_name name l pool) nothing),
                  )))
        ]
      ]
