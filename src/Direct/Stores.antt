-- ===== src/Direct/Stores.antt =====
-- Writing an object to the nodes of a group: a walk over the nodes, and what its result says.
pub mod Handlers
use opx_cps.Common.{
  ℕ, zero, suc, ◌≤◌, ◌<◌, ◌≡◌, ◌≢◌, refl, sym, ap, ◌∙◌, ◌⊎◌, inl, inr, Bool, true, false, List, [],
  ◌∷◌, Option, none, some, arith, if◌then◌else◌, ℤ, pos, is_zero, Bool-cases, Option-cases,
}
use opx_cps.Key.Compare.{zero_iff}
use opx_cps.Operation.{Object, ret_ok}
use opx_cps.Request.{ret_err}
use opx_cps.Direct.{Db, communication_error}
use opx_cps.Direct.One.{create_loop, handle_create, set_loop, handle_set}

if_true {ℓ} :
    {R : Type 0} (P : R → Type ℓ) (b : Bool) (x y : R) → b ≡ true → P x → P (if b then x else y)
if_true P b x y e p = rw e p

if_false {ℓ} :
    {R : Type 0} (P : R → Type ℓ) (b : Bool) (x y : R) → b ≡ false → P y → P (if b then x else y)
if_false P b x y e p = rw e p

module _ {A W N G : Type 0} (db : Db A W N G) (obj : Object A) (go_on : Bool) where
  -- A walk over nodes that ends in the last state, and stores the object at `k` of them. It is
  -- stopped by a node that cannot store it, unless the request goes on.
  pub data Visits : List N → W → ℕ → Bool → W → Type 0 where
    done : (w : W) → Visits [] w 0 false w
    unreachable :
        (n : N) (nodes : List N) (w w' : W) (k : ℕ) (stopped : Bool)
        → (db.request n w).0 ≡ false
        → Visits nodes (db.request n w).1 k stopped w'
        → Visits (n ∷ nodes) w k stopped w'
    stored :
        (n : N) (nodes : List N) (w w' : W) (k : ℕ) (stopped : Bool)
        → (db.request n w).0 ≡ true
        → (db.store_object n obj (db.request n w).1).0 ≡ true
        → Visits nodes (db.release n (db.store_object n obj (db.request n w).1).1) k stopped w'
        → Visits (n ∷ nodes) w (suc k) stopped w'
    passed_over :
        (n : N) (nodes : List N) (w w' : W) (k : ℕ) (stopped : Bool)
        → (db.request n w).0 ≡ true
        → (db.store_object n obj (db.request n w).1).0 ≡ false
        → go_on ≡ true
        → Visits nodes (db.release n (db.store_object n obj (db.request n w).1).1) k stopped w'
        → Visits (n ∷ nodes) w k stopped w'
    stops :
        (n : N) (nodes : List N) (w : W)
        → (db.request n w).0 ≡ true
        → (db.store_object n obj (db.request n w).1).0 ≡ false
        → go_on ≡ false
        → Visits (n ∷ nodes) w 0 true (db.release n (db.store_object n obj (db.request n w).1).1)

  -- What a result means: a communication error if the walk was stopped; else 0 if the object was
  -- stored somewhere, and an error if not.
  abbrev pub Means : ℕ → Bool → ℤ → Type 0
  Means k stopped rc =
      ((stopped ≡ true) × (rc ≡ communication_error))
      ⊎ ((stopped ≡ false) × (0 < k) × (rc ≡ ret_ok))
      ⊎ ((stopped ≡ false) × (k ≡ 0) × (rc ≢ ret_ok))

  abbrev pub Walked : List N → W → ℤ → ℤ × W → Type 0
  Walked nodes w rc r =
      (k : ℕ) × (stopped : Bool) × Visits nodes w k stopped r.1
      × (((stopped ≡ true) × (r.0 ≡ communication_error))
          ⊎ ((stopped ≡ false) × ((0 < k) ⊎ (rc ≡ ret_ok)) × (r.0 ≡ ret_ok))
          ⊎ ((stopped ≡ false) × (k ≡ 0) × (rc ≢ ret_ok) × (r.0 ≢ ret_ok)))

  ok_iff : (rc : ℤ) → ((is_zero rc ≡ true) × (rc ≡ ret_ok)) ⊎ ((is_zero rc ≡ false) × (rc ≢ ret_ok))
  ok_iff rc = elim (Bool-cases (is_zero rc)) [
    | inl e ↦ inl (e, (zero_iff rc).0 e)
    | inr e ↦ inr (e, λ q. cc (e, (zero_iff rc).1 q))
  ]

  not_ok : communication_error ≢ ret_ok
  not_ok e = ground arith

  -- What a code becomes at a node that has no connection.
  abbrev worse : ℤ → ℤ
  worse rc = if is_zero rc then rc else communication_error

  worse_back : (rc : ℤ) (k : ℕ) → (0 < k) ⊎ (worse rc ≡ ret_ok) → (0 < k) ⊎ (rc ≡ ret_ok)
  worse_back rc k (inl p) = inl p
  worse_back rc k (inr e) = elim (ok_iff rc) [
    | inl (z, ok) ↦ inr ok
    | inr (z, bad) ↦ absurd (not_ok (sym (rw z refl) ∙ e))
  ]

  worse_ne : (rc : ℤ) → worse rc ≢ ret_ok → rc ≢ ret_ok
  worse_ne rc ne = elim (ok_iff rc) [ inl (z, ok) ↦ absurd (ne (rw z ok)) | inr (z, bad) ↦ bad ]

  -- A walk behind a node where nothing was stored.
  weaken :
      (nodes : List N) (w : W) (rc : ℤ) (r : ℤ × W)
      → Walked nodes w (worse rc) r
      → Walked nodes w rc r
  weaken nodes w rc r (k, stopped, v, inl both) = (k, stopped, v, inl both)
  weaken nodes w rc r (k, stopped, v, inr (inl (st, some_stored, ok))) =
      (k, stopped, v, inr (inl (st, worse_back rc k some_stored, ok)))
  weaken nodes w rc r (k, stopped, v, inr (inr (st, z, before, after))) =
      (k, stopped, v, inr (inr (st, z, worse_ne rc before, after)))

  skip_node :
      (n : N) (nodes : List N) (w : W) (rc : ℤ) (r : ℤ × W)
      → (db.request n w).0 ≡ false
      → Walked nodes (db.request n w).1 rc r
      → Walked (n ∷ nodes) w rc r
  skip_node n nodes w rc r e (k, stopped, v, m) =
      (k, stopped, unreachable n nodes w r.1 k stopped e v, m)

  store_node :
      (n : N) (nodes : List N) (w : W) (rc : ℤ) (r : ℤ × W)
      → (db.request n w).0 ≡ true
      → (db.store_object n obj (db.request n w).1).0 ≡ true
      → Walked nodes (db.release n (db.store_object n obj (db.request n w).1).1) ret_ok r
      → Walked (n ∷ nodes) w rc r
  store_node n nodes w rc r e f (k, stopped, v, m) = (
    suc k,
    stopped,
    stored n nodes w r.1 k stopped e f v,
    elim m [
      | inl both ↦ inl both
      | inr other ↦ elim other [
        | inl (st, some_stored, ok) ↦ inr (inl (st, inl (omega arith), ok))
        | inr (st, z, before, after) ↦ absurd (before refl)
      ]
    ],
  )

  pass_node :
      (n : N) (nodes : List N) (w : W) (rc : ℤ) (r : ℤ × W)
      → (db.request n w).0 ≡ true
      → (db.store_object n obj (db.request n w).1).0 ≡ false
      → go_on ≡ true
      → Walked nodes (db.release n (db.store_object n obj (db.request n w).1).1) rc r
      → Walked (n ∷ nodes) w rc r
  pass_node n nodes w rc r e f g (k, stopped, v, m) =
      (k, stopped, passed_over n nodes w r.1 k stopped e f g v, m)

  stop_node :
      (n : N) (nodes : List N) (w : W) (rc : ℤ)
      → (db.request n w).0 ≡ true
      → (db.store_object n obj (db.request n w).1).0 ≡ false
      → go_on ≡ false
      → Walked
          (n ∷ nodes)
          w
          rc
          (communication_error, db.release n (db.store_object n obj (db.request n w).1).1)
  stop_node n nodes w rc e f g = (0, true, stops n nodes w e f g, inl (refl, refl))

  no_node : (w : W) (rc : ℤ) → Walked [] w rc (rc, w)
  no_node w rc = (
    0,
    false,
    done w,
    elim (ok_iff rc) [
      | inl (z, ok) ↦ inr (inl (refl, inr ok, ok))
      | inr (z, bad) ↦ inr (inr (refl, refl, bad, bad))
    ],
  )

  pub create_loop-Walked :
      (nodes : List N) (rc : ℤ) (w : W) → Walked nodes w rc (create_loop db go_on obj nodes rc w)
  unfolding create_loop
  create_loop-Walked [] rc w = no_node w rc
  create_loop-Walked (n ∷ nodes) rc w = elim (Bool-cases (db.request n w).0) [
    | inr off ↦
        rw (off, create_loop)
          (skip_node n nodes w rc _ off (
            weaken nodes (db.request n w).1 rc _
              (create_loop-Walked nodes (worse rc) (db.request n w).1)))
    | inl on ↦ elim (Bool-cases (db.store_object n obj (db.request n w).1).0) [
      | inl kept ↦
          rw (on, create_loop)
            (rw (kept, create_loop)
              (store_node n nodes w rc _ on kept (
                create_loop-Walked nodes ret_ok
                  (db.release n (db.store_object n obj (db.request n w).1).1))))
      | inr lost ↦
          rw (on, create_loop)
            (rw (lost, create_loop)
              (elim (Bool-cases go_on) [
                | inl goes ↦ if_true (Walked (n ∷ nodes) w rc) go_on _ _ goes (
                    pass_node n nodes w rc _ on lost goes (
                      create_loop-Walked nodes rc
                        (db.release n (db.store_object n obj (db.request n w).1).1)))
                | inr stays ↦
                    if_false (Walked (n ∷ nodes) w rc) go_on _ _ stays
                      (stop_node n nodes w rc on lost stays)
              ]))
    ]
  ]

  pub set_loop-Walked :
      (nodes : List N) (rc : ℤ) (w : W) → Walked nodes w rc (set_loop db go_on obj nodes rc w)
  unfolding set_loop
  set_loop-Walked [] rc w = no_node w rc
  set_loop-Walked (n ∷ nodes) rc w = elim (Bool-cases (db.request n w).0) [
    | inr off ↦
        rw (off, set_loop)
          (skip_node n nodes w rc _ off (
            weaken nodes (db.request n w).1 rc _
              (set_loop-Walked nodes (worse rc) (db.request n w).1)))
    | inl on ↦ elim (Bool-cases (db.store_object n obj (db.request n w).1).0) [
      | inl kept ↦
          rw (on, set_loop)
            (rw (kept, set_loop)
              (store_node n nodes w rc _ on kept (
                set_loop-Walked nodes ret_ok
                  (db.release n (db.store_object n obj (db.request n w).1).1))))
      | inr lost ↦
          rw (on, set_loop)
            (rw (lost, set_loop)
              (elim (Bool-cases go_on) [
                | inl goes ↦ if_true (Walked (n ∷ nodes) w rc) go_on _ _ goes (
                    pass_node n nodes w rc _ on lost goes (
                      weaken nodes (db.release n (db.store_object n obj (db.request n w).1).1) rc _
                        (set_loop-Walked nodes (worse rc)
                          (db.release n (db.store_object n obj (db.request n w).1).1))))
                | inr stays ↦
                    if_false (Walked (n ∷ nodes) w rc) go_on _ _ stays
                      (stop_node n nodes w rc on lost stays)
              ]))
    ]
  ]

  pub Walked-Means :
      (nodes : List N) (w : W) (r : ℤ × W)
      → Walked nodes w ret_err r
      → (k : ℕ) × (stopped : Bool) × Visits nodes w k stopped r.1 × Means k stopped r.0
  Walked-Means nodes w r (k, stopped, v, inl both) = (k, stopped, v, inl both)
  Walked-Means nodes w r (k, stopped, v, inr (inl (st, inl some_stored, ok))) =
      (k, stopped, v, inr (inl (st, some_stored, ok)))
  Walked-Means nodes w r (k, stopped, v, inr (inl (st, inr e, ok))) = absurd (ground arith)
  Walked-Means nodes w r (k, stopped, v, inr (inr (st, z, before, after))) =
      (k, stopped, v, inr (inr (st, z, after)))
