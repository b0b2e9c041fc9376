-- ===== src/Direct/Stores/Handlers.antt =====
-- __one_handle_create and __one_handle_set of src/db/cps_api_db_direct.cpp: the result and the nodes.
use opx_cps.Common.{ℕ, ◌≡◌, refl, ◌⊎◌, inl, inr, Bool, List, none, some, Option-cases}
use opx_cps.Operation.{Object}
use opx_cps.Request.{ret_err}
use opx_cps.Direct.{Db}
use opx_cps.Direct.One.{handle_create, handle_set}
use opx_cps.Direct.Stores.{Visits, Means, Walked-Means, create_loop-Walked, set_loop-Walked}

module _ {A W N G : Type 0} (db : Db A W N G) where
  -- A creation returns 0 exactly if the walk over the nodes was not stopped and the object was
  -- stored at one of them or more; a node that cannot store it stops the walk, with a communication
  -- error, unless the object goes on after failures.
  pub handle_create-Means :
      (nodes : List N) (obj : Object A) (w : W)
      → let r = handle_create db nodes obj w in
        (k : ℕ) × (stopped : Bool) × Visits db obj
          (db.continue_on_failure obj.attrs)
          nodes
          w
          k
          stopped
          r.1
        × Means db obj (db.continue_on_failure obj.attrs) k stopped r.0
  unfolding handle_create
  handle_create-Means nodes obj w =
      Walked-Means db obj (db.continue_on_failure obj.attrs) nodes w _
        (create_loop-Walked db obj (db.continue_on_failure obj.attrs) nodes ret_err w)

  -- The same holds of a set, with the object that results from the merge; a merge that fails is an
  -- error, and nothing is asked of a node.
  pub handle_set-Means :
      (nodes : List N) (obj prev : Object A) (w : W)
      → ((db.merge prev.attrs obj.attrs ≡ none) × (handle_set db nodes obj prev w ≡ (ret_err, w)))
        ⊎ ((attrs : A) × (db.merge prev.attrs obj.attrs ≡ some attrs)
            × ((k : ℕ) × (stopped : Bool) × Visits db
                  (record prev { attrs = attrs })
                  (db.continue_on_failure obj.attrs)
                  nodes
                  w
                  k
                  stopped
                  (handle_set db nodes obj prev w).1
                × Means db
                    (record prev { attrs = attrs })
                    (db.continue_on_failure obj.attrs)
                    k
                    stopped
                    (handle_set db nodes obj prev w).0))
  unfolding handle_set
  handle_set-Means nodes obj prev w = elim (Option-cases (db.merge prev.attrs obj.attrs)) [
    | inl e ↦ inl (e, rw (e, handle_set) refl)
    | inr (attrs, e) ↦ inr (
      attrs,
      e,
      rw (e, handle_set)
          (Walked-Means db (record prev { attrs = attrs }) (db.continue_on_failure obj.attrs) nodes
            w _
            (set_loop-Walked db (record prev { attrs = attrs }) (db.continue_on_failure obj.attrs)
              nodes ret_err w)),
    )
  ]
