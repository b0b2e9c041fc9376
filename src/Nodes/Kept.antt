-- ===== src/Nodes/Kept.antt =====
-- The masters of the groups, over a loading.
use opx_cps.Common.{
  ℕ, zero, suc, ◌≡◌, refl, subst, ◌∙◌, Bool, true, false, List, [], ◌∷◌, Option, none, some, inl,
  inr, Option-cases, Bool-cases, arith, ◌==◌,
}
use opx_cps.Dictionary.{assign, same_name}
use opx_cps.Nodes.{Text, Element, GroupObject, Store, NodeData, Nodes, default_addr, gen_hash}
use opx_cps.Nodes.Load.{
  Loaded, ip_and_name, load_instance, load_address, load_element, load_elements, load_objects,
  load_new, load_groups,
}

-- The same masters.
pub record Kept (n n' : Nodes) : Type 0 where
  pub master : n'.master ≡ n.master
  pub master_set : n'.master_set ≡ n.master_set

unaltered : (n : Nodes) → Kept n n
unaltered n = record { master = refl; master_set = refl }

both : (n m o : Nodes) → Kept n m → Kept m o → Kept n o
both n m o a b = record { master = b.master ∙ a.master; master_set = b.master_set ∙ a.master_set }

-- What holds of an answer, if there is one.
abbrev Holds : {A : Type 0} → (A → Type 0) → Option A → Type 0
Holds P none = Unit
Holds P (some a) = P a

Holds-weaker :
    {A : Type 0}
    → {P Q : A → Type 0} → ((a : A) → P a → Q a)
    → (o : Option A) → Holds P o
    → Holds Q o
Holds-weaker f none h = tt
Holds-weaker f (some a) h = f a h

module _ {W : Type 0} (store : Store W) (group : Text) where
  instance-Kept :
      (ip name : Text) (s : Loaded W) → Kept s.nodes (load_instance store group ip name s).1.nodes
  unfolding load_instance
  instance-Kept ip name s = record { master = ground arith; master_set = ground arith }

  address-Kept : (ip : Text) (s : Loaded W) → Kept s.nodes (load_address store group ip s).nodes
  unfolding load_address
  address-Kept ip s = record { master = ground arith; master_set = ground arith }

  element-Kept :
      (ip name : Text) (s : Loaded W) → Kept s.nodes (load_element store group ip name s).1.nodes
  unfolding load_element
  element-Kept ip name s =
      let named = record s {
        nodes = record s.nodes {
          ip_to_name_map = assign same_name ip name s.nodes.ip_to_name_map;
          alias_map = assign same_name name ip s.nodes.alias_map;
        };
      } in
      let i = load_instance store group ip name named in
      let renamed : Kept s.nodes named.nodes = record { master = refl; master_set = refl } in
      let k = both s.nodes named.nodes i.1.nodes renamed (instance-Kept ip name named) in
      elim (Bool-cases (s.data_of.type == store.global)) [
        | inl redundant ↦ elim (Bool-cases i.0) [
          | inl done ↦
              rw (redundant, done, load_element)
                (both s.nodes i.1.nodes (load_address store group ip i.1).nodes k
                  (address-Kept ip i.1))
          | inr failed ↦ rw (redundant, failed, load_element) k
        ]
        | inr plain ↦
            rw (plain, load_element)
              (both s.nodes named.nodes (load_address store group ip named).nodes renamed
                (address-Kept ip named))
      ]

  elements-Kept :
      (fuel : ℕ) (es : List Element) (s : Loaded W)
      → Holds (λ r. Kept s.nodes r.1.nodes) (load_elements store group fuel es s)
  unfolding load_elements
  elements-Kept zero es s = tt
  elements-Kept (suc fuel) [] s = unaltered s.nodes
  elements-Kept (suc fuel) (e ∷ es) s = elim (Option-cases (ip_and_name e)) [
    | inl c ↦ rw (c, load_elements) (elements-Kept fuel (e ∷ es) s)
    | inr ((ip, name), c) ↦
        let r = load_element store group ip name s in
        let k = element-Kept ip name s in
        elim (Bool-cases r.0) [
          | inl done ↦
              rw (c, done, load_elements)
                (Holds-weaker (λ t. both s.nodes r.1.nodes t.1.nodes k)
                  (load_elements store group fuel es r.1) (elements-Kept fuel es r.1))
          | inr failed ↦ rw (c, failed, load_elements) k
        ]
  ]

module _ {W : Type 0} (store : Store W) where
  objects-Kept :
      (fuel : ℕ) (os : List GroupObject) (cpy : List (Text × NodeData)) (n : Nodes) (w : W)
      → Holds (λ r. Kept n r.2) (load_objects store fuel os cpy n w)
  unfolding load_objects
  objects-Kept fuel [] cpy n w = unaltered n
  objects-Kept fuel (o ∷ os) cpy n w = elim (Option-cases o.type) [
    | inl untyped ↦ rw (untyped, load_objects) (unaltered n)
    | inr (type, typed) ↦
        let nd : NodeData = record { addrs = []; type = type } in
        elim (Option-cases o.nodes) [
          | inl empty ↦
              rw (typed, empty, load_objects)
                (objects-Kept fuel os (assign same_name o.name nd cpy) n w)
          | inr (es, listed) ↦
              let s : Loaded W = record { nodes = n; data_of = nd; instances = []; world = w } in
              elim (Option-cases (load_elements store o.name fuel es s)) [
                | inl endless ↦ rw (typed, listed, endless, load_objects) tt
                | inr ((done, t), ended) ↦
                    let k : Kept n t.nodes =
                      subst (Holds (λ r. Kept n r.1.nodes)) ended
                        (elements-Kept store o.name fuel es s) in
                    elim (Bool-cases done) [
                      | inl well ↦
                          rw (typed, listed, ended, well, load_objects)
                            (Holds-weaker (λ r. both n t.nodes r.2 k)
                              (load_objects store fuel os (assign same_name o.name t.data_of cpy)
                                t.nodes t.world)
                              (objects-Kept fuel os (assign same_name o.name t.data_of cpy) t.nodes
                                t.world))
                      | inr badly ↦ rw (typed, listed, ended, badly, load_objects) k
                    ]
              ]
        ]
  ]

  load_new-Kept :
      (done : Bool) (cpy : List (Text × NodeData)) (n : Nodes)
      → Kept n (load_new store done cpy n).1
  unfolding load_new
  load_new-Kept false cpy n = unaltered n
  load_new-Kept true cpy n = elim (Bool-cases (gen_hash store cpy 0 == n.hash)) [
    | inl old ↦ rw old (unaltered n)
    | inr new ↦ rw new (record { master = refl; master_set = refl })
  ]

  groups-Kept :
      (fuel : ℕ) (n : Nodes) (w : W) → Holds (λ r. Kept n r.1) (load_groups store fuel n w)
  unfolding load_groups
  groups-Kept fuel n w =
      let r = store.request default_addr w in
      let g = store.get_groups r.1 in
      let cleared = record n { ip_to_name_map = [] } in
      elim (Bool-cases store.metadata_loaded) [
        | inr missing ↦ rw (missing, load_groups) (unaltered n)
        | inl known ↦ elim (Bool-cases r.0) [
          | inr invalid ↦ rw (known, invalid, load_groups) (unaltered n)
          | inl valid ↦ elim (Option-cases g.0) [
            | inl unread ↦ rw (known, valid, unread, load_groups) (unaltered n)
            | inr (os, got) ↦ elim (Option-cases (load_objects store fuel os [] cleared g.1)) [
              | inl endless ↦ rw (known, valid, got, endless, load_groups) tt
              | inr ((done, cpy, m, v), ended) ↦
                  let k : Kept n m =
                    both n cleared m (record { master = refl; master_set = refl })
                      (subst (Holds (λ x. Kept cleared x.2)) ended
                        (objects-Kept fuel os [] cleared g.1)) in
                  rw (known, valid, got, ended, load_groups)
                    (both n m (load_new store done cpy m).1 k (load_new-Kept done cpy m))
            ]
          ]
        ]
      ]

  -- A loading of the groups changes no master.
  pub load_groups-Kept :
      (fuel : ℕ) (n m : Nodes) (w v : W) (new : Bool)
      → load_groups store fuel n w ≡ some (new, m, v)
      → Kept n m
  load_groups-Kept fuel n m w v new e = subst (Holds (λ r. Kept n r.1)) e (groups-Kept fuel n w)
