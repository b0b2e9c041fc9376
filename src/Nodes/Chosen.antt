-- ===== src/Nodes/Chosen.antt =====
-- What the calls leave of the masters.
use opx_cps.Common.{
  ℕ, ◌≡◌, refl, sym, ap, subst, ◌∙◌, Bool, true, List, [], ◌∷◌, some, arith, ◌==◌, Option-cases,
  Bool-cases, inl, inr, ℤ, is_zero, ◌⊎◌,
}
use opx_cps.Client.{ret_err}
use opx_cps.Dictionary.{same_name, look_up}
use opx_cps.Nodes.{
  Text, Store, DbNode, Nodes, get_group_type, group_exists, is_master_set, contains,
}
use opx_cps.Nodes.Load.{load_groups}
use opx_cps.Nodes.Masters.{
  State, erase_entry, erase_text, load_if_expired, node_group_of, choose_master, set_master_of,
}
use opx_cps.Nodes.Texts.{look_up-erase_entry, contains-erase_text}
use opx_cps.Nodes.Kept.{Kept, load_groups-Kept}
use opx_cps.Nodes.Choice.{Paired, first_named, is_good, choose_lem}

same_number : (a b : ℕ) → (a == b) ≡ true → a ≡ b
same_number a b e = ground (arith, e)

type_groups :
    (g : Text) (m n : Nodes) → m.groups ≡ n.groups → get_group_type g m ≡ get_group_type g n
unfolding get_group_type
type_groups g m n e = rw e refl

pub erase-Paired :
    (g : Text) (n : Nodes)
    → Paired n
    → Paired (record n {
      master = erase_entry g n.master;
      db_node_map = erase_entry g n.db_node_map;
      master_set = erase_text g n.master_set;
    })
erase-Paired g n p k =
    ground (arith, p k, look_up-erase_entry k g n.master, contains-erase_text k g n.master_set)

module _ {W : Type 0} (store : Store W) where
  Kept-Paired : (n m : Nodes) → Kept n m → Paired n → Paired m
  Kept-Paired n m k p g = rw (k.master, k.master_set) (p g)

  pub load-Paired :
      (fuel : ℕ) (s t : State W) (new : Bool)
      → load_if_expired store fuel s ≡ some (new, t)
      → Paired s.nodes
      → Paired t.nodes
  unfolding load_if_expired
  load-Paired fuel s t new e p = elim (Bool-cases (store.expired s.last_loaded s.world)) [
    | inr fresh ↦
        let same : t ≡ s = ground (arith, e, fresh) in subst (λ x. Paired x.nodes) (sym same) p
    | inl old ↦ elim (Option-cases (load_groups store fuel s.nodes s.world)) [
      | inl endless ↦ absurd (ground (arith, e, old, endless))
      | inr ((is_new, n, w), loaded) ↦
          let same : n ≡ t.nodes = ground (arith, e, old, loaded) in
          subst Paired same (
            Kept-Paired s.nodes n (load_groups-Kept store fuel s.nodes n s.world w is_new loaded) p)
    ]
  ]

  -- What setting a master leaves.
  pub record Chosen (group name : Text) (n : Nodes) (r : ℤ × Nodes × W) : Type 0 where
    pub paired : Paired n → Paired r.1
    pub good :
        is_zero r.0 ≡ true
        → (nodes : List DbNode) × (node : DbNode) × (look_up same_name group r.1.db_node_map
            ≡ some nodes)
          × (first_named name nodes ≡ some node)
          × (look_up same_name group r.1.master ≡ some node.addr)
          × (get_group_type group r.1 ≡ some store.global)

  Ending-cases : (x : ℤ ⊎ Text) → ((rc : ℤ) × (x ≡ inl rc)) ⊎ ((a : Text) × (x ≡ inr a))
  Ending-cases (inl rc) = inl (rc, refl)
  Ending-cases (inr a) = inr (a, refl)

  unset : (group name : Text) (n : Nodes) (w : W) → Chosen group name n (ret_err, n, w)
  unset group name n w = record { paired = λ p. p; good = λ g. absurd (cc g) }

  pub set_master_of-Chosen :
      (group name : Text) (n : Nodes) (w : W)
      → Chosen group name n (set_master_of store group name n w)
  unfolding set_master_of
  set_master_of-Chosen group name n w = elim (Option-cases (get_group_type group n)) [
    | inl unknown ↦ rw (unknown, set_master_of) (unset group name n w)
    | inr (type, typed) ↦ elim (Bool-cases (type == store.global)) [
      | inr plain ↦ rw (typed, plain, set_master_of) (unset group name n w)
      | inl redundant ↦ elim (Option-cases (look_up same_name group n.db_node_map)) [
        | inl nowhere ↦ rw (typed, redundant, nowhere, set_master_of) (unset group name n w)
        | inr (nodes, found) ↦
            let c = choose_master store group name nodes n w in
            let (kept_paired, only, g) = choose_lem store group name nodes n w in
            let good : is_good c.0 ≡ true
                → (nodes : List DbNode) × (node : DbNode) × (look_up same_name group c.1.db_node_map
                    ≡ some nodes)
                  × (first_named name nodes ≡ some node)
                  × (look_up same_name group c.1.master ≡ some node.addr)
                  × (get_group_type group c.1 ≡ some store.global) =
              λ h.
                let (node, first, stored) = g h in
                (
                  nodes,
                  node,
                  ap (look_up same_name group) only.instances ∙ found,
                  first,
                  stored,
                  type_groups group c.1 n only.groups
                      ∙ typed
                      ∙ ap some (same_number type store.global redundant),
                ) in
            elim (Ending-cases c.0) [
              | inl (rc, ended) ↦
                  rw (typed, redundant, found, ended, set_master_of)
                    (record { paired = kept_paired; good = λ h. good (ap is_good ended ∙ h) })
              | inr (a, ended) ↦
                  rw (typed, redundant, found, ended, set_master_of)
                    (record { paired = kept_paired; good = λ h. good (ap is_good ended) })
            ]
      ]
    ]
  ]

  pub found_again :
      (group a : Text) (n : Nodes)
      → Paired n
      → look_up same_name group n.master ≡ some a
      → get_group_type group n ≡ some store.global
      → node_group_of store group n ≡ some (a ∷ [])
  unfolding node_group_of group_exists get_group_type is_master_set
  found_again group a n p stored typed = elim (Option-cases (look_up same_name group n.groups)) [
    | inl gone ↦ absurd (ground (arith, typed, gone))
    | inr (d, found) ↦
        let global : d.type ≡ store.global = ground (arith, typed, found) in
        let paired : contains group n.master_set ≡ true = ground (arith, p group, stored) in
        rw (node_group_of, group_exists, get_group_type, is_master_set, found)
          (ground (arith, global, paired, stored))
  ]
