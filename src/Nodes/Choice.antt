-- ===== src/Nodes/Choice.antt =====
-- The masters of the groups: what cps_api_set_master_node sets is what cps_api_db_get_node_group
-- finds.
use opx_cps.Common.{
  ◌≡◌, ◌⊎◌, inl, inr, refl, ap, ◌∙◌, Bool, true, false, List, [], ◌∷◌, Option, none, some, arith,
  if◌then◌else◌, Option-cases, Bool-cases, ℤ, is_zero,
}
use opx_cps.Dictionary.{same_name, look_up}
use opx_cps.Nodes.{Text, Store, DbNode, Nodes, local_ip, starts_with, contains}
use opx_cps.Nodes.Masters.{remove_slave, with_master, place_master, take_master, choose_master}
use opx_cps.Nodes.Texts.{same_iff, look_up-assign, contains-insert_text}

-- The groups with a master are those of the set.
abbrev pub Paired : Nodes → Type 0
Paired n =
    (g : Text)
    → contains g n.master_set
      ≡ (elim (look_up same_name g n.master) [ none ↦ false | some m ↦ true ])

-- The first node whose name begins with the name.
abbrev pub first_named : Text → List DbNode → Option DbNode
first_named name [] = none
first_named name (node ∷ nodes) =
    let rest = first_named name nodes in if starts_with node.name name then some node else rest

-- Whether the loop ends well: with the code 0, or with a master to go on with.
abbrev pub is_good : ℤ ⊎ Text → Bool
is_good (inl rc) = is_zero rc
is_good (inr a) = true

module _ {W : Type 0} (store : Store W) (group : Text) where
  -- Tables that differ in the masters only.
  pub record Only (n n' : Nodes) : Type 0 where
    pub groups : n'.groups ≡ n.groups
    pub instances : n'.db_node_map ≡ n.db_node_map
    pub aliases : n'.alias_map ≡ n.alias_map

  with_master-Paired : (a : Text) (n : Nodes) → Paired n → Paired (with_master store group a n)
  unfolding with_master
  with_master-Paired a n p g =
      ground
        (arith, p g, look_up-assign g group a n.master, contains-insert_text g group n.master_set)

  with_master-look_up :
      (a : Text) (n : Nodes) → look_up same_name group (with_master store group a n).master ≡ some a
  unfolding with_master
  with_master-look_up a n =
      ground (arith, look_up-assign group group a n.master, same_iff group group)

  -- What a choice leaves, if it was of this node.
  record Taken (node : DbNode) (n : Nodes) (r : (ℤ ⊎ Text) × Nodes × W) : Type 0 where
    pub paired : Paired n → Paired r.1
    pub only : Only n r.1
    pub master : is_good r.0 ≡ true → look_up same_name group r.1.master ≡ some node.addr

  place-Taken :
      (node : DbNode) (n : Nodes) (w : W) → Taken node n (place_master store group node n w)
  unfolding place_master
  place-Taken node n w = elim (Bool-cases (starts_with node.addr local_ip)) [
    | inl here ↦ rw here (record {
      paired = with_master-Paired node.addr n;
      only = unfold with_master in record { groups = refl; instances = refl; aliases = refl };
      master = λ g. with_master-look_up node.addr n;
    })
    | inr away ↦ rw away (record {
      paired = with_master-Paired node.addr n;
      only = unfold with_master in record { groups = refl; instances = refl; aliases = refl };
      master = λ g. with_master-look_up node.addr n;
    })
  ]

  take-Taken : (node : DbNode) (n : Nodes) (w : W) → Taken node n (take_master store group node n w)
  unfolding take_master
  take-Taken node n w = elim (Option-cases (look_up same_name group n.master)) [
    | inl none_yet ↦ rw (none_yet, take_master) (place-Taken node n w)
    | inr (m, found) ↦
        let unchanged : Only n n = record { groups = refl; instances = refl; aliases = refl } in
        elim (Bool-cases (same_name m node.addr)) [
          | inl same ↦
              rw (found, same, take_master)
                (record {
                  paired = λ p. p;
                  only = unchanged;
                  master = λ g. found ∙ ap some ((same_iff m node.addr).0 same);
                })
          | inr other ↦
              let freed = remove_slave store node.addr w in
              elim (Bool-cases freed.0) [
                | inl ok ↦ rw (found, other, ok, take_master) (place-Taken node n freed.1)
                | inr failed ↦
                    rw (found, other, failed, take_master)
                      (record { paired = λ p. p; only = unchanged; master = λ g. absurd (cc g) })
              ]
        ]
  ]

  pub choose_lem :
      (name : Text) (nodes : List DbNode) (n : Nodes) (w : W)
      → let r = choose_master store group name nodes n w in
        (Paired n → Paired r.1)
        × Only n r.1
        × (is_good r.0 ≡ true
            → (node : DbNode) × (first_named name nodes ≡ some node)
              × (look_up same_name group r.1.master ≡ some node.addr))
  unfolding choose_master
  choose_lem name [] n w =
      ((λ p. p), record { groups = refl; instances = refl; aliases = refl }, λ g. cc g)
  choose_lem name (node ∷ nodes) n w = elim (Bool-cases (starts_with node.name name)) [
    | inl named ↦
        let t = take-Taken node n w in
        rw (named, choose_master) (t.paired, t.only, λ g. (node, refl, t.master g))
    | inr passed ↦ rw (passed, choose_master) (choose_lem name nodes n w)
  ]
