-- ===== src/Nodes/Loading.antt =====
-- The loop over the nodes of a group, in cps_api_nodes::load_groups.
use opx_cps.Common.{
  ℕ, zero, suc, ◌+◌, ◌<◌, ◌≡◌, ◌⊎◌, inl, inr, refl, sym, ap, ◌∙◌, true, false, List, [], ◌∷◌, ◌++◌,
  Option, none, some, arith, length, length-append, ◌==◌, if◌then◌else◌, Option-cases,
}
use opx_cps.Dictionary.{same_name, assign}
use opx_cps.Nodes.{Text, Element, Store, addr, ip_to_name}
use opx_cps.Nodes.Load.{Loaded, ip_and_name, load_address, load_element, load_elements}
use opx_cps.Nodes.Texts.{look_up-assign}

-- Every element has an address and a name; some element has not.
abbrev pub AllComplete : List Element → Type 0
AllComplete [] = Unit
AllComplete (e ∷ es) = ((p : Text × Text) × (ip_and_name e ≡ some p)) × AllComplete es

abbrev pub Incomplete : List Element → Type 0
Incomplete [] = ⊥
Incomplete (e ∷ es) = (ip_and_name e ≡ none) ⊎ Incomplete es

complete-cases : (es : List Element) → Incomplete es ⊎ AllComplete es
complete-cases [] = inr tt
complete-cases (e ∷ es) = elim (Option-cases (ip_and_name e)) [
  | inl lacking ↦ inl (inl lacking)
  | inr found ↦ elim (complete-cases es) [
    | inl later ↦ inl (inr later)
    | inr all ↦ inr (found, all)
  ]
]

-- The name of the last element with the address.
abbrev pub last_name : Text → List Element → Option Text
last_name ip [] = none
last_name ip (e ∷ es) = elim (last_name ip es) [
  | some name ↦ some name
  | none ↦ elim (ip_and_name e) [
    | none ↦ none
    | some p ↦ if same_name p.0 ip then some p.1 else none
  ]
]

module _ {W : Type 0} (store : Store W) (group : Text) where
  -- What an element adds to a group without redundancy.
  record Added (ip name : Text) (s t : Loaded W) : Type 0 where
    pub done : load_element store group ip name s ≡ (true, t)
    pub type : t.data_of.type ≡ s.data_of.type
    pub instances : t.instances ≡ s.instances
    pub addrs : length t.data_of.addrs ≡ length s.data_of.addrs + 1
    pub names : t.nodes.ip_to_name_map ≡ assign same_name ip name s.nodes.ip_to_name_map
    pub groups : t.nodes.groups ≡ s.nodes.groups
    pub master : t.nodes.master ≡ s.nodes.master

  -- The state after an element with an address and a name.
  abbrev shown : Text → Loaded W → Text
  shown ip s = elim (addr ip s.nodes) [ none ↦ ip | some alias ↦ alias ]

  abbrev with_address : Text → Loaded W → Loaded W
  with_address ip s = record s {
    data_of = record s.data_of { addrs = s.data_of.addrs ++ shown ip s ∷ [] };
  }

  abbrev with_names : Text → Text → Loaded W → Loaded W
  with_names ip name s = record s {
    nodes = record s.nodes {
      ip_to_name_map = assign same_name ip name s.nodes.ip_to_name_map;
      alias_map = assign same_name name ip s.nodes.alias_map;
    };
  }

  load_address_lem :
      (ip : Text) (s : Loaded W)
      → s.instances ≡ []
      → load_address store group ip s ≡ with_address ip s
  unfolding load_address
  load_address_lem ip s empty =
      let e : s ≡ record s { instances = [] } = λ i. record s { instances = empty i } in
      ap (load_address store group ip) e ∙ sym (ap (with_address ip) e)

  load_element-Added :
      (ip name : Text) (s : Loaded W)
      → (s.data_of.type == store.global) ≡ false
      → s.instances ≡ []
      → Added ip name s (with_address ip (with_names ip name s))
  unfolding load_element
  load_element-Added ip name s nodal empty = record {
    done = rw nodal (λ i. (true, load_address_lem ip (with_names ip name s) empty i));
    type = refl;
    instances = refl;
    addrs = length-append s.data_of.addrs _;
    names = refl;
    groups = refl;
    master = refl;
  }

  stuck :
      (fuel : ℕ) (es : List Element) (s : Loaded W)
      → (s.data_of.type == store.global) ≡ false
      → s.instances ≡ []
      → Incomplete es
      → load_elements store group fuel es s ≡ none
  unfolding load_elements
  stuck zero es s nodal empty h = refl
  stuck (suc fuel) [] s nodal empty h = elim h [ ]
  stuck (suc fuel) (e ∷ es) s nodal empty h = elim (Option-cases (ip_and_name e)) [
    | inl c ↦ rw (c, load_elements) (stuck fuel (e ∷ es) s nodal empty (inl c))
    | inr ((ip, name), c) ↦
        let a = load_element-Added ip name s nodal empty in
        let later : Incomplete es = elim h [ inl miss ↦ absurd (cc (miss, c)) | inr rest ↦ rest ] in
        rw (c, load_elements)
          (rw a.done (stuck fuel es (with_address ip (with_names ip name s)) nodal empty later))
  ]

  -- What the loop leaves.
  record Ended (es : List Element) (s t : Loaded W) (fuel : ℕ) : Type 0 where
    pub ended : load_elements store group fuel es s ≡ some (true, t)
    pub addrs : length t.data_of.addrs ≡ length s.data_of.addrs + length es
    pub names :
        (ip : Text)
        → ip_to_name ip t.nodes
          ≡ (elim (last_name ip es) [ none ↦ ip_to_name ip s.nodes | some name ↦ some name ])
    pub groups : t.nodes.groups ≡ s.nodes.groups
    pub master : t.nodes.master ≡ s.nodes.master

  step_name :
      (ip at name : Text) (e : Element) (es : List Element) (before after : Option Text)
      → ip_and_name e ≡ some (at, name)
      → after ≡ (if same_name at ip then some name else before)
      → (elim (last_name ip es) [ none ↦ after | some n ↦ some n ])
        ≡ (elim (last_name ip (e ∷ es)) [ none ↦ before | some n ↦ some n ])
  step_name ip at name e es before after c a = ground (arith, c, a)

  ends :
      (fuel : ℕ) (es : List Element) (s : Loaded W)
      → (s.data_of.type == store.global) ≡ false
      → s.instances ≡ []
      → AllComplete es
      → length es < fuel
      → (t : Loaded W) × Ended es s t fuel
  unfolding load_elements ip_to_name
  ends zero es s nodal empty all f = absurd (omega arith)
  ends (suc fuel) [] s nodal empty all f = (
    s,
    record { ended = refl; addrs = omega arith; names = λ ip. refl; groups = refl; master = refl },
  )
  ends (suc fuel) (e ∷ es) s nodal empty (((ip, name), c), all) f =
      let a = load_element-Added ip name s nodal empty in
      let u = with_address ip (with_names ip name s) in
      let (t, r) = ends fuel es u nodal empty all (omega arith) in
      (
        t,
        record {
          ended = rw (c, load_elements) (rw a.done (r.ended));
          addrs = omega (arith, r.addrs, a.addrs);
          names = λ k.
              r.names k
              ∙ step_name k ip name e es (ip_to_name k s.nodes) (ip_to_name k u.nodes) c
                  (look_up-assign k ip name s.nodes.ip_to_name_map);
          groups = r.groups;
          master = r.master;
        },
      )

  -- For a group without redundancy, with fuel above the number of its elements: if some element lacks
  -- the address or the name, the loop does not end; otherwise it does, it adds one address for each
  -- element, an address is then known by the name of its last element, or by the old one, and
  -- neither groups nor masters change.
  pub load_elements-Ends :
      (es : List Element) (s : Loaded W) (fuel : ℕ)
      → (s.data_of.type == store.global) ≡ false
      → s.instances ≡ []
      → length es < fuel
      → (Incomplete es × (load_elements store group fuel es s ≡ none))
        ⊎ (AllComplete es
            × ((t : Loaded W) × (load_elements store group fuel es s ≡ some (true, t))
                × (length t.data_of.addrs ≡ length s.data_of.addrs + length es)
                × ((ip : Text)
                    → ip_to_name ip t.nodes ≡ (elim (last_name ip es) [
                      | none ↦ ip_to_name ip s.nodes
                      | some name ↦ some name
                    ]))
                × (t.nodes.groups ≡ s.nodes.groups)
                × (t.nodes.master ≡ s.nodes.master)))
  load_elements-Ends es s fuel nodal empty f = elim (complete-cases es) [
    | inl lacking ↦ inl (lacking, stuck fuel es s nodal empty lacking)
    | inr all ↦
        let (t, r) = ends fuel es s nodal empty all f in
        inr (all, (t, r.ended, r.addrs, r.names, r.groups, r.master))
  ]
