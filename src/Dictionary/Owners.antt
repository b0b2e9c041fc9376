-- ===== src/Dictionary/Owners.antt =====
-- Who owns objects and whether their events are automatic: cps_api_obj_get_ownership_type,
-- cps_api_obj_has_auto_events and what sets them, of src/metadata/cps_dictionary.cpp.
use opx_cps.Common.{
  ◌≢◌, ℕ, ◌≡◌, refl, ap, ◌∙◌, sym, inl, inr, Bool, true, false, List, [], ◌∷◌, none, some,
  if◌then◌else◌, Bool-cases, Option-cases,
}
use opx_cps.Key.{Key, elems}
use opx_cps.Key.Compare.{Words}
use opx_cps.KeyCache.{Cache, same, insert, find_entry, find}
use opx_cps.KeyCache.Buckets.{same_iff, CacheOk, head?}
use opx_cps.KeyCache.Laws.{values, values-insert, find_entry-values, find-values}
use opx_cps.KeyCache.At.{at, change_in, head_changed, values-change_in}

-- _key_characteristics; the owner is a CPS_API_OBJECT_OWNER_TYPE_t.
pub record Characteristics : Type 0 where
  pub owner_type : ℕ
  pub automated_event : Bool

-- `service` is CPS_API_OBJECT_SERVICE. The exact search gives the data at the place that `at` gives.
module _ (std_hash : ℕ → ℕ) (service : ℕ) where
  abbrev pub plain : Characteristics
  plain = record { owner_type = service; automated_event = false }

  unfoldable pub get_ownership_type : Key → Cache Characteristics → ℕ
  unfolding find
  get_ownership_type key c = elim (find std_hash key true c) [
    | none ↦ service
    | some p ↦ p.owner_type
  ]

  unfoldable pub has_auto_events : Key → Cache Characteristics → Bool
  unfolding find
  has_auto_events key c = elim (find std_hash key true c) [
    | none ↦ false
    | some p ↦ p.automated_event
  ]

  unfoldable pub set_ownership_type : Key → ℕ → Cache Characteristics → Cache Characteristics
  unfolding at
  set_ownership_type key type c = elim (at std_hash key true c) [
    | none ↦ insert std_hash key (record plain { owner_type = type }) true c
    | some p ↦ change_in p (λ s. record s { owner_type = type }) c
  ]

  unfoldable pub set_auto_event : Key → Bool → Cache Characteristics → Cache Characteristics
  unfolding at
  set_auto_event key automated_events c = elim (at std_hash key true c) [
    | none ↦ insert std_hash key (record plain { automated_event = automated_events }) true c
    | some p ↦ change_in p (λ s. record s { automated_event = automated_events }) c
  ]

  -- The characteristics that count for a key.
  abbrev pub first_of : List Characteristics → Characteristics
  first_of [] = plain
  first_of (s ∷ ss) = s

  abbrev pub of_key : List ℕ → Cache Characteristics → Characteristics
  of_key k c = first_of (values std_hash k c)

  -- A setter that inserts `f plain` for a new key and applies `f` at an old one.
  set_with :
      (Characteristics → Characteristics) → Key → Cache Characteristics → Cache Characteristics
  set_with f key c = elim (at std_hash key true c) [
    | none ↦ insert std_hash key (f plain) true c
    | some p ↦ change_in p f c
  ]

  first-changed :
      (f : Characteristics → Characteristics) (l : List Characteristics)
      → l ≢ []
      → first_of (head_changed f l) ≡ f (first_of l)
  first-changed f [] ne = absurd (ne refl)
  first-changed f (s ∷ l) ne = refl

  no_values :
      (k : List ℕ) (c : Cache Characteristics)
      → find_entry std_hash k c ≡ none
      → values std_hash k c ≡ []
  no_values k c e = elim (find_entry-values std_hash k c) [
    | inl both ↦ both.1
    | inr (p, q, ne) ↦ absurd (cc (e, q))
  ]

  present_values :
      (k : List ℕ) (c : Cache Characteristics) (p : ℕ × ℕ)
      → find_entry std_hash k c ≡ some p
      → values std_hash k c ≢ []
  present_values k c p e = elim (find_entry-values std_hash k c) [
    | inl both ↦ absurd (cc (e, both.0))
    | inr (p', q, ne) ↦ ne
  ]

  set_with_lem :
      (f : Characteristics → Characteristics) (key : Key) (c : Cache Characteristics) (j : List ℕ)
      → Words (elems key)
      → Words j
      → CacheOk c
      → of_key j (set_with f key c) ≡ (if same (elems key) j then f (of_key j c) else of_key j c)
  unfolding set_with at
  set_with_lem f key c j wk wj ok = elim (Option-cases (find_entry std_hash (elems key) c)) [
    | inl e ↦
        rw (e, set_with)
          (rw (values-insert std_hash key (f plain) true c j wk wj)
            (elim (Bool-cases (same (elems key) j)) [
              | inr t ↦ rw t refl
              | inl t ↦
                  let own : elems key ≡ j = (same_iff (elems key) j wk wj).0 t in
                  let empty : values std_hash j c ≡ [] = rw (sym own) (no_values (elems key) c e) in
                  rw t (rw empty refl)
            ]))
    | inr (p, e) ↦
        rw (e, set_with)
          (rw (values-change_in std_hash key p f c j wk wj ok e)
            (elim (Bool-cases (same (elems key) j)) [
              | inr t ↦ rw t refl
              | inl t ↦
                  let own : elems key ≡ j = (same_iff (elems key) j wk wj).0 t in
                  rw t (
                    first-changed f (values std_hash j c)
                      (rw (sym own) (present_values (elems key) c p e)))
            ]))
  ]

  owner_of :
      (key : Key) (c : Cache Characteristics)
      → (get_ownership_type key c ≡ (of_key (elems key) c).owner_type)
        × (has_auto_events key c ≡ (of_key (elems key) c).automated_event)
  unfolding get_ownership_type has_auto_events
  owner_of key c =
      let h = find-values std_hash key c in
      (
        rw (h, get_ownership_type) (owner_first (values std_hash (elems key) c)),
        rw (h, has_auto_events) (events_first (values std_hash (elems key) c)),
      )
    where
      owner_first :
          (l : List Characteristics)
          → (elim (head? l) [ none ↦ service | some p ↦ p.owner_type ]) ≡ (first_of l).owner_type
      owner_first [] = refl
      owner_first (s ∷ l) = refl

      events_first :
          (l : List Characteristics)
          → (elim (head? l) [ none ↦ false | some p ↦ p.automated_event ])
            ≡ (first_of l).automated_event
      events_first [] = refl
      events_first (s ∷ l) = refl

  -- For keys whose elements are words: after the owner of a key is set, that key has this owner, and
  -- every other key has the owner it had; whether events are automatic stays as it was for all keys.
  pub set_ownership_type_lem :
      (key : Key) (type : ℕ) (c : Cache Characteristics) (j : Key)
      → Words (elems key)
      → Words (elems j)
      → CacheOk c
      → (get_ownership_type j (set_ownership_type key type c)
          ≡ (if same (elems key) (elems j) then type else get_ownership_type j c))
        × (has_auto_events j (set_ownership_type key type c) ≡ has_auto_events j c)
  unfolding set_ownership_type set_with
  set_ownership_type_lem key type c j wk wj ok =
      let f : Characteristics → Characteristics = λ s. record s { owner_type = type } in
      let e = set_with_lem f key c (elems j) wk wj ok in
      let after = owner_of j (set_ownership_type key type c) in
      let before = owner_of j c in
      elim (Bool-cases (same (elems key) (elems j))) [
        | inl t ↦
            let q : of_key (elems j) (set_ownership_type key type c) ≡ f (of_key (elems j) c) =
              e ∙ rw t refl in
            (
              rw t (after.0 ∙ ap (λ s. s.owner_type) q),
              after.1 ∙ ap (λ s. s.automated_event) q ∙ sym before.1,
            )
        | inr t ↦
            let q : of_key (elems j) (set_ownership_type key type c) ≡ of_key (elems j) c =
              e ∙ rw t refl in
            (
              rw t (after.0 ∙ ap (λ s. s.owner_type) q ∙ sym before.0),
              after.1 ∙ ap (λ s. s.automated_event) q ∙ sym before.1,
            )
      ]

  -- For keys whose elements are words: after a key is marked as having automatic events or as not
  -- having them, this is what it says, and every other key says what it said; the owners of all
  -- keys stay.
  pub set_auto_event_lem :
      (key : Key) (automated_events : Bool) (c : Cache Characteristics) (j : Key)
      → Words (elems key)
      → Words (elems j)
      → CacheOk c
      → (has_auto_events j (set_auto_event key automated_events c)
          ≡ (if same (elems key) (elems j) then automated_events else has_auto_events j c))
        × (get_ownership_type j (set_auto_event key automated_events c) ≡ get_ownership_type j c)
  unfolding set_auto_event set_with
  set_auto_event_lem key automated_events c j wk wj ok =
      let f : Characteristics → Characteristics =
        λ s. record s { automated_event = automated_events } in
      let e = set_with_lem f key c (elems j) wk wj ok in
      let after = owner_of j (set_auto_event key automated_events c) in
      let before = owner_of j c in
      elim (Bool-cases (same (elems key) (elems j))) [
        | inl t ↦
            let q : of_key (elems j) (set_auto_event key automated_events c)
                ≡ f (of_key (elems j) c) =
              e ∙ rw t refl in
            (
              rw t (after.1 ∙ ap (λ s. s.automated_event) q),
              after.0 ∙ ap (λ s. s.owner_type) q ∙ sym before.0,
            )
        | inr t ↦
            let q : of_key (elems j) (set_auto_event key automated_events c) ≡ of_key (elems j) c =
              e ∙ rw t refl in
            (
              rw t (after.1 ∙ ap (λ s. s.automated_event) q ∙ sym before.1),
              after.0 ∙ ap (λ s. s.owner_type) q ∙ sym before.0,
            )
      ]
