-- ===== src/NameServer.antt =====
-- The name server: src/cps_ns.cpp, from send_out_key_event to _client_closed_ without the
-- statistics report.
-- `D` is what a client sends to register, with the key in it: cps_api_object_owner_reg_t. What goes
-- over the sockets comes in as arguments and goes out as values. Log messages are left out.
pub mod Closed
pub mod Buckets
pub mod Gone
pub mod Invariant
pub mod Queries
mod Tests
use opx_cps.Common.{
  ◌*◌, ℕ, zero, suc, ◌+◌, ◌^◌, ◌%◌, ◌≡◌, Bool, true, false, not, List, [], ◌∷◌, ◌++◌, Option, none,
  some, length, ◌==◌, if◌then◌else◌, take, drop, replicate, get_elem?,
}
use opx_cps.Key.{Key, key_insert_element, key_set_attr}
use opx_cps.KeyCache.{Entry, Cache, insert, walk, entry_at}
use opx_cps.KeyCache.At.{at, change_in}

-- client_reg_t
pub record ClientReg (D : Type 0) : Type 0 where
  pub details : D
  pub fd : ℕ
  pub count : ℕ

-- The counters of `_stats` that the name server changes; one that is missing there is 0.
pub record Stats : Type 0 where
  pub set_count : ℕ
  pub get_count : ℕ
  pub event_send : ℕ
  pub close_count : ℕ
  pub close_cleanup_runs : ℕ

-- The event about a registration.
pub record Event : Type 0 where
  pub key : Key

-- What an event changes: the counters, and the events that were published so far.
pub record Out : Type 0 where
  pub stats : Stats
  pub events : List Event

abbrev pub Registry : Type 0 → Type 0
Registry D = Cache (List (ClientReg D))

pub record Ns (D : Type 0) : Type 0 where
  pub registration : Registry D
  pub reg_created : List ℕ
  pub out : Out

-- `++` on a uint64_t
abbrev pub bump : ℕ → ℕ
bump n = (n + 1) % 2 ^ 64

-- cps_api_qualifier_REGISTRATION
abbrev pub qualifier_registration : ℕ
qualifier_registration = 5

-- cps_api_key_copy into an object whose memory is 0. Of the key, only the elements are copied.
abbrev pub copied : Key → Key
copied k = record k { slots = take k.len k.slots ++ replicate 62 0 }

-- send_out_key_event. The assertions of key_insert_element do not fail at position 0; where the key
-- is too long, it is left as it is. The operation is CREATE (2) or DELETE (1).
unfoldable pub send_out_key_event : Key → Bool → Out → Out
send_out_key_event key how o =
    let obj : Key = elim (key_insert_element (copied key) 0 qualifier_registration) [
      | none ↦ copied key
      | some r ↦ r.1
    ] in
    record {
      stats = record o.stats { event_send = bump o.stats.event_send };
      events = o.events ++ record { key = key_set_attr obj (if how then 2 else 1) } ∷ [];
    }

-- `insert` of a std::set<int>.
unfoldable pub set_insert : ℕ → List ℕ → List ℕ
set_insert x [] = x ∷ []
set_insert x (y ∷ ys) = if y == x then y ∷ ys else y ∷ set_insert x ys

unfoldable pub set_find : ℕ → List ℕ → Bool
set_find x [] = false
set_find x (y ∷ ys) = if y == x then true else set_find x ys

unfoldable pub set_erase : ℕ → List ℕ → List ℕ
set_erase x [] = []
set_erase x (y ∷ ys) = let rest = set_erase x ys in if y == x then rest else y ∷ rest

-- The answer to a query: the details of the registration that was found, or a return code. A list
-- without registrations has no first one; `outside` stands for what the source reads there.
pub data Reply (D : Type 0) : Type 0 where
  results : D → Reply D
  return_code : Reply D
  outside : Reply D

module _ {D : Type 0} where
  -- `++((*c)[0].count)`
  unfoldable pub count_query : List (ClientReg D) → List (ClientReg D)
  count_query [] = []
  count_query (r ∷ rs) = record r { count = bump r.count } ∷ rs

  unfoldable pub reply_from : Option (Entry (List (ClientReg D))) → Reply D
  reply_from none = return_code
  reply_from (some e) = elim e.value [ [] ↦ outside | r ∷ rs ↦ results r.details ]

module _ {D : Type 0} (std_hash : ℕ → ℕ) (key_of : D → Key) (details_size : ℕ) where
  -- The registration that is put into the cache.
  unfoldable pub add_reg : Key → ClientReg D → Registry D → Registry D
  unfolding at
  add_reg key r c = elim (at std_hash key true c) [
    | none ↦ insert std_hash key (r ∷ []) true c
    | some p ↦ change_in p (λ l. l ++ r ∷ []) c
  ]

  -- process_registration. `received` are the details, if they could be read.
  unfoldable pub process_registration : ℕ → ℕ → Option D → Ns D → Bool × Ns D
  process_registration fd len received s =
      if not (len == details_size) then (false, s) else elim received [
        | none ↦ (false, s)
        | some d ↦
            let key = key_of d in
            let r : ClientReg D = record { details = d; fd = fd; count = 0 } in
            let counted = record s.out {
              stats = record s.out.stats { set_count = bump s.out.stats.set_count };
            } in
            if key.len == 0 then (false, s) else (
              true,
              record {
                registration = add_reg key r s.registration;
                reg_created = set_insert fd s.reg_created;
                out = send_out_key_event key true counted;
              },
            )
      ]

  -- process_query with the key that was received.
  unfoldable pub process_query : Key → Ns D → Reply D × Ns D
  unfolding at
  process_query key s =
      let counted = record s.out {
        stats = record s.out.stats { get_count = bump s.out.stats.get_count };
      } in
      elim (at std_hash key false s.registration) [
        | none ↦ (return_code, record s { out = counted })
        | some p ↦ (
          reply_from (entry_at std_hash (some p) s.registration),
          record s { registration = change_in p count_query s.registration; out = counted },
        )
      ]

abbrev pub count_close : Out → Out
count_close o = record o { stats = record o.stats { close_count = bump o.stats.close_count } }

abbrev pub count_cleanup : Out → Out
count_cleanup o = record o {
  stats = record o.stats { close_cleanup_runs = bump o.stats.close_cleanup_runs };
}

-- Fuel for a loop over `n` elements that begins again after each removal.
abbrev pub loop_fuel : ℕ → ℕ
loop_fuel n = suc (n * n + n)

module _ {D : Type 0} where
  -- The inner loop of _client_closed_: it removes the registrations of the client one by one, each
  -- time from the start, with an event for the removal, and another one if registrations are left.
  -- `seen` are those before `_entry`. `none`: the fuel ran out.
  unfoldable pub entry_loop :
      ℕ
      → ℕ
      → Key
      → List (ClientReg D)
      → List (ClientReg D)
      → Out
      → Option (List (ClientReg D) × Out)
  entry_loop zero fd key seen left o = none
  entry_loop (suc fuel) fd key seen [] o = some (seen, o)
  entry_loop (suc fuel) fd key seen (r ∷ left) o =
      let removed = send_out_key_event key false o in
      let told : Out = elim (seen ++ left) [
        | [] ↦ removed
        | x ∷ xs ↦ send_out_key_event key true removed
      ] in
      let restart = entry_loop fuel fd key [] (seen ++ left) told in
      let onward = entry_loop fuel fd key (seen ++ r ∷ []) left o in
      if r.fd == fd then restart else onward

  -- The outer loop, over the keys of a bucket: `seen` are those before `_keys_ix`. Where a key has
  -- no registrations left, it is erased, and the index becomes 0 and is then incremented.
  unfoldable pub key_loop :
      ℕ
      → ℕ
      → List (Entry (List (ClientReg D)))
      → List (Entry (List (ClientReg D)))
      → Out
      → Option (List (Entry (List (ClientReg D))) × Out)
  key_loop zero fd seen left o = none
  key_loop (suc fuel) fd seen [] o = some (seen, o)
  key_loop (suc fuel) fd seen (e ∷ left) o =
      elim (entry_loop (loop_fuel (length e.value)) fd e.key [] e.value o) [
        | none ↦ none
        | some r ↦ elim r.0 [
          | [] ↦ key_loop fuel fd (take 1 (seen ++ left)) (drop 1 (seen ++ left)) r.1
          | x ∷ xs ↦ key_loop fuel fd (seen ++ record e { value = x ∷ xs } ∷ []) left r.1
        ]
      ]

  -- The function that _client_closed_ gives to the walk. Closed shows that its fuel is enough.
  unfoldable pub close_bucket :
      ℕ
      → Out
      → ℕ × List (Entry (List (ClientReg D)))
      → Bool × List (Entry (List (ClientReg D))) × Out
  close_bucket fd o b = elim (key_loop (loop_fuel (length b.1)) fd [] b.1 o) [
    | none ↦ (true, b.1, o)
    | some r ↦ (true, r.0, r.1)
  ]

  -- _client_closed_. `none`: the fuel of the walk ran out.
  unfoldable pub client_closed : ℕ → ℕ → Ns D → Option (Ns D)
  client_closed fuel fd s =
      if not (set_find fd s.reg_created)
      then some (record s { out = count_close s.out })
      else elim (walk (close_bucket fd) fuel (count_cleanup (count_close s.out)) s.registration) [
        | none ↦ none
        | some r ↦
            some
              (record { registration = r.0; reg_created = set_erase fd s.reg_created; out = r.1 })
      ]
