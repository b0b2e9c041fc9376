-- ===== src/Connections.antt =====
-- The cache of connections to the database nodes: src/db/cps_api_db_connection_tools.cpp.
-- `C` are connections and `W` is the outside; `Link` is what the cache asks of a connection. A
-- vector of connections is a list with its back in front. Memory does not run out, and the pause
-- between attempts is left out, as is the mutex, which each operation holds to its end.
pub mod Bounds
pub mod Checked
mod Tests
use opx_cps.Common.{
  ℕ, zero, suc, Bool, true, false, not, ◌&&◌, List, [], ◌∷◌, Option, none, some, length, ltb,
  if◌then◌else◌,
}
use opx_cps.Dictionary.{same_name, look_up, assign}

pub record Link (C W : Type 0) : Type 0 where
  -- A new connection that `connect` has brought up.
  pub connect : List ℕ → W → Option C × W
  pub addr : C → List ℕ
  pub connection_valid : C → W → Bool
  pub ping : C → W → Bool × W
  pub used_within : C → W → Bool
  pub is_local_node : List ℕ → Bool

-- The library's flags that the cache reads: "cps.connect.retry-local", "cps.connect.retry-remote" and
-- "cps.connect.cache-max-size".
pub record Limits : Type 0 where
  pub retry_local : ℕ
  pub retry_remote : ℕ
  pub max_connections : ℕ

abbrev pub Pool : Type 0 → Type 0
Pool C = List (List ℕ × List C)

module _ {C W : Type 0} (link : Link C W) where
  -- cps_api_db_validate_connection
  unfoldable pub validate : C → W → Bool × W
  validate c w =
      if link.is_local_node (link.addr c) then (link.connection_valid c w, w) else link.ping c w

  -- The loop of cps_api_db_create_validated_connection.
  unfoldable pub countdown : ℕ → List ℕ → W → Option C × W
  unfolding validate
  countdown zero node w = (none, w)
  countdown (suc n) node w =
      let made = link.connect node w in
      let failed = countdown n node made.1 in
      elim made.0 [
        | none ↦ failed
        | some c ↦
            let checked = validate c made.1 in
            let next = countdown n node checked.1 in if checked.0 then (some c, checked.1) else next
      ]

  unfoldable pub create_validated_connection : Limits → List ℕ → W → Option C × W
  create_validated_connection limits node w =
      countdown (if link.is_local_node node then limits.retry_local else limits.retry_remote) node w

  -- The loop of connection_cache::get over the connections to a node: the connection, those that
  -- are left, and the outside.
  unfoldable pub pop_loop : Bool → List C → W → Option C × List C × W
  unfolding validate
  pop_loop check_alive [] w = (none, [], w)
  pop_loop check_alive (c ∷ cs) w =
      let checked = validate c w in
      let next = pop_loop check_alive cs checked.1 in
      if check_alive && link.used_within c w
      then if checked.0 then (some c, cs, checked.1) else next
      else (some c, cs, w)

  -- connection_cache::get
  unfoldable pub get : Limits → List ℕ → Bool → Pool C → W → Option C × Pool C × W
  get limits name check_alive pool w = elim (look_up same_name name pool) [
    | none ↦ let made = create_validated_connection limits name w in (made.0, pool, made.1)
    | some conns ↦
        let r = pop_loop check_alive conns w in
        let left = assign same_name name r.1 pool in
        let made = create_validated_connection limits name r.2 in
        elim r.0 [ none ↦ (made.0, left, made.1) | some c ↦ (some c, left, r.2) ]
  ]

  -- connection_cache::put. A connection that is not valid, or for which there is no room, is closed.
  unfoldable pub put : Limits → List ℕ → C → Pool C → W → Pool C
  put limits name c pool w =
      let conns : List C = elim (look_up same_name name pool) [ none ↦ [] | some l ↦ l ] in
      if not (link.connection_valid c w)
      then pool
      else if ltb (length conns) limits.max_connections
      then assign same_name name (c ∷ conns) pool
      else assign same_name name conns pool

  -- connection_cache_no_validate::get
  unfoldable pub get_no_validate : Limits → List ℕ → Pool C → W → Option C × Pool C × W
  unfolding get
  get_no_validate limits name pool w = get limits name false pool w

  -- The constructor of connection_request, which asks for a check.
  unfoldable pub open_request : Limits → List ℕ → Pool C → W → Option C × Pool C × W
  unfolding get
  open_request limits name pool w = get limits name true pool w

  -- Its destructor.
  unfoldable pub close_request : Limits → List ℕ → Option C → Pool C → W → Pool C
  unfolding put
  close_request limits name none pool w = pool
  close_request limits name (some c) pool w = put limits name c pool w

-- connection_cache::remove
unfoldable pub remove : {C : Type 0} → List ℕ → Pool C → Pool C
remove name [] = []
remove name ((other, conns) ∷ pool) =
    let rest = remove name pool in if same_name other name then pool else (other, conns) ∷ rest
