-- ===== src/Service.antt =====
-- A service: src/cps_api_operation_service.cpp. Registrations is about the order of the registered
-- functions, Handlers has the answers to requests, Stats the statistics.
-- The functions that an application registers are arguments. The sockets and the clock are the
-- interface `Host`; locks and log messages are left out.
pub mod Order
pub mod Stats
pub mod Handlers
pub mod NameService
pub mod Transfer
mod Tests
use opx_cps.Common.{
  ℕ, ◌≡◌, Bool, true, false, not, ◌&&◌, List, [], ◌∷◌, ◌++◌, Option, none, some, ltb, if◌then◌else◌,
  ℤ, pos, is_zero,
}
use opx_cps.Key.{Key, key_matches}
use opx_cps.Object.{Object}
use opx_cps.Ipc.{Sock}

-- cps_api_registration_functions_t. A read function is given the filter and returns the code and
-- the objects; a write function is given the changes and the previous objects, and returns them
-- after that; a rollback function is given the previous objects.
pub record Functions (W : Type 0) : Type 0 where
  pub key : Key
  pub read_function : Option (Object → W → ℤ × List (Option Object) × W)
  pub write_function : Option (
      List (Option Object)
      → List (Option Object)
      → W
      → ℤ × List (Option Object) × List (Option Object) × W)
  pub rollback_function : Option (List (Option Object) → W → ℤ × W)

-- What a service uses: the sockets, std_get_uptime, the connection to the name server
-- (cps_api_ns_create_handle), std_socket_service_client_add, and close.
pub record Host (W : Type 0) : Type 0 where
  pub sock : Sock W
  pub uptime : W → ℕ
  -- The quotient of two `uint64_t` that is computed with a `double`.
  pub quotient : ℕ → ℕ → ℕ
  pub connect_ns : W → Option ℕ × W
  pub client_add : ℕ → W → Bool × W
  pub close : ℕ → W → W
  pub process_id : W → ℕ
  pub objects_allocated : W → ℕ

-- cps_api_operation_data_t. The counters are numbered from cps_api_obj_stat_BEGIN on; all of them
-- are entered when the subsystem starts. STD_INVALID_FD is `none`.
pub record Service (W : Type 0) : Type 0 where
  pub functions : List (Functions W)
  pub address : List ℕ
  pub stats : ℕ → ℕ
  pub ns_handle : Option ℕ
  pub world : W

-- cps_api_key_matches(.., false) == 0
abbrev pub matches : Key → Key → Bool
matches key registered = is_zero (key_matches key registered false)

module _ {W : Type 0} where
  -- The search of a handler: the first function that is there and whose key matches.
  unfoldable pub find_function :
      {F : Type 0} → (Functions W → Option F) → Key → List (Functions W) → Option F
  find_function get key [] = none
  find_function get key (p ∷ ps) =
      let rest = find_function get key ps in
      elim (get p) [ none ↦ rest | some f ↦ if matches key p.key then some f else rest ]

  -- insert_functions
  unfoldable pub insert_functions : Functions W → List (Functions W) → List (Functions W)
  insert_functions fun [] = fun ∷ []
  insert_functions fun (it ∷ its) =
      let rest = it ∷ insert_functions fun its in
      if matches fun.key it.key
      then if ltb fun.key.len it.key.len then rest else fun ∷ it ∷ its
      else rest
