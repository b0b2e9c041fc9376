-- ===== src/Service/NameService.antt =====
-- The connection of a service to the name server: register_one_key, reconnect_with_ns,
-- cps_api_register, _timedout and _del_client of src/cps_api_operation_service.cpp, and
-- cps_api_ns_register of src/cps_ns.cpp.
use opx_cps.Common.{
  ℕ, ◌==◌, Bool, true, false, not, List, [], ◌∷◌, ◌++◌, none, some, length, if◌then◌else◌,
}
use opx_cps.Key.{Key}
use opx_cps.Ipc.{key_memory, send_header, send_data}
use opx_cps.Service.{Host, Service, Functions, insert_functions}
use opx_cps.Service.Stats.{inc_stat, ns_connects, ns_disconnects}

-- cps_api_ns_r_ADD
abbrev pub ns_r_add : ℕ
ns_r_add = 10

module _ {W : Type 0} (host : Host W) where
  -- cps_api_ns_register, of the bytes of a registration.
  unfoldable pub ns_register : ℕ → List ℕ → W → Bool × W
  ns_register handle reg w =
      let h = send_header host.sock handle ns_r_add (length reg) w in
      let d = send_data host.sock handle reg h.1 in if not h.0 then (false, h.1) else d

  -- The handle is closed if the registration cannot be sent; it stays in the service.
  unfoldable pub register_one_key : ℕ → List ℕ → Key → W → Bool × W
  unfolding ns_register key_memory
  register_one_key handle address key w =
      let r = ns_register handle (key_memory key ++ address) w in
      if not r.0 then (false, host.close handle r.1) else (true, r.1)

  unfoldable pub register_all : ℕ → List ℕ → List (Functions W) → W → Bool × W
  unfolding register_one_key
  register_all handle address [] w = (true, w)
  register_all handle address (p ∷ ps) w =
      let r = register_one_key handle address p.key w in
      let rest = register_all handle address ps r.1 in if r.0 then rest else (false, r.1)

  -- Where the handle cannot be added, it is closed and stays in the service; where a key cannot be
  -- registered, it is closed again.
  unfoldable pub reconnect_with_ns : Service W → Bool × Service W
  unfolding register_all inc_stat
  reconnect_with_ns s =
      let c = host.connect_ns s.world in
      elim c.0 [
        | none ↦ (false, record s { ns_handle = none; world = c.1 })
        | some handle ↦
            let a = host.client_add handle c.1 in
            let r = register_all handle s.address s.functions a.1 in
            if not a.0
            then (false, record s { ns_handle = some handle; world = host.close handle a.1 })
            else if not r.0
            then (false, record s { ns_handle = none; world = host.close handle r.1 })
            else (
              true,
              record s {
                ns_handle = some handle;
                world = r.1;
                stats = inc_stat ns_connects s.stats;
              },
            )
      ]

  -- cps_api_register
  unfoldable pub register : Functions W → Service W → Service W
  unfolding reconnect_with_ns register_one_key
  register reg s =
      let t : Service W = elim s.ns_handle [ none ↦ (reconnect_with_ns s).1 | some h ↦ s ] in
      let u = record t { functions = insert_functions reg t.functions } in
      elim u.ns_handle [
        | none ↦ u
        | some handle ↦
            let r = register_one_key handle u.address reg.key u.world in
            if not r.0
            then record u { ns_handle = none; world = host.close handle r.1 }
            else record u { world = r.1 }
      ]

  -- _timedout
  unfoldable pub timedout : Service W → Service W
  unfolding reconnect_with_ns
  timedout s = elim s.ns_handle [ none ↦ (reconnect_with_ns s).1 | some h ↦ s ]

  -- _del_client
  unfoldable pub del_client : ℕ → Service W → Bool × Service W
  unfolding inc_stat
  del_client fd s = elim s.ns_handle [
    | none ↦ (true, s)
    | some handle ↦
        if handle == fd
        then (true, record s { stats = inc_stat ns_disconnects s.stats; ns_handle = none })
        else (true, s)
  ]
