-- ===== src/Client/Requests.antt =====
-- cps_api_process_commit_request, cps_api_process_rollback_request and cps_api_object_stats of
-- src/cps_api_client_ipc.cpp.
use opx_cps.Common.{
  ℕ, Bool, true, false, not, Option, none, some, ltb, ◌==◌, if◌then◌else◌, ℤ, is_zero,
}
use opx_cps.Key.{Key}
use opx_cps.Object.{Tlv, Object, object_clone}
use opx_cps.Object.Codes.{Values, return_code}
use opx_cps.Ipc.{word_rc, send_header, send_one_object, receive_header, receive_rc, receive_object}
use opx_cps.Client.{
  Net, State, ret_ok, ret_err, ret_no_service, o_commit_object, o_return_code, o_revert,
  o_commit_change, o_commit_prev, o_stats, get_handle, timeout_wait,
}

-- The entries of a transaction at the position of a request.
pub record Entries : Type 0 where
  pub change : Option Object
  pub prev : Option Object

module _ {D W : Type 0} (net : Net D W) (std_hash : ℕ → ℕ) (fresh : Key) (tlv : Tlv)
    (values : Values tlv) where
  -- The previous object of the answer, for a header with the length `len`: the code and the
  -- object, or nothing where the source leaves the block.
  prev_received : ℕ → ℕ → Option Object → W → Option (ℤ × Option Object) × W
  prev_received handle len prev w =
      let r = receive_object net.sock fresh handle len w in
      if ltb 0 len
      then (
        elim r.0 [
          | none ↦ none
          | some og ↦ elim prev [
            | none ↦ some (ret_ok, some og)
            | some p ↦ some (ret_ok, some (if ltb 0 og.key.len then og else p))
          ]
        ],
        r.1,
      )
      else (some (ret_err, prev), w)

  -- What the object says of the request, where it says something.
  said : Object → ℤ → ℤ
  said obj rc = elim (return_code tlv values obj) [ none ↦ rc | some n ↦ word_rc n ]

  -- After a header with COMMIT_OBJECT, of an object of `len` bytes.
  commit_answer : ℕ → ℕ → Entries → W → ℤ × Entries × W
  unfolding prev_received said
  commit_answer handle len e w =
      let r = receive_object net.sock fresh handle len w in
      elim r.0 [
        | none ↦ (ret_err, e, r.1)
        | some obj ↦
            let swapped = record e { change = some obj } in
            let h = receive_header net.sock handle r.1 in
            elim h.0 [
              | none ↦ (ret_err, swapped, h.1)
              | some (op, len') ↦
                  let p = prev_received handle len' e.prev h.1 in
                  if not (op == o_commit_object) then (ret_err, swapped, h.1) else elim p.0 [
                    | none ↦ (ret_err, swapped, p.1)
                    | some (rc, prev) ↦ (said obj rc, record swapped { prev = prev }, p.1)
                  ]
            ]
      ]

  -- The answer to a commit, from its header on.
  commit_receive : ℕ → Entries → W → ℤ × Entries × W
  unfolding commit_answer
  commit_receive handle e w =
      let h = receive_header net.sock handle w in
      elim h.0 [
        | none ↦ (ret_err, e, h.1)
        | some (op, len) ↦
            let c = receive_rc net.sock handle ret_err h.1 in
            if op == o_commit_object
            then commit_answer handle len e h.1
            else if op == o_return_code
            then (c.0.1, e, c.1)
            else (ret_err, e, h.1)
      ]

  -- The block of cps_api_process_commit_request, on a connection.
  commit_over : ℕ → ℕ → Object → Entries → W → ℤ × Entries × W
  unfolding commit_receive
  commit_over timeout handle obj e w =
      let a = send_one_object net.sock handle o_commit_change (some obj) w in
      let b = send_one_object net.sock handle o_commit_prev e.prev a.1 in
      let t = if ltb 0 timeout then timeout_wait net handle timeout b.1 else (ret_ok, b.1) in
      if not a.0
      then (ret_err, e, a.1)
      else if not b.0
      then (ret_err, e, b.1)
      else if not (is_zero t.0)
      then (t.0, e, t.1)
      else commit_receive handle e t.1

  unfoldable pub process_commit_request : ℕ → Entries → State D W → ℤ × Entries × State D W
  unfolding commit_over
  process_commit_request timeout e s = elim e.change [
    | none ↦ (ret_err, e, s)
    | some obj ↦
        let g = get_handle net std_hash obj.key s in
        elim g.0 [
          | none ↦ (ret_no_service, e, g.1)
          | some handle ↦
              let r = commit_over timeout handle obj e g.1.world in
              (r.0, r.1, record g.1 { world = net.close handle r.2 })
        ]
  ]

module _ {D W : Type 0} (net : Net D W) (std_hash : ℕ → ℕ) (fresh : Key) where
  -- The block of cps_api_process_rollback_request.
  rollback_over : ℕ → Object → W → ℤ × W
  rollback_over handle obj w =
      let a = send_one_object net.sock handle o_revert (some obj) w in
      let h = receive_header net.sock handle a.1 in
      if not a.0 then (ret_err, a.1) else elim h.0 [
        | none ↦ (ret_err, h.1)
        | some (op, len) ↦
            let c = receive_rc net.sock handle ret_err h.1 in
            if op == o_return_code then (c.0.1, c.1) else (ret_err, h.1)
      ]

  -- The guard of the handle closes it after cps_api_disconnect_owner, if it is not -1.
  unfoldable pub process_rollback_request : Option Object → State D W → ℤ × State D W
  unfolding rollback_over
  process_rollback_request none s = (ret_err, s)
  process_rollback_request (some obj) s =
      let g = get_handle net std_hash obj.key s in
      elim g.0 [
        | none ↦ (ret_no_service, g.1)
        | some handle ↦
            let r = rollback_over handle obj g.1.world in
            (r.0, record g.1 { world = net.close handle (net.close handle r.1) })
      ]

  -- The block of cps_api_object_stats: the code, whether the function goes on to close the handle,
  -- and the object. `return false` is the code 0.
  stats_over : ℕ → Object → W → ℤ × Bool × Object × W
  stats_over handle obj w =
      let a = send_header net.sock handle o_stats 0 w in
      let h = receive_header net.sock handle a.1 in
      if not a.0 then (ret_err, true, obj, a.1) else elim h.0 [
        | none ↦ (ret_err, true, obj, h.1)
        | some (op, len) ↦
            let o = receive_object net.sock fresh handle len h.1 in
            if not (op == o_stats) then (ret_err, true, obj, h.1) else elim o.0 [
              | none ↦ (ret_ok, false, obj, o.1)
              | some og ↦ elim (object_clone obj og) [
                | none ↦ (ret_err, true, obj, o.1)
                | some cloned ↦ (ret_ok, true, cloned, o.1)
              ]
            ]
      ]

  -- Without a key the name server is asked, otherwise the service with the key.
  unfoldable pub object_stats : Option Key → Object → State D W → ℤ × Object × State D W
  unfolding stats_over
  object_stats key obj s =
      let to_ns = net.connect_ns s.world in
      let ns : Option ℕ × State D W = (to_ns.0, record s { world = to_ns.1 }) in
      let g : ℤ × (Option ℕ × State D W) = elim key [
        | none ↦ (ret_err, ns)
        | some k ↦
            if k.len == 0 then (ret_err, ns) else (ret_no_service, get_handle net std_hash k s)
      ] in
      elim g.1.0 [
        | none ↦ (g.0, obj, g.1.1)
        | some handle ↦
            let r = stats_over handle obj g.1.1.world in
            (r.0, r.2, record g.1.1 { world = if r.1 then net.close handle r.3 else r.3 })
      ]
