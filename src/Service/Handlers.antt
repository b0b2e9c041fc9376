-- ===== src/Service/Handlers.antt =====
-- The answers to requests: cps_api_handle_get, cps_api_handle_commit, cps_api_handle_revert,
-- cps_api_handle_stats and _some_data_ of src/cps_api_operation_service.cpp.
-- `fresh` is what the memory of a new key holds.
use opx_cps.Common.{
  ℕ, zero, suc, ◌+◌, ◌-◌, ◌/◌, ◌%◌, ◌^◌, Bool, true, false, not, List, [], ◌∷◌, ◌++◌, Option, none,
  some, get_elem?, length, ltb, ◌==◌, if◌then◌else◌, ℤ, is_zero,
}
use opx_cps.Key.{Key, le_bytes, key_init}
use opx_cps.Object.{Tlv, Object, default_size, object_create, add_attribute}
use opx_cps.Object.Codes.{set_return_code}
use opx_cps.ObjectList.{list_create_obj_and_append}
use opx_cps.Ipc.{
  rc_word, send_header, send_one_object, send_return_code, receive_header, receive_object,
}
use opx_cps.Client.{
  ret_ok, ret_err, o_get, o_get_resp, o_get_done, o_commit_object, o_return_code, o_revert,
  o_commit_change, o_commit_prev, o_stats,
}
use opx_cps.Service.{Host, Service, find_function}
use opx_cps.Service.Stats.{
  Timer, inc_stat, timer_end, set_min_time, set_max_time, set_ave_time, set_count, get_min_time,
  get_max_time, get_ave_time, get_count, set_failed, set_invalid, get_failed, get_invalid,
  process_id, objects_allocated, stat_max, stat_begin,
}

abbrev get_timer : Timer
get_timer = record { min = get_min_time; max = get_max_time; ave = get_ave_time; count = get_count }

abbrev set_timer : Timer
set_timer = record { min = set_min_time; max = set_max_time; ave = set_ave_time; count = set_count }

-- cps_api_object_list_get
abbrev object_at : List (Option Object) → ℕ → Option Object
object_at list ix = elim (get_elem? list ix) [ none ↦ none | some o ↦ o ]

module _ {W : Type 0} (host : Host W) (fresh : Key) (fd : ℕ) where
  -- The loop that sends the objects of an answer; null pointers are passed over.
  unfoldable pub send_all : List (Option Object) → W → Bool × W
  send_all [] w = (true, w)
  send_all (none ∷ list) w = send_all list w
  send_all (some obj ∷ list) w =
      let r = send_one_object host.sock fd o_get_resp (some obj) w in
      let rest = send_all list r.1 in if r.0 then rest else (false, r.1)

  -- The answer to a get, from the code of the read function.
  unfoldable pub get_answer : ℤ → List (Option Object) → Service W → Bool × Service W
  unfolding send_all inc_stat
  get_answer rc list s =
      let failed = send_return_code host.sock fd o_return_code rc s.world in
      let sent = send_all list s.world in
      let done = send_header host.sock fd o_get_done 0 sent.1 in
      if not (is_zero rc)
      then (failed.0, record s { stats = inc_stat get_failed s.stats; world = failed.1 })
      else if not sent.0
      then (false, record s { world = sent.1 })
      else (done.0, record s { world = done.1 })

  -- The timer ends when the function returns.
  unfoldable pub with_timer : Timer → Option ℕ → Bool × Service W → Bool × Service W
  unfolding timer_end
  with_timer t tm r =
      (r.0, record r.1 { stats = timer_end host.quotient t tm (host.uptime r.1.world) r.1.stats })

  unfoldable pub handle_get : ℕ → Service W → Bool × Service W
  unfolding get_answer with_timer inc_stat
  handle_get len s =
      let r = receive_object host.sock fresh fd len s.world in
      let got = record s { world = r.1 } in
      elim r.0 [
        | none ↦
            with_timer get_timer none (false, record got { stats = inc_stat get_invalid s.stats })
        | some filter ↦ elim (find_function (λ p. p.read_function) filter.key s.functions) [
          | none ↦ with_timer get_timer none (get_answer ret_err [] got)
          | some read ↦
              let a = read filter r.1 in
              with_timer get_timer (some (host.uptime r.1))
                (get_answer a.0 a.1 (record got { world = a.2 }))
        ]
      ]

  -- What a commit gives back, with its code: the two objects, which go out in this order.
  unfoldable pub commit_reply : Object → Object → Service W → Bool × Service W
  unfolding inc_stat
  commit_reply cur prev s =
      let a = send_one_object host.sock fd o_commit_object (some cur) s.world in
      let b = send_one_object host.sock fd o_commit_object (some prev) a.1 in
      if not a.0
      then (false, record s { stats = inc_stat set_invalid s.stats; world = a.1 })
      else if not b.0
      then (false, record s { stats = inc_stat set_invalid s.stats; world = b.1 })
      else (true, record s { world = b.1 })

  -- The two lists after the write function. `none`: the fuel of a search in `cur` ran out.
  unfoldable pub commit_answer :
      Tlv → ℤ → List (Option Object) → List (Option Object) → Service W → Option (Bool × Service W)
  unfolding commit_reply inc_stat
  commit_answer tlv rc change prev s =
      let counted = record s {
        stats = if is_zero rc then s.stats else inc_stat set_failed s.stats;
      } in
      let invalid : Option (Bool × Service W) =
        some (false, record counted { stats = inc_stat set_invalid counted.stats }) in
      let prevs = if length prev == 0 then (list_create_obj_and_append fresh prev).1 else prev in
      elim (object_at change 0) [
        | none ↦ invalid
        | some cur ↦ elim (object_at prevs 0) [
          | none ↦ invalid
          | some before ↦ elim (set_return_code tlv cur (rc_word rc)) [
            | none ↦ none
            | some (done, coded) ↦ some (commit_reply coded before counted)
          ]
        ]
      ]

  -- The write function is called with the change and the previous object, where one was sent; if
  -- there is no such function, the code is 0. The timer is started if there is one.
  unfoldable pub commit_call :
      Tlv → Object → List (Option Object) → Service W → Option (Bool × Service W)
  unfolding commit_answer with_timer
  commit_call tlv o prev s = elim (find_function (λ p. p.write_function) o.key s.functions) [
    | none ↦ elim (commit_answer tlv ret_ok (some o ∷ []) prev s) [
      | none ↦ none
      | some r ↦ some (with_timer set_timer none r)
    ]
    | some write ↦
        let a = write (some o ∷ []) prev s.world in
        elim (commit_answer tlv a.0 a.1 a.2 (record s { world = a.3 })) [
          | none ↦ none
          | some r ↦ some (with_timer set_timer (some (host.uptime s.world)) r)
        ]
  ]

  -- `invalid`: the counter of invalid requests is increased.
  unfoldable pub invalid_set : Service W → Option (Bool × Service W)
  unfolding with_timer inc_stat
  invalid_set s =
      some (with_timer set_timer none (false, record s { stats = inc_stat set_invalid s.stats }))

  unfoldable pub handle_commit : Tlv → ℕ → Service W → Option (Bool × Service W)
  unfolding commit_call invalid_set
  handle_commit tlv len s =
      let r = receive_object host.sock fresh fd len s.world in
      elim r.0 [
        | none ↦ invalid_set (record s { world = r.1 })
        | some o ↦
            let h = receive_header host.sock fd r.1 in
            elim h.0 [
              | none ↦ invalid_set (record s { world = h.1 })
              | some (act, len') ↦
                  let p = receive_object host.sock fresh fd len' h.1 in
                  if not (act == o_commit_prev)
                  then invalid_set (record s { world = h.1 })
                  else if ltb 0 len'
                  then elim p.0 [
                    | none ↦ invalid_set (record s { world = p.1 })
                    | some prev ↦ commit_call tlv o (some prev ∷ []) (record s { world = p.1 })
                  ]
                  else commit_call tlv o [] (record s { world = h.1 })
            ]
      ]

  unfoldable pub handle_revert : ℕ → Service W → Bool × Service W
  handle_revert len s =
      let r = receive_object host.sock fresh fd len s.world in
      elim r.0 [
        | none ↦ (false, record s { world = r.1 })
        | some o ↦
            let a : ℤ × W = elim (find_function (λ p. p.rollback_function) o.key s.functions) [
              | none ↦ (ret_ok, r.1)
              | some rollback ↦ rollback (some o ∷ []) r.1
            ] in
            let sent = send_return_code host.sock fd o_return_code a.0 a.1 in
            (sent.0, record s { world = sent.1 })
      ]

  -- The eight bytes of a 64-bit number.
  abbrev pub le_bytes_64 : ℕ → List ℕ
  le_bytes_64 n = le_bytes (n % 2 ^ 32) ++ le_bytes (n / 2 ^ 32)

  -- cps_api_object_attr_add_u64, whose result is not looked at.
  unfoldable pub attr_add_u64 : Tlv → Object → ℕ → ℕ → Object
  attr_add_u64 tlv o id n = elim (add_attribute tlv o id (le_bytes_64 n)) [ none ↦ o | some p ↦ p ]

  -- The counters from `cur` on, `left` of them.
  unfoldable pub add_stats : Tlv → (ℕ → ℕ) → ℕ → ℕ → Object → Object
  unfolding attr_add_u64
  add_stats tlv stats zero cur o = o
  add_stats tlv stats (suc left) cur o =
      add_stats tlv stats left (suc cur) (attr_add_u64 tlv o (stat_begin + cur) (stats cur))

  -- The object that cps_api_handle_stats sends, with the key `key`.
  unfoldable pub stats_object : Tlv → Key → Service W → Object
  unfolding add_stats attr_add_u64
  stats_object tlv key s =
      let o = record (object_create fresh default_size) { key = key } in
      let counted = add_stats tlv s.stats stat_max 0 o in
      let named = attr_add_u64 tlv counted (stat_begin + process_id) (host.process_id s.world) in
      attr_add_u64 tlv named (stat_begin + objects_allocated) (host.objects_allocated s.world)

  -- `none`: an assertion about the key fails.
  unfoldable pub handle_stats : Tlv → Service W → Option (Bool × Service W)
  unfolding stats_object
  handle_stats tlv s =
      elim (key_init (object_create fresh default_size).key 2 (stat_begin - 1) 0 []) [
        | none ↦ none
        | some key ↦
            let r = send_one_object host.sock fd o_stats (some (stats_object tlv key s)) s.world in
            some (r.0, record s { world = r.1 })
      ]

  -- _some_data_
  unfoldable pub some_data : Tlv → Service W → Option (Bool × Service W)
  unfolding handle_get handle_commit handle_revert handle_stats
  some_data tlv s =
      let h = receive_header host.sock fd s.world in
      elim h.0 [
        | none ↦ some (false, record s { world = h.1 })
        | some (op, len) ↦
            let t = record s { world = h.1 } in
            if op == o_get
            then some (handle_get len t)
            else if op == o_commit_change
            then handle_commit tlv len t
            else if op == o_revert
            then some (handle_revert len t)
            else if op == o_stats
            then handle_stats tlv t
            else some (true, t)
      ]
