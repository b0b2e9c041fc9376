-- ===== src/Client.antt =====
-- The client's side of a request to a service: cps_api_get_handle and cps_api_process_get_request of
-- src/cps_api_client_ipc.cpp; Requests has the other requests.
-- `D` is what the name server knows of an owner (cps_api_object_owner_reg_t). The sockets, the clock
-- and the look-up at the name server are the interface `Net`. Messages are those of Ipc.
pub mod Requests
pub mod Answered
pub mod Rounds
pub mod Replies
mod Tests
use opx_cps.Common.{
  ℕ, zero, suc, ◌+◌, ◌-◌, ◌*◌, ◌%◌, ◌^◌, ◌≡◌, Bool, true, false, not, ◌&&◌, ◌||◌, List, [], ◌∷◌,
  ◌++◌, Option, none, some, ltb, ◌==◌, if◌then◌else◌, ℤ, pos, negsuc, is_zero,
}
use opx_cps.Key.{Key}
use opx_cps.KeyCache.{Cache, find, erase, insert}
use opx_cps.Object.{Tlv, Object, object_clone}
use opx_cps.Ipc.{
  Sock, word_rc, send_header, send_one_object, receive_header, receive_rc, receive_object,
}

-- cps_api_return_code_t
abbrev pub ret_ok : ℤ
ret_ok = pos 0

abbrev pub ret_err : ℤ
ret_err = pos 1

abbrev pub ret_no_service : ℤ
ret_no_service = pos 2

abbrev pub ret_connect_fail : ℤ
ret_connect_fail = pos 3

abbrev pub ret_timeout : ℤ
ret_timeout = pos 5

-- cps_api_msg_operation_t
abbrev pub o_get : ℕ
o_get = 0

abbrev pub o_get_resp : ℕ
o_get_resp = 1

abbrev pub o_get_done : ℕ
o_get_done = 2

abbrev pub o_commit_object : ℕ
o_commit_object = 4

abbrev pub o_return_code : ℕ
o_return_code = 5

abbrev pub o_revert : ℕ
o_revert = 6

abbrev pub o_commit_change : ℕ
o_commit_change = 7

abbrev pub o_commit_prev : ℕ
o_commit_prev = 8

abbrev pub o_stats : ℕ
o_stats = 9

-- std_sock_connect to an owner and to the name server, close, std_get_uptime in microseconds,
-- std_select_ignore_intr on one handle with a time in milliseconds, and cps_api_find_owners.
pub record Net (D W : Type 0) : Type 0 where
  pub sock : Sock W
  pub connect : D → W → Option ℕ × W
  pub connect_ns : W → Option ℕ × W
  pub close : ℕ → W → W
  pub uptime : W → ℕ
  pub select : ℕ → ℕ → W → ℤ × W
  pub find_owners : Key → W → Option D × W

-- cache_entry
pub record CacheEntry (D : Type 0) : Type 0 where
  pub owner : D
  pub last_updated : ℕ

-- `_cache`, and the state of the connections.
pub record State (D W : Type 0) : Type 0 where
  pub cache : Cache (CacheEntry D)
  pub world : W

-- 20 seconds.
abbrev pub cache_time : ℕ
cache_time = 20000000

module _ {D W : Type 0} (net : Net D W) (std_hash : ℕ → ℕ) where
  unfoldable pub fill_cache : Key → D → State D W → State D W
  fill_cache key owner s = record s {
    cache =
        insert std_hash key (record { owner = owner; last_updated = net.uptime s.world }) true
          (erase std_hash key s.cache);
  }

  -- cps_api_connect_owner: the code and the handle.
  unfoldable pub connect_owner : D → W → Option ℕ × W
  connect_owner o w = net.connect o w

  -- The time since the entry is a difference of 64-bit numbers.
  unfoldable pub expired : CacheEntry D → W → Bool
  expired ce w = ltb cache_time ((net.uptime w + 2 ^ 64 - ce.last_updated) % 2 ^ 64)

  unfoldable pub cache_connect : Key → State D W → Option ℕ × State D W
  unfolding connect_owner expired
  cache_connect key s = elim (find std_hash key true s.cache) [
    | none ↦ (none, s)
    | some ce ↦
        let forgotten = record s { cache = erase std_hash key s.cache } in
        let r = connect_owner ce.owner s.world in
        if expired ce s.world then (none, forgotten) else elim r.0 [
          | none ↦ (none, record forgotten { world = r.1 })
          | some h ↦ (some h, record s { world = r.1 })
        ]
  ]

  -- cps_api_get_handle
  unfoldable pub get_handle : Key → State D W → Option ℕ × State D W
  unfolding cache_connect connect_owner fill_cache
  get_handle key s =
      let c = cache_connect key s in
      elim c.0 [
        | some h ↦ (some h, c.1)
        | none ↦
            let f = net.find_owners key c.1.world in
            elim f.0 [
              | none ↦ (none, record c.1 { world = f.1 })
              | some owner ↦
                  let r = connect_owner owner f.1 in
                  elim r.0 [
                    | none ↦ (none, record c.1 { world = r.1 })
                    | some h ↦ (some h, fill_cache key owner (record c.1 { world = r.1 }))
                  ]
            ]
      ]

module _ {D W : Type 0} (net : Net D W) where
  -- cps_api_timeout_wait; the time is a `size_t` in milliseconds.
  unfoldable pub timeout_wait : ℕ → ℕ → W → ℤ × W
  timeout_wait handle timeout w =
      let r = net.select handle timeout w in
      (
        elim r.0 [
          | pos n ↦ if n == 0 then ret_timeout else ret_ok
          | negsuc n ↦ if n == 0 then ret_err else ret_ok
        ],
        r.1,
      )

-- What the inner loop of cps_api_process_get_request leaves.
pub record Received (W : Type 0) : Type 0 where
  pub op_valid : Bool
  pub op : ℕ
  pub rc : ℤ
  pub list : List (Option Object)
  pub world : W

module _ {D W : Type 0} (net : Net D W) (fresh : Key) (handle timeout : ℕ) where
  -- The return code that follows a header; the result of the reading is not looked at.
  unfoldable pub code_read : Received W → Received W
  code_read s =
      let r = receive_rc net.sock handle s.rc s.world in record s { rc = r.0.1; world = r.1 }

  -- The waiting, where there is a timeout: whether the loop goes on.
  unfoldable pub waited : Received W → Bool × Received W
  waited s =
      let t = timeout_wait net handle timeout s.world in
      if ltb 0 timeout then (is_zero t.0, record s { rc = t.0; world = t.1 }) else (true, s)

  -- The message that follows: whether the loop goes on.
  unfoldable pub received : Received W → Bool × Received W
  unfolding code_read
  received s =
      let h = receive_header net.sock handle s.world in
      elim h.0 [
        | none ↦ (false, record s { world = h.1 })
        | some (op, len) ↦
            let headed = record s { op_valid = true; op = op; world = h.1 } in
            let o = receive_object net.sock fresh handle len h.1 in
            if op == o_return_code
            then (false, code_read headed)
            else if not (op == o_get_resp)
            then (false, headed)
            else elim o.0 [
              | none ↦ (false, record headed { world = o.1 })
              | some obj ↦ (true, record headed { list = s.list ++ some obj ∷ []; world = o.1 })
            ]
      ]

  -- One round: whether the loop goes on, and what it leaves.
  unfoldable pub receive_one : Received W → Bool × Received W
  receive_one s = let a = waited s in let b = received a.1 in if a.0 then b else (false, a.1)

  -- `none`: the fuel ran out.
  unfoldable pub receive_loop : ℕ → Received W → Option (Received W)
  receive_loop zero s = none
  receive_loop (suc fuel) s =
      let r = receive_one s in let rest = receive_loop fuel r.1 in if r.0 then rest else some r.1

module _ {D W : Type 0} (net : Net D W) (std_hash : ℕ → ℕ) (fresh : Key) where
  -- cps_api_process_get_request for the filter `o`, which is not null: the objects are put behind
  -- the list. `none`: the fuel ran out.
  unfoldable pub process_get_request :
      ℕ
      → ℕ
      → Object
      → List (Option Object)
      → State D W
      → Option (ℤ × List (Option Object) × State D W)
  process_get_request fuel timeout o list s =
      let g = get_handle net std_hash o.key s in
      elim g.0 [
        | none ↦ some (ret_no_service, list, g.1)
        | some handle ↦
            let sent = send_one_object net.sock handle o_get (some o) g.1.world in
            if not sent.0
            then some (ret_err, list, record g.1 { world = net.close handle sent.1 })
            else elim (receive_loop net fresh handle timeout fuel
                (record { op_valid = false; op = 0; rc = ret_err; list = list; world = sent.1 })) [
                  | none ↦ none
                  | some r ↦ some (
                    if not r.op_valid || not (r.op == o_get_done) then r.rc else ret_ok,
                    r.list,
                    record g.1 { world = net.close handle r.world },
                  )
                ]
      ]
