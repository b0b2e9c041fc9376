-- ===== src/Client/Rounds.antt =====
-- One round of the loop over the answers to a get request.
use opx_cps.Common.{
  ℕ, suc, ◌<◌, ◌≡◌, refl, sym, true, false, ◌&&◌, List, [], ◌∷◌, ◌++◌, Option, none, some, arith,
  ltb, ◌==◌, if◌then◌else◌, Bool-cases, inl, inr, ℤ, is_zero,
}
use opx_cps.Key.{Key}
use opx_cps.Object.{Object}
use opx_cps.Ipc.{word_at, word_rc, receive_header, receive_data, receive_rc, receive_object}
use opx_cps.Client.{
  Net, Received, ret_ok, ret_err, o_get_resp, o_get_done, o_return_code, timeout_wait, code_read,
  waited, received, receive_one, receive_loop,
}
use opx_cps.Client.Answered.{broken, code_of, Ready, result}

module _ {D W : Type 0} (net : Net D W) (fresh : Key) (handle timeout : ℕ) where
  -- Before a round: nothing but an object has arrived, and the code is the one of an error, unless
  -- there is a timeout.
  pub record IsOpen (s : Received W) : Type 0 where
    pub unfinished : (s.op_valid && (s.op == o_get_done)) ≡ false
    pub failing : (ltb 0 timeout ≡ false) → s.rc ≡ ret_err

  -- The code after the waiting.
  abbrev pub rc_in : Received W → ℤ
  rc_in s = if ltb 0 timeout then ret_ok else s.rc

  abbrev pub awake : Received W → W → Received W
  awake s w' = record s { rc = rc_in s; world = w' }

  pub waited-Ready :
      (s : Received W) (w' : W)
      → Ready net fresh handle timeout s.world w'
      → waited net fresh handle timeout s ≡ (true, awake s w')
  unfolding waited
  waited-Ready s w' (inl (e, same)) =
      let no_wait : ltb 0 timeout ≡ false = ground arith in
      rw (no_wait) (λ i. (true, record s { world = sym same i }))
  waited-Ready s w' (inr (more, r)) =
      let wait : ltb 0 timeout ≡ true = ground arith in
      rw (wait) (λ i. (is_zero (r i).0, record s { rc = (r i).0; world = (r i).1 }))

  pub one_round :
      (s : Received W) (w' : W)
      → Ready net fresh handle timeout s.world w'
      → receive_one net fresh handle timeout s ≡ received net fresh handle timeout (awake s w')
  unfolding receive_one
  one_round s w' r = rw (waited-Ready s w' r) refl

  -- A state in which the loop ends.
  pub ends :
      (fuel : ℕ) (s r : Received W)
      → receive_one net fresh handle timeout s ≡ (false, r)
      → receive_loop net fresh handle timeout (suc fuel) s ≡ some r
  unfolding receive_loop
  ends fuel s r e = rw e refl

  pub goes_on :
      (fuel : ℕ) (s r : Received W)
      → receive_one net fresh handle timeout s ≡ (true, r)
      → receive_loop net fresh handle timeout (suc fuel) s
        ≡ receive_loop net fresh handle timeout fuel r
  unfolding receive_loop
  goes_on fuel s r e = rw e refl

  pub broken_code : (s : Received W) → IsOpen s → rc_in s ≡ code_of timeout broken
  broken_code s v = elim (Bool-cases (ltb 0 timeout)) [
    | inl wait ↦ rw wait refl
    | inr no_wait ↦ rw no_wait (v.failing no_wait)
  ]

  pub open_code :
      (r : Received W)
      → (r.op_valid && (r.op == o_get_done)) ≡ false
      → result net fresh handle timeout r ≡ r.rc
  open_code r h = ground (arith, h)

  pub timed_out :
      (s : Received W) (u : W) (rc : ℤ)
      → 0 < timeout
      → timeout_wait net handle timeout s.world ≡ (rc, u)
      → is_zero rc ≡ false
      → receive_one net fresh handle timeout s ≡ (false, record s { rc = rc; world = u })
  unfolding receive_one waited
  timed_out s u rc more t bad =
      let wait : ltb 0 timeout ≡ true = ground arith in rw wait (rw t (rw bad refl))

  -- What each message does to a state `t` after the waiting.
  pub got_nothing :
      (t : Received W) {v : W}
      → receive_header net.sock handle t.world ≡ (none, v)
      → received net fresh handle timeout t ≡ (false, record t { world = v })
  unfolding received
  got_nothing t h = rw (h, received) (rw h refl)

  pub got_end :
      (t : Received W) {v : W} {op len : ℕ}
      → receive_header net.sock handle t.world ≡ (some (op, len), v)
      → (op == o_return_code) ≡ false
      → (op == o_get_resp) ≡ false
      → received net fresh handle timeout t
        ≡ (false, record t { op_valid = true; op = op; world = v })
  unfolding received
  got_end t h p q = rw (h, received) (rw h (rw p (rw q refl)))

  pub got_code :
      (t : Received W) {v u : W} {len : ℕ} (o : Option (List ℕ))
      → receive_header net.sock handle t.world ≡ (some (o_return_code, len), v)
      → receive_data net.sock handle 4 v ≡ (o, u)
      → received net fresh handle timeout t ≡ (
        false,
        record t {
          op_valid = true;
          op = o_return_code;
          rc = elim o [ none ↦ t.rc | some b ↦ word_rc (word_at b 0) ];
          world = u;
        },
      )
  unfolding received code_read receive_rc receive_data
  got_code t none h d = rw (h, received) (rw h (rw d (rw (d, receive_rc) refl)))
  got_code t (some b) h d = rw (h, received) (rw h (rw d (rw (d, receive_rc) refl)))

  pub got_object :
      (t : Received W) {v u : W} {len : ℕ} {o : Object}
      → receive_header net.sock handle t.world ≡ (some (o_get_resp, len), v)
      → receive_object net.sock fresh handle len v ≡ (some o, u)
      → received net fresh handle timeout t ≡ (
        true,
        record t { op_valid = true; op = o_get_resp; list = t.list ++ some o ∷ []; world = u },
      )
  unfolding received
  got_object t h d = rw (h, received) (rw h (rw d (rw h (rw d refl))))

  pub got_no_object :
      (t : Received W) {v u : W} {len : ℕ}
      → receive_header net.sock handle t.world ≡ (some (o_get_resp, len), v)
      → receive_object net.sock fresh handle len v ≡ (none, u)
      → received net fresh handle timeout t
        ≡ (false, record t { op_valid = true; op = o_get_resp; world = u })
  unfolding received
  got_no_object t h d = rw (h, received) (rw h (rw d (rw h (rw d refl))))
  -- The end of the loop after the waiting.
