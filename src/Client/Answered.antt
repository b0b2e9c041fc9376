-- ===== src/Client/Answered.antt =====
-- What a service may answer to a get request, and the code that the client then returns.
use opx_cps.Common.{
  ℕ, ◌<◌, ◌≡◌, ◌≢◌, false, not, ◌||◌, List, [], ◌∷◌, none, some, ltb, ◌==◌, if◌then◌else◌, ◌⊎◌, ℤ,
  is_zero,
}
use opx_cps.Key.{Key}
use opx_cps.Object.{Object}
use opx_cps.Ipc.{word_at, word_rc, receive_header, receive_data, receive_object}
use opx_cps.Client.{
  Net, Received, ret_ok, ret_err, o_get_resp, o_get_done, o_return_code, timeout_wait,
}

-- How the answers end: with GET_DONE, with a return code, because the time is over or the waiting
-- fails, or without any of these: the connection is lost, or something else arrives.
pub data End : Type 0 where
  finished : End
  coded : ℤ → End
  late : ℤ → End
  broken : End

-- The code that the function returns.
abbrev pub code_of : ℕ → End → ℤ
code_of timeout finished = ret_ok
code_of timeout (coded rc) = rc
code_of timeout (late rc) = rc
code_of timeout broken = if ltb 0 timeout then ret_ok else ret_err

module _ {D W : Type 0} (net : Net D W) (fresh : Key) (handle timeout : ℕ) where
  -- Without a timeout there is no waiting.
  abbrev pub Ready : W → W → Type 0
  Ready w w' =
      ((timeout ≡ 0) × (w' ≡ w))
      ⊎ ((0 < timeout) × (timeout_wait net handle timeout w ≡ (ret_ok, w')))

  -- From the first state to the last one the service sends these objects, and ends like this.
  pub data Answers : W → List Object → End → W → Type 0 where
    done :
        {w w' v : W} {len : ℕ}
        → Ready w w'
        → receive_header net.sock handle w' ≡ (some (o_get_done, len), v)
        → Answers w [] finished v
    code :
        {w w' v u : W} {len : ℕ} {b : List ℕ}
        → Ready w w'
        → receive_header net.sock handle w' ≡ (some (o_return_code, len), v)
        → receive_data net.sock handle 4 v ≡ (some b, u)
        → Answers w [] (coded (word_rc (word_at b 0))) u
    expired :
        {w v : W} {rc : ℤ}
        → 0 < timeout
        → timeout_wait net handle timeout w ≡ (rc, v)
        → is_zero rc ≡ false
        → Answers w [] (late rc) v
    lost :
        {w w' v : W}
        → Ready w w'
        → receive_header net.sock handle w' ≡ (none, v)
        → Answers w [] broken v
    lost_code :
        {w w' v u : W} {len : ℕ}
        → Ready w w'
        → receive_header net.sock handle w' ≡ (some (o_return_code, len), v)
        → receive_data net.sock handle 4 v ≡ (none, u)
        → Answers w [] broken u
    stray :
        {w w' v : W} {op len : ℕ}
        → Ready w w'
        → receive_header net.sock handle w' ≡ (some (op, len), v)
        → (op ≢ o_get_done) × (op ≢ o_return_code) × (op ≢ o_get_resp)
        → Answers w [] broken v
    no_object :
        {w w' v u : W} {len : ℕ}
        → Ready w w'
        → receive_header net.sock handle w' ≡ (some (o_get_resp, len), v)
        → receive_object net.sock fresh handle len v ≡ (none, u)
        → Answers w [] broken u
    object :
        {w w' v u z : W} {len : ℕ} {o : Object} {os : List Object} {e : End}
        → Ready w w'
        → receive_header net.sock handle w' ≡ (some (o_get_resp, len), v)
        → receive_object net.sock fresh handle len v ≡ (some o, u)
        → Answers u os e z
        → Answers w (o ∷ os) e z

  -- The code that is left when the loop has ended.
  abbrev pub result : Received W → ℤ
  result r = if not r.op_valid || not (r.op == o_get_done) then r.rc else ret_ok
