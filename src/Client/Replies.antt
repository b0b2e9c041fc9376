-- ===== src/Client/Replies.antt =====
-- The answers to a get request: what cps_api_process_get_request makes of what the service sends.
use opx_cps.Common.{
  ℕ, zero, suc, ◌<◌, ◌≡◌, refl, sym, ◌∙◌, true, false, List, [], ◌∷◌, ◌++◌, append_assoc,
  append-nil, subst, map, Option, none, some, arith, length,
}
use opx_cps.Key.{Key}
use opx_cps.Object.{Object}
use opx_cps.Ipc.{word_at, word_rc, send_one_object}
use opx_cps.Client.{
  Net, State, Received, ret_err, o_get, o_get_resp, o_get_done, o_return_code, get_handle,
  timeout_wait, received, receive_loop, process_get_request,
}
use opx_cps.Client.Answered.{
  End, code_of, Ready, Answers, done, code, expired, lost, lost_code, stray, no_object, object,
  result,
}
use opx_cps.Client.Rounds.{
  IsOpen, awake, one_round, ends, goes_on, broken_code, open_code, timed_out, got_nothing, got_end,
  got_code, got_object, got_no_object,
}

module _ {D W : Type 0} (net : Net D W) (fresh : Key) (handle timeout : ℕ) where
  -- What the loop leaves.
  pub record Leaves (s : Received W) (os : List Object) (e : End) (z : W) (fuel : ℕ) : Type 0 where
    pub left : Received W
    pub ended : receive_loop net fresh handle timeout fuel s ≡ some left
    pub code : result net fresh handle timeout left ≡ code_of timeout e
    pub list : left.list ≡ s.list ++ map some os
    pub world : left.world ≡ z

  closes :
      (fuel : ℕ) (s : Received W) {w w' : W} (left : Received W)
      → s.world ≡ w
      → Ready net fresh handle timeout w w'
      → received net fresh handle timeout (awake net fresh handle timeout s w') ≡ (false, left)
      → receive_loop net fresh handle timeout (suc fuel) s ≡ some left
  closes fuel s {w' = w'} left at r e = ends net fresh handle timeout fuel s left (
      one_round net fresh handle timeout s w'
        (subst (λ x. Ready net fresh handle timeout x w') (sym at) r)
      ∙ e)

  pub loop-Leaves :
      (s : Received W) {w : W} {os : List Object} {e : End} {z : W} (fuel : ℕ)
      → s.world ≡ w
      → IsOpen net fresh handle timeout s
      → length os < fuel
      → Answers net fresh handle timeout w os e z
      → Leaves s os e z fuel
  loop-Leaves s zero at v f a = absurd (omega arith)
  loop-Leaves s (suc fuel) at v f (done {w' = w'} {v = u} r h) = record {
    left = record (awake net fresh handle timeout s w') {
      op_valid = true;
      op = o_get_done;
      world = u;
    };
    ended =
        closes fuel s _ at r
          (got_end net fresh handle timeout (awake net fresh handle timeout s w') h refl refl);
    code = refl;
    list = sym (append-nil s.list);
    world = refl;
  }
  loop-Leaves s (suc fuel) at v f (code {w' = w'} {u = u} {b = b} r h d) = record {
    left = record (awake net fresh handle timeout s w') {
      op_valid = true;
      op = o_return_code;
      rc = word_rc (word_at b 0);
      world = u;
    };
    ended =
        closes fuel s _ at r
          (got_code net fresh handle timeout (awake net fresh handle timeout s w') (some b) h d);
    code = refl;
    list = sym (append-nil s.list);
    world = refl;
  }
  loop-Leaves s (suc fuel) at v f (expired {v = u} {rc = rc} more t bad) = record {
    left = record s { rc = rc; world = u };
    ended = ends net fresh handle timeout fuel s _ (
        timed_out net fresh handle timeout s u rc more
          (subst (λ x. timeout_wait net handle timeout x ≡ (rc, u)) (sym at) t) bad);
    code = open_code net fresh handle timeout (record s { rc = rc }) v.unfinished;
    list = sym (append-nil s.list);
    world = refl;
  }
  loop-Leaves s (suc fuel) at v f (lost {w' = w'} {v = u} r h) = record {
    left = record (awake net fresh handle timeout s w') { world = u };
    ended =
        closes fuel s _ at r
          (got_nothing net fresh handle timeout (awake net fresh handle timeout s w') h);
    code =
        open_code net fresh handle timeout (awake net fresh handle timeout s w') v.unfinished
        ∙ broken_code net fresh handle timeout s v;
    list = sym (append-nil s.list);
    world = refl;
  }
  loop-Leaves s (suc fuel) at v f (lost_code {w' = w'} {u = u} r h d) = record {
    left = record (awake net fresh handle timeout s w') {
      op_valid = true;
      op = o_return_code;
      world = u;
    };
    ended =
        closes fuel s _ at r
          (got_code net fresh handle timeout (awake net fresh handle timeout s w') none h d);
    code = broken_code net fresh handle timeout s v;
    list = sym (append-nil s.list);
    world = refl;
  }
  loop-Leaves s (suc fuel) at v f (stray {w' = w'} {v = u} {op = op} r h other) = record {
    left = record (awake net fresh handle timeout s w') { op_valid = true; op = op; world = u };
    ended = closes fuel s _ at r (
        got_end net fresh handle timeout (awake net fresh handle timeout s w') h
          (ground (arith, other.1)) (ground (arith, other.2)));
    code =
        open_code net fresh handle timeout
          (record (awake net fresh handle timeout s w') { op_valid = true; op = op })
          (ground (arith, other.0))
        ∙ broken_code net fresh handle timeout s v;
    list = sym (append-nil s.list);
    world = refl;
  }
  loop-Leaves s (suc fuel) at v f (no_object {w' = w'} {u = u} r h o) = record {
    left = record (awake net fresh handle timeout s w') {
      op_valid = true;
      op = o_get_resp;
      world = u;
    };
    ended =
        closes fuel s _ at r
          (got_no_object net fresh handle timeout (awake net fresh handle timeout s w') h o);
    code = broken_code net fresh handle timeout s v;
    list = sym (append-nil s.list);
    world = refl;
  }
  loop-Leaves s (suc fuel) at v f (object {w' = w'} {u = u} {o = o} {os = os} r h d rest) =
      let t : Received W = record (awake net fresh handle timeout s w') {
        op_valid = true;
        op = o_get_resp;
        list = s.list ++ some o ∷ [];
        world = u;
      } in
      let l =
        loop-Leaves t fuel refl (record { unfinished = refl; failing = λ n. rw n (v.failing n) })
          (omega arith) rest in
      record {
        left = l.left;
        ended =
            goes_on net fresh handle timeout fuel s t (
              one_round net fresh handle timeout s w'
                (subst (λ x. Ready net fresh handle timeout x w') (sym at) r)
              ∙ got_object net fresh handle timeout (awake net fresh handle timeout s w') h d)
            ∙ l.ended;
        code = l.code;
        list = l.list ∙ append_assoc s.list (some o ∷ []) (map some os);
        world = l.world;
      }

-- If the service is reached and takes the request, and then sends these objects and ends like this,
-- with more fuel than objects, the call returns: the objects stand behind the list in their order,
-- the handle is closed, and the code is 0 after GET_DONE, or the one that was sent, or that of the
-- timeout. Where the connection is lost or something else arrives, it is an error without a
-- timeout; but with one it is 0.
pub process_get_request-Answers :
    {D W : Type 0} (net : Net D W) (std_hash : ℕ → ℕ) (fresh : Key) (fuel timeout handle : ℕ)
    (o : Object) (list : List (Option Object)) (s s1 : State D W) (os : List Object) (e : End)
    (w z : W)
    → get_handle net std_hash o.key s ≡ (some handle, s1)
    → send_one_object net.sock handle o_get (some o) s1.world ≡ (true, w)
    → Answers net fresh handle timeout w os e z
    → length os < fuel
    → process_get_request net std_hash fresh fuel timeout o list s
      ≡ some (code_of timeout e, list ++ map some os, record s1 { world = net.close handle z })
unfolding process_get_request
process_get_request-Answers {W = W} net std_hash fresh fuel timeout handle o list s s1 os e w z g
      sent a f =
    let start : Received W = record {
      op_valid = false;
      op = 0;
      rc = ret_err;
      list = list;
      world = w;
    } in
    let l =
      loop-Leaves net fresh handle timeout start fuel refl
        (record { unfinished = refl; failing = λ n. refl }) f a in
    rw (g, process_get_request)
      (rw g (
        rw sent (
          rw (l.ended, process_get_request)
            (rw g (λ i.
              some (l.code i, l.list i, record s1 { world = net.close handle (l.world i) }))))))
