-- ===== src/Service/Transfer.antt =====
-- An answer from a service to a client: cps_api_handle_get of src/cps_api_operation_service.cpp with
-- cps_api_process_get_request of src/cps_api_client_ipc.cpp.
use opx_cps.Common.{
  ℕ, suc, ◌<◌, ◌≤◌, ◌≡◌, refl, sym, ap, ◌∙◌, inl, true, false, List, [], ◌∷◌, ◌++◌, append_assoc,
  append-nil, map, Option, none, some, arith, length,
}
use opx_cps.Key.{Key, elem_mod}
use opx_cps.Object.{Tlv, Object, to_array_len}
use opx_cps.Object.Encode.{Attr, Holds}
use opx_cps.Ipc.{send_header, header_bytes, object_bytes}
use opx_cps.Ipc.Words.{IsWords}
use opx_cps.Ipc.Pipe.{IsPipe, message, sent, header_arrives, object_arrives}
use opx_cps.Client.{Net, Received, ret_ok, ret_err, o_get_resp, o_get_done, receive_loop}
use opx_cps.Client.Answered.{Answers, finished, done, object, result}
use opx_cps.Client.Replies.{loop-Leaves}
use opx_cps.Service.{Host, Service}
use opx_cps.Service.Handlers.{send_all, get_answer}

module _ (tlv : Tlv) where
  -- Objects that can be sent: null, or well formed, with a key of words and a length of 32 bits.
  abbrev pub Sendable : List (Option Object) → Type 0
  Sendable [] = Unit
  Sendable (none ∷ os) = Sendable os
  Sendable (some o ∷ os) =
      ((xs : List Attr) × Holds tlv o xs × IsWords o.key × (to_array_len o < elem_mod))
      × Sendable os

  -- The objects of the first list that are not null have the keys and the attributes of the second.
  pub data Same : List (Option Object) → List Object → Type 0 where
    end : Same [] []
    null : {os : List (Option Object)} {ps : List Object} → Same os ps → Same (none ∷ os) ps
    one :
        {os : List (Option Object)} {ps : List Object} {o p : Object} (xs : List Attr)
        → Holds tlv o xs
        → Holds tlv p xs
        → p.key ≡ o.key
        → Same os ps
        → Same (some o ∷ os) (p ∷ ps)

  Same-length : {os : List (Option Object)} {ps : List Object} → Same os ps → length ps ≤ length os
  Same-length end = omega arith
  Same-length (null s) = omega (arith, Same-length s)
  Same-length (one xs h g k s) = omega (arith, Same-length s)

module _ {D W : Type 0} (tlv : Tlv) (net : Net D W) (base : Host W) (fresh : Key) (from to : ℕ)
    (flow : W → List ℕ) (pipe : IsPipe net.sock from to flow) where
  -- The service uses the same sockets as the client.
  abbrev pub host : Host W
  host = record base { sock = net.sock }

  -- The bytes of the objects of an answer.
  body : List (Option Object) → List ℕ
  body [] = []
  body (none ∷ os) = body os
  body (some o ∷ os) = message net.sock from to flow pipe o_get_resp (some o) ++ body os

  send_all-flow :
      (os : List (Option Object)) (w : W)
      → (w' : W) × (send_all host fresh from os w ≡ (true, w')) × (flow w' ≡ flow w ++ body os)
  unfolding send_all body
  send_all-flow [] w = (w, refl, sym (append-nil (flow w)))
  send_all-flow (none ∷ os) w = send_all-flow os w
  send_all-flow (some o ∷ os) w =
      let (w1, e, f) = sent net.sock from to flow pipe o_get_resp o w in
      let (w', r, g) = send_all-flow os w1 in
      (w', rw e r, g ∙ ap (λ b. b ++ body os) f ∙ append_assoc (flow w) _ (body os))

  body-Answers :
      (os : List (Option Object)) (w : W)
      → Sendable tlv os
      → flow w ≡ body os ++ (header_bytes o_get_done 0 ++ [])
      → (ps : List Object) × (z : W) × Answers net fresh to 0 w ps finished z
        × Same tlv os ps
        × (flow z ≡ [])
  unfolding body message
  body-Answers [] w s e =
      let (z, r, f) =
        header_arrives net.sock from to flow pipe o_get_done 0 [] w (omega arith) (omega arith) e in
      ([], z, done (inl (refl, refl)) r, end, f)
  body-Answers (none ∷ os) w s e =
      let (ps, z, a, m, f) = body-Answers os w s e in (ps, z, a, null m, f)
  body-Answers (some o ∷ os) w ((xs, h, k, small), s) e =
      let rest = body os ++ (header_bytes o_get_done 0 ++ []) in
      let e' : flow w ≡ header_bytes o_get_resp (to_array_len o) ++ (object_bytes o ++ rest) =
        e
        ∙ append_assoc _ (body os) _
        ∙ append_assoc (header_bytes o_get_resp (to_array_len o)) _ _ in
      let (v, r, f) =
        header_arrives net.sock from to flow pipe o_get_resp (to_array_len o)
          (object_bytes o ++ rest) w (omega arith) small e' in
      let (p, u, got, held, key, g) =
        object_arrives net.sock from to flow pipe tlv fresh o xs rest v h k small f in
      let (ps, z, a, m, q) = body-Answers os u s g in
      (p ∷ ps, z, object (inl (refl, refl)) r got a, one xs h held key m, q)

  -- If nothing is under way, and the read function has answered 0 with objects that can be sent,
  -- then the service sends its answer, and the client's loop, without a timeout, ends with the code
  -- 0, and with an object of the same key and attributes for each one that is not null, in order;
  -- nothing is left under way.
  pub get_answer-arrives :
      (list : List (Option Object)) (s : Service W)
      → Sendable tlv list
      → flow s.world ≡ []
      → (s' : Service W) × (get_answer host fresh from ret_ok list s ≡ (true, s'))
        × (r : Received W) × (receive_loop net fresh to 0
              (suc (length list))
              (record { op_valid = false; op = 0; rc = ret_err; list = []; world = s'.world })
            ≡ some r)
        × (result net fresh to 0 r ≡ ret_ok)
        × (ps : List Object) × (r.list ≡ map some ps)
        × Same tlv list ps
        × (flow r.world ≡ [])
  unfolding get_answer send_header
  get_answer-arrives list s able quiet =
      let (w1, sends, f) = send_all-flow list s.world in
      let (w2, head, g) = pipe.write_lem (header_bytes o_get_done 0) w1 in
      let under_way : flow w2 ≡ body list ++ (header_bytes o_get_done 0 ++ []) =
        g
        ∙ ap (λ b. b ++ header_bytes o_get_done 0) (f ∙ ap (λ b. b ++ body list) quiet)
        ∙ ap (λ b. body list ++ b) (sym (append-nil _)) in
      let (ps, z, a, m, q) = body-Answers list w2 able under_way in
      let start : Received W = record {
        op_valid = false;
        op = 0;
        rc = ret_err;
        list = [];
        world = w2;
      } in
      let l =
        loop-Leaves net fresh to 0 start (suc (length list)) refl
          (record { unfinished = refl; failing = λ n. refl }) (omega (arith, Same-length tlv m))
          a in
      (
        record s { world = w2 },
        rw sends (rw head refl),
        l.left,
        l.ended,
        l.code,
        ps,
        l.list,
        m,
        ap flow l.world ∙ q,
      )
