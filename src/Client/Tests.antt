-- ===== src/Client/Tests.antt =====
-- Tests and witnesses of the client's requests.
use opx_cps.Common.{ℕ, ◌+◌, ◌<◌, ◌≡◌, refl, inr, true, [], none, some, arith, pos}
use opx_cps.KeyCache.{find, find_entry, bucket}
use opx_cps.Object.{to_array_len}
use opx_cps.Object.Sample.{key, object}
use opx_cps.Ipc.{send_one_object, receive_header}
use opx_cps.Client.{Net, State, get_handle, process_get_request, timeout_wait, ret_ok, o_get}
use opx_cps.Client.Answered.{broken, lost}
use opx_cps.Client.Replies.{process_get_request-Answers}

-- A network on which everything can be sent and nothing arrives; its state counts what is done.
abbrev net : Net ℕ ℕ
net = record {
  sock = record { write = λ h b w. (true, w + 1); read = λ h n w. (none, w + 10) };
  connect = λ d w. (some d, w + 100);
  connect_ns = λ w. (none, w);
  close = λ h w. w + 1000;
  uptime = λ w. w;
  select = λ h t w. (pos 1, w);
  find_owners = λ k w. (some 3, w);
}

abbrev state : State ℕ ℕ
state = record { cache = []; world = 0 }

-- The state after the service is found.
abbrev found : State ℕ ℕ
found = (get_handle net (λ x. x) key state).1

reached : get_handle net (λ x. x) key state ≡ (some 3, found)
unfolding get_handle find find_entry bucket
reached = refl

taken : send_one_object net.sock 3 o_get (some object) found.world ≡ (true, 102)
unfolding get_handle find find_entry bucket send_one_object to_array_len
taken = refl

ready : (0 < 5) × (timeout_wait net 3 5 102 ≡ (ret_ok, 102))
unfolding timeout_wait
ready = (omega arith, refl)

nothing : receive_header net.sock 3 102 ≡ (none, 112)
unfolding receive_header
nothing = refl

process_get_request-Answers_example :
    process_get_request net (λ x. x) key 1 5 object [] state
    ≡ some (pos 0, [], record found { world = 1112 })
process_get_request-Answers_example =
    process_get_request-Answers net (λ x. x) key 1 5 3 object [] state found [] broken 102 112
      reached taken (lost {w' = 102} {v = 112} (inr ready) nothing) (omega arith)
