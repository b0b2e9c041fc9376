-- ===== src/Service/Tests.antt =====
-- Tests and witnesses of a service.
use opx_cps.Common.{
  ℕ, ◌+◌, ◌≡◌, refl, true, false, List, [], ◌∷◌, ◌++◌, map, replicate, none, some, arith, pos,
}
use opx_cps.Key.{Key, key_matches, key_array_matches, memcmp, bytes}
use opx_cps.Object.{Object, to_array_len}
use opx_cps.Object.Sample.{tlv, key, object, attrs, object-Holds}
use opx_cps.Ipc.Sample.{line, line-IsPipe, key-IsWords}
use opx_cps.Client.{Net, Received, ret_ok, ret_err, receive_loop}
use opx_cps.Client.Answered.{result}
use opx_cps.Service.{Host, Service, Functions, insert_functions}
use opx_cps.Service.Order.{IsSound, empty, added, Longest, find_function-Longest}
use opx_cps.Service.Handlers.{get_answer}
use opx_cps.Service.Transfer.{Sendable, Same, host, get_answer-arrives}

abbrev key_of : List ℕ → ℕ → Key
key_of es n = record { len = n; attr = 0; slots = es ++ replicate 60 0 }

abbrev short_key : Key
short_key = key_of (1 ∷ 0 ∷ []) 1

abbrev long_key : Key
long_key = key_of (1 ∷ 2 ∷ []) 2

abbrev functions : Key → ℕ → Functions ℕ
functions k n = record {
  key = k;
  read_function = some (λ o w. (ret_ok, [], w + n));
  write_function = none;
  rollback_function = none;
}

-- The longer key is registered later, and stands in front.
order_test :
    insert_functions (functions long_key 2) (insert_functions (functions short_key 1) [])
    ≡ functions long_key 2 ∷ functions short_key 1 ∷ []
unfolding insert_functions key_matches key_array_matches memcmp bytes
order_test = refl

short-IsSound : IsSound short_key
short-IsSound = record { words = omega arith; size = refl }

long-IsSound : IsSound long_key
long-IsSound = record { words = omega arith; size = refl }

find_function-Longest_example :
    Longest
      (λ p. p.read_function)
      long_key
      (insert_functions (functions long_key 2) (insert_functions (functions short_key 1) []))
find_function-Longest_example =
    find_function-Longest (λ p. p.read_function) long_key
      (insert_functions (functions long_key 2) (insert_functions (functions short_key 1) []))
      long-IsSound
      (added (functions long_key 2) long-IsSound
        (added (functions short_key 1) short-IsSound empty))

-- A client and a service on one line.
abbrev net : Net ℕ (List ℕ)
net = record {
  sock = line;
  connect = λ d w. (some d, w);
  connect_ns = λ w. (none, w);
  close = λ h w. w;
  uptime = λ w. 0;
  select = λ h t w. (pos 1, w);
  find_owners = λ k w. (some 1, w);
}

abbrev base : Host (List ℕ)
base = record {
  sock = line;
  uptime = λ w. 0;
  quotient = λ a b. 0;
  connect_ns = λ w. (none, w);
  client_add = λ h w. (true, w);
  close = λ h w. w;
  process_id = λ w. 1;
  objects_allocated = λ w. 0;
}

abbrev service : Service (List ℕ)
service = record { functions = []; address = []; stats = λ k. 0; ns_handle = none; world = [] }

sendable : Sendable tlv (some object ∷ none ∷ [])
unfolding to_array_len
sendable = ((attrs, object-Holds, key-IsWords, omega arith), tt)

get_answer-arrives_example :
    (s' : Service (List ℕ)) × (get_answer
        (host tlv net base key 0 1 (λ w. w) (line-IsPipe 0 1))
        key
        0
        ret_ok
        (some object ∷ none ∷ [])
        service
      ≡ (true, s'))
    × (r : Received (List ℕ)) × (receive_loop net key 1 0 3
          (record { op_valid = false; op = 0; rc = ret_err; list = []; world = s'.world })
        ≡ some r)
    × (result net key 1 0 r ≡ ret_ok)
    × (ps : List Object) × (r.list ≡ map some ps)
    × Same tlv (some object ∷ none ∷ []) ps
    × (r.world ≡ [])
get_answer-arrives_example =
    get_answer-arrives tlv net base key 0 1 (λ w. w) (line-IsPipe 0 1) (some object ∷ none ∷ [])
      service sendable refl
