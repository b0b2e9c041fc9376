-- ===== src/Ipc/Tests.antt =====
-- Tests and witnesses of what goes over a connection.
use opx_cps.Common.{ℕ, ◌<◌, ◌≡◌, refl, true, false, List, [], ◌∷◌, some, arith, pos, negsuc}
use opx_cps.Key.{elem_mod}
use opx_cps.Object.{Object, to_array_len}
use opx_cps.Object.Encode.{Holds}
use opx_cps.Object.Sample.{tlv, key, object, attrs, object-Holds}
use opx_cps.Ipc.{header_bytes, send_one_object, receive_rc, recv_one_object}
use opx_cps.Ipc.Sample.{key-IsWords, line, line-IsPipe}
use opx_cps.Ipc.Pipe.{send_one-recv_one}

short : to_array_len object < elem_mod
unfolding to_array_len
short = omega arith

header_test : header_bytes 3 261 ≡ 0 ∷ 0 ∷ 0 ∷ 0 ∷ 5 ∷ 1 ∷ 0 ∷ 0 ∷ 3 ∷ 0 ∷ 0 ∷ 0 ∷ []
unfolding header_bytes
header_test = refl

rc_test : receive_rc line 1 (pos 0) (0xfe ∷ 0xff ∷ 0xff ∷ 0xff ∷ []) ≡ ((true, negsuc 1), [])
unfolding receive_rc
rc_test = refl

send_one-recv_one_example :
    (w1 : List ℕ) × (send_one_object line 0 7 (some object) [] ≡ (true, w1))
    × (p : Object) × (w2 : List ℕ) × (recv_one_object line key 1 7 false w1 ≡ ((true, some p), w2))
    × Holds tlv p attrs
    × (p.key ≡ key)
    × (w2 ≡ [])
send_one-recv_one_example =
    send_one-recv_one line 0 1 (λ w. w) (line-IsPipe 0 1) tlv key 7 false object attrs []
      object-Holds key-IsWords short (omega arith) refl
