-- ===== src/Ipc.antt =====
-- What goes over a connection: cps_api_send_.., cps_api_receive_.. and cps_api_recv_one_object of
-- src/cps_api_client_ipc.cpp, and cps_api_send_return_code and cps_api_send_one_object of
-- inc/opx/private/cps_api_client_utils.h.
-- std_write and std_read of another package are the interface `Sock`; `W` is the state of all
-- connections. The host is little-endian.
pub mod Words
pub mod Pipe
pub mod Sample
mod Tests
use opx_cps.Common.{
  ℕ, zero, suc, ◌+◌, ◌-◌, ◌*◌, ◌%◌, ◌^◌, ◌≡◌, Bool, true, false, not, List, [], ◌∷◌, ◌++◌, Option,
  none, some, length, take, drop, get_or, ltb, ◌==◌, if◌then◌else◌, ℤ, pos, negsuc,
}
use opx_cps.Key.{Key, elem_mod, bytes}
use opx_cps.Object.{Object, data_size, default_size, used, object_create, to_array_len}
use opx_cps.Object.Received.{object_received, object_reserve}

-- std_write and std_read with `all` set: whether all bytes were written, and the bytes if that many
-- were read.
pub record Sock (W : Type 0) : Type 0 where
  pub write : ℕ → List ℕ → W → Bool × W
  pub read : ℕ → ℕ → W → Option (List ℕ) × W

-- sizeof(cps_msg_hdr_t)
abbrev pub hdr_size : ℕ
hdr_size = 12

-- A word at a position of the bytes.
unfoldable pub word_at : List ℕ → ℕ → ℕ
word_at b i =
    get_or b i 0
    + 256 * get_or b (i + 1) 0
    + 65536 * get_or b (i + 2) 0
    + 16777216 * get_or b (i + 3) 0

unfoldable pub words_of : ℕ → List ℕ → List ℕ
words_of zero b = []
words_of (suc n) b = word_at b 0 ∷ words_of n (drop 4 b)

-- cps_msg_hdr_t: the version, the length, and the operation, of 32 bits each.
unfoldable pub header_bytes : ℕ → ℕ → List ℕ
unfolding bytes
header_bytes op len = bytes (0 ∷ len ∷ op ∷ [])

-- An enumeration of 32 bits, in two's complement.
unfoldable pub rc_word : ℤ → ℕ
rc_word (pos n) = n % elem_mod
rc_word (negsuc n) = elem_mod - 1 - n % elem_mod

unfoldable pub word_rc : ℕ → ℤ
word_rc n = if ltb n (2 ^ 31) then pos n else negsuc (elem_mod - 1 - n)

-- The memory of a key.
unfoldable pub key_memory : Key → List ℕ
key_memory k = bytes (k.len ∷ k.attr ∷ k.slots)

unfoldable pub key_of : List ℕ → Key
key_of b = record { len = word_at b 0; attr = word_at b 4; slots = words_of 62 (drop 8 b) }

-- cps_api_object_array, up to cps_api_object_to_array_len.
unfoldable pub object_bytes : Object → List ℕ
unfolding key_memory
object_bytes o = key_memory o.key ++ used o

-- The memory of the object with the bytes that were read; what is behind them stays.
unfoldable pub filled : Object → List ℕ → ℕ → Object
unfolding key_of
filled o mem len = record o {
  key = key_of (take data_size mem);
  buffer = drop data_size mem ++ drop (len - data_size) o.buffer;
}

module _ {W : Type 0} (sock : Sock W) where
  unfoldable pub send_header : ℕ → ℕ → ℕ → W → Bool × W
  unfolding header_bytes
  send_header handle op len w = sock.write handle (header_bytes op len) w

  unfoldable pub send_data : ℕ → List ℕ → W → Bool × W
  send_data handle mem w = sock.write handle mem w

  unfoldable pub send_object : ℕ → Object → W → Bool × W
  unfolding object_bytes
  send_object handle obj w = sock.write handle (object_bytes obj) w

  -- The operation and the length; nothing if it returns false.
  unfoldable pub receive_header : ℕ → W → Option (ℕ × ℕ) × W
  unfolding word_at
  receive_header handle w =
      let r = sock.read handle hdr_size w in
      (elim r.0 [ none ↦ none | some hdr ↦ some (word_at hdr 8, word_at hdr 4) ], r.1)

  unfoldable pub receive_data : ℕ → ℕ → W → Option (List ℕ) × W
  receive_data handle len w = sock.read handle len w

  -- A return code, read into a variable that holds `rc`.
  unfoldable pub receive_rc : ℕ → ℤ → W → (Bool × ℤ) × W
  unfolding receive_data word_rc word_at
  receive_rc handle rc w =
      let r = receive_data handle 4 w in
      (elim r.0 [ none ↦ (false, rc) | some b ↦ (true, word_rc (word_at b 0)) ], r.1)

  unfoldable pub send_return_code : ℕ → ℕ → ℤ → W → Bool × W
  unfolding send_header send_data rc_word bytes
  send_return_code handle op rc w =
      let r = send_header handle op 4 w in
      if r.0 then send_data handle (bytes (rc_word rc ∷ [])) r.1 else (false, r.1)

  unfoldable pub send_one_object : ℕ → ℕ → Option Object → W → Bool × W
  unfolding send_header send_object
  send_one_object handle op none w =
      let r = send_header handle op 0 w in if r.0 then (true, r.1) else (false, r.1)
  send_one_object handle op (some obj) w =
      let len = to_array_len obj in
      let r = send_header handle op len w in
      if r.0 then if ltb 0 len then send_object handle obj r.1 else (true, r.1) else (false, r.1)

  -- `fresh` is what the memory of a new key holds. Nothing is null.
  unfoldable pub receive_object : Key → ℕ → ℕ → W → Option Object × W
  unfolding filled
  receive_object fresh handle len w =
      if len == 0
      then (none, w)
      else let og = object_create fresh default_size in
        elim (if ltb og.len len then object_reserve og len else some og) [
          | none ↦ (none, w)
          | some room ↦
              let r = sock.read handle len w in
              (elim r.0 [ none ↦ none | some mem ↦ object_received (filled room mem len) len ], r.1)
        ]

  -- `valid` comes in and goes out; with another operation than the expected one it stays.
  unfoldable pub recv_one_object : Key → ℕ → ℕ → Bool → W → (Bool × Option Object) × W
  recv_one_object fresh handle expected valid w =
      let h = receive_header handle w in
      elim h.0 [
        | none ↦ ((false, none), h.1)
        | some (act, len) ↦
            if not (act == expected)
            then ((valid, none), h.1)
            else if len == 0
            then ((true, none), h.1)
            else let r = receive_object fresh handle len h.1 in
              ((elim r.0 [ none ↦ false | some o ↦ true ], r.0), r.1)
      ]
