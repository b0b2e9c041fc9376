-- ===== src/Object/Received.antt =====
-- Objects in a caller's memory and their contents: cps_api_object_init, cps_api_object_received,
-- cps_api_object_reserve, cps_api_object_create_clone and cps_api_object_swap of
-- src/cps_api_object.cpp.
use opx_cps.Common.{
  ℕ, ◌+◌, ◌-◌, ◌%◌, ◌≤◌, ◌<◌, ◌≡◌, refl, ap, ◌∙◌, false, List, Option, none, some, arith, length,
  take, ltb, if◌then◌else◌,
}
use opx_cps.Key.{Key}
use opx_cps.Object.{
  word, Tlv, Object, data_size, default_size, obj_realloc, object_create, object_clone,
}
use opx_cps.Object.Encode.{Attr, Fits, Holds, encode}

-- cps_api_object_init on `bufflen` bytes of a caller, of which the object takes `head`, its header
-- (sizeof(cps_api_object_internal_t)), and the key; `bytes` and `key` are what stands there.
-- CPS_API_MIN_OBJ_LEN is `least`.
unfoldable pub object_init : ℕ → ℕ → Key → List ℕ → ℕ → Option Object
object_init least head key bytes bufflen =
    if ltb bufflen least
    then none
    else some (record {
      len = bufflen - head - data_size;
      remain = bufflen - head - data_size;
      allocated = false;
      key = record key { len = 0 };
      buffer = bytes;
    })

-- cps_api_object_received: the object's memory has been filled with that many bytes, the key
-- included. `none` if it returns false.
unfoldable pub object_received : Object → ℕ → Option Object
object_received o size =
    if ltb o.len size
    then none
    else if ltb size data_size
    then none
    else some (record o { remain = o.len - (size - data_size) })

-- cps_api_object_reserve
unfoldable pub object_reserve : Object → ℕ → Option Object
unfolding obj_realloc
object_reserve o n = obj_realloc o n

-- cps_api_object_create_clone; `key` is what the key of a new object holds.
unfoldable pub create_clone : Key → Object → Option Object
create_clone key src = object_clone (object_create key default_size) src

-- cps_api_object_swap, which leaves the counts of references where they are.
unfoldable pub object_swap : Object × ℕ → Object × ℕ → (Object × ℕ) × (Object × ℕ)
object_swap lhs rhs = ((rhs.0, lhs.1), (lhs.0, rhs.1))

module _ (tlv : Tlv) where
  -- If the bytes that were received are a key and encoded attributes, and no more than the object
  -- has room for beside its key, the object holds these attributes; its key is the one received.
  pub object_received-Holds :
      (o : Object) (xs : List Attr) (size : ℕ)
      → length o.buffer ≡ o.len
      → o.len < word
      → Fits xs
      → size ≤ o.len
      → data_size + length (encode tlv xs) ≡ size
      → take (size - data_size) o.buffer ≡ encode tlv xs
      → (p : Object) × (object_received o size ≡ some p) × Holds tlv p xs × (p.key ≡ o.key)
  unfolding object_received
  object_received-Holds o xs size whole small fits room count content =
      let far : ltb o.len size ≡ false = ground arith in
      let long : ltb size data_size ≡ false = ground arith in
      let in_use : (o.len + word - (o.len - (size - data_size))) % word ≡ size - data_size =
        omega (arith, room, small) in
      (
        record o { remain = o.len - (size - data_size) },
        rw (far, object_received) (rw (long, object_received) refl),
        record {
          valid = record { size = whole; room = omega arith; small = small };
          fits = fits;
          content = ap (λ n. take n o.buffer) in_use ∙ content;
        },
        refl,
      )
