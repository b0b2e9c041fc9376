-- ===== src/Ipc/Pipe.antt =====
-- What is sent arrives: cps_api_send_one_object and cps_api_recv_one_object over a connection that
-- loses nothing.
use opx_cps.Common.{
  ℕ, ◌+◌, ◌-◌, ◌%◌, take-append_length, drop-append_length, ◌<◌, ◌≤◌, ◌≡◌, refl, sym, ap, ◌∙◌,
  subst, Bool, true, false, List, [], ◌++◌, append_assoc, append-nil, Option, none, some, arith,
  length, length-append, length-drop, length-take, take, drop, ltb, ◌==◌, if◌then◌else◌, Bool-cases,
  inl, inr, length-replicate, resize,
}
use opx_cps.Key.{Key, elem_mod}
use opx_cps.Object.{
  Tlv, Object, word, data_size, default_size, used, used_len, object_create, to_array_len,
  obj_realloc,
}
use opx_cps.Object.Buffer.{length-resize}
use opx_cps.Object.Encode.{Attr, Holds, IsValid, used_len-IsValid, encode}
use opx_cps.Object.Received.{object_received, object_reserve, object_received-Holds}
use opx_cps.Ipc.{
  Sock, send_one_object, receive_header, receive_object, recv_one_object, header_bytes,
  object_bytes, key_memory, key_of, filled,
}
use opx_cps.Ipc.Words.{IsWords, length-key_memory, key_of-key_memory, header-length, header-fields}

-- The bytes on their way from the handle `from` to the handle `to`.
pub record IsPipe {W : Type 0} (sock : Sock W) (from to : ℕ) (flow : W → List ℕ) : Type 0 where
  pub write_lem :
      (b : List ℕ) (w : W) → (w' : W) × (sock.write from b w ≡ (true, w')) × (flow w' ≡ flow w ++ b)
  pub read_lem :
      (b rest : List ℕ) (w : W)
      → flow w ≡ b ++ rest
      → (w' : W) × (sock.read to (length b) w ≡ (some b, w')) × (flow w' ≡ rest)

-- A new object that has room for `n` bytes.
room_for :
    (fresh : Key) (n : ℕ)
    → n < word
    → (p : Object) × ((if ltb default_size n
          then object_reserve (object_create fresh default_size) n
          else some (object_create fresh default_size))
        ≡ some p)
      × (length p.buffer ≡ p.len)
      × (p.len < word)
      × (n ≤ p.len)
unfolding object_reserve obj_realloc object_create
room_for fresh n h = elim (Bool-cases (ltb default_size n)) [
  | inl more ↦
      let og = object_create fresh default_size in
      (
        record og {
          len = n;
          remain = (default_size + n + word - default_size) % word;
          buffer = resize 0 n og.buffer;
        },
        rw more refl,
        length-resize n og.buffer,
        h,
        omega arith,
      )
  | inr enough ↦ (
    object_create fresh default_size,
    rw enough refl,
    length-replicate {A = ℕ} default_size 0,
    omega arith,
    ground arith,
  )
]

length-object_bytes :
    (o : Object) → IsValid o → IsWords o.key → length (object_bytes o) ≡ to_array_len o
unfolding object_bytes to_array_len
length-object_bytes o v k = omega (
  arith,
  length-append (key_memory o.key) (used o),
  length-key_memory o.key k,
  length-take (used_len o) o.buffer,
  used_len-IsValid o v,
  v.size,
  v.room,
)

to_array_len-ge : (o : Object) → data_size ≤ to_array_len o
unfolding to_array_len
to_array_len-ge o = omega arith

-- The key and the attributes in the bytes of an object.
key_part : (o : Object) → IsWords o.key → take data_size (object_bytes o) ≡ key_memory o.key
unfolding object_bytes
key_part o k =
    subst (λ n. take n (key_memory o.key ++ used o) ≡ key_memory o.key) (length-key_memory o.key k)
      (take-append_length (key_memory o.key) (used o))

attrs_part : (o : Object) → IsWords o.key → drop data_size (object_bytes o) ≡ used o
unfolding object_bytes
attrs_part o k =
    subst (λ n. drop n (key_memory o.key ++ used o) ≡ used o) (length-key_memory o.key k)
      (drop-append_length (key_memory o.key) (used o))

-- An object's bytes in the memory of another object that has room for them.
filled-Holds :
    (tlv : Tlv) (o p : Object) (xs : List Attr)
    → Holds tlv o xs
    → IsWords o.key
    → length p.buffer ≡ p.len
    → p.len < word
    → to_array_len o ≤ p.len
    → (q : Object) × (object_received (filled p (object_bytes o) (to_array_len o)) (to_array_len o)
        ≡ some q)
      × Holds tlv q xs
      × (q.key ≡ o.key)
unfolding filled
filled-Holds tlv o p xs h k whole small fits =
    let n = to_array_len o in
    let used_too : n ≡ data_size + length (used o) = omega (
      arith,
      length-object_bytes o h.valid k,
      length-drop data_size (object_bytes o),
      ap length (attrs_part o k),
      length-key_memory o.key k,
      to_array_len-ge o,
    ) in
    let q0 = filled p (object_bytes o) n in
    let size : length q0.buffer ≡ q0.len = omega (
      arith,
      whole,
      fits,
      length-append (drop data_size (object_bytes o)) (drop (n - data_size) p.buffer),
      ap length (attrs_part o k),
      length-drop (n - data_size) p.buffer,
    ) in
    let content : take (n - data_size) q0.buffer ≡ encode tlv xs =
      let m : n - data_size ≡ length (used o) = omega arith in
      rw (m, attrs_part o k)
        (take-append_length (used o) (drop (length (used o)) p.buffer) ∙ h.content) in
    let (q, e, held, key) =
      object_received-Holds tlv q0 xs n size small h.fits fits (omega (arith, ap length h.content))
        content in
    (q, e, held, key ∙ ap key_of (key_part o k) ∙ key_of-key_memory o.key k)

module _ {W : Type 0} (sock : Sock W) (from to : ℕ) (flow : W → List ℕ)
    (pipe : IsPipe sock from to flow) where
  -- A header that was written is read.
  pub header_arrives :
      (op len : ℕ) (rest : List ℕ) (w : W)
      → op < elem_mod
      → len < elem_mod
      → flow w ≡ header_bytes op len ++ rest
      → (w' : W) × (receive_header sock to w ≡ (some (op, len), w')) × (flow w' ≡ rest)
  unfolding receive_header
  header_arrives op len rest w h k e =
      let (w', r, f) = pipe.read_lem (header_bytes op len) rest w e in
      let r' : sock.read to 12 w ≡ (some (header_bytes op len), w') =
        subst (λ n. sock.read to n w ≡ (some (header_bytes op len), w')) (header-length op len) r in
      let fields = header-fields op len h k in
      (w', rw r' (λ i. (some (fields.0 i, fields.1 i), w')), f)

  -- An object's bytes that were written are received, as an object with the same key and attributes.
  pub object_arrives :
      (tlv : Tlv) (fresh : Key) (o : Object) (xs : List Attr) (rest : List ℕ) (w : W)
      → Holds tlv o xs
      → IsWords o.key
      → to_array_len o < elem_mod
      → flow w ≡ object_bytes o ++ rest
      → (p : Object) × (w' : W) × (receive_object sock fresh to (to_array_len o) w ≡ (some p, w'))
        × Holds tlv p xs
        × (p.key ≡ o.key)
        × (flow w' ≡ rest)
  unfolding receive_object object_create
  object_arrives tlv fresh o xs rest w h k small e =
      let n = to_array_len o in
      let some_bytes : (n == 0) ≡ false = ground (arith, to_array_len-ge o) in
      let (p, room, whole, short, fits) = room_for fresh n (omega arith) in
      let (q, got, held, key) = filled-Holds tlv o p xs h k whole short fits in
      let (w', r, f) = pipe.read_lem (object_bytes o) rest w e in
      let r' : sock.read to n w ≡ (some (object_bytes o), w') =
        subst (λ m. sock.read to m w ≡ (some (object_bytes o), w'))
          (length-object_bytes o h.valid k) r in
      (
        q,
        w',
        rw some_bytes (rw (room, receive_object) (rw (r', receive_object) (rw got refl))),
        held,
        key,
        f,
      )

  -- The bytes of a message: its header, and the object if there is one.
  unfoldable pub message : ℕ → Option Object → List ℕ
  message op none = header_bytes op 0
  message op (some o) = header_bytes op (to_array_len o) ++ object_bytes o

  pub sent :
      (op : ℕ) (o : Object) (w : W)
      → (w' : W) × (send_one_object sock from op (some o) w ≡ (true, w'))
        × (flow w' ≡ flow w ++ message op (some o))
  unfolding send_one_object message
  sent op o w =
      let (w1, e1, f1) = pipe.write_lem (header_bytes op (to_array_len o)) w in
      let (w2, e2, f2) = pipe.write_lem (object_bytes o) w1 in
      let long : ltb 0 (to_array_len o) ≡ true = ground (arith, to_array_len-ge o) in
      (
        w2,
        rw (e1, send_one_object) (rw long e2),
        f2 ∙ ap (λ b. b ++ object_bytes o) f1 ∙ append_assoc (flow w) _ _,
      )

  -- What cps_api_send_one_object sends while nothing is under way, cps_api_recv_one_object receives:
  -- an object with the same key and attributes, and nothing is left. The object holds attributes, its
  -- key is made of words, and its length and the operation fit into 32 bits.
  pub send_one-recv_one :
      (tlv : Tlv) (fresh : Key) (op : ℕ) (valid : Bool) (o : Object) (xs : List Attr) (w : W)
      → Holds tlv o xs
      → IsWords o.key
      → to_array_len o < elem_mod
      → op < elem_mod
      → flow w ≡ []
      → (w1 : W) × (send_one_object sock from op (some o) w ≡ (true, w1))
        × (p : Object) × (w2 : W) × (recv_one_object sock fresh to op valid w1
            ≡ ((true, some p), w2))
        × Holds tlv p xs
        × (p.key ≡ o.key)
        × (flow w2 ≡ [])
  unfolding recv_one_object message
  send_one-recv_one tlv fresh op valid o xs w h k small less quiet =
      let (w1, s, f) = sent op o w in
      let under_way : flow w1 ≡ header_bytes op (to_array_len o) ++ (object_bytes o ++ []) =
        f
        ∙ ap (λ b. b ++ message op (some o)) quiet
        ∙ ap (λ b. header_bytes op (to_array_len o) ++ b) (sym (append-nil _)) in
      let (w', r, g) =
        header_arrives op (to_array_len o) (object_bytes o ++ []) w1 less small under_way in
      let (p, w2, got, held, key, left) = object_arrives tlv fresh o xs [] w' h k small g in
      let same : (op == op) ≡ true = ground arith in
      let long : (to_array_len o == 0) ≡ false = ground (arith, to_array_len-ge o) in
      (
        w1,
        s,
        p,
        w2,
        rw (r, recv_one_object) (rw same (rw long (rw r (rw got refl)))),
        held,
        key,
        left,
      )
