-- ===== src/NameServer/Buckets.antt =====
-- What _client_closed_ of src/cps_ns.cpp leaves of the keys of one bucket.
use opx_cps.Common.{
  drop, take, ℕ, zero, suc, ◌+◌, ◌*◌, ◌<◌, ◌≡◌, refl, sym, ap, ◌∙◌, ◌⊎◌, inl, inr, true, List, [],
  ◌∷◌, ◌++◌, some, arith, length, if◌then◌else◌, append_assoc, append-nil, length-append,
}
use opx_cps.KeyCache.{Entry}
use opx_cps.NameServer.{ClientReg, Out, key_loop, loop_fuel, close_bucket}
use opx_cps.NameServer.Closed.{
  is_nil, kept, removed, kept-kept, removed-kept, tell, entry_loop_lem, restart_fuel,
}

abbrev pub Regs : Type 0 → Type 0
Regs D = Entry (List (ClientReg D))

List-cases : {A : Type 0} (xs : List A) → (xs ≡ []) ⊎ ((y : A) × (ys : List A) × (xs ≡ y ∷ ys))
List-cases [] = inl refl
List-cases (x ∷ xs) = inr (x, xs, refl)

module _ {D : Type 0} where
  -- A key without the registrations of the client.
  abbrev pub cleared_entry : ℕ → Regs D → Regs D
  cleared_entry fd e = record e { value = kept fd e.value }

  -- The keys that have other registrations, without those of the client.
  unfoldable pub clear_all : ℕ → List (Regs D) → List (Regs D)
  clear_all fd [] = []
  clear_all fd (e ∷ b) =
      if is_nil (kept fd e.value) then clear_all fd b else cleared_entry fd e ∷ clear_all fd b

  abbrev pub tell_entry : ℕ → Regs D → Out → Out
  tell_entry fd e o = tell e.key (removed fd e.value) (is_nil (kept fd e.value)) o

  -- The events about all keys, in their order.
  unfoldable pub tell_all : ℕ → List (Regs D) → Out → Out
  tell_all fd [] o = o
  tell_all fd (e ∷ b) o = tell_all fd b (tell_entry fd e o)

  -- The keys behind the first one. Where that one has gone, the next is left alone.
  unfoldable pub closed_tail : ℕ → List (Regs D) → List (Regs D)
  closed_tail fd [] = []
  closed_tail fd (e ∷ b) = e ∷ clear_all fd b

  unfoldable pub told_tail : ℕ → List (Regs D) → Out → Out
  told_tail fd [] o = o
  told_tail fd (e ∷ b) o = tell_all fd b o

  unfoldable pub closed : ℕ → List (Regs D) → List (Regs D)
  closed fd [] = []
  closed fd (e ∷ b) =
      if is_nil (kept fd e.value) then closed_tail fd b else cleared_entry fd e ∷ clear_all fd b

  unfoldable pub told_closed : ℕ → List (Regs D) → Out → Out
  told_closed fd [] o = o
  told_closed fd (e ∷ b) o =
      if is_nil (kept fd e.value)
      then told_tail fd b (tell_entry fd e o)
      else tell_all fd b (tell_entry fd e o)

  clear_all-append :
      (fd : ℕ) (xs ys : List (Regs D))
      → clear_all fd (xs ++ ys) ≡ clear_all fd xs ++ clear_all fd ys
  unfolding clear_all
  clear_all-append fd [] ys = refl
  clear_all-append fd (x ∷ xs) ys = ground (arith, clear_all-append fd xs ys)

  tell_all-append :
      (fd : ℕ) (xs ys : List (Regs D)) (o : Out)
      → tell_all fd (xs ++ ys) o ≡ tell_all fd ys (tell_all fd xs o)
  unfolding tell_all
  tell_all-append fd [] ys o = refl
  tell_all-append fd (x ∷ xs) ys o = tell_all-append fd xs ys (tell_entry fd x o)

  -- Keys that were visited: a second visit changes nothing and tells nothing.
  abbrev Quiet : ℕ → List (Regs D) → Type 0
  Quiet fd b = (clear_all fd b ≡ b) × ((o : Out) → tell_all fd b o ≡ o)

  Quiet-nil : (fd : ℕ) → Quiet fd []
  unfolding clear_all tell_all
  Quiet-nil fd = (refl, (λ o. refl))

  Quiet-snoc :
      (fd : ℕ) (b : List (Regs D)) (e : Regs D) (x : ClientReg D) (xs : List (ClientReg D))
      → Quiet fd b
      → kept fd e.value ≡ x ∷ xs
      → Quiet fd (b ++ record e { value = x ∷ xs } ∷ [])
  unfolding clear_all tell_all
  Quiet-snoc fd b e x xs (q, t) k =
      let same : kept fd (x ∷ xs) ≡ x ∷ xs = rw (sym k) (kept-kept fd e.value) in
      let none_left : removed fd (x ∷ xs) ≡ 0 = rw (sym k) (removed-kept fd e.value) in
      (
        clear_all-append fd b (record e { value = x ∷ xs } ∷ []) ∙ rw q (rw same refl),
        (λ o.
            tell_all-append fd b (record e { value = x ∷ xs } ∷ []) o
            ∙ rw (t o) (rw none_left (unfold tell in refl))),
      )

  gone_clear :
      (fd : ℕ) (seen left : List (Regs D)) (x : Regs D)
      → kept fd x.value ≡ []
      → clear_all fd (seen ++ left) ≡ clear_all fd (seen ++ x ∷ left)
  unfolding clear_all
  gone_clear fd seen left x k =
      clear_all-append fd seen left ∙ sym (clear_all-append fd seen (x ∷ left) ∙ rw k refl)

  stays_clear :
      (fd : ℕ) (seen left : List (Regs D)) (x : Regs D) (y : ClientReg D) (ys : List (ClientReg D))
      → kept fd x.value ≡ y ∷ ys
      → clear_all fd ((seen ++ record x { value = y ∷ ys } ∷ []) ++ left)
        ≡ clear_all fd (seen ++ x ∷ left)
  unfolding clear_all
  stays_clear fd seen left x y ys k =
      let same : kept fd (y ∷ ys) ≡ y ∷ ys = rw (sym k) (kept-kept fd x.value) in
      ap (clear_all fd) (append_assoc seen (record x { value = y ∷ ys } ∷ []) left)
      ∙ clear_all-append fd seen (record x { value = y ∷ ys } ∷ left)
      ∙ sym (clear_all-append fd seen (x ∷ left) ∙ rw k (rw same refl))

  tell_next :
      (fd : ℕ) (seen left : List (Regs D)) (x : Regs D) (o : Out)
      → ((u : Out) → tell_all fd seen u ≡ u)
      → tell_all fd left (tell_entry fd x o) ≡ tell_all fd (seen ++ x ∷ left) o
  unfolding tell_all
  tell_next fd seen left x o q =
      sym (
        tell_all-append fd seen (x ∷ left) o ∙ ap (λ u. tell_all fd left (tell_entry fd x u)) (q o))

  tell_behind :
      (fd : ℕ) (seen left : List (Regs D)) (o : Out)
      → ((u : Out) → tell_all fd seen u ≡ u)
      → tell_all fd (seen ++ left) o ≡ tell_all fd left o
  tell_behind fd seen left o q = tell_all-append fd seen left o ∙ ap (tell_all fd left) (q o)

  -- The loop behind a first key that stays, over the keys `left`.
  key_loop_from :
      (fuel fd : ℕ) (first : Regs D) (seen left : List (Regs D)) (o : Out) (n : ℕ)
      → n ≡ length seen + length left
      → n * n + length left < fuel
      → Quiet fd seen
      → key_loop fuel fd (first ∷ seen) left o
        ≡ some (first ∷ clear_all fd (seen ++ left), tell_all fd (seen ++ left) o)
  unfolding key_loop
  key_loop_from zero fd first seen left o n e h q = absurd (omega arith)
  key_loop_from (suc fuel) fd first seen [] o n e h q =
      rw (append-nil seen) (rw q.0 (rw (q.1 o) refl))
  key_loop_from (suc fuel) fd first seen (x ∷ left) o n e h q =
      elim (List-cases (kept fd x.value)) [
        | inl k ↦
            rw (entry_loop_lem fd x.key x.value o, key_loop)
              (rw (k, key_loop)
                (key_loop_from fuel fd first [] (seen ++ left) (tell_entry fd x o)
                    (length seen + length left) (omega (arith, length-append seen left))
                    (restart_fuel (length seen) (length left) n fuel _ e h
                      (length-append seen left))
                    (Quiet-nil fd)
                  ∙ rw (gone_clear fd seen left x k) (
                      rw (tell_behind fd seen left (tell_entry fd x o) q.1)
                        (rw (tell_next fd seen left x o q.1) refl))))
        | inr (y, ys, k) ↦
            rw (entry_loop_lem fd x.key x.value o, key_loop)
              (rw (k, key_loop)
                (key_loop_from fuel fd first (seen ++ record x { value = y ∷ ys } ∷ []) left
                    (tell_entry fd x o) n
                    (omega (arith, length-append seen (record x { value = y ∷ ys } ∷ [])))
                    (omega arith) (Quiet-snoc fd seen x y ys q k)
                  ∙ rw (stays_clear fd seen left x y ys k) (
                      rw
                        (tell_behind fd (seen ++ record x { value = y ∷ ys } ∷ []) left
                          (tell_entry fd x o) (Quiet-snoc fd seen x y ys q k).1)
                        (rw (tell_next fd seen left x o q.1) refl))))
      ]

  key_loop_lem :
      (fd : ℕ) (b : List (Regs D)) (o : Out)
      → key_loop (loop_fuel (length b)) fd [] b o ≡ some (closed fd b, told_closed fd b o)
  unfolding key_loop closed told_closed closed_tail told_tail
  key_loop_lem fd [] o = refl
  key_loop_lem fd (e ∷ b) o = elim (List-cases (kept fd e.value)) [
    | inr (y, ys, k) ↦
        rw (entry_loop_lem fd e.key e.value o, key_loop)
          (rw (k, key_loop)
            (key_loop_from _ fd (record e { value = y ∷ ys }) [] b (tell_entry fd e o) (length b)
                (omega arith) (grind arith) (Quiet-nil fd)
              ∙ ap
                  (λ t. some (
                    record e { value = y ∷ ys } ∷ clear_all fd b,
                    tell_all fd b (tell e.key (removed fd e.value) (is_nil t) o),
                  ))
                  k))
    | inl k ↦
        rw (entry_loop_lem fd e.key e.value o, key_loop)
          (rw (k, key_loop)
            (behind _ _ (ap (λ t. tell e.key (removed fd e.value) (is_nil t) o) k) b))
  ]
    where
      behind :
          (u v : Out)
          → u ≡ v
          → (left : List (Regs D))
          → key_loop
              (suc (length left) * suc (length left) + suc (length left))
              fd
              (take 1 left)
              (drop 1 left)
              u
            ≡ some (closed_tail fd left, told_tail fd left v)
      behind u v q [] = rw q refl
      behind u v q (x ∷ left) =
          rw q (
            key_loop_from _ fd x [] left v (length left) (omega arith) (grind arith) (Quiet-nil fd))

  -- For every client and every bucket, the fuel of both loops is enough, and this is what they leave
  -- and tell: every key loses the registrations of the client, and goes if it has no others; but if
  -- the first key goes, then the second one is passed over and keeps what it has.
  pub close_bucket_lem :
      (fd h : ℕ) (b : List (Regs D)) (o : Out)
      → close_bucket fd o (h, b) ≡ (true, closed fd b, told_closed fd b o)
  unfolding close_bucket
  close_bucket_lem fd h b o = rw (key_loop_lem fd b o, close_bucket) refl
