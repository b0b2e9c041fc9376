-- ===== src/NameServer/Closed.antt =====
-- What _client_closed_ of src/cps_ns.cpp leaves in one bucket of the registrations.
use opx_cps.Common.{
  ℕ, zero, suc, ◌+◌, ◌*◌, ◌<◌, ◌≡◌, refl, ap, ◌∙◌, inl, inr, Bool, true, false, ◌&&◌, List, [], ◌∷◌,
  ◌++◌, some, arith, length, ◌==◌, if◌then◌else◌, Bool-cases, append_assoc, append-nil,
  length-append,
}
use opx_cps.Key.{Key}
use opx_cps.NameServer.{ClientReg, Out, send_out_key_event, entry_loop, loop_fuel}

-- The events of `k` removals under a key: each has one about the removal, and one about what is
-- left, but for the last removal of all.
unfoldable pub tell : Key → ℕ → Bool → Out → Out
tell key zero last o = o
tell key (suc k) last o =
    let gone = send_out_key_event key false o in
    tell key k last (if k == 0 && last then gone else send_out_key_event key true gone)

pub restart_fuel :
    (a b n fuel c : ℕ)
    → n ≡ a + suc b
    → n * n + suc b < suc fuel
    → c ≡ a + b
    → (a + b) * (a + b) + c < fuel
restart_fuel a b n fuel c e h q =
    let m : n ≡ suc (a + b) = omega arith in
    let sq : n * n ≡ (a + b) * (a + b) + (a + b) + suc (a + b) = rw m (grind arith) in omega arith

module _ {D : Type 0} where
  abbrev pub is_nil : List (ClientReg D) → Bool
  is_nil [] = true
  is_nil (r ∷ rs) = false

  -- The registrations of other clients.
  unfoldable pub kept : ℕ → List (ClientReg D) → List (ClientReg D)
  kept fd [] = []
  kept fd (r ∷ rs) = if r.fd == fd then kept fd rs else r ∷ kept fd rs

  -- How many registrations the client has.
  unfoldable pub removed : ℕ → List (ClientReg D) → ℕ
  removed fd [] = 0
  removed fd (r ∷ rs) = if r.fd == fd then suc (removed fd rs) else removed fd rs

  pub kept-append :
      (fd : ℕ) (xs ys : List (ClientReg D)) → kept fd (xs ++ ys) ≡ kept fd xs ++ kept fd ys
  unfolding kept
  kept-append fd [] ys = refl
  kept-append fd (x ∷ xs) ys = ground (arith, kept-append fd xs ys)

  pub removed-append :
      (fd : ℕ) (xs ys : List (ClientReg D)) → removed fd (xs ++ ys) ≡ removed fd xs + removed fd ys
  unfolding removed
  removed-append fd [] ys = omega arith
  removed-append fd (x ∷ xs) ys = ground (arith, removed-append fd xs ys)

  pub kept-kept : (fd : ℕ) (xs : List (ClientReg D)) → kept fd (kept fd xs) ≡ kept fd xs
  unfolding kept
  kept-kept fd [] = refl
  kept-kept fd (x ∷ xs) = ground (arith, kept-kept fd xs)

  pub removed-kept : (fd : ℕ) (xs : List (ClientReg D)) → removed fd (kept fd xs) ≡ 0
  unfolding kept removed
  removed-kept fd [] = refl
  removed-kept fd (x ∷ xs) = ground (arith, removed-kept fd xs)

  told :
      (fd : ℕ) (xs : List (ClientReg D)) (a b : Out)
      → (elim xs [ [] ↦ a | x ∷ ys ↦ b ])
        ≡ (if removed fd xs == 0 && is_nil (kept fd xs) then a else b)
  unfolding kept removed
  told fd [] a b = refl
  told fd (x ∷ xs) a b = ground arith

  hit_kept :
      (fd : ℕ) (seen left : List (ClientReg D)) (r : ClientReg D)
      → (r.fd == fd) ≡ true
      → kept fd (seen ++ r ∷ left) ≡ kept fd (seen ++ left)
  unfolding kept
  hit_kept fd seen left r e =
      ground (arith, kept-append fd seen (r ∷ left), kept-append fd seen left)

  hit_removed :
      (fd : ℕ) (seen left : List (ClientReg D)) (r : ClientReg D)
      → (r.fd == fd) ≡ true
      → removed fd (seen ++ r ∷ left) ≡ suc (removed fd (seen ++ left))
  unfolding removed
  hit_removed fd seen left r e =
      ground (arith, removed-append fd seen (r ∷ left), removed-append fd seen left)

  snoc_kept :
      (fd : ℕ) (seen : List (ClientReg D)) (r : ClientReg D)
      → (r.fd == fd) ≡ false
      → kept fd seen ≡ seen
      → kept fd (seen ++ r ∷ []) ≡ seen ++ r ∷ []
  unfolding kept
  snoc_kept fd seen r e h = ground (arith, kept-append fd seen (r ∷ []))

  snoc_removed :
      (fd : ℕ) (seen : List (ClientReg D)) (r : ClientReg D)
      → (r.fd == fd) ≡ false
      → removed fd seen ≡ 0
      → removed fd (seen ++ r ∷ []) ≡ 0
  unfolding removed
  snoc_removed fd seen r e h = ground (arith, removed-append fd seen (r ∷ []))

  -- What the inner loop gives for all registrations under a key.
  abbrev pub cleared : ℕ → Key → List (ClientReg D) → Out → List (ClientReg D) × Out
  cleared fd key xs o = (kept fd xs, tell key (removed fd xs) (is_nil (kept fd xs)) o)

  entry_loop_from :
      (fuel fd : ℕ) (key : Key) (seen left : List (ClientReg D)) (o : Out) (n : ℕ)
      → n ≡ length seen + length left
      → n * n + length left < fuel
      → kept fd seen ≡ seen
      → removed fd seen ≡ 0
      → entry_loop fuel fd key seen left o ≡ some (cleared fd key (seen ++ left) o)
  unfolding entry_loop
  entry_loop_from zero fd key seen left o n e h k z = absurd (omega arith)
  entry_loop_from (suc fuel) fd key seen [] o n e h k z =
      rw (append-nil seen) (rw k (rw z (unfold tell in refl)))
  entry_loop_from (suc fuel) fd key seen (r ∷ left) o n e h k z = elim (Bool-cases (r.fd == fd)) [
    | inl mine ↦ rw mine (
        entry_loop_from fuel fd key [] (seen ++ left) _ (length seen + length left)
          (omega (arith, length-append seen left))
          (restart_fuel (length seen) (length left) n fuel _ e h (length-append seen left))
          (unfold kept in refl) (unfold removed in refl)
        ∙ rw (hit_kept fd seen left r mine) (
            rw (hit_removed fd seen left r mine) (
              unfold tell in
              ap
                (λ t. some (
                  kept fd (seen ++ left),
                  tell key (removed fd (seen ++ left)) (is_nil (kept fd (seen ++ left))) t,
                ))
                (told fd (seen ++ left) _ _))))
    | inr other ↦ rw other (
        entry_loop_from fuel fd key (seen ++ r ∷ []) left o n
          (omega (arith, length-append seen (r ∷ []))) (omega arith) (snoc_kept fd seen r other k)
          (snoc_removed fd seen r other z)
        ∙ ap (λ t. some (cleared fd key t o)) (append_assoc seen (r ∷ []) left))
  ]

  pub entry_loop_lem :
      (fd : ℕ) (key : Key) (xs : List (ClientReg D)) (o : Out)
      → entry_loop (loop_fuel (length xs)) fd key [] xs o ≡ some (cleared fd key xs o)
  entry_loop_lem fd key xs o =
      entry_loop_from (loop_fuel (length xs)) fd key [] xs o (length xs) (omega arith) (omega arith)
        (unfold kept in refl) (unfold removed in refl)
