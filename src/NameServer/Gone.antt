-- ===== src/NameServer/Gone.antt =====
-- What _client_closed_ of src/cps_ns.cpp leaves of a client.
use opx_cps.Common.{
  ℕ, ◌+◌, ◌*◌, ◌<◌, ◌≤◌, ◌≡◌, refl, inl, inr, true, false, List, [], ◌∷◌, some, arith, length,
  Bool-cases,
}
use opx_cps.KeyCache.Walk.{NoneEmpty, All, walk-Ends, walk-All}
use opx_cps.NameServer.{
  count_cleanup, count_close, Ns, close_bucket, client_closed, set_find, set_erase,
}
use opx_cps.NameServer.Closed.{kept, removed, is_nil, removed-kept}
use opx_cps.NameServer.Buckets.{Regs, closed, closed_tail, clear_all, close_bucket_lem}

erased : (fd : ℕ) (xs : List ℕ) → set_find fd (set_erase fd xs) ≡ false
unfolding set_find set_erase
erased fd [] = refl
erased fd (x ∷ xs) = ground (arith, erased fd xs)

module _ {D : Type 0} where
  -- No key of a bucket has a registration of the client.
  abbrev pub Gone : ℕ → List (Regs D) → Type 0
  Gone fd [] = Unit
  Gone fd (e ∷ b) = (removed fd e.value ≡ 0) × Gone fd b

  -- A bucket without collisions.
  abbrev pub Single : List (Regs D) → Type 0
  Single b = length b ≤ 1

  clear_all-Gone : (fd : ℕ) (b : List (Regs D)) → Gone fd (clear_all fd b)
  unfolding clear_all
  clear_all-Gone fd [] = tt
  clear_all-Gone fd (e ∷ b) = elim (Bool-cases (is_nil (kept fd e.value))) [
    | inl t ↦ rw t (clear_all-Gone fd b)
    | inr t ↦ rw t (removed-kept fd e.value, clear_all-Gone fd b)
  ]

  closed-Gone :
      (fd : ℕ) (b : List (Regs D)) → Single b → Single (closed fd b) × Gone fd (closed fd b)
  unfolding closed closed_tail clear_all
  closed-Gone fd [] h = (omega arith, tt)
  closed-Gone fd (e ∷ []) h = elim (Bool-cases (is_nil (kept fd e.value))) [
    | inl t ↦ rw t (omega arith, tt)
    | inr t ↦ rw t (omega arith, (removed-kept fd e.value, tt))
  ]
  closed-Gone fd (e ∷ d ∷ b) h = absurd (omega arith)

  -- With fuel above `n * n + n` for `n` buckets: if every bucket holds one key at most, then no
  -- registration is left of a client that had one and has closed, no bucket is empty, and the
  -- client is forgotten.
  pub client_closed-Gone :
      (fuel fd : ℕ) (s : Ns D)
      → length s.registration * length s.registration + length s.registration < fuel
      → set_find fd s.reg_created ≡ true
      → All Single s.registration
      → (s' : Ns D) × (client_closed fuel fd s ≡ some s')
        × All (λ b. Single b × Gone fd b) s'.registration
        × NoneEmpty (close_bucket fd) s'.registration
        × (set_find fd s'.reg_created ≡ false)
  unfolding client_closed
  client_closed-Gone fuel fd s h known single =
      let (c, o, e, full, le) =
        walk-Ends (close_bucket fd) fuel (count_cleanup (count_close s.out)) s.registration h in
      (
        record { registration = c; reg_created = set_erase fd s.reg_created; out = o },
        rw (known, client_closed) (rw (e, client_closed) refl),
        walk-All (close_bucket fd) Single (λ b. Single b × Gone fd b) (λ b q. q.0)
            (λ o j b p. rw (close_bucket_lem fd j b o) (closed-Gone fd b p)) fuel
            (count_cleanup (count_close s.out)) o s.registration c single e,
        full,
        erased fd s.reg_created,
      )
