-- ===== src/Direct/Attempts.antt =====
-- The retries of a database operation.
use opx_cps.Common.{
  ℕ, zero, suc, ◌+◌, ◌≤◌, ◌<◌, ◌≡◌, refl, ◌⊎◌, inl, inr, true, false, Option, some, arith, ℤ,
  Bool-cases,
}
use opx_cps.Direct.{Retry, is_code, handle_retry_request, retry_from, retry_request}

module _ {S : Type 0} (attempt : S → ℤ × S) where
  -- A run of one attempt and `n` more, each on the state that the last one left; all but the last
  -- one failed with a communication error, and the result is that of the last one.
  pub data Tried : ℕ → S → ℤ → S → Type 0 where
    final : (s : S) → Tried 0 s (attempt s).0 (attempt s).1
    again :
        (n : ℕ) (s s' : S) (rc : ℤ)
        → is_code 6 (attempt s).0 ≡ true
        → Tried n (attempt s).1 rc s'
        → Tried (suc n) s rc s'

  -- Why a run has ended: no communication error; or retries are not asked for, and none was made; or
  -- they are asked for, and all were made.
  abbrev pub Over : Retry → ℕ → ℤ → Type 0
  Over p n rc =
      (is_code 6 rc ≡ false)
      ⊎ ((p.ignore_communication_errors ≡ 0) × (n ≡ 0))
      ⊎ ((0 < p.ignore_communication_errors) × (n ≡ p.communication_error_retry))

  -- A run from the count `c` on.
  abbrev Ends : Retry → ℕ → S → Option (ℤ × S) → Type 0
  Ends p c s r =
      (n : ℕ) × (rc : ℤ) × (s' : S) × (r ≡ some (rc, s'))
      × Tried n s rc s'
      × ((n ≡ 0) ⊎ ((0 < p.ignore_communication_errors) × (n + c ≤ p.communication_error_retry)))
      × ((is_code 6 rc ≡ false)
          ⊎ ((p.ignore_communication_errors ≡ 0) × (n ≡ 0))
          ⊎ ((0 < p.ignore_communication_errors) × (p.communication_error_retry ≤ n + c)))

  handle_retry_request-true :
      (p : Retry) (rc : ℤ) (c : ℕ)
      → handle_retry_request p rc c ≡ true
      → (is_code 6 rc ≡ true)
        × (c < p.communication_error_retry)
        × (0 < p.ignore_communication_errors)
  unfolding handle_retry_request
  handle_retry_request-true p rc c h = ground arith

  handle_retry_request-false :
      (p : Retry) (rc : ℤ) (c : ℕ)
      → handle_retry_request p rc c ≡ false
      → (is_code 6 rc ≡ false)
        ⊎ (p.ignore_communication_errors ≡ 0)
        ⊎ ((0 < p.ignore_communication_errors) × (p.communication_error_retry ≤ c))
  unfolding handle_retry_request
  handle_retry_request-false p rc c h = ground arith

  retry_from-Ends :
      (p : Retry) (fuel c : ℕ) (s : S)
      → p.communication_error_retry < fuel + c
      → 0 < fuel
      → Ends p c s (retry_from p attempt fuel c s)
  unfolding retry_from
  retry_from-Ends p zero c s h pos = absurd (omega arith)
  retry_from-Ends p (suc fuel) c s h pos =
      elim (Bool-cases (handle_retry_request p (attempt s).0 c)) [
        | inr stop ↦ (
          0,
          (attempt s).0,
          (attempt s).1,
          rw stop refl,
          final s,
          inl refl,
          elim (handle_retry_request-false p (attempt s).0 c stop) [
            | inl other ↦ inl other
            | inr why ↦ elim why [
              | inl off ↦ inr (inl (off, refl))
              | inr all ↦ inr (inr (all.0, omega (arith, all.1)))
            ]
          ],
        )
        | inl go ↦
            let (failed, left, on) = handle_retry_request-true p (attempt s).0 c go in
            let (n, rc, s', e, tried, bound, over) =
              retry_from-Ends p fuel (c + 1) (attempt s).1 (omega arith) (omega arith) in
            (
              suc n,
              rc,
              s',
              rw go e,
              again n s s' rc failed tried,
              inr (elim bound [ inl z ↦ (on, omega arith) | inr le ↦ (on, omega (arith, le.1)) ]),
              elim over [
                | inl other ↦ inl other
                | inr why ↦ elim why [
                  | inl off ↦ absurd (omega (arith, off.0))
                  | inr all ↦ inr (inr (all.0, omega (arith, all.1)))
                ]
              ],
            )
      ]

  -- With fuel above the number of retries the loop ends. It makes no more retries than that number,
  -- each after a communication error, and none where they are not asked for. It ends with another
  -- result, or because retries are not asked for, or, where they are, after all of them.
  pub retry_request-Over :
      (p : Retry) (fuel : ℕ) (s : S)
      → p.communication_error_retry < fuel
      → (n : ℕ) × (rc : ℤ) × (s' : S) × (retry_request p attempt fuel s ≡ some (rc, s'))
        × Tried n s rc s'
        × (n ≤ p.communication_error_retry)
        × ((n ≡ 0) ⊎ (0 < p.ignore_communication_errors))
        × Over p n rc
  unfolding retry_request
  retry_request-Over p fuel s h =
      let (n, rc, s', e, tried, bound, over) =
        retry_from-Ends p fuel 0 s (omega arith) (omega arith) in
      let most : n ≤ p.communication_error_retry = elim bound [
        | inl z ↦ omega arith
        | inr le ↦ omega (arith, le.1)
      ] in
      (
        n,
        rc,
        s',
        e,
        tried,
        most,
        elim bound [ inl z ↦ inl z | inr le ↦ inr le.0 ],
        elim over [
          | inl other ↦ inl other
          | inr why ↦ elim why [
            | inl off ↦ inr (inl off)
            | inr all ↦ inr (inr (all.0, omega (arith, all.1)))
          ]
        ],
      )
