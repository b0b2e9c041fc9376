-- ===== src/NameServer/Invariant.antt =====
-- Every run of the name server, src/cps_ns.cpp: a key in the cache has a registration.
use opx_cps.Common.{
  subst, ℕ, zero, suc, ◌≡◌, ◌≢◌, inl, inr, true, false, not, List, [], ◌∷◌, ◌++◌, Option, none,
  some, arith, get_elem?, Bool-cases, Option-cases, ◌==◌,
}
use opx_cps.Key.{Key, hash_array, elems}
use opx_cps.KeyCache.{bucket, push_back, insert, walk}
use opx_cps.KeyCache.At.{at, change_at, change_in}
use opx_cps.KeyCache.Walk.{All, walk-All}
use opx_cps.NameServer.{
  ClientReg, Stats, Ns, Registry, add_reg, process_registration, count_query, process_query,
  close_bucket, client_closed, set_find, count_close, count_cleanup,
}
use opx_cps.NameServer.Closed.{kept, is_nil}
use opx_cps.NameServer.Buckets.{Regs, closed, closed_tail, clear_all, close_bucket_lem}

module _ {D : Type 0} where
  -- Each key of a bucket has a registration.
  abbrev pub Full : List (Regs D) → Type 0
  Full [] = Unit
  Full (e ∷ b) = (e.value ≢ []) × Full b

  Full-snoc : (b : List (Regs D)) (e : Regs D) → Full b → e.value ≢ [] → Full (b ++ e ∷ [])
  Full-snoc [] e p q = (q, tt)
  Full-snoc (x ∷ b) e p q = (p.0, Full-snoc b e p.1 q)

  push_back-Full :
      (h : ℕ) (e : Regs D) (c : Registry D) → e.value ≢ [] → All Full c → All Full (push_back h e c)
  unfolding push_back
  push_back-Full h e [] p q = ((p, tt), tt)
  push_back-Full h e ((j, b) ∷ c) p q = elim (Bool-cases (j == h)) [
    | inl t ↦ rw t (Full-snoc b e q.0 p, q.1)
    | inr t ↦ rw t (q.0, push_back-Full h e c p q.1)
  ]

  abbrev Keeps : (List (ClientReg D) → List (ClientReg D)) → Type 0
  Keeps f = (l : List (ClientReg D)) → l ≢ [] → f l ≢ []

  change_at-Full :
      (i : ℕ) (f : List (ClientReg D) → List (ClientReg D)) (b : List (Regs D))
      → Keeps f
      → Full b
      → Full (change_at i f b)
  unfolding change_at
  change_at-Full i f [] k p = tt
  change_at-Full zero f (e ∷ b) k p = (k e.value p.0, p.1)
  change_at-Full (suc i) f (e ∷ b) k p = (p.0, change_at-Full i f b k p.1)

  change_in-Full :
      (p : ℕ × ℕ) (f : List (ClientReg D) → List (ClientReg D)) (c : Registry D)
      → Keeps f
      → All Full c
      → All Full (change_in p f c)
  unfolding change_in
  change_in-Full p f [] k q = tt
  change_in-Full p f ((j, b) ∷ c) k q = elim (Bool-cases (j == p.0)) [
    | inl t ↦ rw t (change_at-Full p.1 f b k q.0, q.1)
    | inr t ↦ rw t (q.0, change_in-Full p f c k q.1)
  ]

  entry-Full :
      (b : List (Regs D)) (i : ℕ) (e : Regs D) → Full b → get_elem? b i ≡ some e → e.value ≢ []
  entry-Full [] i e p q = cc
  entry-Full (x ∷ b) zero e p q =
      let same : x ≡ e = cc in subst (λ (y : Regs D). y.value ≢ []) same p.0
  entry-Full (x ∷ b) (suc i) e p q = entry-Full b i e p.1 q

  pub bucket-Full :
      (h : ℕ) (c : Registry D) (b : List (Regs D)) → All Full c → bucket h c ≡ some b → Full b
  unfolding bucket
  bucket-Full h [] b q e = cc
  bucket-Full h ((j, d) ∷ c) b q e = elim (Bool-cases (j == h)) [
    | inl t ↦ let same : d ≡ b = ground (arith, t, e) in subst Full same q.0
    | inr t ↦ bucket-Full h c b q.1 (ground (arith, t, e))
  ]

  not_nil : (l : List (ClientReg D)) → is_nil l ≡ false → l ≢ []
  not_nil [] e = cc
  not_nil (r ∷ l) e = λ q. cc

  snoc_ne : (l : List (ClientReg D)) (r : ClientReg D) → l ++ r ∷ [] ≢ []
  snoc_ne [] r = λ q. cc
  snoc_ne (x ∷ l) r = λ q. cc

  clear_all-Full : (fd : ℕ) (b : List (Regs D)) → Full (clear_all fd b)
  unfolding clear_all
  clear_all-Full fd [] = tt
  clear_all-Full fd (e ∷ b) = elim (Bool-cases (is_nil (kept fd e.value))) [
    | inl t ↦ rw t (clear_all-Full fd b)
    | inr t ↦ rw t (not_nil (kept fd e.value) t, clear_all-Full fd b)
  ]

  closed-Full : (fd : ℕ) (b : List (Regs D)) → Full b → Full (closed fd b)
  unfolding closed closed_tail
  closed-Full fd [] p = tt
  closed-Full fd (e ∷ []) p = elim (Bool-cases (is_nil (kept fd e.value))) [
    | inl t ↦ rw t tt
    | inr t ↦ rw t (not_nil (kept fd e.value) t, clear_all-Full fd [])
  ]
  closed-Full fd (e ∷ d ∷ b) p = elim (Bool-cases (is_nil (kept fd e.value))) [
    | inl t ↦ rw t (p.1.0, clear_all-Full fd b)
    | inr t ↦ rw t (not_nil (kept fd e.value) t, clear_all-Full fd (d ∷ b))
  ]

module _ {D : Type 0} (std_hash : ℕ → ℕ) (key_of : D → Key) (details_size : ℕ) where
  -- The states that the name server reaches: it starts without registrations, and answers its
  -- clients one after the other.
  pub data Reachable : Ns D → Type 0 where
    start :
        (stats : Stats)
        → Reachable (record {
          registration = [];
          reg_created = [];
          out = record { stats = stats; events = [] };
        })
    registered :
        (s : Ns D) (fd len : ℕ) (received : Option D)
        → Reachable s
        → Reachable (process_registration std_hash key_of details_size fd len received s).1
    queried :
        (s : Ns D) (key : Key)
        → Reachable s
        → Reachable (process_query std_hash key_of details_size key s).1
    disconnected :
        (s s' : Ns D) (fuel fd : ℕ) → client_closed fuel fd s ≡ some s' → Reachable s → Reachable s'

  add_reg-Full :
      (key : Key) (r : ClientReg D) (c : Registry D)
      → All Full c
      → All Full (add_reg std_hash key_of details_size key r c)
  unfolding add_reg insert
  add_reg-Full key r c q = elim (Option-cases (at std_hash key true c)) [
    | inl e ↦ rw (e, add_reg) (push_back-Full (hash_array std_hash (elems key)) _ c (λ z. cc) q)
    | inr (p, e) ↦ rw (e, add_reg) (change_in-Full p (λ l. l ++ r ∷ []) c (λ l h. snoc_ne l r) q)
  ]

  process_registration-Full :
      (s : Ns D) (fd len : ℕ) (received : Option D)
      → All Full s.registration
      → All Full
          (process_registration std_hash key_of details_size fd len received s).1.registration
  unfolding process_registration
  process_registration-Full s fd len none q = elim (Bool-cases (not (len == details_size))) [
    | inl t ↦ rw t q
    | inr t ↦ rw t q
  ]
  process_registration-Full s fd len (some d) q = elim (Bool-cases (not (len == details_size))) [
    | inl t ↦ rw t q
    | inr t ↦ rw t (elim (Bool-cases ((key_of d).len == 0)) [
      | inl z ↦ rw z q
      | inr z ↦ rw z (add_reg-Full (key_of d) _ s.registration q)
    ])
  ]

  count_query-Keeps : (l : List (ClientReg D)) → l ≢ [] → count_query l ≢ []
  unfolding count_query
  count_query-Keeps [] h = h
  count_query-Keeps (r ∷ l) h = λ q. cc

  process_query-Full :
      (s : Ns D) (key : Key)
      → All Full s.registration
      → All Full (process_query std_hash key_of details_size key s).1.registration
  unfolding process_query
  process_query-Full s key q = elim (Option-cases (at std_hash key false s.registration)) [
    | inl e ↦ rw (e, process_query) q
    | inr (p, e) ↦
        rw (e, process_query) (change_in-Full p (count_query) s.registration count_query-Keeps q)
  ]

  client_closed-Full :
      (s s' : Ns D) (fuel fd : ℕ)
      → client_closed fuel fd s ≡ some s'
      → All Full s.registration
      → All Full s'.registration
  unfolding client_closed
  client_closed-Full s s' fuel fd e q = elim (Bool-cases (not (set_find fd s.reg_created))) [
    | inl t ↦
        let same : record s { out = count_close s.out } ≡ s' = ground (arith, t, e) in
        subst (λ (n : Ns D). All Full n.registration) same q
    | inr t ↦
        elim (Option-cases
          (walk (close_bucket fd) fuel (count_cleanup (count_close s.out)) s.registration)) [
            | inl w ↦ absurd (ground (arith, t, w, e))
            | inr (r, w) ↦
                let kept_full =
                  walk-All (close_bucket fd) Full Full (λ b f. f)
                    (λ o j b f. rw (close_bucket_lem fd j b o) (closed-Full fd b f)) fuel
                    (count_cleanup (count_close s.out)) r.1 s.registration r.0 q w in
                let same : r.0 ≡ s'.registration = ground (arith, t, w, e) in
                subst (All Full) same kept_full
          ]
  ]

  pub Reachable-Full : (s : Ns D) → Reachable s → All Full s.registration
  Reachable-Full s (start stats) = tt
  Reachable-Full s (registered s0 fd len received p) =
      process_registration-Full s0 fd len received (Reachable-Full s0 p)
  Reachable-Full s (queried s0 key p) = process_query-Full s0 key (Reachable-Full s0 p)
  Reachable-Full s (disconnected s0 s1 fuel fd e p) =
      client_closed-Full s0 s1 fuel fd e (Reachable-Full s0 p)
