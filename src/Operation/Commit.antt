-- ===== src/Operation/Commit.antt =====
-- cps_api_commit: the calls it makes and their order.
use opx_cps.Common.{
  append_assoc, ◌==◌, ℕ, zero, suc, ◌+◌, ◌<◌, ◌≡◌, refl, ap, subst, sym, ◌∙◌, ◌⊎◌, inl, inr, Bool,
  true, false, not, ◌&&◌, List, [], ◌∷◌, ◌++◌, some, arith, length, length-set, get_elem?,
  get_elem?_lt, set, ℤ, is_zero, if◌then◌else◌, Bool-cases,
}
use opx_cps.Operation.{
  Object, State, Backend, Call, Outcome, committed, published, after_commit, commit_at, commit_loop,
  commit, ret_ok, oper_action, type_operation,
}
use opx_cps.Operation.Rollback.{countdown, Unwound, rollback_loop-countdown}

module _ {A W : Type 0} (be : Backend A W) where
  -- The request for the object at a position, without its mark of failed nodes, to the one who owns it:
  -- what was returned, the state after it, and the object as it then is.
  pub record Committed (ix : ℕ) (s : State A W) (service : Bool) (rc : ℤ) (s' : State A W)
      (o' : Object A) : Type 0 where
    pub before : Object A
    pub listed : get_elem? s.change_list ix ≡ some before
    pub cleaned : Object A
    pub unmarked : cleaned ≡ record before { attrs = be.delete_failed_nodes before.attrs }
    pub owner : be.owned_by_service s.world cleaned ≡ service
    pub sent : State A W
    pub sent_state : sent ≡ record s {
      transaction = record s.transaction { change_list = set s.change_list ix cleaned };
    }
    pub answer : (if service then be.service_commit ix sent else be.db_commit ix sent) ≡ (rc, s')
    pub left : get_elem? s'.change_list ix ≡ some o'

  -- Whether an event is published for an object whose commit returned 0.
  abbrev pub announces : Bool → Object A → State A W → Bool
  announces service o s =
      service && be.has_auto_events s.world o && not (type_operation o == oper_action)

  -- The calls of the first loop from position `a` up to `b`, and the states before and after them. The
  -- objects are committed in order, each once. A commit returns 0, and then the object is
  -- published if it is a service's with automatic events and no action, or it returns another code,
  -- and the object asks to go on after a failure.
  pub data Forward : ℕ → State A W → List Call → ℕ → State A W → Type 0 where
    stop : (a : ℕ) (s : State A W) → Forward a s [] a s
    succeeded :
        (a b : ℕ) (s s' z : State A W) (service : Bool) (rc : ℤ) (o : Object A) (cs : List Call)
        → Committed a s service rc s' o
        → rc ≡ ret_ok
        → announces service o s' ≡ false
        → Forward (suc a) s' cs b z
        → Forward a s (committed a service rc ∷ cs) b z
    announced :
        (a b : ℕ) (s s' z : State A W) (service : Bool) (rc : ℤ) (o : Object A) (cs : List Call)
        → Committed a s service rc s' o
        → rc ≡ ret_ok
        → announces service o s' ≡ true
        → Forward (suc a) (record s' { world = be.publish o s'.world }) cs b z
        → Forward a s (committed a service rc ∷ published a ∷ cs) b z
    went_on :
        (a b : ℕ) (s s' z : State A W) (service : Bool) (rc : ℤ) (o : Object A) (cs : List Call)
        → Committed a s service rc s' o
        → is_zero rc ≡ false
        → be.continue_on_failure o.attrs ≡ true
        → Forward (suc a) s' cs b z
        → Forward a s (committed a service rc ∷ cs) b z

  committed-length :
      (service : Bool) (ix : ℕ) (s : State A W)
      → length (if service then be.service_commit ix s else be.db_commit ix s).1.change_list
        ≡ length s.change_list
  committed-length true ix s = be.service_commit_length ix s
  committed-length false ix s = be.db_commit_length ix s

  -- A commit that failed, of an object that does not ask to go on.
  abbrev Failed : ℕ → State A W → Bool → ℤ → State A W → Type 0
  Failed ix s service rc v =
      (o : Object A) × Committed ix s service rc v o
      × (is_zero rc ≡ false)
      × (be.continue_on_failure o.attrs ≡ false)

  -- One round makes the calls for its object; where it does not end with 0, its commit failed.
  abbrev Round : ℕ → State A W → ℤ × List Call × State A W → Type 0
  Round ix s r =
      ((is_zero r.0 ≡ true)
        × ((b : ℕ) (cs : List Call) (z : State A W)
            → Forward (suc ix) r.2 cs b z
            → Forward ix s (r.1 ++ cs) b z))
      ⊎ ((service : Bool) × Failed ix s service r.0 r.2 × (r.1 ≡ committed ix service r.0 ∷ []))

  after_commit-Round :
      (ix : ℕ) (s : State A W) (service : Bool) (rc : ℤ) (s' : State A W) (o : Object A)
      → Committed ix s service rc s' o
      → Round ix s (after_commit be ix service rc o s')
  unfolding after_commit
  after_commit-Round ix s service rc s' o c = elim (Bool-cases (is_zero rc)) [
    | inl zero_rc ↦
        let ok : rc ≡ ret_ok = ground arith in
        elim (Bool-cases (announces service o s')) [
          | inl announce ↦
              rw (zero_rc, announce, after_commit)
                (inl (refl, λ b cs z f. announced ix b s s' z service rc o cs c ok announce f))
          | inr silent ↦
              rw (zero_rc, silent, after_commit)
                (inl (refl, λ b cs z f. succeeded ix b s s' z service rc o cs c ok silent f))
        ]
    | inr failed ↦ elim (Bool-cases (be.continue_on_failure o.attrs)) [
      | inl onward ↦
          rw (failed, onward, after_commit)
            (inl (refl, λ b cs z f. went_on ix b s s' z service rc o cs c failed onward f))
      | inr ends ↦ rw (failed, ends, after_commit) (inr (service, (o, c, failed, ends), refl))
    ]
  ]

  after_commit-length :
      (ix : ℕ) (service : Bool) (rc : ℤ) (o : Object A) (s : State A W)
      → length (after_commit be ix service rc o s).2.change_list ≡ length s.change_list
  unfolding after_commit
  after_commit-length ix service rc o s = elim (Bool-cases (is_zero rc)) [
    | inl ok ↦ elim (Bool-cases (announces service o s)) [
      | inl yes_event ↦ rw (ok, yes_event, after_commit) refl
      | inr no_event ↦ rw (ok, no_event, after_commit) refl
    ]
    | inr failed ↦ elim (Bool-cases (be.continue_on_failure o.attrs)) [
      | inl onward ↦ rw (failed, onward, after_commit) refl
      | inr ends ↦ rw (failed, ends, after_commit) refl
    ]
  ]

  commit_at-Round :
      (ix : ℕ) (s : State A W)
      → ix < length s.change_list
      → (r : ℤ × List Call × State A W) × (commit_at be ix s ≡ some r)
        × (length r.2.change_list ≡ length s.change_list)
        × Round ix s r
  unfolding commit_at
  commit_at-Round ix s h =
      let (o, at) = get_elem?_lt s.change_list ix h in
      let cleaned : Object A = record o { attrs = be.delete_failed_nodes o.attrs } in
      let s1 : State A W = record s {
        transaction = record s.transaction { change_list = set s.change_list ix cleaned };
      } in
      let kept = length-set s.change_list ix cleaned in
      let service = be.owned_by_service s1.world cleaned in
      let r = if service then be.service_commit ix s1 else be.db_commit ix s1 in
      let same = committed-length service ix s1 in
      let (o', at') = get_elem?_lt r.1.change_list ix (omega arith) in
      let c : Committed ix s service r.0 r.1 o' = record {
        before = o;
        listed = at;
        cleaned = cleaned;
        unmarked = refl;
        owner = refl;
        sent = s1;
        sent_state = refl;
        answer = refl;
        left = at';
      } in
      (
        after_commit be ix service r.0 o' r.1,
        rw (at, at'),
        after_commit-length ix service r.0 o' r.1 ∙ same ∙ kept,
        after_commit-Round ix s service r.0 r.1 o' c,
      )

  -- The first loop has committed the objects up to `n`, or one failed and is the last.
  abbrev Complete : ℕ → ℕ → State A W → Outcome A W → Type 0
  Complete n ix s out = (is_zero out.rc ≡ true) × (out.ix ≡ n) × Forward ix s out.calls n out.state

  abbrev Broken : ℕ → ℕ → State A W → Outcome A W → Type 0
  Broken n ix s out =
      (out.ix < n)
      × (before : List Call) × (u : State A W) × (service : Bool) × Forward ix s before out.ix u
      × Failed out.ix u service out.rc out.state
      × (out.calls ≡ before ++ committed out.ix service out.rc ∷ [])

  abbrev Done : ℕ → ℕ → State A W → Outcome A W → Type 0
  Done n ix s out =
      (length out.state.change_list ≡ length s.change_list)
      × (Complete n ix s out ⊎ Broken n ix s out)

  -- A round in front of what the rest of the loop has done.
  Done-round :
      (n ix : ℕ) (s s' : State A W) (calls : List Call) (out : Outcome A W)
      → length s'.change_list ≡ length s.change_list
      → ((b : ℕ) (cs : List Call) (z : State A W)
          → Forward (suc ix) s' cs b z
          → Forward ix s (calls ++ cs) b z)
      → Done n (suc ix) s' out
      → Done n ix s (record out { calls = calls ++ out.calls })
  Done-round n ix s s' calls out same front (len, inl (ok, at, f)) =
      (len ∙ same, inl (ok, at, front n out.calls out.state f))
  Done-round n ix s s' calls out same front (len, inr (at, before, u, service, f, bad, e)) = (
    len ∙ same,
    inr (
      at,
      calls ++ before,
      u,
      service,
      front out.ix before u f,
      bad,
      ap (λ c. calls ++ c) e ∙ sym (append_assoc calls before _),
    ),
  )

  commit_loop-Done :
      (left ix n : ℕ) (s : State A W)
      → length s.change_list ≡ n
      → n ≡ ix + left
      → (out : Outcome A W) × (commit_loop be left ix s ≡ some out) × Done n ix s out
  unfolding commit_loop
  commit_loop-Done zero ix n s h e =
      let top : ix ≡ n = omega arith in
      (
        record { rc = ret_ok; ix = ix; calls = []; state = s },
        refl,
        (refl, inl (refl, top, subst (λ b. Forward ix s [] b s) top (stop ix s))),
      )
  commit_loop-Done (suc left) ix n s h e =
      let (r, at, len, round) = commit_at-Round ix s (omega arith) in
      elim round [
        | inl (onward, front) ↦
            let (out, e', done) = commit_loop-Done left (suc ix) n r.2 (len ∙ h) (omega arith) in
            (
              record out { calls = r.1 ++ out.calls },
              rw (at, onward, e'),
              Done-round n ix s r.2 r.1 out len front done,
            )
        | inr (service, failed, only) ↦ (
          record { rc = r.0; ix = ix; calls = r.1; state = r.2 },
          rw (at, failed.2),
          (len, inr (omega arith, [], s, service, stop ix s, failed, only)),
        )
      ]

  -- The outcomes of a commit. Either the result is 0, and the commit of every object was called, in
  -- order; each returned 0, or the object asks to go on after a failure; nothing was rolled back. Or
  -- the commit of the object at some position failed with the result, and the object does not ask
  -- to go on; no later object was committed, and all before it were rolled back, the last one first,
  -- with no other call among these.
  pub data Outcomes (s : State A W) : ℤ → List Call → State A W → Type 0 where
    complete :
        (rc : ℤ) (cs : List Call) (z : State A W)
        → is_zero rc ≡ true
        → Forward 0 s cs (length s.change_list) z
        → Outcomes s rc cs z
    undone :
        (rc : ℤ) (before : List Call) (ix : ℕ) (service : Bool) (u v z : State A W) (o : Object A)
        → ix < length s.change_list
        → Forward 0 s before ix u
        → Committed ix u service rc v o
        → is_zero rc ≡ false
        → be.continue_on_failure o.attrs ≡ false
        → Unwound be ix v z
        → Outcomes s rc (before ++ committed ix service rc ∷ [] ++ countdown ix) z

  -- A commit always returns. Either its result is 0, and the commit of every object was called, in
  -- order, each by the one who owns the object, and returned 0, or another code for an object that
  -- asks to go on after a failure; none was rolled back. Or the commit of one object, which does not
  -- ask for that, failed with the result, no later object was committed, and all before it were
  -- rolled back, the last one first, with nothing published meanwhile; also those whose own commit
  -- had failed. Exactly the objects of services whose commit returned 0, with automatic events and
  -- no actions, are published, each right after its commit.
  pub commit-Outcomes :
      (s : State A W)
      → (rc : ℤ) × (cs : List Call) × (s' : State A W) × (commit be s ≡ some (rc, cs, s'))
        × Outcomes s rc cs s'
  unfolding commit
  commit-Outcomes s =
      let (out, e, (len, cases)) =
        commit_loop-Done (length s.change_list) 0 (length s.change_list) s refl (omega arith) in
      elim cases [
        | inl (ok, at, f) ↦
            (out.rc, out.calls, out.state, rw (e, ok), complete out.rc out.calls out.state ok f)
        | inr (at, before, u, service, f, (o, c, bad, ends), e') ↦
            let (s', e'', undo) =
              rollback_loop-countdown be out.ix out.rc out.state bad (omega arith) in
            (
              out.rc,
              before ++ committed out.ix service out.rc ∷ [] ++ countdown out.ix,
              s',
              rw (e, bad, e'', e'),
              undone out.rc before out.ix service u out.state s' o at f c bad ends undo,
            )
      ]
