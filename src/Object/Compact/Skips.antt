-- ===== src/Object/Compact/Skips.antt =====
-- What cps_api_object_compact of src/non-core/cps_api_object_tools.cpp leaves.
use opx_cps.Common.{
  ==_iff, ℕ, zero, suc, ◌+◌, ◌*◌, ◌≤◌, ◌<◌, ◌≡◌, refl, sym, ap, ◌∙◌, subst, inl, inr, Bool, true,
  false, List, [], ◌∷◌, ◌++◌, Option, some, arith, length, take, drop, leb, ◌==◌, if◌then◌else◌,
  Bool-cases, length-append, append_assoc, append-nil, take-append-drop,
}
use opx_cps.Object.{Tlv, Object, used, attr_delete}
use opx_cps.Object.Encode.{
  Attr, Fits, Holds, attribute, encode, encode-cons, encode-nil, tag-attribute, next-attribute,
  length-attribute,
}
use opx_cps.Object.Without.{has, without}
use opx_cps.Object.Delete.{attr_delete-Holds}
use opx_cps.Object.Compact.{compact_from, compact}

module _ (temporary : ℕ → Bool) where
  -- The attributes that are not temporary, and how many are.
  unfoldable pub lasting : List Attr → List Attr
  lasting [] = []
  lasting ((t, b) ∷ xs) = if temporary t then lasting xs else (t, b) ∷ lasting xs

  unfoldable pub passing : List Attr → ℕ
  passing [] = 0
  passing ((t, b) ∷ xs) = if temporary t then suc (passing xs) else passing xs

  lasting-without :
      (t : ℕ) (xs : List Attr) → temporary t ≡ true → lasting (without t xs) ≡ lasting xs
  unfolding lasting
  lasting-without t [] e = refl
  lasting-without t ((u, b) ∷ xs) e = elim (Bool-cases (u == t)) [
    | inl hit ↦
        let same : temporary u ≡ true = ap temporary ((==_iff u t).0 hit) ∙ e in
        rw hit (rw same (lasting-without t xs e))
    | inr miss ↦ rw miss (elim (Bool-cases (temporary u)) [
      | inl goes ↦ rw goes (lasting-without t xs e)
      | inr stays ↦ rw stays (ap (λ l. (u, b) ∷ l) (lasting-without t xs e))
    ])
  ]

  passing-append : (xs ys : List Attr) → passing (xs ++ ys) ≡ passing xs + passing ys
  unfolding passing
  passing-append [] ys = omega arith
  passing-append ((t, b) ∷ xs) ys = ground (arith, passing-append xs ys)

  -- Behind the first attribute nothing is temporary, also with one more that is not.
  settled-snoc :
      (seen : List Attr) (t : ℕ) (b : List ℕ)
      → passing (drop 1 seen) ≡ 0
      → temporary t ≡ false
      → passing (drop 1 (seen ++ (t, b) ∷ [])) ≡ 0
  unfolding passing
  settled-snoc [] t b h e = refl
  settled-snoc (x ∷ seen) t b h e = passing-append seen ((t, b) ∷ []) ∙ rw h (rw e refl)

length-without : (t : ℕ) (xs : List Attr) → length (without t xs) ≤ length xs
length-without t [] = omega arith
length-without t ((u, b) ∷ xs) = ground (arith, length-without t xs)

shorter :
    (t : ℕ) (b : List ℕ) (seen left : List Attr)
    → length (without t (seen ++ (t, b) ∷ left)) ≤ length seen + length left
shorter t b [] left =
    let here : (t == t) ≡ true = ground arith in rw here (omega (arith, length-without t left))
shorter t b ((u, c) ∷ seen) left = ground (arith, shorter t b seen left)

mul_bound : (m k : ℕ) → m ≤ k → m * m ≤ k * k
mul_bound m k h = grind arith

restart_room :
    (a b n m fuel : ℕ) → n ≡ a + suc b → n * n + suc b < suc fuel → m ≤ a + b → m * m + m < fuel
restart_room a b n m fuel e h le =
    let k : n ≡ suc (a + b) = omega arith in
    let sq : n * n ≡ (a + b) * (a + b) + (a + b) + suc (a + b) = rw k (grind arith) in
    omega (arith, mul_bound m (a + b) le)

module _ (tlv : Tlv) (temporary : ℕ → Bool) where
  compact_step :
      (fuel : ℕ) (o : Object) (it rest : List ℕ) (t : ℕ)
      → leb tlv.hdr_len (length it) ≡ true
      → tlv.tag it ≡ t
      → tlv.next it ≡ rest
      → temporary t ≡ false
      → compact_from tlv temporary (suc fuel) o it ≡ compact_from tlv temporary fuel o rest
  unfolding compact_from
  compact_step fuel o it rest t long tag next keep =
      rw (long, compact_from)
        (rw (tag, compact_from) (rw (keep, compact_from) (rw (next, compact_from) refl)))

  compact_again :
      (fuel : ℕ) (o p : Object) (it rest : List ℕ) (t : ℕ) (b : Bool)
      → leb tlv.hdr_len (length it) ≡ true
      → tlv.tag it ≡ t
      → temporary t ≡ true
      → attr_delete tlv o t ≡ some (b, p)
      → tlv.next (used p) ≡ rest
      → compact_from tlv temporary (suc fuel) o it ≡ compact_from tlv temporary fuel p rest
  unfolding compact_from
  compact_again fuel o p it rest t b long tag gone e next =
      rw (long, compact_from)
        (rw (tag, compact_from)
          (rw (gone, compact_from) (rw (e, compact_from) (rw (next, compact_from) refl))))

  next_of :
      (xs : List Attr)
      → Fits xs
      → tlv.next [] ≡ []
      → tlv.next (encode tlv xs) ≡ encode tlv (drop 1 xs)
  next_of [] f z = rw (encode-nil tlv) z
  next_of ((t, b) ∷ xs) f z =
      ap tlv.next (encode-cons tlv t b xs) ∙ next-attribute tlv t b (encode tlv xs) f.0 f.1

  abbrev Left : Object → List Attr → Option Object → Type 0
  Left o xs r =
      (p : Object) × (ys : List Attr) × (r ≡ some p)
      × Holds tlv p ys
      × (lasting temporary ys ≡ lasting temporary xs)
      × (passing temporary (drop 1 ys) ≡ 0)
      × (p.key ≡ o.key)

  one_settled : (xs : List Attr) → passing temporary (drop 1 (take 1 xs)) ≡ 0
  unfolding passing
  one_settled [] = refl
  one_settled (x ∷ xs) = refl

  counted : (xs : List Attr) → length xs ≡ length (take 1 xs) + length (drop 1 xs)
  counted [] = omega arith
  counted (x ∷ xs) = omega arith

  behind_first : (xs : List Attr) → length (drop 1 xs) ≤ length xs
  behind_first [] = omega arith
  behind_first (x ∷ xs) = omega arith

  suffix-Fits : (xs ys : List Attr) → Fits (xs ++ ys) → Fits ys
  suffix-Fits [] ys f = f
  suffix-Fits (x ∷ xs) ys f = suffix-Fits xs ys f.2

  compact_from-Left :
      tlv.next [] ≡ []
      → (fuel : ℕ) (o : Object) (seen left : List Attr) (n : ℕ) → Holds tlv o (seen ++ left)
      → passing temporary (drop 1 seen) ≡ 0
      → n ≡ length seen + length left
      → n * n + length left < fuel
      → Left o (seen ++ left) (compact_from tlv temporary fuel o (encode tlv left))
  unfolding compact_from
  compact_from-Left z zero o seen left n h p e lt = absurd (omega arith)
  compact_from-Left z (suc fuel) o seen [] n h p e lt =
      let none_left : leb tlv.hdr_len 0 ≡ false = ground (arith, tlv.hdr_len_pos) in
      (
        o,
        seen,
        rw (encode-nil tlv) (rw none_left refl),
        subst (Holds tlv o) (append-nil seen) h,
        ap (lasting temporary) (sym (append-nil seen)),
        p,
        refl,
      )
  compact_from-Left z (suc fuel) o seen ((t, b) ∷ left) n h p e lt =
      let front = encode-cons tlv t b left in
      let f = suffix-Fits seen ((t, b) ∷ left) h.fits in
      let long : leb tlv.hdr_len (length (encode tlv ((t, b) ∷ left))) ≡ true = ground (
        arith,
        front,
        length-append (attribute tlv t b) (encode tlv left),
        length-attribute tlv t b,
      ) in
      let tag : tlv.tag (encode tlv ((t, b) ∷ left)) ≡ t =
        ap tlv.tag front ∙ tag-attribute tlv t b (encode tlv left) f.0 f.1 in
      elim (Bool-cases (temporary t)) [
        | inr keep ↦
            let whole : (seen ++ (t, b) ∷ []) ++ left ≡ seen ++ (t, b) ∷ left =
              append_assoc seen ((t, b) ∷ []) left in
            let (q, ys, r, g, same, settled, k) =
              compact_from-Left z fuel o (seen ++ (t, b) ∷ []) left n
                (subst (Holds tlv o) (sym whole) h) (settled-snoc temporary seen t b p keep)
                (omega (arith, length-append seen ((t, b) ∷ []))) (omega arith) in
            (
              q,
              ys,
              compact_step fuel o _ (encode tlv left) t long tag (next_of ((t, b) ∷ left) f z) keep
                  ∙ r,
              g,
              same ∙ ap (lasting temporary) whole,
              settled,
              k,
            )
        | inl gone ↦
            let (o', e', h', k') = attr_delete-Holds tlv o (seen ++ (t, b) ∷ left) t h in
            let rest = without t (seen ++ (t, b) ∷ left) in
            let (q, ys, r, g, same, settled, k) =
              compact_from-Left z fuel o' (take 1 rest) (drop 1 rest) (length rest)
                (subst (Holds tlv o') (sym (take-append-drop 1 rest)) h') (one_settled rest)
                (counted rest)
                (omega (
                  arith,
                  behind_first rest,
                  restart_room (length seen) (length left) n (length rest) fuel e lt
                      (shorter t b seen left),
                )) in
            (
              q,
              ys,
              compact_again fuel o o' _ (encode tlv (drop 1 rest)) t (has t (seen ++ (t, b) ∷ left))
                    long tag gone e' (ap tlv.next h'.content ∙ next_of rest h'.fits z)
                  ∙ r,
              g,
              same
                  ∙ ap (lasting temporary) (take-append-drop 1 rest)
                  ∙ lasting-without temporary t (seen ++ (t, b) ∷ left) gone,
              settled,
              k ∙ k',
            )
      ]

  -- If the iterator stays at the end once it is there, fuel above `n * n + n` for `n` attributes is enough. The
  -- object keeps its key and all attributes that are not temporary, in their order, and a temporary
  -- attribute can be left at the first position only.
  pub compact-Left :
      (o : Object) (xs : List Attr) (fuel : ℕ)
      → Holds tlv o xs
      → tlv.next [] ≡ []
      → length xs * length xs + length xs < fuel
      → (p : Object) × (ys : List Attr) × (compact tlv temporary fuel o ≡ some p)
        × Holds tlv p ys
        × (lasting temporary ys ≡ lasting temporary xs)
        × (passing temporary (drop 1 ys) ≡ 0)
        × (p.key ≡ o.key)
  unfolding compact
  compact-Left o xs fuel h z lt =
      let (q, ys, r, g, same, settled, k) =
        compact_from-Left z fuel o [] xs (length xs) h (unfold passing in refl) (omega arith) lt in
      (q, ys, ap (compact_from tlv temporary fuel o) h.content ∙ r, g, same, settled, k)
