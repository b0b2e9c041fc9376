-- ===== src/ObjectList/Merge.antt =====
-- cps_api_object_list_merge_section: what is appended.
use opx_cps.Common.{
  ℕ, zero, suc, ◌+◌, ◌-◌, ◌%◌, ◌≤◌, ◌<◌, ◌≡◌, ◌⊎◌, inl, inr, refl, sym, ap, ◌∙◌, true, false, List,
  [], ◌∷◌, ◌++◌, append_assoc, Option, none, length, get_or, take, drop, replicate, resize,
  resize_more, set-append_length, at_next, arith, ltb, leb, if◌then◌else◌, Bool-cases, take_all,
  length-drop,
}
use opx_cps.Object.{word}
use opx_cps.ObjectList.{merge_loop, list_merge_section}

module _ {A : Type 0} where
  drop_at :
      (xs : List (Option A)) (i : ℕ)
      → i < length xs
      → drop i xs ≡ get_or xs i none ∷ drop (suc i) xs
  drop_at [] i h = absurd (omega arith)
  drop_at (x ∷ xs) zero h = refl
  drop_at (x ∷ xs) (suc i) h = drop_at xs i (omega arith)

  merge_loop-append :
      (n start : ℕ) (done src : List (Option A))
      → start + n ≤ length src
      → merge_loop n start (done ++ replicate n none) (length done) src
        ≡ done ++ take n (drop start src)
  unfolding merge_loop
  merge_loop-append zero start done src h = refl
  merge_loop-append (suc n) start done src h =
      let v = get_or src start none in
      ap (λ l. merge_loop n (suc start) l (suc (length done)) src)
        (set-append_length done none v (replicate n none))
      ∙ at_next (λ at l. merge_loop n (suc start) l at src) done v (replicate n none)
      ∙ merge_loop-append n (suc start) (done ++ v ∷ []) src (omega arith)
      ∙ append_assoc done (v ∷ []) (take n (drop (suc start) src))
      ∙ ap (λ l. done ++ take (suc n) l) (sym (drop_at src start (omega arith)))

  merged_count :
      (count start : ℕ) (dest src : List (Option A))
      → start + count ≤ length src
      → merge_loop count start (resize none (length dest + count) dest) (length dest) src
        ≡ dest ++ take count (drop start src)
  merged_count count start dest src h =
      ap (λ l. merge_loop count start l (length dest) src)
        (resize_more none count (length dest + count) dest refl)
      ∙ merge_loop-append count start dest src h

  -- If the start and the number add up without wrapping, a merge from behind the end of the source
  -- answers false and changes nothing; any other one answers true and appends the entries of the
  -- source from the start on, up to the number of them or to the end.
  pub list_merge_section_lem :
      (dest src : List (Option A)) (start number : ℕ)
      → start + number < word
      → (length src ≤ start) × (list_merge_section dest src start number ≡ (false, dest))
        ⊎ (start < length src)
          × (list_merge_section dest src start number
              ≡ (true, dest ++ take number (drop start src)))
  unfolding list_merge_section
  list_merge_section_lem dest src start number small = elim (Bool-cases (leb (length src) start)) [
    | inl behind ↦ inl (ground arith, rw behind refl)
    | inr inside ↦
        inr (ground arith, rw (no_wrap, inside) (ap (λ l. (true, l)) (merged (ground arith))))
  ]
    where
      no_wrap : (start + number) % word ≡ start + number
      no_wrap = omega (arith, small)

      merged :
          start < length src
          → merge_loop
              (if ltb (length src) (start + number) then length src - start else number)
              start
              (resize none
                (length dest
                  + (if ltb (length src) (start + number) then length src - start else number))
                dest)
              (length dest)
              src
            ≡ dest ++ take number (drop start src)
      merged inside = elim (Bool-cases (ltb (length src) (start + number))) [
        | inl beyond ↦ rw beyond (
            merged_count (length src - start) start dest src (omega (arith, inside))
            ∙ ap (λ l. dest ++ l)
                (take_all (length src - start) (drop start src)
                    (omega (arith, length-drop start src))
                  ∙ sym (take_all number (drop start src) (ground (arith, length-drop start src)))))
        | inr within ↦ rw within (merged_count number start dest src (ground arith))
      ]
