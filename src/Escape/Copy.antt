-- ===== src/Escape/Copy.antt =====
-- What db_key_copy_with_escape writes.
use opx_cps.Common.{
  ℕ, suc, ◌+◌, ◌≡◌, refl, sym, ap, ◌∙◌, inl, inr, List, [], ◌∷◌, ◌++◌, append_assoc, arith, length,
  length-append, length-replicate, set, replicate, replicate-snoc, set-append_length, resize,
  resize_more, Bool-cases,
}
use native.Mathlib.Nat.{add_comm}
use opx_cps.Escape.{
  special, escape, backslash, Cursor, put_escaped, put_plain, copy_step, copy_loop,
  db_key_copy_with_escape,
}

-- The loop stands behind `done`, with room for the bytes that are left.
abbrev at : List ℕ → ℕ → Cursor
at done left = record {
  lst = done ++ replicate left 0;
  offset = length done;
  space_wanted = length done + left;
}

set_second :
    (done : List ℕ) (x y c : ℕ) (ys : List ℕ)
    → set (done ++ x ∷ y ∷ ys) (length done + 1) c ≡ (done ++ x ∷ c ∷ []) ++ ys
set_second [] x y c ys = refl
set_second (d ∷ done) x y c ys =
    let e : suc (length done) + 1 ≡ suc (length done + 1) = omega arith in
    rw e (ap (λ r. d ∷ r) (set_second done x y c ys))

put_plain-at :
    (done : List ℕ) (left c : ℕ) → put_plain c (at done (suc left)) ≡ at (done ++ c ∷ []) left
unfolding put_plain
put_plain-at done left c = λ i. record {
  lst = (set-append_length done 0 c (replicate left 0) ∙ sym (append_assoc done (c ∷ []) _)) i;
  offset = sym (length-append done (c ∷ [])) i;
  space_wanted = space i;
}
  where
    space : length done + suc left ≡ length (done ++ c ∷ []) + left
    space = omega (arith, length-append done (c ∷ []))

put_escaped-at :
    (done : List ℕ) (left c : ℕ)
    → put_escaped c (at done (suc left)) ≡ at (done ++ backslash ∷ c ∷ []) left
unfolding put_escaped
put_escaped-at done left c =
    λ i. record { lst = written i; offset = moved i; space_wanted = space i }
  where
    moved : length done + 2 ≡ length (done ++ backslash ∷ c ∷ [])
    moved = omega (arith, length-append done (backslash ∷ c ∷ []))

    space : length done + suc left + 1 ≡ length (done ++ backslash ∷ c ∷ []) + left
    space = omega (arith, length-append done (backslash ∷ c ∷ []))

    grown :
        resize 0 (length done + suc left + 1) (done ++ replicate (suc left) 0)
        ≡ done ++ 0 ∷ 0 ∷ replicate left 0
    grown =
        resize_more 0 1 (length done + suc left + 1) (done ++ replicate (suc left) 0) (
          omega
            (arith, length-append done (replicate (suc left) 0), length-replicate {A = ℕ} left 0))
        ∙ append_assoc done _ _
        ∙ ap (λ r. done ++ 0 ∷ r) (replicate-snoc left 0)

    written :
        set
          (set
            (resize 0 (length done + suc left + 1) (done ++ replicate (suc left) 0))
            (length done)
            backslash)
          (length done + 1)
          c
        ≡ (done ++ backslash ∷ c ∷ []) ++ replicate left 0
    written =
        rw (grown, set-append_length done 0 backslash (0 ∷ replicate left 0))
          (set_second done backslash 0 c (replicate left 0))

copy_step-at :
    (done : List ℕ) (left c : ℕ)
    → copy_step c (at done (suc left)) ≡ at (done ++ escape (c ∷ [])) left
unfolding copy_step escape
copy_step-at done left c = elim (Bool-cases (special c)) [
  | inl e ↦ rw e (put_escaped-at done left c)
  | inr e ↦ rw e (put_plain-at done left c)
]

pub escape-cons : (c : ℕ) (p : List ℕ) → escape (c ∷ p) ≡ escape (c ∷ []) ++ escape p
unfolding escape
escape-cons c p = ground arith

copy_loop-at : (p done : List ℕ) → (copy_loop p (at done (length p))).lst ≡ done ++ escape p
unfolding copy_loop escape
copy_loop-at [] done = refl
copy_loop-at (c ∷ p) done =
    ap (λ (s : Cursor). (copy_loop p s).lst) (copy_step-at done (length p) c)
    ∙ copy_loop-at p (done ++ escape (c ∷ []))
    ∙ append_assoc done _ _
    ∙ sym (ap (λ r. done ++ r) (escape-cons c p))

-- For every destination and every data, the bytes appended are the data with a backslash before
-- each special byte, and what stood in the destination is kept.
pub db_key_copy_with_escape_lem : (lst p : List ℕ) → db_key_copy_with_escape lst p ≡ lst ++ escape p
unfolding db_key_copy_with_escape
db_key_copy_with_escape_lem lst p =
    ap (λ (s : Cursor). (copy_loop p s).lst) start ∙ copy_loop-at p lst
  where
    start :
        record {
          lst = resize 0 (length p + length lst) lst;
          offset = length lst;
          space_wanted = length p + length lst;
        }
        ≡ at lst (length p)
    start = λ i. record {
      lst = resize_more 0 (length p) (length p + length lst) lst (omega arith) i;
      offset = length lst;
      space_wanted = add_comm (length p) (length lst) i;
    }
