-- ===== src/Object/Buffer.antt =====
-- Buffers that are cut, resized and written into.
use opx_cps.Common.{
  append-nil, ℕ, zero, suc, ◌+◌, ◌-◌, ◌≤◌, ◌≡◌, refl, ap, sym, ◌∙◌, List, [], ◌∷◌, ◌++◌,
  append_assoc, arith, length, length-append, length-take, length-drop, length-replicate, take,
  drop, replicate, resize, take-append_length,
}

pub take-take_append :
    (n m : ℕ) (xs rest : List ℕ) → n ≤ m → n ≤ length xs → take n (take m xs ++ rest) ≡ take n xs
take-take_append zero m xs rest h k = refl
take-take_append (suc n) zero xs rest h k = absurd (omega arith)
take-take_append (suc n) (suc m) [] rest h k = absurd (omega arith)
take-take_append (suc n) (suc m) (x ∷ xs) rest h k =
    ap (λ r. x ∷ r) (take-take_append n m xs rest (omega arith) (omega arith))

pub length-resize : (m : ℕ) (xs : List ℕ) → length (resize 0 m xs) ≡ m
length-resize m xs =
    let whole : length (resize 0 m xs) ≡ length (take m xs) + length (replicate (m - length xs) 0) =
      length-append (take m xs) (replicate (m - length xs) 0) in
    omega (arith, whole, length-take m xs, length-replicate {A = ℕ} (m - length xs) 0)

-- Bytes written over those behind the first `u`.
abbrev pub splice : ℕ → List ℕ → List ℕ → List ℕ
splice u x buffer = take u buffer ++ (x ++ drop (length x) (drop u buffer))

module _ (u : ℕ) (x buffer : List ℕ) (inside : u + length x ≤ length buffer) where
  pub length-splice : length (splice u x buffer) ≡ length buffer
  length-splice = omega (
    arith,
    whole,
    rest,
    length-take u buffer,
    length-drop u buffer,
    length-drop (length x) (drop u buffer),
  )
    where
      whole :
          length (splice u x buffer)
          ≡ length (take u buffer) + length (x ++ drop (length x) (drop u buffer))
      whole = length-append (take u buffer) (x ++ drop (length x) (drop u buffer))

      rest :
          length (x ++ drop (length x) (drop u buffer))
          ≡ length x + length (drop (length x) (drop u buffer))
      rest = length-append x (drop (length x) (drop u buffer))

  pub take-splice : take (u + length x) (splice u x buffer) ≡ take u buffer ++ x
  take-splice =
      ap (λ n. take n (splice u x buffer)) count
      ∙ ap (take (length (take u buffer ++ x))) (sym (append_assoc (take u buffer) x _))
      ∙ take-append_length (take u buffer ++ x) (drop (length x) (drop u buffer))
    where
      count : u + length x ≡ length (take u buffer ++ x)
      count = omega (arith, length-append (take u buffer) x, length-take u buffer)

pub take-take : (n m : ℕ) (xs : List ℕ) → n ≤ m → n ≤ length xs → take n (take m xs) ≡ take n xs
take-take n m xs h k = ap (take n) (sym (append-nil (take m xs))) ∙ take-take_append n m xs [] h k
