-- ===== src/Ipc/Sample.antt =====
-- A concrete `Sock`, for tests: every handle is an end of one line of bytes.
use opx_cps.Common.{
  ℕ, ◌≡◌, refl, sym, subst, true, List, ◌++◌, Option, none, some, arith, length, length-append,
  take, drop, take-append_length, drop-append_length, leb, if◌then◌else◌,
}
use opx_cps.Ipc.{Sock}
use opx_cps.Ipc.Words.{IsWords}
use opx_cps.Object.Sample.{key}
use opx_cps.Ipc.Pipe.{IsPipe}

abbrev pub line_read : ℕ → ℕ → List ℕ → Option (List ℕ) × List ℕ
line_read h n w = if leb n (length w) then (some (take n w), drop n w) else (none, w)

abbrev pub line : Sock (List ℕ)
line = record { write = λ h b w. (true, w ++ b); read = line_read }

line_read_lem : (h : ℕ) (b rest : List ℕ) → line_read h (length b) (b ++ rest) ≡ (some b, rest)
line_read_lem h b rest =
    let enough : leb (length b) (length (b ++ rest)) ≡ true =
      ground (arith, length-append b rest) in
    rw enough (λ i. (some (take-append_length b rest i), drop-append_length b rest i))

pub line-IsPipe : (from to : ℕ) → IsPipe line from to (λ w. w)
line-IsPipe from to = record {
  write_lem = λ b w. (w ++ b, refl, refl);
  read_lem = λ b rest w e. (
    rest,
    subst (λ x. line_read to (length b) x ≡ (some b, rest)) (sym e) (line_read_lem to b rest),
    refl,
  );
}

pub key-IsWords : IsWords key
key-IsWords = record { size = refl; len = omega arith; attr = omega arith; slots = omega arith }
