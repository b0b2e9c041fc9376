-- ===== src/Escape/SmallGlob.antt =====
-- A matcher for the patterns that this library builds, as a concrete `Glob` for tests.
use opx_cps.Common.{
  ℕ, ◌≡◌, refl, ap, sym, subst, ◌↔◌, Bool, true, false, List, [], ◌∷◌, arith, ◌==◌, if◌then◌else◌,
}
use opx_cps.Escape.{special, backslash, star}
use opx_cps.Escape.Match.{Glob}

-- A matcher with what the patterns need: literal bytes, a backslash, and a final star.
pub glob : Bool → List ℕ → List ℕ → Bool
glob false [] [] = true
glob false [] (x ∷ s) = false
glob true [] s = false
glob true (c ∷ p) [] = false
glob true (c ∷ p) (x ∷ s) = let rest = glob false p s in if x == c then rest else false
glob false (c ∷ p) [] = if c == backslash then false else c == star
glob false (c ∷ p) (x ∷ s) =
    let literal = glob true p (x ∷ s) in
    let rest = glob false p s in
    if c == backslash then literal else if c == star then true else if x == c then rest else false

abbrev pub Consumes : ℕ → List ℕ → List ℕ → Type 0
Consumes c p s = (r : List ℕ) × (s ≡ c ∷ r) × (glob false p r ≡ true)

abbrev head_or : List ℕ → ℕ
head_or [] = 0
head_or (x ∷ s) = x

abbrev rest_of : List ℕ → List ℕ
rest_of [] = []
rest_of (x ∷ s) = s

glob_same :
    (c x : ℕ) (p s : List ℕ)
    → special c ≡ false
    → x ≡ c
    → glob false p s ≡ true
    → glob false (c ∷ p) (x ∷ s) ≡ true
unfolding glob special
glob_same c x p s h same more = ground arith

pub glob-plain :
    (c : ℕ) (p s : List ℕ) → special c ≡ false → (glob false (c ∷ p) s ≡ true) ↔ Consumes c p s
unfolding glob special
glob-plain c p [] h = ((λ e. absurd (ground arith)), λ r. cc r.1)
glob-plain c p (x ∷ s) h = (
  (λ e. let same : x ≡ c = ground arith in (s, ap (λ y. y ∷ s) same, ground arith)),
  λ r.
      let same : x ≡ c = ap head_or r.1 in
      let next : s ≡ r.0 = ap rest_of r.1 in
      glob_same c x p s h same (subst (λ t. glob false p t ≡ true) (sym next) r.2),
)

pub glob-quoted :
    (c : ℕ) (p s : List ℕ) → (glob false (backslash ∷ c ∷ p) s ≡ true) ↔ Consumes c p s
unfolding glob
glob-quoted c p [] = ((λ e. cc e), λ r. cc r.1)
glob-quoted c p (x ∷ s) = (
  (λ e. let same : x ≡ c = ground arith in (s, ap (λ y. y ∷ s) same, ground arith)),
  λ r.
      let same : x ≡ c = ap head_or r.1 in
      let next : s ≡ r.0 = ap rest_of r.1 in
      let more : glob false p s ≡ true = subst (λ t. glob false p t ≡ true) (sym next) r.2 in
      ground arith,
)

pub glob-at_end : (s : List ℕ) → (glob false [] s ≡ true) ↔ (s ≡ [])
unfolding glob
glob-at_end [] = ((λ e. refl), λ e. refl)
glob-at_end (x ∷ s) = ((λ e. cc e), λ e. cc e)

pub glob-any : (s : List ℕ) → glob false (star ∷ []) s ≡ true
unfolding glob
glob-any [] = refl
glob-any (x ∷ s) = refl

abbrev pub small_glob : Glob
small_glob = record {
  matches = glob false;
  at_end = glob-at_end;
  plain = glob-plain;
  quoted = glob-quoted;
  any = glob-any;
}
