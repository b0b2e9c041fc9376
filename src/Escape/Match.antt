-- ===== src/Escape/Match.antt =====
-- What the database matches against an escaped key. The pattern language is the database's: `Glob`
-- states what its documentation says of the patterns that this library builds.
use opx_cps.Common.{
  append_assoc, ℕ, ◌≡◌, refl, subst, sym, append-nil, ap, ◌∙◌, ◌↔◌, inl, inr, Bool, true, false,
  List, [], ◌∷◌, ◌++◌, Bool-cases,
}
use opx_cps.Escape.{special, escape, backslash, star, db_key_copy_with_escape}
use opx_cps.Escape.Copy.{db_key_copy_with_escape_lem}

-- `h?llo`-style patterns: a byte that is not special stands for itself, a backslash takes the next
-- byte literally, and a final star stands for any bytes.
pub record Glob : Type 0 where
  pub matches : List ℕ → List ℕ → Bool
  pub at_end : (s : List ℕ) → (matches [] s ≡ true) ↔ (s ≡ [])
  pub plain :
      (c : ℕ) (p s : List ℕ)
      → special c ≡ false
      → (matches (c ∷ p) s ≡ true) ↔ ((r : List ℕ) × (s ≡ c ∷ r) × (matches p r ≡ true))
  pub quoted :
      (c : ℕ) (p s : List ℕ)
      → (matches (backslash ∷ c ∷ p) s ≡ true) ↔ ((r : List ℕ) × (s ≡ c ∷ r) × (matches p r ≡ true))
  pub any : (s : List ℕ) → matches (star ∷ []) s ≡ true

module _ (g : Glob) where
  -- One byte of the data, escaped or not, matches exactly itself.
  one_byte :
      (c : ℕ) (p q s : List ℕ)
      → (g.matches (escape (c ∷ p) ++ q) s ≡ true)
        ↔ ((r : List ℕ) × (s ≡ c ∷ r) × (g.matches (escape p ++ q) r ≡ true))
  unfolding escape
  one_byte c p q s = elim (Bool-cases (special c)) [
    | inl e ↦ rw e (g.quoted c (escape p ++ q) s)
    | inr e ↦ rw e (g.plain c (escape p ++ q) s e)
  ]

  -- The bytes `s` are the text `p`, and what is left matches `q`.
  abbrev pub Begins : List ℕ → List ℕ → List ℕ → Type 0
  Begins p q s = (r : List ℕ) × (s ≡ p ++ r) × (g.matches q r ≡ true)

  -- Behind an escaped text the pattern goes on with what is left of the bytes.
  pub matches-escape-append : (p q s : List ℕ) → (g.matches (escape p ++ q) s ≡ true) ↔ Begins p q s
  unfolding escape
  matches-escape-append [] q s =
      ((λ h. (s, refl, h)), λ h. subst (λ t. g.matches q t ≡ true) (sym h.1) h.2)
  matches-escape-append (c ∷ p) q s = (
    (λ h.
        let (t, e, m) = (one_byte c p q s).0 h in
        let (r, e', m') = (matches-escape-append p q t).0 m in (r, e ∙ ap (λ u. c ∷ u) e', m')),
    (λ h.
        (one_byte c p q s).1
          (p ++ h.0, h.1, (matches-escape-append p q (p ++ h.0)).1 (h.0, refl, h.2))),
  )

  -- An escaped text, taken as a pattern, matches that text and no other.
  pub matches-escape : (p s : List ℕ) → (g.matches (escape p) s ≡ true) ↔ (s ≡ p)
  matches-escape p s = (forth, back)
    where
      forth : g.matches (escape p) s ≡ true → s ≡ p
      forth h =
          let (r, e, m) = (matches-escape-append p [] s).0 (rw (append-nil (escape p)) h) in
          e ∙ ap (λ u. p ++ u) ((g.at_end r).0 m) ∙ append-nil p

      back : s ≡ p → g.matches (escape p) s ≡ true
      back e =
          rw (append-nil (escape p)) at
            ((matches-escape-append p [] s).1 ([], e ∙ sym (append-nil p), (g.at_end []).1 refl))

  -- An escaped text with a star behind it matches exactly the texts that begin with that text.
  pub matches-escape-star :
      (p s : List ℕ) → (g.matches (escape p ++ star ∷ []) s ≡ true) ↔ ((r : List ℕ) × (s ≡ p ++ r))
  matches-escape-star p s = (
    (λ h. let (r, e, m) = (matches-escape-append p (star ∷ []) s).0 h in (r, e)),
    (λ h. (matches-escape-append p (star ∷ []) s).1 (h.0, h.1, g.any h.0)),
  )

  -- What is appended to an escaped text, with a star behind it, is a pattern for exactly the texts
  -- that begin with both texts, one behind the other.
  pub db_key_copy_with_escape-prefix :
      (p q s : List ℕ)
      → (g.matches (db_key_copy_with_escape (db_key_copy_with_escape [] p) q ++ star ∷ []) s ≡ true)
        ↔ ((r : List ℕ) × (s ≡ p ++ (q ++ r)))
  db_key_copy_with_escape-prefix p q s =
      rw
        (
          db_key_copy_with_escape_lem (db_key_copy_with_escape [] p) q,
          db_key_copy_with_escape_lem [] p,
          append_assoc (escape p) (escape q) (star ∷ []),
        )
        (forth, back)
    where
      forth :
          g.matches (escape p ++ (escape q ++ star ∷ [])) s ≡ true
          → (r : List ℕ) × (s ≡ p ++ (q ++ r))
      forth h =
          let (t, e, m) = (matches-escape-append p (escape q ++ star ∷ []) s).0 h in
          let (r, e') = (matches-escape-star q t).0 m in (r, e ∙ ap (λ u. p ++ u) e')

      back :
          (r : List ℕ) × (s ≡ p ++ (q ++ r))
          → g.matches (escape p ++ (escape q ++ star ∷ [])) s ≡ true
      back h =
          (matches-escape-append p (escape q ++ star ∷ []) s).1
            (q ++ h.0, h.1, (matches-escape-star q (q ++ h.0)).1 (h.0, refl))
