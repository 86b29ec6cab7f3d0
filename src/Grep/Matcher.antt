-- ===== src/Grep/Matcher.antt =====
-- The matcher of user/bin/grep.c finds exactly what its patterns mean.
use dave.Common.{
  ℕ, ◌≡◌, ◌↔◌, ◌⊎◌, refl, ap, arith, Bool, true, false, ◌||◌, List, [], ◌∷◌, ◌++◌, ◌==◌, Bool-cases,
  inl, inr,
}
use dave.Grep.{
  dollar, asterisk, caret, is_empty, matchstar, matchone, matchhere, match_from, matches,
}
use dave.Grep.Language.{Item, one, many, items, accepts, accepts_all, Starts, Somewhere, Matches}

or_cases : (a b : Bool) → a || b ≡ true → (a ≡ true) ⊎ (b ≡ true)
or_cases true b e = inl refl
or_cases false b e = inr e

matchstar_sound :
    (c : ℕ) (is : List Item) (rest : List ℕ → Bool) (text : List ℕ)
    → ((t : List ℕ) → rest t ≡ true → Starts is t)
    → matchstar c rest text ≡ true
    → Starts (many c ∷ is) text
unfolding matchstar
matchstar_sound c is rest [] h e = ([], [], refl, refl, h [] e)
matchstar_sound c is rest (x ∷ t) h e = elim (or_cases (rest (x ∷ t)) _ e) [
  | inl now ↦ ([], x ∷ t, refl, refl, h (x ∷ t) now)
  | inr later ↦
      let (xs, r, split, all, starts) = matchstar_sound c is rest t h (ground (arith, later)) in
      (x ∷ xs, r, ap (λ l. x ∷ l) split, ground (arith, later, all), starts)
]

matchstar_complete :
    (c : ℕ) (rest : List ℕ → Bool) (xs r : List ℕ)
    → accepts_all c xs ≡ true
    → rest r ≡ true
    → matchstar c rest (xs ++ r) ≡ true
unfolding matchstar
matchstar_complete c rest [] [] all h = h
matchstar_complete c rest [] (y ∷ ys) all h = rw h refl
matchstar_complete c rest (x ∷ xs) r all h =
    ground (arith, all, matchstar_complete c rest xs r (ground (arith, all)) h)

matchone_sound :
    (c : ℕ) (is : List Item) (rest : List ℕ → Bool) (text : List ℕ)
    → ((t : List ℕ) → rest t ≡ true → Starts is t)
    → matchone c rest text ≡ true
    → Starts (one c ∷ is) text
matchone_sound c is rest [] h e = absurd (ground (arith, e))
matchone_sound c is rest (x ∷ t) h e = (x, t, refl, ground (arith, e), h t (ground (arith, e)))

matchone_complete :
    (c : ℕ) (rest : List ℕ → Bool) (x : ℕ) (t : List ℕ)
    → accepts c x ≡ true
    → rest t ≡ true
    → matchone c rest (x ∷ t) ≡ true
matchone_complete c rest x t a h = ground (arith, a, h)

only_empty : (text : List ℕ) → is_empty text ≡ true → text ≡ []
only_empty [] e = refl
only_empty (x ∷ t) e = cc

pub matchhere_sound : (re text : List ℕ) → matchhere re text ≡ true → Starts (items re) text
unfolding matchhere
matchhere_sound [] text e = tt
matchhere_sound (c ∷ []) text e = elim (Bool-cases (c == dollar)) [
  | inl d ↦ rw d (only_empty text (rw d at e))
  | inr n ↦ rw n (matchone_sound c [] (matchhere []) text (λ t h. tt) (rw n at e))
]
matchhere_sound (c ∷ d ∷ re) text e = elim (Bool-cases (d == asterisk)) [
  | inl a ↦ rw a (matchstar_sound c (items re) (matchhere re) text (matchhere_sound re) (rw a at e))
  | inr n ↦ rw n (
      matchone_sound c (items (d ∷ re)) (matchhere (d ∷ re)) text (matchhere_sound (d ∷ re))
        (rw n at e))
]

pub matchhere_complete : (re text : List ℕ) → Starts (items re) text → matchhere re text ≡ true
unfolding matchhere
matchhere_complete [] text s = refl
matchhere_complete (c ∷ []) text s = elim (Bool-cases (c == dollar)) [
  | inl d ↦ rw d (ap is_empty (rw d at s))
  | inr n ↦
      let (x, rest, split, fits, more) : Starts (one c ∷ []) text = rw n at s in
      rw (n, split) (matchone_complete c (matchhere []) x rest fits refl)
]
matchhere_complete (c ∷ d ∷ re) text s = elim (Bool-cases (d == asterisk)) [
  | inl a ↦
      let (xs, rest, split, all, more) : Starts (many c ∷ items re) text = rw a at s in
      rw (a, split)
        (matchstar_complete c (matchhere re) xs rest all (matchhere_complete re rest more))
  | inr n ↦
      let (x, rest, split, fits, more) : Starts (one c ∷ items (d ∷ re)) text = rw n at s in
      rw (n, split)
        (matchone_complete c (matchhere (d ∷ re)) x rest fits
          (matchhere_complete (d ∷ re) rest more))
]

match_from_sound : (re text : List ℕ) → match_from re text ≡ true → Somewhere (items re) text
unfolding match_from
match_from_sound re [] e = ([], [], refl, matchhere_sound re [] e)
match_from_sound re (x ∷ t) e = elim (or_cases (matchhere re (x ∷ t)) _ e) [
  | inl now ↦ ([], x ∷ t, refl, matchhere_sound re (x ∷ t) now)
  | inr later ↦
      let (before, rest, split, starts) = match_from_sound re t later in
      (x ∷ before, rest, ap (λ l. x ∷ l) split, starts)
]

match_from_complete :
    (re before rest : List ℕ) → Starts (items re) rest → match_from re (before ++ rest) ≡ true
unfolding match_from
match_from_complete re [] [] s = matchhere_complete re [] s
match_from_complete re [] (y ∷ ys) s = rw (matchhere_complete re (y ∷ ys) s) refl
match_from_complete re (x ∷ before) rest s = ground (arith, match_from_complete re before rest s)

match_from_iff : (re text : List ℕ) → (match_from re text ≡ true) ↔ Somewhere (items re) text
match_from_iff re text = (
  match_from_sound re text,
  λ (before, rest, split, starts). rw split (match_from_complete re before rest starts),
)

-- For every pattern and text, `match` returns true exactly when the pattern describes a part of
-- the text: from its start behind a leading '^', up to its end before a final '$', with any number
-- of the character in front of each '*'.
pub matches_iff : (re text : List ℕ) → (matches re text ≡ true) ↔ Matches re text
unfolding matches
matches_iff [] text = match_from_iff [] text
matches_iff (c ∷ re) text = elim (Bool-cases (c == caret)) [
  | inl e ↦ rw e (matchhere_sound re text, matchhere_complete re text)
  | inr n ↦ rw n (match_from_iff (c ∷ re) text)
]
