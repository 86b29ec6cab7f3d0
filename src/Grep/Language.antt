-- ===== src/Grep/Language.antt =====
-- What a pattern of user/bin/grep.c means, apart from how the matcher looks for it.
use dave.Common.{ℕ, ◌≡◌, Bool, true, ◌||◌, ◌&&◌, List, [], ◌∷◌, ◌++◌, if◌then◌else◌, ◌==◌}
use dave.Grep.{dollar, asterisk, dot, caret}

pub data Item : Type 0 where
  one : ℕ → Item
  many : ℕ → Item
  finish : Item

-- A '$' is special only at the end, and a '*' only behind a character.
abbrev pub items : List ℕ → List Item
items [] = []
items (c ∷ []) = if c == dollar then finish ∷ [] else one c ∷ []
items (c ∷ d ∷ re) =
    let after = items (d ∷ re) in
    let skip = items re in if d == asterisk then many c ∷ skip else one c ∷ after

abbrev pub accepts : ℕ → ℕ → Bool
accepts c x = c == dot || c == x

abbrev pub accepts_all : ℕ → List ℕ → Bool
accepts_all c [] = true
accepts_all c (x ∷ xs) = accepts c x && accepts_all c xs

-- The items describe a prefix of the text, or all of it where they end with `finish`.
abbrev pub Starts : List Item → List ℕ → Type 0
Starts [] text = Unit
Starts (one c ∷ is) text =
    (x : ℕ) × (rest : List ℕ) × (text ≡ x ∷ rest) × (accepts c x ≡ true) × Starts is rest
Starts (many c ∷ is) text =
    (xs : List ℕ) × (rest : List ℕ) × (text ≡ xs ++ rest)
    × (accepts_all c xs ≡ true)
    × Starts is rest
Starts (finish ∷ is) text = text ≡ []

-- They describe a part of the text.
abbrev pub Somewhere : List Item → List ℕ → Type 0
Somewhere is text = (before : List ℕ) × (rest : List ℕ) × (text ≡ before ++ rest) × Starts is rest

-- A '^' is special only at the start.
abbrev pub Matches : List ℕ → List ℕ → Type 0
Matches [] text = Somewhere [] text
Matches (c ∷ re) text =
    if c == caret then Starts (items re) text else Somewhere (items (c ∷ re)) text
