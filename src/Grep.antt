-- ===== src/Grep.antt =====
-- user/bin/grep.c: the matcher. A C string is the list of its bytes before the NUL.
pub mod Language
pub mod Matcher
mod Examples
use dave.Common.{ℕ, Bool, true, false, ◌&&◌, ◌||◌, List, [], ◌∷◌, if◌then◌else◌, ◌==◌}

-- '$', '*', '.' and '^'.
abbrev pub dollar : ℕ
dollar = 36

abbrev pub asterisk : ℕ
asterisk = 42

abbrev pub dot : ℕ
dot = 46

abbrev pub caret : ℕ
caret = 94

abbrev pub is_empty : List ℕ → Bool
is_empty [] = true
is_empty (x ∷ t) = false

-- `rest` is `matchhere` for what follows the star.
unfoldable pub matchstar : ℕ → (List ℕ → Bool) → List ℕ → Bool
matchstar c rest [] = rest []
matchstar c rest (x ∷ t) = rest (x ∷ t) || (x == c || c == dot) && matchstar c rest t

-- The last test of `matchhere`: one character, then `rest`.
abbrev pub matchone : ℕ → (List ℕ → Bool) → List ℕ → Bool
matchone c rest [] = false
matchone c rest (x ∷ t) = (c == dot || c == x) && rest t

unfoldable pub matchhere : List ℕ → List ℕ → Bool
matchhere [] text = true
matchhere (c ∷ []) text = if c == dollar then is_empty text else matchone c (matchhere []) text
matchhere (c ∷ d ∷ re) text =
    let after = matchhere (d ∷ re) in
    let skip = matchhere re in
    if d == asterisk then matchstar c skip text else matchone c after text

-- The loop of `match`, at each suffix of the text.
unfoldable pub match_from : List ℕ → List ℕ → Bool
match_from re [] = matchhere re []
match_from re (x ∷ t) = matchhere re (x ∷ t) || match_from re t

unfoldable pub matches : List ℕ → List ℕ → Bool
matches [] text = match_from [] text
matches (c ∷ re) text = if c == caret then matchhere re text else match_from (c ∷ re) text
