-- ===== src/Grep/Examples.antt =====
-- A concrete search: the pattern "^a.*c$" in the text "abbc".
use dave.Common.{ℕ, List, ◌≡◌, ◌↔◌, refl, true, false, [], ◌∷◌}
use dave.Grep.{matches, matchhere, matchstar, match_from}
use dave.Grep.Language.{Matches}
use dave.Grep.Matcher.{matches_iff}

abbrev wanted : List ℕ
wanted = 94 ∷ 97 ∷ 46 ∷ 42 ∷ 99 ∷ 36 ∷ []

abbrev text : List ℕ
text = 97 ∷ 98 ∷ 98 ∷ 99 ∷ []

found : matches wanted text ≡ true
unfolding matches matchhere matchstar
found = refl

not_found : matches (98 ∷ 97 ∷ []) text ≡ false
unfolding matches matchhere match_from
not_found = refl

matches_example : (matches wanted text ≡ true) ↔ Matches wanted text
matches_example = matches_iff wanted text
