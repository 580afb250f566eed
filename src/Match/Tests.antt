-- ===== src/Match/Tests.antt =====
-- Runs of Match and its theorems at concrete inputs.
use gkit.Prelude.{ℕ, ◌≡◌, ◌↔◌, refl, Bool, true, false, some, List, [], ◌∷◌, arith}
use gkit.Match.{Utf8, match, read_rune, skip_stars}
use gkit.Match.Wild.{Matches}
use gkit.Match.Runes.{runes}
use gkit.Match.Correct.{match_correct}

-- Every byte that is not ASCII is invalid: RuneError, of one byte.
abbrev strict : Utf8
strict = record {
  decode = λ _. (0xfffd, 1);
  rune_wide = λ c s h. omega arith;
  size_pos = λ c s h. omega arith;
  size_le = λ c s h. omega arith;
}

abbrev text : List ℕ
text = b'g' ∷ b'k' ∷ b'i' ∷ b't' ∷ []

abbrev pattern_yes : List ℕ
pattern_yes = b'g' ∷ b'*' ∷ b'*' ∷ b'?' ∷ b't' ∷ []

abbrev pattern_no : List ℕ
pattern_no = b'*' ∷ b'k' ∷ b'?' ∷ []

match_yes : match strict text pattern_yes ≡ some true
unfolding match skip_stars
match_yes = refl

match_no : match strict text pattern_no ≡ some false
unfolding match skip_stars
match_no = refl

match_wide : match strict (0xff ∷ b'a' ∷ []) (b'?' ∷ b'a' ∷ []) ≡ some true
unfolding match skip_stars read_rune
match_wide = refl

match_correct_example :
    (b : Bool) × (match strict text pattern_yes ≡ some b)
    × ((b ≡ true) ↔ Matches (runes strict text) (runes strict pattern_yes))
match_correct_example = match_correct strict text pattern_yes
