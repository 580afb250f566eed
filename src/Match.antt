-- ===== src/Match.antt =====
-- tools/match/match.go: wildcard patterns over UTF-8 texts, where `*` stands for any runes and `?`
-- for one. Texts are lists of bytes. Fuel bounds the recursion and the loops; `none` means that it
-- ran out, and Match/Correct shows that the fuel of `match` is enough.
pub mod Wild
pub mod Runes
pub mod Correct
pub mod Literal
mod Tests
use gkit.Prelude.{
  ℕ, zero, suc, ◌+◌, ◌*◌, ◌<◌, ◌≤◌, Bool, true, false, ◌&&◌, ◌||◌, Option, none, some, List, [],
  ◌∷◌, length, drop, ltb, ◌==◌, if◌then◌else◌,
}

abbrev pub star : ℕ
star = b'*'

abbrev pub quest : ℕ
quest = b'?'

-- What the code uses of Go's package unicode/utf8: DecodeRuneInString on a text whose first byte is
-- no ASCII character gives a rune that is none either, and its size, which is at least one byte and
-- at most the text.
pub record Utf8 : Type 0 where
  pub decode : List ℕ → ℕ × ℕ
  pub rune_wide : (c : ℕ) (s : List ℕ) → 0x7f < c → 0x7f < (decode (c ∷ s)).0
  pub size_pos : (c : ℕ) (s : List ℕ) → 0x7f < c → 0 < (decode (c ∷ s)).1
  pub size_le : (c : ℕ) (s : List ℕ) → 0x7f < c → (decode (c ∷ s)).1 ≤ length (c ∷ s)

-- `for len(pattern) > 1 && pattern[0] == '*' && pattern[1] == '*' { pattern = pattern[1:] }`
unfoldable pub skip_stars : List ℕ → List ℕ
skip_stars [] = []
skip_stars (a ∷ []) = a ∷ []
skip_stars (a ∷ b ∷ p) = if a == star && b == star then skip_stars (b ∷ p) else a ∷ b ∷ p

-- `pattern == "*"`
abbrev pub is_star : List ℕ → Bool
is_star [] = false
is_star (a ∷ []) = a == star
is_star (a ∷ b ∷ p) = false

-- `a || b`, where `b` runs only if `a` is false.
abbrev pub or_else : Option Bool → Option Bool → Option Bool
or_else none b = none
or_else (some true) b = some true
or_else (some false) b = b

module _ (u : Utf8) where
  -- The first rune of a text and its size; the empty text gives RuneError and 0.
  unfoldable pub read_rune : List ℕ → ℕ × ℕ
  read_rune [] = (0xfffd, 0)
  read_rune (c ∷ s) = if ltb 0x7f c then u.decode (c ∷ s) else (c, 1)

  unfoldable mutual
    pub deep_match_rune : ℕ → List ℕ → List ℕ → Option Bool
    deep_match_rune zero s p = none
    deep_match_rune (suc n) s p =
        let rest = rune_loop n s (skip_stars p) in if is_star p then some true else rest

    -- The loop of deepMatchRune; its test reads the size of the pattern's rune.
    pub rune_loop : ℕ → List ℕ → List ℕ → Option Bool
    rune_loop zero s p = none
    rune_loop (suc n) s p =
        let (sr, srsz) = read_rune s in
        let (pr, prsz) = read_rune p in
        let next = rune_loop n (drop srsz s) (drop prsz p) in
        let skip = deep_match_rune n s (drop prsz p) in
        let eat = deep_match_rune n (drop srsz s) p in
        if prsz == 0
        then some (srsz == 0)
        else if pr == quest
        then (if srsz == 0 then some false else next)
        else if pr == star
        then or_else skip (if srsz == 0 then some false else eat)
        else if srsz == 0
        then some false
        else if sr == pr
        then next
        else some false

  unfoldable mutual
    unfolding deep_match_rune

    pub deep_match : ℕ → List ℕ → List ℕ → Option Bool
    deep_match zero s p = none
    deep_match (suc n) s p =
        let rest = byte_loop n s (skip_stars p) in if is_star p then some true else rest

    -- The loop of deepMatch, which hands the texts over at the first byte that is not ASCII.
    pub byte_loop : ℕ → List ℕ → List ℕ → Option Bool
    byte_loop zero s p = none
    byte_loop (suc n) [] [] = some true
    byte_loop (suc n) (c ∷ s) [] = some false
    byte_loop (suc n) [] (q ∷ p) =
        let skip = deep_match n [] p in
        if ltb 0x7f q
        then deep_match_rune n [] (q ∷ p)
        else if q == quest
        then some false
        else if q == star
        then or_else skip (some false)
        else some false
    byte_loop (suc n) (c ∷ s) (q ∷ p) =
        let next = byte_loop n s p in
        let skip = deep_match n (c ∷ s) p in
        let eat = deep_match n s (q ∷ p) in
        if ltb 0x7f q || ltb 0x7f c
        then deep_match_rune n (c ∷ s) (q ∷ p)
        else if q == quest
        then next
        else if q == star
        then or_else skip eat
        else if c == q
        then next
        else some false

  -- Match. Each round shortens one of the texts, and each is a call and a pass through a loop.
  unfoldable pub match : List ℕ → List ℕ → Option Bool
  unfolding deep_match
  match s p = deep_match (2 * (length s + length p) + 4) s p

-- IsPattern.
unfoldable pub is_pattern : List ℕ → Bool
is_pattern [] = false
is_pattern (c ∷ s) = (c == star || c == quest) || is_pattern s
