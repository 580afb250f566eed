-- ===== src/Match/Correct.antt =====
-- Match always ends, and decides whether the runes of the text match those of the pattern.
use gkit.Prelude.{
  ℕ, zero, suc, ◌+◌, ◌*◌, ◌≤◌, ◌≡◌, ◌↔◌, Bool, true, some, List, [], ◌∷◌, length, drop, length-drop,
  arith,
}
use gkit.Match.{
  Utf8, read_rune, skip_stars, deep_match_rune, rune_loop, deep_match, byte_loop, match,
}
use gkit.Match.Wild.{wild, Matches, wild-Matches, Matches-wild}
use gkit.Match.Runes.{
  runes_nil, read_rune_nil, runes, size_bounds, runes-cons, runes_ascii, wild-skip_stars,
  wild_of_is_star, length-skip_stars,
}

module _ (u : Utf8) where
  abbrev wilds : List ℕ → List ℕ → Bool
  wilds s p = wild (runes u s) (runes u p)

  mutual
    unfolding deep_match_rune wild

    deep_match_rune_lem :
        (n : ℕ) (s p : List ℕ)
        → 2 * (length s + length p) + 2 ≤ n
        → deep_match_rune u n s p ≡ some (wilds s p)
    deep_match_rune_lem zero s p h = absurd (omega arith)
    deep_match_rune_lem (suc n) s p h =
        let short = length-skip_stars p in
        ground (
          arith,
          wild_of_is_star u (runes u s) p,
          wild-skip_stars u (runes u s) p,
          rune_loop_lem n s (skip_stars p),
        )

    rune_loop_lem :
        (n : ℕ) (s p : List ℕ)
        → 2 * (length s + length p) + 1 ≤ n
        → rune_loop u n s p ≡ some (wilds s p)
    rune_loop_lem zero s p h = absurd (omega arith)
    rune_loop_lem (suc n) [] [] h = ground (arith, runes_nil u, read_rune_nil u)
    rune_loop_lem (suc n) (c ∷ s) [] h =
        let size = size_bounds u c s in
        ground (arith, runes_nil u, read_rune_nil u, runes-cons u c s)
    rune_loop_lem (suc n) [] (q ∷ p) h =
        let (pr, prsz) = read_rune u (q ∷ p) in
        let size = size_bounds u q p in
        let short = length-drop prsz (q ∷ p) in
        let skip = deep_match_rune_lem n [] (drop prsz (q ∷ p)) (omega arith) in
        ground (arith, runes_nil u, read_rune_nil u, runes-cons u q p)
    rune_loop_lem (suc n) (c ∷ s) (q ∷ p) h =
        let (sr, srsz) = read_rune u (c ∷ s) in
        let (pr, prsz) = read_rune u (q ∷ p) in
        let size = size_bounds u q p in
        let size' = size_bounds u c s in
        let short = length-drop prsz (q ∷ p) in
        let short' = length-drop srsz (c ∷ s) in
        let skip = deep_match_rune_lem n (c ∷ s) (drop prsz (q ∷ p)) (omega arith) in
        let eat = deep_match_rune_lem n (drop srsz (c ∷ s)) (q ∷ p) (omega arith) in
        let next = rune_loop_lem n (drop srsz (c ∷ s)) (drop prsz (q ∷ p)) (omega arith) in
        ground (arith, runes-cons u c s, runes-cons u q p)

  mutual
    unfolding deep_match wild

    deep_match_lem :
        (n : ℕ) (s p : List ℕ)
        → 2 * (length s + length p) + 4 ≤ n
        → deep_match u n s p ≡ some (wilds s p)
    deep_match_lem zero s p h = absurd (omega arith)
    deep_match_lem (suc n) s p h =
        let short = length-skip_stars p in
        ground (
          arith,
          wild_of_is_star u (runes u s) p,
          wild-skip_stars u (runes u s) p,
          byte_loop_lem n s (skip_stars p),
        )

    byte_loop_lem :
        (n : ℕ) (s p : List ℕ)
        → 2 * (length s + length p) + 3 ≤ n
        → byte_loop u n s p ≡ some (wilds s p)
    byte_loop_lem zero s p h = absurd (omega arith)
    byte_loop_lem (suc n) [] [] h = ground (arith, runes_nil u)
    byte_loop_lem (suc n) (c ∷ s) [] h = ground (arith, runes_nil u, runes-cons u c s)
    byte_loop_lem (suc n) [] (q ∷ p) h =
        let skip = deep_match_lem n [] p (omega arith) in
        let wide = deep_match_rune_lem n [] (q ∷ p) (omega arith) in
        ground (arith, runes_nil u, runes_ascii u q p)
    byte_loop_lem (suc n) (c ∷ s) (q ∷ p) h =
        let wide = deep_match_rune_lem n (c ∷ s) (q ∷ p) (omega arith) in
        let skip = deep_match_lem n (c ∷ s) p (omega arith) in
        let eat = deep_match_lem n s (q ∷ p) (omega arith) in
        let next = byte_loop_lem n s p (omega arith) in
        ground (arith, runes_ascii u c s, runes_ascii u q p)

  match-wild : (s p : List ℕ) → match u s p ≡ some (wilds s p)
  unfolding match
  match-wild s p = deep_match_lem (2 * (length s + length p) + 4) s p (omega arith)

  -- Match ends on every text and pattern, valid UTF-8 or not, and answers true exactly if the runes
  -- of the text match those of the pattern: a star any runes, a question mark any one rune, and any
  -- other rune itself.
  pub match_correct :
      (s p : List ℕ)
      → (b : Bool) × (match u s p ≡ some b) × ((b ≡ true) ↔ Matches (runes u s) (runes u p))
  match_correct s p =
      (wilds s p, match-wild s p, (wild-Matches (runes u s) (runes u p), Matches-wild))
