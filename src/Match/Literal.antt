-- ===== src/Match/Literal.antt =====
-- A pattern with no wildcard.
use gkit.Prelude.{
  ℕ, zero, suc, ◌≡◌, ◌≢◌, ◌↔◌, refl, Bool, true, false, some, List, [], ◌∷◌, length, drop, arith,
  ap, sym, subst,
}
use gkit.Match.{Utf8, read_rune, star, quest, is_pattern, match}
use gkit.Match.Wild.{Matches, done, rune, any, skip, eat}
use gkit.Match.Runes.{runes, runes_below}
use gkit.Match.Correct.{match_correct}

abbrev pub HasNoWild : List ℕ → Type 0
HasNoWild [] = Unit
HasNoWild (q ∷ p) = (q ≢ star) × (q ≢ quest) × HasNoWild p

Matches-self : (p : List ℕ) → HasNoWild p → Matches p p
Matches-self [] h = done
Matches-self (q ∷ p) h = rune h.0 h.1 (Matches-self p h.2)

eq_of_Matches : {s p : List ℕ} → HasNoWild p → Matches s p → s ≡ p
eq_of_Matches h done = refl
eq_of_Matches h (rune {q} {s} {p} _ _ m) = ap (◌∷◌ q) (eq_of_Matches h.2 m)
eq_of_Matches h (any e m) = absurd (h.1 e)
eq_of_Matches h (skip e m) = absurd (h.0 e)
eq_of_Matches h (eat e m) = absurd (h.0 e)

is_pattern-drop : (n : ℕ) (p : List ℕ) → is_pattern p ≡ false → is_pattern (drop n p) ≡ false
unfolding is_pattern
is_pattern-drop zero p h = h
is_pattern-drop (suc n) [] h = h
is_pattern-drop (suc n) (q ∷ p) h = is_pattern-drop n p (ground arith)

module _ (u : Utf8) where
  read_rune-plain :
      (q : ℕ) (p : List ℕ)
      → is_pattern (q ∷ p) ≡ false
      → ((read_rune u (q ∷ p)).0 ≢ star) × ((read_rune u (q ∷ p)).0 ≢ quest)
  unfolding read_rune is_pattern
  read_rune-plain q p h =
      (λ e. ground (arith, u.rune_wide q p), λ e. ground (arith, u.rune_wide q p))

  runes_below-HasNoWild :
      (n : ℕ) (p : List ℕ) → is_pattern p ≡ false → HasNoWild (runes_below u n p)
  unfolding runes_below
  runes_below-HasNoWild zero p h = tt
  runes_below-HasNoWild (suc n) [] h = tt
  runes_below-HasNoWild (suc n) (q ∷ p) h =
      let (not_star, not_quest) = read_rune-plain q p h in
      let size = (read_rune u (q ∷ p)).1 in
      (
        not_star,
        not_quest,
        runes_below-HasNoWild n (drop size (q ∷ p)) (is_pattern-drop size (q ∷ p) h),
      )

  -- With a pattern in which IsPattern finds no wildcard, Match compares the texts rune by rune.
  pub match-is_pattern :
      (s p : List ℕ)
      → is_pattern p ≡ false
      → (b : Bool) × (match u s p ≡ some b) × ((b ≡ true) ↔ (runes u s ≡ runes u p))
  unfolding runes
  match-is_pattern s p h =
      let plain = runes_below-HasNoWild (length p) p h in
      let (b, e, iff) = match_correct u s p in
      (
        b,
        e,
        (
          λ t. eq_of_Matches plain (iff.0 t),
          λ same. iff.1 (subst (λ t. Matches t (runes u p)) (sym same) (Matches-self _ plain)),
        ),
      )
