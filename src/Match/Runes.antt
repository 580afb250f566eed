-- ===== src/Match/Runes.antt =====
-- The runes of a text.
use gkit.Prelude.{
  ℕ, zero, suc, ◌<◌, ◌≤◌, ◌≡◌, refl, true, ◌&&◌, List, [], ◌∷◌, length, drop, length-drop, ◌==◌,
  arith, Bool-cases, inl, inr, ◌∙◌, ap,
}
use gkit.Match.{Utf8, read_rune, star, skip_stars, is_star}
use gkit.Match.Wild.{wild, wild-star, wild-star-star}

module _ (u : Utf8) where
  -- By a bound on the length, since a rune may take several bytes.
  unfoldable pub runes_below : ℕ → List ℕ → List ℕ
  runes_below zero s = []
  runes_below (suc n) [] = []
  runes_below (suc n) (c ∷ s) =
      let (r, size) = read_rune u (c ∷ s) in r ∷ runes_below n (drop size (c ∷ s))

  unfoldable pub runes : List ℕ → List ℕ
  unfolding runes_below
  runes s = runes_below (length s) s

  pub runes_nil : runes [] ≡ []
  unfolding runes
  runes_nil = refl

  pub read_rune_nil : read_rune u [] ≡ (0xfffd, 0)
  unfolding read_rune
  read_rune_nil = refl

  pub size_bounds :
      (c : ℕ) (s : List ℕ)
      → (0 < (read_rune u (c ∷ s)).1) × ((read_rune u (c ∷ s)).1 ≤ length (c ∷ s))
  unfolding read_rune
  size_bounds c s = ground (arith, u.size_pos c s, u.size_le c s)

  runes_below-enough :
      (n m : ℕ) (s : List ℕ) → length s ≤ n → length s ≤ m → runes_below n s ≡ runes_below m s
  unfolding runes_below
  runes_below-enough zero zero [] h k = refl
  runes_below-enough zero (suc m) [] h k = refl
  runes_below-enough (suc n) zero [] h k = refl
  runes_below-enough (suc n) (suc m) [] h k = refl
  runes_below-enough zero m (c ∷ s) h k = absurd (omega arith)
  runes_below-enough (suc n) zero (c ∷ s) h k = absurd (omega arith)
  runes_below-enough (suc n) (suc m) (c ∷ s) h k =
      let size = (read_rune u (c ∷ s)).1 in
      let facts = size_bounds c s in
      let short = length-drop size (c ∷ s) in
      ap (◌∷◌ (read_rune u (c ∷ s)).0)
        (runes_below-enough n m (drop size (c ∷ s)) (omega arith) (omega arith))

  pub runes-cons :
      (c : ℕ) (s : List ℕ)
      → runes (c ∷ s) ≡ (read_rune u (c ∷ s)).0 ∷ runes (drop (read_rune u (c ∷ s)).1 (c ∷ s))
  unfolding runes
  runes-cons c s =
      let size = (read_rune u (c ∷ s)).1 in
      let facts = size_bounds c s in
      let short = length-drop size (c ∷ s) in
      ap (◌∷◌ (read_rune u (c ∷ s)).0) (
        runes_below-enough (length s) (length (drop size (c ∷ s))) (drop size (c ∷ s)) (omega arith)
          (omega arith))

  -- An ASCII character is a rune of one byte.
  pub runes_ascii : (c : ℕ) (s : List ℕ) → c ≤ 0x7f → runes (c ∷ s) ≡ c ∷ runes s
  unfolding read_rune
  runes_ascii c s h = runes-cons c s ∙ ground arith

  pub wild-skip_stars : (t p : List ℕ) → wild t (runes (skip_stars p)) ≡ wild t (runes p)
  unfolding skip_stars
  wild-skip_stars t [] = refl
  wild-skip_stars t (a ∷ []) = refl
  wild-skip_stars t (a ∷ b ∷ p) = elim (Bool-cases (a == star && b == star)) [
    | inl e ↦
        let ha : a ≡ star = ground arith in
        let hb : b ≡ star = ground arith in
        ground (
          arith,
          wild-skip_stars t (b ∷ p),
          runes_ascii a (b ∷ p),
          runes_ascii b p,
          wild-star-star t (runes p),
        )
    | inr e ↦ rw e
  ]

  pub wild_of_is_star : (t p : List ℕ) → is_star p ≡ true → wild t (runes p) ≡ true
  unfolding runes
  wild_of_is_star t [] h = cc
  wild_of_is_star t (a ∷ []) h =
      let ha : a ≡ star = ground arith in rw (runes_ascii a [] (omega arith), ha) (wild-star t)
  wild_of_is_star t (a ∷ b ∷ p) h = cc

pub length-skip_stars : (p : List ℕ) → length (skip_stars p) ≤ length p
unfolding skip_stars
length-skip_stars [] = omega arith
length-skip_stars (a ∷ []) = omega arith
length-skip_stars (a ∷ b ∷ p) = ground (arith, length-skip_stars (b ∷ p))
