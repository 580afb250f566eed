-- ===== src/Match/Wild.antt =====
-- What a pattern means, on runes: as a relation, and as a reference test by plain recursion.
use gkit.Prelude.{
  ℕ, ◌≡◌, ◌≢◌, refl, Bool, true, false, ◌||◌, List, [], ◌∷◌, ◌==◌, arith, if◌then◌else◌, Bool-cases,
  inl, inr,
}
use gkit.Match.{star, quest}

pub data Matches : List ℕ → List ℕ → Type 0 where
  done : Matches [] []
  rune : {q : ℕ} {s p : List ℕ} → q ≢ star → q ≢ quest → Matches s p → Matches (q ∷ s) (q ∷ p)
  any : {c q : ℕ} {s p : List ℕ} → q ≡ quest → Matches s p → Matches (c ∷ s) (q ∷ p)
  skip : {q : ℕ} {s p : List ℕ} → q ≡ star → Matches s p → Matches s (q ∷ p)
  eat : {c q : ℕ} {s p : List ℕ} → q ≡ star → Matches s (q ∷ p) → Matches (c ∷ s) (q ∷ p)

unfoldable pub wild : List ℕ → List ℕ → Bool
wild [] [] = true
wild (c ∷ s) [] = false
wild [] (q ∷ p) = if q == star then wild [] p else false
wild (c ∷ s) (q ∷ p) =
    let skipped = wild (c ∷ s) p in
    let eaten = wild s (q ∷ p) in
    let next = wild s p in
    if q == star
    then skipped || eaten
    else if q == quest
    then next
    else if c == q
    then next
    else false

pub wild-Matches : (s p : List ℕ) → wild s p ≡ true → Matches s p
unfolding wild
wild-Matches [] [] h = done
wild-Matches (c ∷ s) [] h = cc
wild-Matches [] (q ∷ p) h = elim (Bool-cases (q == star)) [
  | inl e ↦ skip (ground arith) (wild-Matches [] p (ground arith))
  | inr e ↦ cc
]
wild-Matches (c ∷ s) (q ∷ p) h = elim (Bool-cases (q == star)) [
  | inl e ↦ elim (Bool-cases (wild (c ∷ s) p)) [
    | inl k ↦ skip (ground arith) (wild-Matches (c ∷ s) p k)
    | inr k ↦ eat (ground arith) (wild-Matches s (q ∷ p) (ground arith))
  ]
  | inr e ↦ elim (Bool-cases (q == quest)) [
    | inl k ↦ any (ground arith) (wild-Matches s p (ground arith))
    | inr k ↦
        let same : c ≡ q = ground arith in
        rw same (rune (ground arith) (ground arith) (wild-Matches s p (ground arith)))
  ]
]

pub Matches-wild : {s p : List ℕ} → Matches s p → wild s p ≡ true
unfolding wild
Matches-wild done = refl
Matches-wild (rune {q} {s} {p} h k m) = ground (arith, Matches-wild m)
Matches-wild (any {c} {q} {s} {p} h m) = ground (arith, Matches-wild m)
Matches-wild (skip {q = q} {s = []} {p = p} h m) = ground (arith, Matches-wild m)
Matches-wild (skip {q = q} {s = c ∷ s} {p = p} h m) = ground (arith, Matches-wild m)
Matches-wild (eat {c} {q} {s} {p} h m) = ground (arith, Matches-wild m)

-- A pattern that is one star matches every text.
pub wild-star : (s : List ℕ) → wild s (star ∷ []) ≡ true
unfolding wild
wild-star [] = refl
wild-star (c ∷ s) = ground (arith, wild-star s)

-- Two stars in a row mean what one means.
pub wild-star-star : (s p : List ℕ) → wild s (star ∷ star ∷ p) ≡ wild s (star ∷ p)
unfolding wild
wild-star-star [] p = refl
wild-star-star (c ∷ s) p = ground (arith, wild-star-star s p)
