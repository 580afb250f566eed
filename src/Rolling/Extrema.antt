-- ===== src/Rolling/Extrema.antt =====
-- Count and Min of reduce.go, over the buckets that Reduce hands them; Max is Min with the order turned
-- round. The order of float64 is a parameter; NaN, on which it is no order, is left out by the laws
-- assumed of it.
use gkit.Prelude.{
  ℕ, zero, suc, ◌+◌, ◌≡◌, refl, sym, subst, ◌∙◌, Bool, true, false, some, List, [], ◌∷◌, ◌++◌,
  get_elem?, if◌then◌else◌, arith, Bool-cases, inl, inr,
}
use gkit.Rolling.{Bucket}

pub record Scan (V : Type 0) : Type 0 where
  pub result : V
  pub started : Bool

-- What the order of float64 does on numbers.
pub record IsOrder {V : Type 0} (lt : V → V → Bool) : Type 0 where
  pub irrefl : (a : V) → lt a a ≡ false
  pub trans : {a b c : V} → lt a b ≡ true → lt b c ≡ true → lt a c ≡ true
  pub connected : {a b c : V} → lt a b ≡ false → lt b c ≡ false → lt a c ≡ false

abbrev pub all_points : {V : Type 0} → List (Bucket V) → List V
all_points [] = []
all_points (b ∷ bs) = b.points ++ all_points bs

module _ {V : Type 0} where
  -- Count over the buckets of an iterator.
  unfoldable pub count_buckets : ℕ → List (Bucket V) → ℕ
  count_buckets acc [] = acc
  count_buckets acc (b ∷ bs) = count_buckets (acc + b.count) bs

module _ {V : Type 0} (lt : V → V → Bool) where
  -- The two inner loops of Min; Max is Min with the order turned round.
  unfoldable pub min_points : Scan V → List V → Scan V
  min_points s [] = s
  min_points s (p ∷ ps) =
      min_points
        (if s.started
          then if lt p s.result then record { result = p; started = true } else s
          else record { result = p; started = true })
        ps

  unfoldable pub min_buckets : Scan V → List (Bucket V) → Scan V
  unfolding min_points
  min_buckets s [] = s
  min_buckets s (b ∷ bs) = min_buckets (min_points s b.points) bs

  -- The result of the loops, from a result on.
  abbrev seen : V → List V → V
  unfolding min_points
  seen x ps = (min_points (record { result = x; started = true }) ps).result

  min_points-append :
      (xs ys : List V) (s : Scan V) → min_points s (xs ++ ys) ≡ min_points (min_points s xs) ys
  unfolding min_points
  min_points-append [] ys s = refl
  min_points-append (x ∷ xs) ys s = min_points-append xs ys _

  min_buckets-all_points :
      (s : Scan V) (bs : List (Bucket V)) → min_buckets s bs ≡ min_points s (all_points bs)
  unfolding min_buckets min_points
  min_buckets-all_points s [] = refl
  min_buckets-all_points s (b ∷ bs) =
      min_buckets-all_points (min_points s b.points) bs
      ∙ sym (min_points-append b.points (all_points bs) s)

  -- From a result `x` on, the result is `x` or a later point, and neither `x` nor a later point is
  -- below it.
  min_points-above : (x : V) (ps : List V) → IsOrder lt → lt x (seen x ps) ≡ false
  unfolding min_points
  min_points-above x [] ord = ord.irrefl x
  min_points-above x (p ∷ ps) ord = elim (Bool-cases (lt p x)) [
    | inl below ↦
        let low = min_points-above p ps ord in
        rw (seen, min_points, below)
          (elim (Bool-cases (lt x (seen p ps))) [
            | inl more ↦ absurd (cc (ord.trans below more, low))
            | inr less ↦ less
          ])
    | inr above ↦ rw (seen, min_points, above) (min_points-above x ps ord)
  ]

  min_points-least :
      (x p : V) (ps : List V) (i : ℕ)
      → IsOrder lt
      → get_elem? ps i ≡ some p
      → lt p (seen x ps) ≡ false
  unfolding min_points
  min_points-least x p [] i ord h = absurd (ground (arith, h))
  min_points-least x p (q ∷ ps) zero ord h = elim (Bool-cases (lt q x)) [
    | inl below ↦
        rw (seen, min_points, below)
          (subst (λ a. lt a (seen q ps) ≡ false) (ground (arith, h)) (min_points-above q ps ord))
    | inr above ↦
        rw (seen, min_points, above)
          (subst (λ a. lt a (seen x ps) ≡ false) (ground (arith, h))
            (ord.connected above (min_points-above x ps ord)))
  ]
  min_points-least x p (q ∷ ps) (suc i) ord h = elim (Bool-cases (lt q x)) [
    | inl below ↦ rw (seen, min_points, below) (min_points-least q p ps i ord h)
    | inr above ↦ rw (seen, min_points, above) (min_points-least x p ps i ord h)
  ]

  skip :
      (x p a : V) (ps : List V) (i : ℕ)
      → get_elem? (x ∷ ps) i ≡ some a
      → (j : ℕ) × (get_elem? (x ∷ p ∷ ps) j ≡ some a)
  skip x p a ps zero at = (0, at)
  skip x p a ps (suc i) at = (suc (suc i), at)

  min_points-attained : (x : V) (ps : List V) → (i : ℕ) × (get_elem? (x ∷ ps) i ≡ some (seen x ps))
  unfolding min_points
  min_points-attained x [] = (0, refl)
  min_points-attained x (p ∷ ps) = elim (Bool-cases (lt p x)) [
    | inl below ↦ let (i, at) = min_points-attained p ps in (suc i, rw (seen, min_points, below) at)
    | inr above ↦
        let (i, at) = min_points-attained x ps in
        rw (seen, min_points, above) (skip x p (seen x ps) ps i at)
  ]

  min_points-first :
      (x p : V) (ps : List V) (i : ℕ)
      → IsOrder lt
      → get_elem? ps i ≡ some p
      → let r = (min_points (record { result = x; started = false }) ps).result in
        (lt p r ≡ false) × ((j : ℕ) × (get_elem? ps j ≡ some r))
  unfolding min_points
  min_points-first x p [] i ord h = absurd (ground (arith, h))
  min_points-first x p (q ∷ ps) zero ord h = (
    subst (λ a. lt a (seen q ps) ≡ false) (ground (arith, h)) (min_points-above q ps ord),
    min_points-attained q ps,
  )
  min_points-first x p (q ∷ ps) (suc i) ord h =
      (min_points-least q p ps i ord h, min_points-attained q ps)

  -- The value that Min returns, where there is a point, is one of the points, and no point is below
  -- it, for an order that is irreflexive, transitive and connected.
  pub min_buckets-least :
      (x p : V) (bs : List (Bucket V)) (i : ℕ)
      → IsOrder lt
      → get_elem? (all_points bs) i ≡ some p
      → let r = (min_buckets (record { result = x; started = false }) bs).result in
        (lt p r ≡ false) × ((j : ℕ) × (get_elem? (all_points bs) j ≡ some r))
  min_buckets-least x p bs i ord h =
      let s : Scan V = record { result = x; started = false } in
      let flat = min_buckets-all_points s bs in
      subst
        (λ r. (lt p r.result ≡ false) × ((j : ℕ) × (get_elem? (all_points bs) j ≡ some r.result)))
        (sym flat) (min_points-first x p (all_points bs) i ord h)
