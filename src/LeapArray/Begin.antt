-- ===== src/LeapArray/Begin.antt =====
-- A new leap array.
use native.Mathlib.Nat.{div-add-mod', mod-lt, add-mul-mod_self_right, mod-eq_of_lt}
use gkit.Prelude.{
  ℕ, zero, suc, ◌+◌, ◌-◌, ◌*◌, ◌/◌, ◌%◌, ◌^◌, ◌≤◌, ◌<◌, ◌≡◌, refl, sym, ap, subst, ◌∙◌, some, List,
  [], ◌∷◌, ◌++◌, length, get_elem?, ◌==◌, arith, Bool-cases, dec_lt, inl, inr,
}
use mathlib.Core.Option.{some-injective}
use gkit.LeapArray.{
  Bucket, LeapArray, calculate_start_time, fill, pointers, new_atomic_array, new_leap_array,
}
use gkit.LeapArray.Placed.{start-aligned, Fits, Placed, IsPlaced, Later}
use gkit.LeapArray.Attempts.{Rounds, Rounds-Later}

length-pointers : (n i : ℕ) → length (pointers n i) ≡ n
unfolding pointers
length-pointers zero i = refl
length-pointers (suc n) i = ap suc (length-pointers n (suc i))

pointers-at : (n i j p : ℕ) → get_elem? (pointers n i) j ≡ some (some p) → (p ≡ i + j) × (j < n)
unfolding pointers
pointers-at zero i j p h = absurd (ground (arith, h))
pointers-at (suc n) i zero p h =
    (sym (some-injective _ _ (some-injective _ _ h)) ∙ omega arith, omega arith)
pointers-at (suc n) i (suc j) p h =
    let (e, low) = pointers-at n (suc i) j p h in (omega (arith, e), omega (arith, low))

module _ {V : Type 0} (new_empty_bucket : V) where
  length-fill : (size c start : ℕ) → length (fill new_empty_bucket size c start).0 ≡ c
  unfolding fill
  length-fill size zero start = refl
  length-fill size (suc c) start = ap suc (length-fill size c _)

  next_start : (k size : ℕ) → k * size + size ≡ suc k * size
  next_start k size = omega arith

  -- Bucket `i` of the list stands `k + i` bucket lengths after 0.
  Lined : ℕ → ℕ → ℕ → List (Bucket V) → Type 0
  Lined size c k bs =
      (i : ℕ) → i < c → (b : Bucket V) × (get_elem? bs i ≡ some b) × (b.start ≡ (k + i) * size)

  Lined-cons :
      (size c k : ℕ) (b : Bucket V) (bs : List (Bucket V))
      → b.start ≡ k * size
      → Lined size c (suc k) bs
      → Lined size (suc c) k (b ∷ bs)
  unfolding Lined
  Lined-cons size c k b bs e l zero low = (b, refl, omega (arith, e))
  Lined-cons size c k b bs e l (suc i) low =
      let (d, at, start) = l i (omega (arith, low)) in (d, at, omega (arith, start))

  fill_lem :
      (size c k : ℕ)
      → (k + c) * size < 2 ^ 64
      → ((fill new_empty_bucket size c (k * size)).1 ≡ (k + c) * size)
        × Lined size c k (fill new_empty_bucket size c (k * size)).0
  unfolding fill Lined
  fill_lem size zero k h = (omega arith, λ i low. absurd (omega (arith, low)))
  fill_lem size (suc c) k h =
      let e : (k * size + size) % 2 ^ 64 ≡ suc k * size = omega (arith, h) in
      let (next, at) = fill_lem size c (suc k) (omega (arith, h)) in
      (
        ap (λ x. (fill new_empty_bucket size c x).1) e ∙ next ∙ omega arith,
        Lined-cons size c k _ _ refl
            (subst (λ x. Lined size c (suc k) (fill new_empty_bucket size c x).0) (sym e) at),
      )

  get_elem?-append_low :
      (xs ys : List (Bucket V)) (i : ℕ) → i < length xs → get_elem? (xs ++ ys) i ≡ get_elem? xs i
  get_elem?-append_low [] ys i h = absurd (omega (arith, h))
  get_elem?-append_low (x ∷ xs) ys zero h = refl
  get_elem?-append_low (x ∷ xs) ys (suc i) h = get_elem?-append_low xs ys i (omega (arith, h))

  get_elem?-append_high :
      (xs ys : List (Bucket V)) (i : ℕ) → get_elem? (xs ++ ys) (length xs + i) ≡ get_elem? ys i
  get_elem?-append_high [] ys i = ap (get_elem? ys) (omega arith)
  get_elem?-append_high (x ∷ xs) ys i =
      let e : length (x ∷ xs) + i ≡ suc (length xs + i) = omega arith in
      ap (get_elem? (x ∷ xs ++ ys)) e ∙ get_elem?-append_high xs ys i

  on_slot : (n q i : ℕ) → i < n → (i + q * n) % n ≡ i
  on_slot n q i h = add-mul-mod_self_right i q n ∙ mod-eq_of_lt h

  At : ℕ → ℕ → ℕ → List (Bucket V) → Type 0
  At n size i bs =
      (b : Bucket V) × (k : ℕ) × (get_elem? bs i ≡ some b) × (b.start ≡ k * size) × (k % n ≡ i)

  -- Buckets lined up from slot `index` on and then from slot 0 on are each in their slot.
  At-append :
      (n size q index m i : ℕ) (low high : List (Bucket V))
      → m + index ≡ n
      → length low ≡ index
      → Lined size m (q * n + index) high
      → Lined size index (suc q * n) low
      → i < n
      → At n size i (low ++ high)
  unfolding Lined At
  At-append n size q index m i low high e len hs ls h = elim (dec_lt i index) [
    | yes below ↦
        let (b, at, start) = ls i below in
        (
          b,
          i + suc q * n,
          get_elem?-append_low low high i (omega (arith, len, below)) ∙ at,
          start ∙ ap (λ x. x * size) (omega arith),
          on_slot n (suc q) i h,
        )
    | no above ↦
        let (b, at, start) = hs (i - index) (omega (arith, above, e, h)) in
        (
          b,
          i + q * n,
          ap (get_elem? (low ++ high)) (omega (arith, len, above))
              ∙ get_elem?-append_high low high (i - index)
              ∙ at,
          start ∙ ap (λ x. x * size) (omega (arith, above)),
          on_slot n q i h,
        )
  ]

  two_fills :
      (n size q index m i : ℕ)
      → m + index ≡ n
      → (suc q * n + index) * size < 2 ^ 64
      → i < n
      → (let (high, start) = fill new_empty_bucket size m ((q * n + index) * size) in
          At n size i ((fill new_empty_bucket size index start).0 ++ high))
  two_fills n size q index m i e h low =
      let whole : q * n + index + m ≡ suc q * n = omega (arith, e) in
      let room : (q * n + index + m) * size < 2 ^ 64 =
        subst (λ x. x * size < 2 ^ 64) (sym whole) (omega (arith, h)) in
      let (next, high) = fill_lem size m (q * n + index) room in
      let (_, lows) = fill_lem size index (suc q * n) h in
      let from = sym (next ∙ ap (λ x. x * size) whole) in
      At-append n size q index m i _ _ e (length-fill size index _) high
        (subst (λ x. Lined size index (suc q * n) (fill new_empty_bucket size index x).0) from lows)
        low

  -- Each of the buckets of a new array, by its place.
  new_atomic_array_lem :
      (n size now i : ℕ)
      → 0 < n
      → now + n * size < 2 ^ 64
      → i < n
      → At n size i (new_atomic_array new_empty_bucket n size now).1
  unfolding new_atomic_array
  new_atomic_array_lem n size now i pos h low =
      let id = now / size in
      let index = id % n in
      let q = id / n in
      let inside : index < n = mod-lt id pos in
      let split : q * n + index ≡ id = div-add-mod' id n in
      let start : (q * n + index) * size ≡ calculate_start_time now size =
        ap (λ x. x * size) split ∙ sym (start-aligned now size) in
      let all : id * size ≤ now = omega (arith, div-add-mod' now size) in
      let room : (suc q * n + index) * size < 2 ^ 64 =
        omega (arith, h, all, ap (λ x. x * size) split) in
      subst
        (λ st.
          let (high, next) = fill new_empty_bucket size (n - index) st in
          At n size i ((fill new_empty_bucket size index next).0 ++ high))
        start (two_fills n size q index (n - index) i (omega (arith, inside)) room low)

  abbrev built : ℕ → ℕ → ℕ → LeapArray V
  built n interval now =
      let (array, made) = new_atomic_array new_empty_bucket n (interval / n) now in
      record {
        bucket_size = interval / n;
        interval_size = interval;
        n = n;
        array = array;
        made = made;
      }

  built-IsPlaced :
      (n interval now : ℕ) → 0 < n → now + interval < 2 ^ 64 → IsPlaced (built n interval now)
  unfolding At Placed Fits new_atomic_array
  built-IsPlaced n interval now pos h =
      let room : now + n * (interval / n) < 2 ^ 64 = omega (arith, h, div-add-mod' interval n) in
      record {
        sized = length-pointers n 0;
        positive = pos;
        placed = λ i p at.
            let (e, low) = pointers-at n 0 i p at in
            let (b, k, here, start, slot) =
              new_atomic_array_lem n (interval / n) now i pos room low in
            (
              b,
              ap (get_elem? (built n interval now).made) (omega (arith, e)) ∙ here,
              (k, start, slot),
            );
      }

  new_leap_array-built :
      (n interval now : ℕ) (s : LeapArray V)
      → new_leap_array new_empty_bucket n interval now ≡ some s
      → (0 < n) × (built n interval now ≡ s)
  unfolding new_leap_array
  new_leap_array-built n interval now s e = elim (Bool-cases (n == 0)) [
    | inl zero_n ↦ absurd (ground (arith, e, zero_n))
    | inr some_n ↦ elim (Bool-cases (interval == 0)) [
      | inl zero_interval ↦ absurd (ground (arith, e, some_n, zero_interval))
      | inr some_interval ↦ elim (Bool-cases (interval % n == 0)) [
        | inl divides ↦ (
          ground (arith, some_n),
          some-injective _ _ (sym (rw (new_leap_array, some_n, some_interval, divides) refl) ∙ e),
        )
        | inr rest ↦ absurd (ground (arith, e, some_n, some_interval, rest))
      ]
    ]
  ]

  pub new_leap_array-IsPlaced :
      (n interval now : ℕ) (s : LeapArray V)
      → new_leap_array new_empty_bucket n interval now ≡ some s
      → now + interval < 2 ^ 64
      → IsPlaced s
  new_leap_array-IsPlaced n interval now s e h =
      let (pos, same) = new_leap_array-built n interval now s e in
      subst IsPlaced same (built-IsPlaced n interval now pos h)

module _ {V : Type 0} (new_empty_bucket : V) (reset : Bucket V → ℕ → Bucket V)
    (reset-start : (b : Bucket V) (t : ℕ) → (reset b t).start ≡ t) where
  -- If Reset gives a bucket the start that it is told and the starts of a new leap array do not
  -- overflow, then whatever rounds of getBucketOfTime goroutines run on it, each with whatever
  -- pointer it read before, every bucket stays in the slot where its start belongs, and from each
  -- state to every later one no bucket changes its start and no slot goes back to an earlier start
  -- or to no bucket.
  pub starts_ascend :
      (n interval now : ℕ) (s t u : LeapArray V)
      → new_leap_array new_empty_bucket n interval now ≡ some s
      → now + interval < 2 ^ 64
      → Rounds new_empty_bucket reset reset-start s t
      → Rounds new_empty_bucket reset reset-start t u
      → IsPlaced u × Later t u
  starts_ascend n interval now s t u e h r q =
      let v = new_leap_array-IsPlaced new_empty_bucket n interval now s e h in
      Rounds-Later new_empty_bucket reset reset-start t u
        (Rounds-Later new_empty_bucket reset reset-start s t v r).0 q
