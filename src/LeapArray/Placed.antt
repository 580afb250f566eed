-- ===== src/LeapArray/Placed.antt =====
-- Which buckets belong in which slots of a leap array, and what compareAndSwap keeps of that.
use native.Mathlib.Nat.{div-add-mod', mod-lt}
use gkit.Prelude.{
  ℕ, zero, suc, ◌*◌, ◌/◌, ◌%◌, ◌≤◌, ◌<◌, ◌≡◌, ◌≢◌, refl, sym, ap, subst, ◌∙◌, true, Option, none,
  some, List, [], ◌∷◌, ◌++◌, length, get_elem?, set, ◌==◌, arith, Bool-cases, ◌⊎◌, inl, inr,
  get_elem?-set_self, get_elem?-set_ne, length-set,
}
use mathlib.Core.Option.{some-injective}
use gkit.LeapArray.{
  Bucket, LeapArray, got, again, calculate_start_time, get_bucket, same_pointer, publish,
}

pub start-aligned : (now w : ℕ) → calculate_start_time now w ≡ now / w * w
unfolding calculate_start_time
start-aligned now w = omega (arith, div-add-mod' now w)

module _ {V : Type 0} where
  get_elem?-append :
      (xs ys : List V) (i : ℕ) (x : V) → get_elem? xs i ≡ some x → get_elem? (xs ++ ys) i ≡ some x
  get_elem?-append [] ys i x h = absurd (ground (arith, h))
  get_elem?-append (y ∷ xs) ys zero x h = h
  get_elem?-append (y ∷ xs) ys (suc i) x h = get_elem?-append xs ys i x h

  pub get_elem?-append_end : (xs : List V) (x : V) → get_elem? (xs ++ x ∷ []) (length xs) ≡ some x
  get_elem?-append_end [] x = refl
  get_elem?-append_end (y ∷ xs) x = get_elem?-append_end xs x

same_pointer-eq : (p q : Option ℕ) → same_pointer p q ≡ true → p ≡ q
unfolding same_pointer
same_pointer-eq none none h = refl
same_pointer-eq none (some q) h = absurd (ground (arith, h))
same_pointer-eq (some p) none h = absurd (ground (arith, h))
same_pointer-eq (some p) (some q) h = ap some (ground (arith, h))

-- Where the pointer in a slot comes from after a write.
from_slot :
    (j i q p : ℕ) (a : List (Option ℕ))
    → j < length a
    → get_elem? (set a j (some q)) i ≡ some (some p)
    → ((j ≡ i) × (q ≡ p)) ⊎ (get_elem? a i ≡ some (some p))
from_slot j i q p a low at = elim (Bool-cases (j == i)) [
  | inl same ↦
      let e : j ≡ i = ground (arith, same) in
      let h = subst (λ x. get_elem? (set a j (some q)) x ≡ some (some p)) (sym e) at in
      inl
        (e, some-injective _ _ (some-injective _ _ (sym (get_elem?-set_self a j (some q) low) ∙ h)))
  | inr other ↦
      let e : j ≢ i = λ h. ground (arith, h, other) in
      inr (sym (get_elem?-set_ne a (some q) e) ∙ at)
]

-- A bucket that belongs in a slot: it starts a whole number of bucket lengths after 0, and that
-- number falls on the slot.
unfoldable pub Fits : {V : Type 0} → LeapArray V → ℕ → Bucket V → Type 0
Fits s i b = (k : ℕ) × (b.start ≡ k * s.bucket_size) × (k % s.n ≡ i)

unfoldable pub Placed : {V : Type 0} → LeapArray V → ℕ → ℕ → Type 0
Placed {V = V} s i p = (b : Bucket V) × (get_elem? s.made p ≡ some b) × Fits s i b

pub record IsPlaced {V : Type 0} (s : LeapArray V) : Type 0 where
  pub sized : length s.array ≡ s.n
  pub positive : 0 < s.n
  pub placed : (i p : ℕ) → get_elem? s.array i ≡ some (some p) → Placed s i p

-- What no round takes back: the sizes, the buckets that were made, and in each slot the time from
-- which its bucket counts.
pub record Later {V : Type 0} (s t : LeapArray V) : Type 0 where
  pub size : t.bucket_size ≡ s.bucket_size
  pub count : t.n ≡ s.n
  pub kept : (p : ℕ) (b : Bucket V) → get_elem? s.made p ≡ some b → get_elem? t.made p ≡ some b
  pub ascends :
      (i p : ℕ) (b : Bucket V)
      → get_elem? s.array i ≡ some (some p)
      → get_elem? s.made p ≡ some b
      → (q : ℕ) × (c : Bucket V) × (get_elem? t.array i ≡ some (some q))
        × (get_elem? t.made q ≡ some c)
        × (b.start ≤ c.start)

module _ {V : Type 0} where
  pub Later-refl : (s : LeapArray V) → Later s s
  Later-refl s = record {
    size = refl;
    count = refl;
    kept = λ p b h. h;
    ascends = λ i p b at h. (p, b, at, h, omega arith);
  }

  pub Later-trans : {s t u : LeapArray V} → Later s t → Later t u → Later s u
  Later-trans l m = record {
    size = m.size ∙ l.size;
    count = m.count ∙ l.count;
    kept = λ p b h. m.kept p b (l.kept p b h);
    ascends = λ i p b at h.
        let (q, c, at', h', low) = l.ascends i p b at h in
        let (r, d, at'', h'', high) = m.ascends i q c at' h' in
        (r, d, at'', h'', omega (arith, low, high));
  }

  -- A bucket is made and not published.
  abbrev pub spare : Bucket V → LeapArray V → LeapArray V
  spare b s = record s { made = s.made ++ b ∷ [] }

  abbrev pub put_in : ℕ → Bucket V → LeapArray V → LeapArray V
  put_in j b s = record (spare b s) { array = set s.array j (some (length s.made)) }

  spare-IsPlaced : (b : Bucket V) (s : LeapArray V) → IsPlaced s → IsPlaced (spare b s)
  unfolding Placed Fits
  spare-IsPlaced b s v = record {
    sized = v.sized;
    positive = v.positive;
    placed =
        λ i p at. let (c, h, f) = v.placed i p at in (c, get_elem?-append s.made (b ∷ []) p c h, f);
  }

  spare-Later : (b : Bucket V) (s : LeapArray V) → Later s (spare b s)
  spare-Later b s = record {
    size = refl;
    count = refl;
    kept = λ p c h. get_elem?-append s.made (b ∷ []) p c h;
    ascends = λ i p c at h. (p, c, at, get_elem?-append s.made (b ∷ []) p c h, omega arith);
  }

  put_in-IsPlaced :
      (j : ℕ) (b : Bucket V) (s : LeapArray V)
      → IsPlaced s
      → j < s.n
      → Fits s j b
      → IsPlaced (put_in j b s)
  unfolding Placed Fits
  put_in-IsPlaced j b s v low f = record {
    sized = length-set s.array j _ ∙ v.sized;
    positive = v.positive;
    placed = λ i p at.
        elim (from_slot j i (length s.made) p s.array (omega (arith, v.sized, low)) at) [
          | inl (at_j, new) ↦ (
            b,
            subst (λ x. get_elem? (s.made ++ b ∷ []) x ≡ some b) new
                (get_elem?-append_end s.made b),
            subst (λ x. Fits s x b) at_j f,
          )
          | inr old ↦ (spare-IsPlaced b s v).placed i p old
        ];
  }

  put_in-Later :
      (j : ℕ) (b : Bucket V) (s : LeapArray V)
      → j < length s.array
      → ((p : ℕ) (c : Bucket V)
          → get_elem? s.array j ≡ some (some p)
          → get_elem? s.made p ≡ some c
          → c.start ≤ b.start)
      → Later s (put_in j b s)
  put_in-Later j b s low newer = record {
    size = refl;
    count = refl;
    kept = λ p c h. get_elem?-append s.made (b ∷ []) p c h;
    ascends = λ i p c at h. elim (Bool-cases (j == i)) [
      | inl same ↦
          let e : i ≡ j = ground (arith, same) in
          (
            length s.made,
            b,
            subst
                (λ x.
                  get_elem? (set s.array j (some (length s.made))) x ≡ some (some (length s.made)))
                (sym e) (get_elem?-set_self s.array j (some (length s.made)) low),
            get_elem?-append_end s.made b,
            newer p c (subst (λ x. get_elem? s.array x ≡ some (some p)) e at) h,
          )
      | inr other ↦
          let e : j ≢ i = λ h. ground (arith, h, other) in
          (
            p,
            c,
            get_elem?-set_ne s.array (some (length s.made)) e ∙ at,
            get_elem?-append s.made (b ∷ []) p c h,
            omega arith,
          )
    ];
  }

  -- The two things that a publication may do.
  pub publish-cases :
      (index : ℕ) (old : Option ℕ) (b : Bucket V) (s : LeapArray V)
      → ((publish index old b s ≡ (put_in (index % s.n) b s, got (length s.made)))
          × (get_bucket index s ≡ old))
        ⊎ (publish index old b s ≡ (spare b s, again))
  unfolding publish
  publish-cases index old b s = elim (Bool-cases (same_pointer (get_bucket index s) old)) [
    | inl same ↦ inl (rw same refl, same_pointer-eq _ old same)
    | inr other ↦ inr (rw other refl)
  ]

  pub get_bucket-at :
      (index p : ℕ) (s : LeapArray V)
      → get_elem? s.array (index % s.n) ≡ some (some p)
      → get_bucket index s ≡ some p
  unfolding get_bucket
  get_bucket-at index p s at = rw (get_bucket, at) refl

  pub publish_keeps :
      (index : ℕ) (old : Option ℕ) (b : Bucket V) (s : LeapArray V)
      → IsPlaced s
      → Fits s (index % s.n) b
      → ((p : ℕ) (c : Bucket V) → old ≡ some p → get_elem? s.made p ≡ some c → c.start ≤ b.start)
      → IsPlaced (publish index old b s).0 × Later s (publish index old b s).0
  publish_keeps index old b s v f newer = elim (publish-cases index old b s) [
    | inl (e, read) ↦
        let low : index % s.n < s.n = mod-lt index v.positive in
        rw e (
          put_in-IsPlaced (index % s.n) b s v low f,
          put_in-Later (index % s.n) b s (omega (arith, v.sized, low))
              (λ p c at h. newer p c (sym read ∙ get_bucket-at index p s at) h),
        )
    | inr e ↦ rw e (spare-IsPlaced b s v, spare-Later b s)
  ]
