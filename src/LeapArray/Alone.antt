-- ===== src/LeapArray/Alone.antt =====
-- getBucketOfTime when nobody else is at work.
use native.Mathlib.Nat.{mod-lt}
use gkit.Prelude.{
  ◌^◌, ◌+◌, ◌≤◌, ℕ, suc, ◌%◌, ◌<◌, ◌≡◌, ◌≢◌, refl, sym, ap, subst, ◌∙◌, true, Option, none, some,
  length, get_elem?, arith, Option-cases, ◌⊎◌, inl, inr, get_elem?-set_self,
}
use gkit.LeapArray.{
  Bucket, LeapArray, Outcome, got, time_behind_start, calculate_start_time, is_hit, get_time_index,
  get_bucket, same_pointer, publish, attempt, get_bucket_of_time,
}
use gkit.LeapArray.Placed.{IsPlaced, Placed, get_elem?-append_end, put_in, get_bucket-at}
use gkit.LeapArray.Attempts.{Round, current, passed, busy, single, behind, attempt-Round}

same_pointer_self : (p : Option ℕ) → same_pointer p p ≡ true
unfolding same_pointer
same_pointer_self none = refl
same_pointer_self (some p) = ground arith

-- A pointer to a bucket of the time, which stands in the slot of the time.
unfoldable pub Hits : {V : Type 0} → ℕ → LeapArray V × Outcome → Type 0
Hits {V = V} now (s, out) =
    (p : ℕ) × (b : Bucket V) × (out ≡ got p)
    × (get_bucket (get_time_index now s) s ≡ some p)
    × (get_elem? s.made p ≡ some b)
    × (is_hit b now s.bucket_size ≡ true)

-- The slot of the time holds a bucket of a later round.
unfoldable pub Ahead : {V : Type 0} → ℕ → LeapArray V → Type 0
Ahead {V = V} now s =
    (p : ℕ) × (b : Bucket V) × (get_bucket (get_time_index now s) s ≡ some p)
    × (get_elem? s.made p ≡ some b)
    × (calculate_start_time now s.bucket_size < b.start)

module _ {V : Type 0} where
  hit_now :
      (now w : ℕ) (b : Bucket V)
      → (0 < w) × (now + w < 2 ^ 64)
      → b.start ≡ calculate_start_time now w
      → is_hit b now w ≡ true
  unfolding is_hit calculate_start_time
  hit_now now w b (pos, room) e =
      let start : b.start ≤ now = omega (arith, e) in
      let whole : (b.start + w) % 2 ^ 64 ≡ b.start + w = omega (arith, start, room) in
      rw whole (ground (arith, e, mod-lt now pos))

  publish-Hits :
      (now : ℕ) (old : Option ℕ) (b : Bucket V) (s : LeapArray V)
      → get_bucket (get_time_index now s) s ≡ old
      → IsPlaced s
      → (0 < s.bucket_size) × (now + s.bucket_size < 2 ^ 64)
      → b.start ≡ calculate_start_time now s.bucket_size
      → Hits now (publish (get_time_index now s) old b s)
  unfolding Hits publish get_time_index
  publish-Hits now old b s slot v pos e =
      let index = get_time_index now s in
      let low : index % s.n < length s.array = omega (arith, v.sized, mod-lt index v.positive) in
      rw (publish, ap (λ x. same_pointer x old) slot ∙ same_pointer_self old)
        (
          length s.made,
          b,
          refl,
          get_bucket-at index (length s.made) (put_in (index % s.n) b s)
              (get_elem?-set_self s.array (index % s.n) (some (length s.made)) low),
          get_elem?-append_end s.made b,
          hit_now now s.bucket_size b pos e,
        )

  slot-get_bucket :
      (index p : ℕ) (s : LeapArray V)
      → get_bucket index s ≡ some p
      → get_elem? s.array (index % s.n) ≡ some (some p)
  unfolding get_bucket
  slot-get_bucket index p s h = elim (Option-cases (get_elem? s.array (index % s.n))) [
    | inl e ↦ absurd (ground (arith, e, h))
    | inr (none, e) ↦ absurd (ground (arith, e, h))
    | inr (some q, e) ↦ ground (arith, e, h)
  ]

module _ {V : Type 0} (new_empty_bucket : V) (reset : Bucket V → ℕ → Bucket V)
    (reset-start : (b : Bucket V) (t : ℕ) → (reset b t).start ≡ t) where
  abbrev first : ℕ → LeapArray V → LeapArray V × Outcome
  first now s = attempt new_empty_bucket reset now (get_bucket (get_time_index now s) s) true s

  abbrev Ends : ℕ → LeapArray V → LeapArray V × Outcome → Type 0
  Ends now s r = Hits now r ⊎ ((r ≡ (s, time_behind_start)) × Ahead now s)

  Round-Ends :
      (now p : ℕ) (b : Bucket V) (s : LeapArray V) (r : LeapArray V × Outcome)
      → IsPlaced s
      → (0 < s.bucket_size) × (now + s.bucket_size < 2 ^ 64)
      → s.n ≢ 1
      → get_bucket (get_time_index now s) s ≡ some p
      → get_elem? s.made p ≡ some b
      → Round new_empty_bucket reset reset-start now p b true s r
      → Ends now s r
  unfolding Hits Ahead
  Round-Ends now p b s r v pos more slot e (current h) =
      inl (p, b, refl, slot, e, hit_now now s.bucket_size b pos (sym h))
  Round-Ends now p b s r v pos more slot e (passed h) = inl (
      publish-Hits now (some p) _ s slot v pos
        (reset-start _ (calculate_start_time now s.bucket_size)))
  Round-Ends now p b s r v pos more slot e (busy h) = absurd (ground (arith, h))
  Round-Ends now p b s r v pos more slot e (single h one) = absurd (more one)
  Round-Ends now p b s r v pos more slot e (behind h l) = inr (refl, (p, b, slot, e, h))

  vacant-Ends :
      (now : ℕ) (s : LeapArray V)
      → IsPlaced s
      → (0 < s.bucket_size) × (now + s.bucket_size < 2 ^ 64)
      → get_bucket (get_time_index now s) s ≡ none
      → Ends now s (attempt new_empty_bucket reset now none true s)
  unfolding attempt
  vacant-Ends now s v pos e = inl (publish-Hits now none _ s e v pos refl)

  first-Ends :
      (now : ℕ) (s : LeapArray V)
      → IsPlaced s
      → (0 < s.bucket_size) × (now + s.bucket_size < 2 ^ 64)
      → s.n ≢ 1
      → Ends now s (first now s)
  unfolding Placed
  first-Ends now s v pos more = elim (Option-cases (get_bucket (get_time_index now s) s)) [
    | inl e ↦
        subst (λ old. Ends now s (attempt new_empty_bucket reset now old true s)) (sym e)
          (vacant-Ends now s v pos e)
    | inr (p, e) ↦
        let (b, at, _) = v.placed _ p (slot-get_bucket (get_time_index now s) p s e) in
        subst (λ old. Ends now s (attempt new_empty_bucket reset now old true s)) (sym e)
          (Round-Ends now p b s _ v pos more e at
            (attempt-Round new_empty_bucket reset reset-start now p b true s at))
  ]

  settled :
      (fuel now : ℕ) (s : LeapArray V)
      → Ends now s (first now s)
      → get_bucket_of_time new_empty_bucket reset (suc fuel) now s ≡ first now s
  unfolding get_bucket_of_time Hits
  settled fuel now s (inl (p, b, out, _, _, _)) =
      rw (get_bucket_of_time, out) (ap (λ x. ((first now s).0, x)) (sym out))
  settled fuel now s (inr (e, _)) =
      let out : (first now s).1 ≡ time_behind_start = ap (λ r. r.1) e in
      rw (get_bucket_of_time, out) (ap (λ x. ((first now s).0, x)) (sym out))

  -- If Reset gives a bucket the start that it is told and the end of the time's bucket does not
  -- overflow, then on an array of several slots on which every bucket stands where it belongs, and
  -- with nobody else at work, the first round of the loop of getBucketOfTime ends it: with a bucket
  -- that the time hits and that stands in the slot of the time, or, where that slot holds a bucket
  -- of a later start, with ErrTimeBehindStart and nothing changed.
  pub get_bucket_of_time_lem :
      (fuel now : ℕ) (s : LeapArray V)
      → IsPlaced s
      → 0 < s.bucket_size
      → now + s.bucket_size < 2 ^ 64
      → s.n ≢ 1
      → (let r = get_bucket_of_time new_empty_bucket reset (suc fuel) now s in
          Hits now r ⊎ ((r ≡ (s, time_behind_start)) × Ahead now s))
  get_bucket_of_time_lem fuel now s v pos room more =
      let ends = first-Ends now s v (pos, room) more in
      subst (Ends now s) (sym (settled fuel now s ends)) ends
