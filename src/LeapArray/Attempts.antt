-- ===== src/LeapArray/Attempts.antt =====
-- Rounds of getBucketOfTime by many goroutines on one leap array, each with whatever it read before.
use native.Mathlib.Nat.{mod-mod}
use gkit.Prelude.{
  ℕ, ◌/◌, ◌%◌, ◌<◌, ◌≡◌, ◌≢◌, refl, sym, ap, ◌∙◌, Bool, false, Option, none, some, get_elem?, ltb,
  ◌==◌, arith, Bool-cases, Option-cases, inl, inr,
}
use mathlib.Core.Option.{some-injective}
use gkit.LeapArray.{
  Bucket, LeapArray, Outcome, got, time_behind_start, again, calculate_start_time, get_time_index,
  publish, attempt,
}
use gkit.LeapArray.Placed.{
  start-aligned, Fits, IsPlaced, Later, Later-refl, Later-trans, publish_keeps,
}

module _ {V : Type 0} (new_empty_bucket : V) (reset : Bucket V → ℕ → Bucket V)
    (reset-start : (b : Bucket V) (t : ℕ) → (reset b t).start ≡ t) where
  pub get_time_index-Fits :
      (now : ℕ) (b : Bucket V) (s : LeapArray V)
      → b.start ≡ calculate_start_time now s.bucket_size
      → Fits s (get_time_index now s % s.n) b
  unfolding Fits get_time_index
  get_time_index-Fits now b s e = (
    now / s.bucket_size,
    e ∙ start-aligned now s.bucket_size,
    sym (mod-mod (now / s.bucket_size) s.n),
  )

  -- The ways in which a round goes on from a bucket that it has read.
  pub data Round (now p : ℕ) (b : Bucket V) (locked : Bool) (s : LeapArray V)
      : LeapArray V × Outcome → Type 0 where
    current : calculate_start_time now s.bucket_size ≡ b.start → Round now p b locked s (s, got p)
    passed :
        b.start < calculate_start_time now s.bucket_size
        → Round now p b locked s (
            publish
              (get_time_index now s)
              (some p)
              (reset
                (record {
                  start = calculate_start_time now s.bucket_size;
                  value = new_empty_bucket;
                })
                (calculate_start_time now s.bucket_size))
              s)
    busy : locked ≡ false → Round now p b locked s (s, again)
    single :
        calculate_start_time now s.bucket_size < b.start
        → s.n ≡ 1
        → Round now p b locked s (s, got p)
    behind :
        calculate_start_time now s.bucket_size < b.start
        → s.n ≢ 1
        → Round now p b locked s (s, time_behind_start)

  pub attempt-Round :
      (now p : ℕ) (b : Bucket V) (locked : Bool) (s : LeapArray V)
      → get_elem? s.made p ≡ some b
      → Round now p b locked s (attempt new_empty_bucket reset now (some p) locked s)
  unfolding attempt
  attempt-Round now p b locked s e =
      let start = calculate_start_time now s.bucket_size in
      elim (Bool-cases (start == b.start)) [
        | inl same ↦ rw (attempt, e, same) (current (ground (arith, same)))
        | inr differs ↦ elim (Bool-cases (ltb b.start start)) [
          | inl past ↦ elim (Bool-cases locked) [
            | inl l ↦ rw (attempt, e, differs, past, l) (passed (ground (arith, past)))
            | inr l ↦ rw (attempt, e, differs, past, l) (busy refl)
          ]
          | inr ahead ↦ elim (Bool-cases (s.n == 1)) [
            | inl one ↦
                rw (attempt, e, differs, ahead, one)
                  (single (ground (arith, differs, ahead)) (ground (arith, one)))
            | inr more ↦
                rw (attempt, e, differs, ahead, more)
                  (behind (ground (arith, differs, ahead)) (λ h. ground (arith, more, h)))
          ]
        ]
      ]

  Round-keeps :
      (now p : ℕ) (b : Bucket V) (locked : Bool) (s : LeapArray V) (r : LeapArray V × Outcome)
      → get_elem? s.made p ≡ some b
      → IsPlaced s
      → Round now p b locked s r
      → IsPlaced r.0 × Later s r.0
  Round-keeps now p b locked s r e v (current h) = (v, Later-refl s)
  Round-keeps now p b locked s r e v (busy h) = (v, Later-refl s)
  Round-keeps now p b locked s r e v (single h l) = (v, Later-refl s)
  Round-keeps now p b locked s r e v (behind h l) = (v, Later-refl s)
  Round-keeps now p b locked s r e v (passed h) =
      let same = reset-start _ (calculate_start_time now s.bucket_size) in
      publish_keeps (get_time_index now s) (some p) _ s v (get_time_index-Fits now _ s same)
        (λ q c old d. omega (
          arith,
          h,
          same,
          ap (λ (x : Bucket V). x.start)
              (some-injective _ _ (sym e ∙ ap (get_elem? s.made) (some-injective _ _ old) ∙ d)),
        ))

  attempt_keeps :
      (now : ℕ) (old : Option ℕ) (locked : Bool) (s : LeapArray V)
      → IsPlaced s
      → IsPlaced (attempt new_empty_bucket reset now old locked s).0
        × Later s (attempt new_empty_bucket reset now old locked s).0
  unfolding attempt
  attempt_keeps now none locked s v =
      publish_keeps (get_time_index now s) none _ s v (get_time_index-Fits now _ s refl)
        (λ p c e. absurd (ground (arith, e)))
  attempt_keeps now (some p) locked s v = elim (Option-cases (get_elem? s.made p)) [
    | inl e ↦ rw (attempt, e) (v, Later-refl s)
    | inr (b, e) ↦ Round-keeps now p b locked s _ e v (attempt-Round now p b locked s e)
  ]

  -- Rounds of any goroutines in any order: each compares with whatever pointer it read before.
  pub data Rounds (s : LeapArray V) : LeapArray V → Type 0 where
    here : Rounds s s
    go :
        {t : LeapArray V} (now : ℕ) (old : Option ℕ) (locked : Bool)
        → Rounds s t
        → Rounds s (attempt new_empty_bucket reset now old locked t).0

  pub Rounds-Later : (s t : LeapArray V) → IsPlaced s → Rounds s t → IsPlaced t × Later s t
  Rounds-Later s t v here = (v, Later-refl s)
  Rounds-Later s t v (go now old locked r) =
      let (v', l) = Rounds-Later s _ v r in
      let (v'', m) = attempt_keeps now old locked _ v' in (v'', Later-trans l m)
