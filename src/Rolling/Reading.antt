-- ===== src/Rolling/Reading.antt =====
-- Reduce of rolling_policy.go: what it copies of the ring, against the list of buckets from the
-- oldest to the newest.
use native.Mathlib.Nat.{div-eq_of_lt, div-add-mod', mod-lt}
use gkit.Prelude.{
  ℕ, zero, suc, ◌+◌, ◌-◌, ◌*◌, ◌/◌, ◌≤◌, ◌<◌, ◌≡◌, refl, sym, ap, ◌∙◌, true, some, List, [], ◌∷◌,
  ◌++◌, length, length-drop, get_elem?, take, drop, replicate, ltb, leb, ◌==◌, if◌then◌else◌, arith,
  Bool-cases, inl, inr,
}
use gkit.Rolling.{Bucket, empty, Policy, modify, timespan, collect, reduced, reset_passed, add_with}
use gkit.Rolling.Ring.{drop-drop, drop_some, drop_all}
use gkit.Rolling.Window.{IsValid, buckets, length-ordered, buckets-add_with}

module _ {V : Type 0} where
  get_elem?-drop :
      (w : List (Bucket V)) (i : ℕ)
      → i < length w
      → (b : Bucket V) × (get_elem? w i ≡ some b) × (drop i w ≡ b ∷ drop (suc i) w)
  get_elem?-drop [] i h = absurd (omega arith)
  get_elem?-drop (b ∷ w) zero h = (b, refl, refl)
  get_elem?-drop (b ∷ w) (suc i) h = get_elem?-drop w i (omega arith)

  drop_over :
      (xs ys : List (Bucket V)) (i j : ℕ) → j ≡ length xs + i → drop j (xs ++ ys) ≡ drop i ys
  drop_over [] ys i j e = let same : j ≡ i = omega arith in ap (λ k. drop k ys) same
  drop_over (x ∷ xs) ys i zero e = absurd (omega arith)
  drop_over (x ∷ xs) ys i (suc j) e = drop_over xs ys i j (omega arith)

  drop-take :
      (i n : ℕ) (w : List (Bucket V)) (m : ℕ) → m ≡ i + n → drop i (take m w) ≡ take n (drop i w)
  drop-take zero n w m e = let same : m ≡ n = omega arith in ap (λ k. take k w) same
  drop-take (suc i) n w zero e = absurd (omega arith)
  drop-take (suc i) zero [] (suc m) e = refl
  drop-take (suc i) (suc n) [] (suc m) e = refl
  drop-take (suc i) n (b ∷ w) (suc m) e = drop-take i n w m (omega arith)

  collect-suc :
      (n i : ℕ) (r : Policy V) (b : Bucket V)
      → get_elem? r.window i ≡ some b
      → collect (suc n) i r ≡ b ∷ collect n (if suc i == r.size then 0 else suc i) r
  unfolding collect
  collect-suc n i r b at = rw (collect, at) refl

  -- The copy of buckets that do not reach the ring's end.
  collect_front :
      (n i : ℕ) (r : Policy V)
      → length r.window ≡ r.size
      → i + n ≤ r.size
      → collect n i r ≡ take n (drop i r.window)
  collect_front zero i r e h = unfold collect in refl
  collect_front (suc n) i r e h =
      let (b, at, split) = get_elem?-drop r.window i (omega arith) in
      let step = collect-suc n i r b at in
      elim (Bool-cases (suc i == r.size)) [
        | inl last ↦
            let none : n ≡ zero = ground arith in rw (step, split, none) (unfold collect in refl)
        | inr inner ↦
            rw (step, split, inner) (ap (◌∷◌ b) (collect_front n (suc i) r e (omega arith)))
      ]

  -- The copy of buckets that reaches the end of the ring and goes on from its start.
  collect_wrap :
      (m n i : ℕ) (r : Policy V)
      → length r.window ≡ r.size
      → i < r.size
      → i + m ≡ r.size
      → n ≤ r.size
      → collect (m + n) i r ≡ drop i r.window ++ take n r.window
  collect_wrap zero n i r e h k l = absurd (omega arith)
  collect_wrap (suc m) n i r e h k l =
      let (b, at, split) = get_elem?-drop r.window i (omega arith) in
      let more : suc m + n ≡ suc (m + n) = omega arith in
      let step = collect-suc (m + n) i r b at in
      elim (Bool-cases (suc i == r.size)) [
        | inl last ↦
            let all : m + n ≡ n = ground arith in
            let none = drop_all r.window (suc i) (ground arith) in
            let front = collect_front n 0 r e (omega arith) in
            rw (more, step, split, last, all, none) (ap (◌∷◌ b) front)
        | inr inner ↦
            let rest = collect_wrap m n (suc i) r e (ground arith) (omega arith) l in
            rw (more, step, split, inner) (ap (◌∷◌ b) rest)
      ]

  -- Reduce hands its function the buckets that have not passed, from the oldest to the newest, and
  -- no bucket, if as many have passed as the window has.
  pub reduced-timespan :
      (now : ℕ) (r : Policy V) → IsValid r → reduced now r ≡ drop (timespan now r) (buckets r)
  unfolding reduced
  reduced-timespan now r v =
      let span = timespan now r in
      let o = r.offset in
      let offset = o + span + 1 in
      elim (Bool-cases (ltb span r.size)) [
        | inl fresh ↦ elim (Bool-cases (leb r.size offset)) [
          | inl over ↦
              let i = offset - r.size in
              let n = r.size - span in
              let front = collect_front n i r v.sized (ground arith) in
              let past : span ≡ length (drop (suc o) r.window) + i =
                ground (arith, length-drop (suc o) r.window, v.sized, v.inside) in
              let all : suc o ≡ i + n = ground (arith, v.inside) in
              rw (fresh, over)
                (front
                  ∙ sym (drop-take i n r.window (suc o) all)
                  ∙ sym (drop_over (drop (suc o) r.window) (take (suc o) r.window) i span past))
          | inr within ↦
              let m = r.size - offset in
              let all : r.size - span ≡ m + suc o = ground arith in
              let long : span ≤ length (drop (suc o) r.window) =
                ground (arith, length-drop (suc o) r.window, v.sized) in
              let place : suc o + span ≡ offset = omega arith in
              let wrap =
                collect_wrap m (suc o) offset r v.sized (ground arith) (ground arith)
                  (ground (arith, v.inside)) in
              rw (fresh, within)
                (ap (λ c. collect c offset r) all
                  ∙ wrap
                  ∙ ap (λ k. drop k r.window ++ take (suc o) r.window) (sym place)
                  ∙ ap (λ bs. bs ++ take (suc o) r.window) (sym (drop-drop span (suc o) r.window))
                  ∙ sym (drop_some span (drop (suc o) r.window) (take (suc o) r.window) long))
        ]
        | inr stale ↦
            rw stale
              (sym (drop_all (buckets r) span (ground (arith, length-ordered r.window o, v.sized))))
      ]

  timespan_fresh :
      (now : ℕ) (r : Policy V)
      → r.last_append_time ≤ now
      → now - r.last_append_time < r.bucket_duration
      → timespan now r ≡ 0
  unfolding timespan
  timespan_fresh now r h k =
      let on_time : leb r.last_append_time now ≡ true = ground arith in rw on_time (div-eq_of_lt k)

  add_with_time :
      (f : Bucket V → Bucket V) (now : ℕ) (r : Policy V)
      → let r' = add_with f now r in
        (r'.last_append_time ≡ r.last_append_time + timespan now r * r.bucket_duration)
        × (r'.bucket_duration ≡ r.bucket_duration)
  unfolding add_with reset_passed
  add_with_time f now r = elim (Bool-cases (ltb 0 (timespan now r))) [
    | inl some_passed ↦ rw some_passed (refl, refl)
    | inr none_passed ↦
        let none : timespan now r ≡ 0 = ground arith in rw (none_passed, none) (omega arith, refl)
  ]

  timespan-add_with :
      (f : Bucket V → Bucket V) (now : ℕ) (r : Policy V)
      → IsValid r
      → r.last_append_time ≤ now
      → timespan now (add_with f now r) ≡ 0
  timespan-add_with f now r v h =
      let on_time : leb r.last_append_time now ≡ true = ground arith in
      let past = now - r.last_append_time in
      let split = div-add-mod' past r.bucket_duration in
      let low = mod-lt past v.lasting in
      let span : timespan now r ≡ past / r.bucket_duration = unfold timespan in rw on_time refl in
      let (last, duration) = add_with_time f now r in
      let since = last ∙ ap (λ n. r.last_append_time + n * r.bucket_duration) span in
      timespan_fresh now (add_with f now r) (omega (arith, since, split))
        (omega (arith, since, split, low, duration))

  -- A Reduce right after an Append or an Add, by a clock that has not gone back since the append
  -- before, sees the whole window: the older buckets that have not passed, empty ones for those
  -- that have, and the newest with the change.
  pub reduced-add_with :
      (f : Bucket V → Bucket V) (now : ℕ) (r : Policy V)
      → IsValid r
      → r.last_append_time ≤ now
      → let span = timespan now r in
        let k = if ltb r.size span then r.size else span in
        reduced now (add_with f now r)
        ≡ modify (drop k (buckets r) ++ replicate k empty) (r.size - 1) f
  reduced-add_with f now r v h =
      let (same, valid) = buckets-add_with f now r v in
      let whole = reduced-timespan now (add_with f now r) valid in
      whole ∙ ap (λ n. drop n (buckets (add_with f now r))) (timespan-add_with f now r v h) ∙ same
