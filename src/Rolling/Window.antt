-- ===== src/Rolling/Window.antt =====
-- The rolling policy keeps the newest `size` buckets: `add` and Reduce against the list of buckets
-- from the oldest to the newest.
use mathlib.Core.List.{append-nil}
use gkit.Prelude.{
  subst, ℕ, zero, suc, ◌+◌, ◌-◌, ◌≤◌, ◌<◌, ◌≡◌, refl, sym, ap, ◌∙◌, false, List, [], ◌∷◌, ◌++◌,
  length, length-append, length-take, length-drop, take, drop, replicate, ltb, ◌==◌, if◌then◌else◌,
  arith, Bool-cases, inl, inr,
}
use gkit.Rolling.{
  Bucket, empty, Policy, modify, reset_bucket, reset_loop, reset_passed, add_with, timespan,
}
use gkit.Rolling.Ring.{
  ordered, turn, turns, turns_lem, shift-drop, reset_loop-turns, reset_loop-wrap, length-modify,
  drop-modify,
}

module _ {V : Type 0} where
  -- The ring has `size` buckets, and the offset is one of them.
  pub record IsValid (r : Policy V) : Type 0 where
    pub sized : length r.window ≡ r.size
    pub inside : r.offset < r.size
    pub lasting : 0 < r.bucket_duration

  -- The buckets of a policy from the oldest to the newest.
  abbrev pub buckets : Policy V → List (Bucket V)
  buckets r = ordered (r.window, r.offset)

  turns-append :
      (m n size : ℕ) (s : List (Bucket V) × ℕ)
      → turns n size (turns m size s) ≡ turns (m + n) size s
  unfolding turns
  turns-append zero n size s = let e : n ≡ zero + n = omega arith in ap (λ k. turns k size s) e
  turns-append (suc m) n size s =
      let e : suc (m + n) ≡ suc m + n = omega arith in
      turns-append m n size _ ∙ ap (λ k. turns k size s) e

  turns-offset :
      (n size : ℕ) (w : List (Bucket V)) (o : ℕ) → o + n < size → (turns n size (w, o)).1 ≡ o + n
  unfolding turns turn
  turns-offset zero size w o h = omega arith
  turns-offset (suc n) size w o h =
      let room : (suc o == size) ≡ false = ground arith in
      let rest = turns-offset n size (reset_bucket w (suc o)) (suc o) (omega arith) in
      rw (turns, room) (omega (arith, rest))

  -- The two loops of `add` together make as many turns as buckets have passed.
  two_loops :
      (k size : ℕ) (w : List (Bucket V)) (o : ℕ)
      → o < size
      → k ≤ size
      → let s = o + 1 in
        let e = s + k in
        reset_loop
          (if ltb size e then e - size else 0)
          0
          (reset_loop ((if ltb size e then size else e) - s) s (w, o))
        ≡ turns k size (w, o)
  unfolding reset_loop
  two_loops k size w o h le = elim (Bool-cases (ltb size (o + 1 + k))) [
    | inl over ↦
        let next : o + 1 ≡ suc o = omega arith in
        let a = size - suc o in
        let b = suc o + k - size in
        let big : size < o + 1 + k = ground arith in
        let room : o + a < size = omega arith in
        let full : suc (o + a) ≡ size = omega arith in
        let last = ap suc (turns-offset a size w o room) ∙ full in
        let (w', o') = turns a size (w, o) in
        let all : a + b ≡ k = omega arith in
        rw (over, next)
          (ap (reset_loop b 0) (reset_loop-turns a size w o room)
            ∙ reset_loop-wrap b size w' o' last (omega arith)
            ∙ turns-append a b size (w, o)
            ∙ ap (λ n. turns n size (w, o)) all)
    | inr within ↦
        let room : o + k < size = ground arith in
        let next : o + 1 ≡ suc o = omega arith in
        let all : suc o + k - suc o ≡ k = omega arith in
        rw (within, next)
          (ap (λ n. reset_loop n (suc o) (w, o)) all ∙ reset_loop-turns k size w o room)
  ]

  pub length-ordered : (w : List (Bucket V)) (o : ℕ) → length (ordered (w, o)) ≡ length w
  length-ordered w o = omega (
    arith,
    length-append (drop (suc o) w) (take (suc o) w),
    length-take (suc o) w,
    length-drop (suc o) w,
  )

  reset_passed-turns :
      (span : ℕ) (r : Policy V)
      → IsValid r
      → let k = if ltb r.size span then r.size else span in
        let r' = reset_passed span r in (r'.window, r'.offset) ≡ turns k r.size (r.window, r.offset)
  unfolding reset_passed
  reset_passed-turns span r v =
      let k = if ltb r.size span then r.size else span in
      let low : k ≤ r.size = ground arith in two_loops k r.size r.window r.offset v.inside low

  reset_passed-IsValid : (span : ℕ) (r : Policy V) → IsValid r → IsValid (reset_passed span r)
  unfolding reset_passed
  reset_passed-IsValid span r v =
      let k = if ltb r.size span then r.size else span in
      let (same, len, low) = turns_lem k r.size r.window r.offset v.sized v.inside in
      let e = reset_passed-turns span r v in
      record {
        sized = ap (λ s. length s.0) e ∙ len;
        inside = subst (λ s. s.1 < r.size) (sym e) low;
        lasting = v.lasting;
      }

  reset_passed-size : (span : ℕ) (r : Policy V) → (reset_passed span r).size ≡ r.size
  unfolding reset_passed
  reset_passed-size span r = refl

  -- The buckets that have passed, all of them at most, are dropped from the old end and come back
  -- empty at the new one.
  pub buckets-reset_passed :
      (span : ℕ) (r : Policy V)
      → IsValid r
      → let k = if ltb r.size span then r.size else span in
        buckets (reset_passed span r) ≡ drop k (buckets r) ++ replicate k empty
  buckets-reset_passed span r v =
      let k = if ltb r.size span then r.size else span in
      let low : k ≤ r.size = ground arith in
      let (same, len, lt) = turns_lem k r.size r.window r.offset v.sized v.inside in
      let long : k ≤ length (buckets r) =
        omega (arith, length-ordered r.window r.offset, v.sized) in
      ap ordered (reset_passed-turns span r v) ∙ same ∙ shift-drop k (buckets r) long

  take-suc-modify :
      (w : List (Bucket V)) (i : ℕ) (f : Bucket V → Bucket V)
      → take (suc i) (modify w i f) ≡ modify (take (suc i) w) i f
  unfolding modify
  take-suc-modify [] i f = refl
  take-suc-modify (b ∷ w) zero f = refl
  take-suc-modify (b ∷ w) (suc i) f = ap (◌∷◌ b) (take-suc-modify w i f)

  modify-append :
      (xs ys : List (Bucket V)) (i j : ℕ) (f : Bucket V → Bucket V)
      → j ≡ length xs + i
      → modify (xs ++ ys) j f ≡ xs ++ modify ys i f
  unfolding modify
  modify-append [] ys i j f e = let same : j ≡ i = omega arith in ap (λ k. modify ys k f) same
  modify-append (b ∷ xs) ys i zero f e = absurd (omega arith)
  modify-append (b ∷ xs) ys i (suc j) f e = ap (◌∷◌ b) (modify-append xs ys i j f (omega arith))

  -- A change at the offset is a change of the newest bucket.
  ordered-modify :
      (w : List (Bucket V)) (o : ℕ) (f : Bucket V → Bucket V)
      → o < length w
      → ordered (modify w o f, o) ≡ modify (ordered (w, o)) (length w - 1) f
  ordered-modify w o f h =
      let place : length w - 1 ≡ length (drop (suc o) w) + o =
        omega (arith, length-drop (suc o) w) in
      rw (drop-modify w o f, take-suc-modify w o f)
        (sym (modify-append (drop (suc o) w) (take (suc o) w) o (length w - 1) f place))

  buckets-modify :
      (f : Bucket V → Bucket V) (r : Policy V)
      → IsValid r
      → let r' = record r { window = modify r.window r.offset f } in
        (buckets r' ≡ modify (buckets r) (r.size - 1) f) × IsValid r'
  buckets-modify f r v =
      let low : r.offset < length r.window = omega (arith, v.inside, v.sized) in
      let len = length-modify r.window r.offset f ∙ v.sized in
      let at = ordered-modify r.window r.offset f low in
      (
        at ∙ ap (λ n. modify (buckets r) (n - 1) f) v.sized,
        record { sized = len; inside = v.inside; lasting = v.lasting },
      )

  -- Append and Add, whatever they do to the current bucket: the buckets that have passed since the
  -- last append, all of them at most, are dropped from the old end of the window and as many empty
  -- ones stand at the new end, and then the newest bucket, and no other, is changed; the policy
  -- stays valid.
  pub buckets-add_with :
      (f : Bucket V → Bucket V) (now : ℕ) (r : Policy V)
      → IsValid r
      → let span = timespan now r in
        let k = if ltb r.size span then r.size else span in
        (buckets (add_with f now r)
          ≡ modify (drop k (buckets r) ++ replicate k empty) (r.size - 1) f)
        × IsValid (add_with f now r)
  unfolding add_with
  buckets-add_with f now r v =
      let span = timespan now r in
      elim (Bool-cases (ltb 0 span)) [
        | inl some_passed ↦
            let (same, valid) =
              buckets-modify f (reset_passed span r) (reset_passed-IsValid span r v) in
            let size = reset_passed-size span r in
            let passed = buckets-reset_passed span r v in
            rw some_passed (
              same
                  ∙ ap (λ n. modify (buckets (reset_passed span r)) (n - 1) f) size
                  ∙ ap (λ bs. modify bs (r.size - 1) f) passed,
              valid,
            )
        | inr none_passed ↦
            let (same, valid) = buckets-modify f r v in
            let none : (if ltb r.size span then r.size else span) ≡ 0 = ground arith in
            let whole = append-nil (buckets r) in
            rw (none_passed, none) (same ∙ ap (λ bs. modify bs (r.size - 1) f) (sym whole), valid)
      ]
