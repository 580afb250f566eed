-- ===== src/Rolling.antt =====
-- internal/stat: the ring of buckets of window.go and the rolling policy of rolling_policy.go, over
-- any type of values with an addition (float64 in the code). The ring's `next` pointers are the
-- next index. A reading of the clock is an argument, in nanoseconds.
pub mod Extrema
pub mod Reading
pub mod Ring
pub mod Window
mod Tests
use gkit.Prelude.{
  ℕ, zero, suc, ◌+◌, ◌-◌, ◌*◌, ◌/◌, ◌≤◌, ◌<◌, ◌≡◌, Bool, true, false, Option, none, some, List, [],
  ◌∷◌, ◌++◌, length, get_elem?, replicate, ltb, leb, ◌==◌, if◌then◌else◌,
}

pub record Bucket (V : Type 0) : Type 0 where
  pub points : List V
  pub count : ℕ

abbrev pub empty : {V : Type 0} → Bucket V
empty = record { points = []; count = 0 }

pub record Policy (V : Type 0) : Type 0 where
  pub size : ℕ
  pub window : List (Bucket V)
  pub offset : ℕ
  pub bucket_duration : ℕ
  pub last_append_time : ℕ

module _ {V : Type 0} where
  -- NewWindow and NewRollingPolicy.
  unfoldable pub new_policy : ℕ → ℕ → ℕ → Policy V
  new_policy size duration now = record {
    size = size;
    window = replicate size empty;
    offset = 0;
    bucket_duration = duration;
    last_append_time = now;
  }

  -- Bucket.Append.
  unfoldable pub append_point : V → Bucket V → Bucket V
  append_point v b = record { points = b.points ++ v ∷ []; count = b.count + 1 }

  -- The change of one bucket of the ring; an index out of range panics in Go.
  unfoldable pub modify : List (Bucket V) → ℕ → (Bucket V → Bucket V) → List (Bucket V)
  modify [] i f = []
  modify (b ∷ w) zero f = f b ∷ w
  modify (b ∷ w) (suc i) f = b ∷ modify w i f

  -- ResetBucket.
  unfoldable pub reset_bucket : List (Bucket V) → ℕ → List (Bucket V)
  unfolding modify
  reset_bucket w i = modify w i (λ _. empty)

  -- int(time.Since(lastAppendTime) / bucketDuration), or the size where that is negative. The time of
  -- the last append keeps a monotonic reading, and add never sets it past the present, so that in a
  -- run only the first branch is taken.
  unfoldable pub timespan : ℕ → Policy V → ℕ
  timespan now r =
      if leb r.last_append_time now
      then (now - r.last_append_time) / r.bucket_duration
      else if (r.last_append_time - now) / r.bucket_duration == 0
      then 0
      else r.size

  -- `for i := …; i < …; i++ { r.window.ResetBucket(i); offset = i }`, by the rounds that are left.
  unfoldable pub reset_loop : ℕ → ℕ → List (Bucket V) × ℕ → List (Bucket V) × ℕ
  unfolding reset_bucket
  reset_loop zero i s = s
  reset_loop (suc n) i (w, o) = reset_loop n (suc i) (reset_bucket w i, i)

  -- The part of `add` that runs if the time span is positive: it clears the buckets that have
  -- passed, all of them at most.
  unfoldable pub reset_passed : ℕ → Policy V → Policy V
  unfolding reset_loop
  reset_passed span r =
      let k = if ltb r.size span then r.size else span in
      let s = r.offset + 1 in
      let e = s + k in
      let (w, o) = reset_loop ((if ltb r.size e then r.size else e) - s) s (r.window, r.offset) in
      let (w', o') = reset_loop (if ltb r.size e then e - r.size else 0) 0 (w, o) in
      record r {
        window = w';
        offset = o';
        last_append_time = r.last_append_time + span * r.bucket_duration;
      }

  -- `add` with the change that Append or Add makes at the current bucket.
  unfoldable pub add_with : (Bucket V → Bucket V) → ℕ → Policy V → Policy V
  unfolding timespan reset_passed modify
  add_with f now r =
      let span = timespan now r in
      let r' = if ltb 0 span then reset_passed span r else r in
      record r' { window = modify r'.window r'.offset f }

  unfoldable pub append : V → ℕ → Policy V → Policy V
  unfolding add_with append_point
  append v = add_with (append_point v)

  -- The copy that Reduce makes: `count` buckets from the index `i` on, round the ring.
  unfoldable pub collect : ℕ → ℕ → Policy V → List (Bucket V)
  collect zero i r = []
  collect (suc n) i r =
      let rest = collect n (if suc i == r.size then 0 else suc i) r in
      elim (get_elem? r.window i) [ none ↦ rest | some b ↦ b ∷ rest ]

  -- The buckets that Reduce hands to its function, if there are any.
  unfoldable pub reduced : ℕ → Policy V → List (Bucket V)
  unfolding timespan collect
  reduced now r =
      let span = timespan now r in
      let offset = r.offset + span + 1 in
      if ltb span r.size
      then collect (r.size - span) (if leb r.size offset then offset - r.size else offset) r
      else []

module _ {V : Type 0} (plus : V → V → V) where
  add_first : V → List V → List V
  add_first v [] = []
  add_first v (p ∷ ps) = plus p v ∷ ps

  -- Window.Add on a bucket: the first point grows, or is the value.
  unfoldable pub add_point : V → Bucket V → Bucket V
  unfolding add_first append_point
  add_point v b =
      if b.count == 0
      then append_point v b
      else record { points = add_first v b.points; count = b.count + 1 }

  unfoldable pub add : V → ℕ → Policy V → Policy V
  unfolding add_with add_point
  add v = add_with (add_point v)

  -- Sum over the buckets of an iterator.
  unfoldable pub sum_points : V → List V → V
  sum_points acc [] = acc
  sum_points acc (p ∷ ps) = sum_points (plus acc p) ps

  unfoldable pub sum_buckets : V → List (Bucket V) → V
  unfolding sum_points
  sum_buckets acc [] = acc
  sum_buckets acc (b ∷ bs) = sum_buckets (sum_points acc b.points) bs
