-- ===== src/LeapArray.antt =====
-- window: the leap array of leap_array.go over the atomic array of array.go and the buckets of
-- bucket.go. A pointer to a bucket is its place in the list of all buckets made, so that a
-- comparison of pointers is one of places. The builder's two functions are parameters, and times
-- are in milliseconds.
pub mod Attempts
pub mod Placed
pub mod Begin
pub mod Alone
mod Tests
use gkit.Prelude.{
  ℕ, zero, suc, ◌+◌, ◌-◌, ◌/◌, ◌%◌, ◌^◌, Bool, true, false, Option, none, some, List, [], ◌∷◌, ◌++◌,
  length, get_elem?, set, ltb, ◌==◌, if◌then◌else◌,
}

pub record Bucket (V : Type 0) : Type 0 where
  pub start : ℕ
  pub value : V

-- The pointers of the atomic array, whose length is `n`, and all buckets ever made.
pub record LeapArray (V : Type 0) : Type 0 where
  pub bucket_size : ℕ
  pub interval_size : ℕ
  pub n : ℕ
  pub array : List (Option ℕ)
  pub made : List (Bucket V)

unfoldable pub calculate_start_time : ℕ → ℕ → ℕ
calculate_start_time now bucket_size = now - now % bucket_size

-- A pointer to each of the buckets from `i` on.
unfoldable pub pointers : ℕ → ℕ → List (Option ℕ)
pointers zero i = []
pointers (suc n) i = some i ∷ pointers n (suc i)

-- How one round of the loop of getBucketOfTime ends.
pub data Outcome : Type 0 where
  got : (p : ℕ) → Outcome
  time_behind_start : Outcome
  again : Outcome

unfoldable pub same_pointer : Option ℕ → Option ℕ → Bool
same_pointer none none = true
same_pointer none (some q) = false
same_pointer (some p) none = false
same_pointer (some p) (some q) = p == q

module _ {V : Type 0} where
  unfoldable pub is_hit : Bucket V → ℕ → ℕ → Bool
  is_hit b now bucket_size =
      if ltb now b.start then false else ltb now ((b.start + bucket_size) % 2 ^ 64)

  unfoldable pub get_time_index : ℕ → LeapArray V → ℕ
  get_time_index now s = now / s.bucket_size % s.n

  -- The pointer in a slot of the array.
  unfoldable pub get_bucket : ℕ → LeapArray V → Option ℕ
  get_bucket index s = elim (get_elem? s.array (index % s.n)) [ none ↦ none | some p ↦ p ]

  -- `now - ws` of 64 bits without sign: a start in the future counts as long ago.
  unfoldable pub is_disable : ℕ → Bucket V → LeapArray V → Bool
  is_disable now b s = ltb s.interval_size ((now + 2 ^ 64 - b.start) % 2 ^ 64)

  -- The loop of ValuesChick, by the rounds that are left.
  unfoldable pub values_loop : ℕ → (ℕ → Bool) → LeapArray V → ℕ → ℕ → List ℕ
  unfolding get_bucket is_disable
  values_loop now chick s zero i = []
  values_loop now chick s (suc n) i =
      let rest = values_loop now chick s n (suc i) in
      elim (get_bucket i s) [
        | none ↦ rest
        | some p ↦ elim (get_elem? s.made p) [
          | none ↦ rest
          | some b ↦ if is_disable now b s then rest else if chick b.start then p ∷ rest else rest
        ]
      ]

  unfoldable pub values_chick : ℕ → (ℕ → Bool) → LeapArray V → List ℕ
  unfolding values_loop
  values_chick now chick s = values_loop now chick s s.n 0

  -- The same loop without a further test.
  unfoldable pub get_value_of_time : ℕ → LeapArray V → List ℕ
  unfolding values_loop
  get_value_of_time now s = values_loop now (λ _. true) s s.n 0

  -- compareAndSwap of `old` against a new bucket, which is made whether or not the swap happens.
  unfoldable pub publish : ℕ → Option ℕ → Bucket V → LeapArray V → LeapArray V × Outcome
  unfolding get_bucket same_pointer
  publish index old b s =
      let p = length s.made in
      let s' : LeapArray V = record s { made = s.made ++ b ∷ [] } in
      if same_pointer (get_bucket index s) old
      then (record s' { array = set s.array (index % s.n) (some p) }, got p)
      else (s', again)

module _ {V : Type 0} (new_empty_bucket : V) (reset : Bucket V → ℕ → Bucket V) where
  -- One round of the loop of getBucketOfTime: `old` is what the slot held when it was read, the
  -- Boolean says whether TryLock succeeds.
  unfoldable pub attempt : ℕ → Option ℕ → Bool → LeapArray V → LeapArray V × Outcome
  unfolding calculate_start_time get_time_index publish
  attempt now none locked s =
      publish (get_time_index now s) none
        (record { start = calculate_start_time now s.bucket_size; value = new_empty_bucket }) s
  attempt now (some p) locked s =
      let start = calculate_start_time now s.bucket_size in
      elim (get_elem? s.made p) [
        | none ↦ (s, again)
        | some b ↦
            if start == b.start
            then (s, got p)
            else if ltb b.start start
            then if locked
              then publish (get_time_index now s) (some p)
                  (reset (record { start = start; value = new_empty_bucket }) start) s
              else (s, again)
            else if s.n == 1
            then (s, got p)
            else (s, time_behind_start)
      ]

  -- The loop with nobody else at work, by the rounds it may take.
  unfoldable pub get_bucket_of_time : ℕ → ℕ → LeapArray V → LeapArray V × Outcome
  unfolding attempt get_bucket
  get_bucket_of_time zero now s = (s, again)
  get_bucket_of_time (suc fuel) now s =
      let (s', out) = attempt now (get_bucket (get_time_index now s) s) true s in
      elim out [
        | again ↦ get_bucket_of_time fuel now s'
        | got p ↦ (s', got p)
        | time_behind_start ↦ (s', time_behind_start)
      ]

module _ {V : Type 0} (new_empty_bucket : V) where
  -- `count` rounds of a loop of NewAtomicArrayWithTime, with the buckets and the next start.
  unfoldable pub fill : ℕ → ℕ → ℕ → List (Bucket V) × ℕ
  fill size zero start = ([], start)
  fill size (suc count) start =
      let (bs, next) = fill size count ((start + size) % 2 ^ 64) in
      (record { start = start; value = new_empty_bucket } ∷ bs, next)

  -- NewAtomicArrayWithTime: the slots from that of `now` on, then those before it.
  unfoldable pub new_atomic_array : ℕ → ℕ → ℕ → List (Option ℕ) × List (Bucket V)
  unfolding calculate_start_time fill
  new_atomic_array length bucket_size now =
      let index = now / bucket_size % length in
      let (high, start) =
        fill bucket_size (length - index) (calculate_start_time now bucket_size) in
      let (low, _) = fill bucket_size index start in (pointers length 0, low ++ high)

  -- `none` is ErrWindowNotSegmentation; the builder is there.
  unfoldable pub new_leap_array : ℕ → ℕ → ℕ → Option (LeapArray V)
  unfolding new_atomic_array
  new_leap_array n interval_size now =
      if n == 0
      then none
      else if interval_size == 0
      then none
      else if interval_size % n == 0
      then (let (array, made) = new_atomic_array n (interval_size / n) now in
          some (record {
            bucket_size = interval_size / n;
            interval_size = interval_size;
            n = n;
            array = array;
            made = made;
          }))
      else none
