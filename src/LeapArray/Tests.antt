-- ===== src/LeapArray/Tests.antt =====
-- Runs of the leap array of window.
use gkit.Prelude.{ℕ, ◌≡◌, refl, true, none, some, [], ◌∷◌, ◌⊎◌, ltb, arith}
use gkit.LeapArray.{
  Bucket, LeapArray, got, time_behind_start, again, new_leap_array, new_atomic_array, fill,
  pointers, calculate_start_time, attempt, publish, same_pointer, get_bucket, get_time_index,
  get_bucket_of_time, get_value_of_time, values_chick, values_loop, is_disable,
}
use gkit.LeapArray.Placed.{IsPlaced, Later}
use gkit.LeapArray.Attempts.{here, go}
use gkit.LeapArray.Begin.{new_leap_array-IsPlaced, starts_ascend}
use gkit.LeapArray.Alone.{Hits, Ahead, get_bucket_of_time_lem}

-- Counters, which Reset sets to 0.
abbrev reset : Bucket ℕ → ℕ → Bucket ℕ
reset b start = record { start = start; value = 0 }

-- The array that the comment of the source draws: five buckets of 200 ms, made at 888.
abbrev drawn : LeapArray ℕ
drawn = record {
  bucket_size = 200;
  interval_size = 1000;
  n = 5;
  array = some 0 ∷ some 1 ∷ some 2 ∷ some 3 ∷ some 4 ∷ [];
  made =
      record { start = 1000; value = 0 }
      ∷ record { start = 1200; value = 0 }
      ∷ record { start = 1400; value = 0 }
      ∷ record { start = 1600; value = 0 }
      ∷ record { start = 800; value = 0 }
      ∷ [];
}

made_drawn : new_leap_array 0 5 1000 888 ≡ some drawn
unfolding new_leap_array new_atomic_array fill pointers calculate_start_time
made_drawn = refl

refuses_uneven : new_leap_array {V = ℕ} 0 3 1000 888 ≡ none
unfolding new_leap_array
refuses_uneven = refl

-- At 1850 the fifth slot passes on; at 100 its bucket is ahead.
passes_on : (get_bucket_of_time 0 reset 1 1850 drawn).1 ≡ got 5
unfolding get_bucket_of_time attempt publish same_pointer get_bucket get_time_index
    calculate_start_time
passes_on = refl

stays_ahead : get_bucket_of_time 0 reset 1 100 drawn ≡ (drawn, time_behind_start)
unfolding get_bucket_of_time attempt publish same_pointer get_bucket get_time_index
    calculate_start_time
stays_ahead = refl

-- A bucket of the future is left out.
counts_present : get_value_of_time 1300 drawn ≡ 0 ∷ 1 ∷ 4 ∷ []
unfolding get_value_of_time values_loop get_bucket is_disable
counts_present = refl

counts_checked : values_chick 1300 (λ t. ltb 900 t) drawn ≡ 0 ∷ 1 ∷ []
unfolding values_chick values_loop get_bucket is_disable
counts_checked = refl

-- Two goroutines have read the bucket of 800: the second finds that it was replaced.
abbrev replaced : LeapArray ℕ
replaced = (attempt 0 reset 1850 (some 4) true drawn).0

second_loses : (attempt 0 reset 2800 (some 4) true replaced).1 ≡ again
unfolding attempt publish same_pointer get_bucket get_time_index calculate_start_time
second_loses = refl

starts_ascend_example :
    IsPlaced (attempt 0 reset 2800 (some 4) true replaced).0
    × Later drawn (attempt 0 reset 2800 (some 4) true replaced).0
starts_ascend_example =
    starts_ascend 0 reset (λ b t. refl) 5 1000 888 drawn drawn
      (attempt 0 reset 2800 (some 4) true replaced).0 made_drawn (omega arith) here
      (go 2800 (some 4) true (go 1850 (some 4) true here))

get_bucket_of_time_lem_example :
    Hits 1850 (get_bucket_of_time 0 reset 1 1850 drawn)
    ⊎ ((get_bucket_of_time 0 reset 1 1850 drawn ≡ (drawn, time_behind_start)) × Ahead 1850 drawn)
get_bucket_of_time_lem_example =
    get_bucket_of_time_lem 0 reset (λ b t. refl) 0 1850 drawn
      (new_leap_array-IsPlaced 0 5 1000 888 drawn made_drawn (omega arith)) (omega arith)
      (omega arith) (λ h. omega (arith, h))
