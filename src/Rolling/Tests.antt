-- ===== src/Rolling/Tests.antt =====
-- Runs of the rolling policy and of its reductions, over natural numbers.
use gkit.Prelude.{
  ℕ, ◌+◌, ◌-◌, ◌≡◌, refl, List, [], ◌∷◌, ◌++◌, drop, replicate, ltb, if◌then◌else◌, arith,
}
use gkit.Rolling.{
  Bucket, empty, Policy, new_policy, append_point, modify, append, add, add_with, timespan, reduced,
  sum_buckets,
}
use gkit.Rolling.Window.{IsValid, buckets, buckets-add_with}
use gkit.Rolling.Reading.{reduced-timespan}
use gkit.Rolling.Extrema.{IsOrder}

-- Three buckets of ten units: two appends, then one two buckets later.
abbrev sample : Policy ℕ
unfolding append add new_policy
sample = append 7 32 (add ◌+◌ 4 15 (append 3 12 (new_policy 3 10 0)))

sample-IsValid : IsValid sample
unfolding append add new_policy add_with
sample-IsValid = record { sized = refl; inside = omega arith; lasting = omega arith }

newest_two : sum_buckets ◌+◌ 0 (reduced 45 sample) ≡ 7
unfolding sum_buckets reduced append add new_policy
newest_two = refl

all_three : sum_buckets ◌+◌ 0 (reduced 32 sample) ≡ 14
unfolding sum_buckets reduced append add new_policy
all_three = refl

buckets-add_with_example :
    let span = timespan 45 sample in
    let k = if ltb sample.size span then sample.size else span in
    (buckets (add_with (append_point 5) 45 sample)
      ≡ modify (drop k (buckets sample) ++ replicate k empty) (sample.size - 1) (append_point 5))
    × IsValid (add_with (append_point 5) 45 sample)
buckets-add_with_example = buckets-add_with (append_point 5) 45 sample sample-IsValid

reduced-timespan_example : reduced 45 sample ≡ drop (timespan 45 sample) (buckets sample)
reduced-timespan_example = reduced-timespan 45 sample sample-IsValid

sample_time : sample.last_append_time ≡ 30
unfolding append add new_policy add_with
sample_time = refl

sample_duration : sample.bucket_duration ≡ 10
unfolding append add new_policy add_with
sample_duration = refl

ltb-IsOrder : IsOrder ltb
ltb-IsOrder = record {
  irrefl = λ a. ground arith;
  trans = λ {a} {b} {c} h k. ground arith;
  connected = λ {a} {b} {c} h k. ground arith;
}

abbrev points : List (Bucket ℕ)
points =
    record { points = 9 ∷ 4 ∷ []; count = 2 }
    ∷ record { points = []; count = 0 }
    ∷ record { points = 6 ∷ []; count = 3 }
    ∷ []
