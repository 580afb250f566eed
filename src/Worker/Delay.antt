-- ===== src/Worker/Delay.antt =====
-- The delay before a retry.
use gkit.Prelude.{
  ℕ, ◌*◌, ◌≡◌, ◌≤◌, ◌<◌, refl, ap, Option, none, some, ◌⊎◌, inl, inr, ltb, Bool-cases, false, arith,
}
use gkit.Prelude.Int.{pos}
use gkit.Retry.{max_int, fibonacci_next}
use gkit.Retry.Next.{fib, Found, fibonacci_next_ends}
use gkit.Worker.Process.{max_retry_delay_seconds, clamp_seconds, next_retry_delay}

pub record NextDelay (interval : ℕ) (out : Option (ℕ × ℕ)) : Type 0 where
  pub seconds : ℕ
  pub ends : out ≡ some (seconds, seconds * 1000000000)
  pub grows : (interval < seconds) ⊎ (seconds ≡ max_retry_delay_seconds)
  pub fits : seconds * 1000000000 ≤ max_int

below :
    {interval r : ℕ}
    → (interval < r) ⊎ (r ≡ max_int)
    → ltb max_retry_delay_seconds r ≡ false
    → interval < r
below (inl h) under = h
below (inr e) under = absurd (ground (arith, e, under))

clamped :
    (interval r : ℕ) (out : Option ℕ)
    → out ≡ some r
    → (interval < r) ⊎ (r ≡ max_int)
    → NextDelay interval (elim out as (λ _. Option (ℕ × ℕ)) [
      | none ↦ none
      | some n ↦ some (clamp_seconds n, clamp_seconds n * 1000000000)
    ])
clamped interval r out e above = elim (Bool-cases (ltb max_retry_delay_seconds r)) [
  | inl over ↦
      let at_most : clamp_seconds r ≡ max_retry_delay_seconds = rw over refl in
      rw e (record {
        seconds = max_retry_delay_seconds;
        ends = ap (λ n. some (n, n * 1000000000)) at_most;
        grows = inr refl;
        fits = omega arith;
      })
  | inr under ↦
      let itself : clamp_seconds r ≡ r = rw under refl in
      rw e (record {
        seconds = r;
        ends = ap (λ n. some (n, n * 1000000000)) itself;
        grows = inl (below above under);
        fits = ground (arith, under);
      })
]

above-Found :
    (start : ℕ) (out : Option ℕ)
    → Found start out
    → (r : ℕ) × (out ≡ some r) × ((start < r) ⊎ (r ≡ max_int))
above-Found start out f = elim (Bool-cases (ltb max_int (fib f.n))) [
  | inl over ↦ (f.r, f.ends, inr (ground (arith, f.next.result, over)))
  | inr under ↦ (f.r, f.ends, inl (ground (arith, f.next.result, f.next.above, under)))
]

-- For an interval of 0 or more nextRetryDelay ends. The next interval is greater, or the largest
-- number of seconds that a time.Duration holds, and the duration is the interval in nanoseconds,
-- without overflow.
pub next_retry_delay_lem :
    (interval : ℕ) → interval ≤ max_int → NextDelay interval (next_retry_delay (pos interval))
unfolding next_retry_delay
next_retry_delay_lem interval h =
    let (r, e, above) =
      above-Found interval (fibonacci_next (pos interval)) (fibonacci_next_ends interval h) in
    clamped interval r (fibonacci_next (pos interval)) e above
