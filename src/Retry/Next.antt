-- ===== src/Retry/Next.antt =====
-- FibonacciNext ends, and gives the Fibonacci number after `start`.
use gkit.Prelude.{
  ℕ, zero, suc, ◌+◌, ◌-◌, ◌≡◌, ◌≤◌, ◌<◌, refl, ap, true, false, Option, some, ltb, if◌then◌else◌,
  arith, Bool-cases, ◌⊎◌, inl, inr,
}
use gkit.Prelude.Int.{pos}
use gkit.Retry.{max_int, next_loop, fibonacci_next}

-- The numbers of Fibonacci, from 1 and 1 on.
unfoldable pub fib : ℕ → ℕ
fib zero = 1
fib (suc zero) = 1
fib (suc (suc n)) = fib n + fib (suc n)

fib_pos : (n : ℕ) → 1 ≤ fib n
unfolding fib
fib_pos zero = omega arith
fib_pos (suc zero) = omega arith
fib_pos (suc (suc n)) = omega (arith, fib_pos n, fib_pos (suc n))

fib_grows : (n : ℕ) → n ≤ fib n
unfolding fib
fib_grows zero = omega arith
fib_grows (suc zero) = omega arith
fib_grows (suc (suc n)) = omega (arith, fib_pos n, fib_grows n, fib_pos (suc n), fib_grows (suc n))

lt_or_eq : (m n : ℕ) → m < suc n → (m < n) ⊎ (m ≡ n)
lt_or_eq m n h = elim (Bool-cases (ltb m n)) [
  | inl less ↦ inl (ground (arith, less))
  | inr other ↦ inr (ground (arith, other, h))
]

-- The test for an overflow of the sum.
sum_over : (most a b : ℕ) → b ≤ most → ltb (most - b) a ≡ true → most < a + b
sum_over most a b h over = ground (arith, h, over)

sum_fits : (most a b : ℕ) → b ≤ most → ltb (most - b) a ≡ false → a + b ≤ most
sum_fits most a b h room = ground (arith, h, room)

saturated : (most x : ℕ) → most < x → most ≡ (if ltb most x then most else x)
saturated most x h = ground (arith, h)

-- Where the number after `start` is: the first that is greater, or the largest int if that is less.
pub record IsNext (start n r : ℕ) : Type 0 where
  pub above : start < fib n
  pub least : (m : ℕ) → m < n → fib m ≤ start
  pub result : r ≡ (if ltb max_int (fib n) then max_int else fib n)

pub record Found (start : ℕ) (out : Option ℕ) : Type 0 where
  pub n : ℕ
  pub r : ℕ
  pub ends : out ≡ some r
  pub next : IsNext start n r

module _ (start : ℕ) (representable : start ≤ max_int) where
  at_first :
      (n : ℕ)
      → ((m : ℕ) → m < n → fib m ≤ start)
      → fib n ≤ max_int
      → start < fib n
      → Found start (some (fib n))
  at_first n before fits above = record {
    n = n;
    r = fib n;
    ends = refl;
    next = record { above = above; least = before; result = ground (arith, fits) };
  }

  -- The numbers up to the next are not above `start` either.
  one_more :
      (n : ℕ)
      → ((m : ℕ) → m < n → fib m ≤ start)
      → fib n ≤ start
      → (m : ℕ) → m < suc n
      → fib m ≤ start
  one_more n before here m h = elim (lt_or_eq m n h) [
    | inl less ↦ before m less
    | inr same ↦ omega (arith, ap fib same, here)
  ]

  next_loop-Found :
      (fuel n : ℕ)
      → fuel + n ≡ start + 2
      → ((m : ℕ) → m < n → fib m ≤ start)
      → fib n ≤ max_int
      → fib (suc n) ≤ max_int
      → Found start (next_loop fuel start (fib n) (fib (suc n)))
  unfolding next_loop fib
  next_loop-Found zero n enough before fits fits' =
      absurd
        (omega (arith, enough, before (start + 1) (omega (arith, enough)), fib_grows (start + 1)))
  next_loop-Found (suc fuel) n enough before fits fits' = elim (Bool-cases (ltb start (fib n))) [
    | inl here ↦ rw here (at_first n before fits (ground (arith, here)))
    | inr low ↦
        let upto = one_more n before (ground (arith, low)) in
        elim (Bool-cases (ltb start (fib (suc n)))) [
          | inl here ↦ rw (low, here) (at_first (suc n) upto fits' (ground (arith, here)))
          | inr low' ↦
              let all = one_more (suc n) upto (ground (arith, low')) in
              elim (Bool-cases (ltb (max_int - fib (suc n)) (fib n))) [
                | inl over ↦
                    let beyond = sum_over max_int (fib n) (fib (suc n)) fits' over in
                    rw (low, low', over)
                      (record {
                        n = suc (suc n);
                        r = max_int;
                        ends = refl;
                        next = record {
                          above = omega (arith, beyond, representable);
                          least = all;
                          result = saturated max_int (fib n + fib (suc n)) beyond;
                        };
                      })
                | inr room ↦
                    rw (low, low', room)
                      (next_loop-Found fuel (suc n) (omega (arith, enough)) upto fits'
                        (sum_fits max_int (fib n) (fib (suc n)) fits' room))
              ]
        ]
  ]

-- For a `start` of 0 or more FibonacciNext ends within `start` + 2 tests of its loop, and gives the
-- first Fibonacci number above `start`, or the largest int where that number is larger.
pub fibonacci_next_ends : (start : ℕ) → start ≤ max_int → Found start (fibonacci_next (pos start))
unfolding fibonacci_next fib
fibonacci_next_ends start h =
    next_loop-Found start h (start + 2) 0 (omega arith) (λ m less. absurd (omega (arith, less)))
      (omega arith) (omega arith)
