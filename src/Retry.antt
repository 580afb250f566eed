-- ===== src/Retry.antt =====
-- distributed/retry: FibonacciNext of fibonacci.go, on 64-bit ints.
pub mod Next
mod Tests
use gkit.Prelude.{ℕ, zero, suc, ◌+◌, ◌-◌, Option, none, some, ltb, if◌then◌else◌}
use gkit.Prelude.Int.{ℤ, pos, negsuc}

abbrev pub max_int : ℕ
max_int = 9223372036854775807

-- The loop of FibonacciNext; `none` when the fuel ends before the loop.
unfoldable pub next_loop : ℕ → ℕ → ℕ → ℕ → Option ℕ
next_loop zero start a b = none
next_loop (suc fuel) start a b =
    let rest = next_loop fuel start b (a + b) in
    if ltb start a
    then some a
    else if ltb start b
    then some b
    else if ltb (max_int - b) a
    then some max_int
    else rest

-- The first test of the loop fails for a negative start.
unfoldable pub fibonacci_next : ℤ → Option ℕ
unfolding next_loop
fibonacci_next (pos start) = next_loop (start + 2) start 1 1
fibonacci_next (negsuc n) = some 1
