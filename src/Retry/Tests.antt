-- ===== src/Retry/Tests.antt =====
-- Runs of the Fibonacci back-off of distributed/retry.
use gkit.Prelude.{◌≡◌, refl, some, arith}
use gkit.Prelude.Int.{pos, negsuc}
use gkit.Retry.{next_loop, fibonacci_next, max_int}
use gkit.Retry.Next.{Found, fibonacci_next_ends}

after_ten : fibonacci_next (pos 10) ≡ some 13
unfolding fibonacci_next next_loop
after_ten = refl

after_nought : fibonacci_next (pos 0) ≡ some 1
unfolding fibonacci_next next_loop
after_nought = refl

below_nought : fibonacci_next (negsuc 4) ≡ some 1
unfolding fibonacci_next
below_nought = refl

-- The largest int is given in place of the number after the 91st.
saturates : next_loop 3 7540113804746346429 4660046610375530309 7540113804746346429 ≡ some max_int
unfolding next_loop
saturates = refl

fibonacci_next_ends_example : Found 100 (fibonacci_next (pos 100))
fibonacci_next_ends_example = fibonacci_next_ends 100 (omega arith)
