-- ===== src/Generator/Tests.antt =====
-- Runs of the generator and its theorems at concrete inputs.
use gkit.Prelude.{ℕ, ◌≡◌, ◌≢◌, refl, some, true, false, List, [], ◌∷◌, arith}
use gkit.Prelude.Int.{pos, ◌-ℤ◌}
use gkit.Generator.{
  Snowflake, IsValid, StartTime, to_id, decompose, next_id, new_snowflake, fresh, default_start,
  current_elapsed_time, to_snowflake_time, local_ip_to_uint16,
}
use gkit.Generator.Ids.{packed, decompose-to_id}
use gkit.Generator.Order.{issue, AscendsFrom, issue_ascends, to_id_disjoint, new_snowflake-IsValid}

abbrev start : Snowflake
start = fresh (pos 100) 7

-- The clock stands still, and then goes back.
abbrev calls : List (ℕ × ℕ)
calls = (2_000_000_000, 0) ∷ (2_000_000_000, 0) ∷ (1_500_000_000, 0) ∷ []

issued : issue calls start ≡ 1677721607 ∷ 1677787143 ∷ 1677852679 ∷ []
unfolding issue next_id to_id current_elapsed_time to_snowflake_time ◌-ℤ◌
issued = refl

start-IsValid : IsValid start
start-IsValid = omega arith

issue_ascends_example : AscendsFrom (packed start) (issue calls start)
issue_ascends_example = issue_ascends calls start start-IsValid

abbrev mid : Snowflake
mid = record start { elapsed_time = 100; sequence = 2 }

decompose-to_id_example :
    decompose 1677852679 ≡ record { id = 1677852679; msb = 0; time = 100; sequence = 2; node = 7 }
unfolding to_id
decompose-to_id_example = decompose-to_id mid 1677852679 (omega arith) refl

to_id_disjoint_example : ◌≢◌ {A = ℕ} 1677852679 1677852680
unfolding to_id
to_id_disjoint_example =
    to_id_disjoint mid (record mid { node = 8 }) 1677852679 1677852680 (omega arith) (omega arith)
      (omega arith) refl refl

abbrev used_up : Snowflake
used_up = record start { elapsed_time = 100; sequence = 255 }

new_snowflake-IsValid_example : IsValid (fresh default_start 7)
unfolding new_snowflake
new_snowflake-IsValid_example =
    new_snowflake-IsValid StartTime.zero_time 7 0 (fresh default_start 7) (omega arith) refl

node_of_host :
    local_ip_to_uint16 (
      record {
        is_net = true;
        is_loopback = true;
        to4 = some (record { a = 127; b = 0; c = 0; d = 1 });
      }
      ∷ record {
        is_net = true;
        is_loopback = false;
        to4 = some (record { a = 172; b = 20; c = 3; d = 4 });
      }
      ∷ [])
    ≡ some 772
unfolding local_ip_to_uint16
node_of_host = refl
