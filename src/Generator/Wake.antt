-- ===== src/Generator/Wake.antt =====
-- How long NextID sleeps when a unit's sequence numbers are used up.
use gkit.Prelude.{ℕ, ◌+◌, ◌*◌, ◌/◌, ◌%◌, ◌≡◌, ◌≤◌, ap, some, arith}
use gkit.Prelude.Int.{
  int_laws, -ℤ_parts, pos_part, neg_part, ℤ, pos, negsuc, ◌-ℤ◌, ◌+ℤ◌, ◌*ℤ◌, ◌≤ℤ◌,
}
use gkit.Generator.{
  Snowflake, advance, choose, to_snowflake_time, current_elapsed_time, sleep_time, time_unit,
}

sleep_time_parts :
    (o : ℤ) (n : ℕ)
    → pos_part (sleep_time o n) + neg_part o * time_unit + n % time_unit
      ≡ neg_part (sleep_time o n) + pos_part o * time_unit
unfolding sleep_time ◌-ℤ◌ ◌*ℤ◌
sleep_time_parts (pos a) n = ground arith
sleep_time_parts (negsuc a) n = ground arith

choose_sleeps :
    (current : ℤ) (now : ℕ) (s : Snowflake) (d : ℤ)
    → (choose current now s).1 ≡ some d
    → (d ≡ sleep_time (pos (s.elapsed_time + 1) -ℤ current) now)
      × ((choose current now s).0.elapsed_time ≡ s.elapsed_time + 1)
unfolding choose
choose_sleeps (pos n) now s d e = ground arith
choose_sleeps (negsuc n) now s d e = ground arith

current_parts :
    (start : ℤ) (t : ℕ)
    → pos_part (current_elapsed_time start t) + pos_part start
      ≡ neg_part (current_elapsed_time start t) + neg_part start + t / time_unit
unfolding current_elapsed_time to_snowflake_time
current_parts start t = omega (int_laws, -ℤ_parts (pos (t / time_unit)) start)

-- When NextID sleeps, it sleeps until the unit of time of the identifier that it returns: after
-- the sleep, at the time `u`, the clock is at the very start of that unit or, if it moved on
-- between NextID's two readings, past it.
pub sleep_reaches :
    (now now' u : ℕ) (s : Snowflake) (d : ℤ)
    → now ≤ now'
    → (advance now now' s).1 ≡ some d
    → pos u ≡ pos now' +ℤ d
    → (pos (advance now now' s).0.elapsed_time ≤ℤ current_elapsed_time s.start_time u)
unfolding advance
sleep_reaches now now' u s d h e f =
    let current = current_elapsed_time s.start_time now in
    let o = pos (s.elapsed_time + 1) -ℤ current in
    let (eq, moved) = choose_sleeps current now' s d e in
    let woken : u + neg_part (sleep_time o now') ≡ now' + pos_part (sleep_time o now') =
      rw (← eq) (omega (int_laws, ap pos_part f, ap neg_part f)) in
    rw moved (
      omega (
        arith,
        woken,
        -ℤ_parts (pos (s.elapsed_time + 1)) current,
        sleep_time_parts o now',
        current_parts s.start_time now,
        current_parts s.start_time u,
      ))
