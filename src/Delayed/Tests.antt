-- ===== src/Delayed/Tests.antt =====
-- Runs of the delayed tasks.
use gkit.Prelude.{ℕ, zero, suc, ◌+◌, ◌≡◌, refl, Bool, false, none, some, List, [], ◌∷◌, arith}
use gkit.Delayed.{
  Task, Dispatcher, repeat_shutdown, up_loop, siftup, earlier, least_child, down_loop, siftdown,
  add_locked, add_delayed, cut, cut_top, del_delayed, del_delayed_top, get_top_delayed,
  pop_if_ready, drain_loop, drain, close, Client, adds, closes, act, act_all,
}
use gkit.Delayed.Slots.{one, count}
use gkit.Delayed.Order.{IsHeap}
use gkit.Delayed.Queue.{IsValid}
use gkit.Delayed.Removing.{del_delayed_lem}
use gkit.Delayed.Drain.{Drained, drain-Drained}
use gkit.Delayed.Steps.{World, start, Step, pops, here, go}
use gkit.Delayed.Kept.{IsKept, reachable-IsKept}

abbrev at : ℕ → ℕ → Task
at time id = record { exec_time = time; id = id }

abbrev fresh : Dispatcher
fresh = record { delays = []; is_close = false }

unfoldable six : Dispatcher
unfolding add_delayed add_locked siftup up_loop
six = add_delayed (at 2 6) (
    add_delayed (at 9 5) (
      add_delayed (at 4 4)
        (add_delayed (at 7 3) (add_delayed (at 5 2) (add_delayed (at 8 1) fresh)))))

in_heap : six.delays ≡ at 2 6 ∷ at 4 4 ∷ at 7 3 ∷ at 5 2 ∷ at 9 5 ∷ at 8 1 ∷ []
unfolding six add_delayed add_locked siftup up_loop
in_heap = refl

drained : (drain 7 [] six).1 ≡ (at 2 6, []) ∷ (at 4 4, []) ∷ (at 5 2, []) ∷ (at 7 3, []) ∷ []
unfolding six add_delayed add_locked siftup up_loop drain drain_loop pop_if_ready act_all cut_top
    cut siftdown down_loop least_child earlier
drained = refl

nothing_due : (drain 1 [] six).1 ≡ []
unfolding six add_delayed add_locked siftup up_loop drain drain_loop pop_if_ready act_all cut_top
    cut siftdown down_loop least_child earlier
nothing_due = refl

-- A task that comes in during the first pass is handed on late, one after the close is not taken.
late :
    (drain 4 ((adds (at 1 9) ∷ closes ∷ adds (at 1 8) ∷ []) ∷ []) six).1
    ≡ (at 2 6, at 1 9 ∷ []) ∷ (at 1 9, []) ∷ (at 4 4, []) ∷ []
unfolding six add_delayed add_locked siftup up_loop drain drain_loop pop_if_ready act_all act close
    cut_top cut siftdown down_loop least_child earlier
late = refl

top_out : (del_delayed_top six).1 ≡ some (at 2 6)
unfolding six add_delayed add_locked siftup up_loop del_delayed_top cut_top cut siftdown down_loop
    least_child earlier
top_out = refl

top_seen : get_top_delayed six ≡ some (at 2 6)
unfolding six add_delayed add_locked siftup up_loop get_top_delayed
top_seen = refl

out_of_range : (del_delayed 10 six).1 ≡ none
unfolding six add_delayed add_locked siftup up_loop del_delayed
out_of_range = refl

no_time : add_delayed (at 0 1) fresh ≡ fresh
unfolding add_delayed
no_time = refl

refused_after_close : (add_delayed (at 3 1) (close fresh).0).delays ≡ []
unfolding add_delayed close
refused_after_close = refl

closed_once : (close (close fresh).0).1 ≡ some repeat_shutdown
unfolding close
closed_once = refl

-- A valid heap of three.
abbrev three : Dispatcher
three = record { delays = at 3 1 ∷ at 6 2 ∷ at 4 3 ∷ []; is_close = false }

three-IsHeap : IsHeap three.delays
three-IsHeap zero p q = absurd (omega (arith, p))
three-IsHeap (suc zero) p q = omega arith
three-IsHeap (suc (suc zero)) p q = omega arith
three-IsHeap (suc (suc (suc c))) p q = absurd (omega (arith, q))

three-IsValid : IsValid three.delays
three-IsValid = record { heap = three-IsHeap; timed = refl }

del_delayed_lem_example :
    ((del_delayed 1 three).1 ≡ some (at 6 2))
    × IsValid (del_delayed 1 three).0.delays
    × ((p : Task → Bool)
        → count p (del_delayed 1 three).0.delays + one p (at 6 2) ≡ count p three.delays)
del_delayed_lem_example = del_delayed_lem 1 three three-IsValid (omega arith)

abbrev busy : List (List Client)
busy = (adds (at 1 9) ∷ closes ∷ []) ∷ []

drain-Drained_example : Drained 4 three.delays (drain 4 busy three).0.delays (drain 4 busy three).1
drain-Drained_example = drain-Drained 4 busy three three-IsValid

abbrev one_in : World
one_in = record start { disp = add_locked (at 3 1) start.disp; accepted = at 3 1 ∷ [] }

abbrev one_out : World
one_out = record one_in { disp = (pop_if_ready 5 one_in.disp).0; handed = (5, at 3 1) ∷ [] }

popped : (pop_if_ready 5 one_in.disp).1 ≡ some (at 3 1)
unfolding pop_if_ready add_locked siftup up_loop
popped = refl

reachable-IsKept_example : IsKept one_out
reachable-IsKept_example =
    reachable-IsKept one_out
      (go (go here (Step.adds (at 3 1) start (omega arith))) (pops 5 (at 3 1) one_in refl popped))
