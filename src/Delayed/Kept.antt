-- ===== src/Delayed/Kept.antt =====
-- No task is lost or handed on twice, and none too early, whatever the goroutines do.
use gkit.Prelude.{
  ℕ, ◌+◌, ◌≡◌, ◌≤◌, refl, sym, ap, subst, Bool, false, Bool-cases, inl, inr, Option, some, List, [],
  ◌∷◌, length, if◌then◌else◌, arith,
}
use mathlib.Core.Option.{some-injective}
use gkit.Delayed.{Task, Dispatcher, add_locked, pop_if_ready, close, clear}
use gkit.Delayed.Slots.{one, count, count-append}
use gkit.Delayed.Queue.{IsValid, add_locked-IsValid, add_locked-count}
use gkit.Delayed.Clients.{add_locked_shut}
use gkit.Delayed.Drain.{Popped, idle, ready, pop_if_ready-Popped}
use gkit.Delayed.Steps.{World, start, Step, adds, closes, pops, ends, Reach, here, go}

abbrev pub tasks_of : List (ℕ × Task) → List Task
tasks_of [] = []
tasks_of ((now, t) ∷ hs) = t ∷ tasks_of hs

-- Each task was handed on at its time or later.
abbrev pub IsDue : List (ℕ × Task) → Type 0
IsDue [] = Unit
IsDue ((now, t) ∷ hs) = (t.exec_time ≤ now) × IsDue hs

pub record IsKept (w : World) : Type 0 where
  pub valid : IsValid w.disp.delays
  pub all_there :
      (p : Task → Bool)
      → count p w.accepted ≡ count p w.disp.delays + count p (tasks_of w.handed) + count p w.dropped
  pub due : IsDue w.handed
  -- After the sentinel's end the dispatcher is closed and empty.
  pub shut : (if w.ended then (if w.disp.is_close then length w.disp.delays else 1) else 0) ≡ 0

start-IsKept : IsKept start
start-IsKept = record {
  valid = record { heap = λ c p q. absurd (omega (arith, q)); timed = refl };
  all_there = λ p. refl;
  due = tt;
  shut = refl;
}

add_locked-closed : (t : Task) (d : Dispatcher) → (add_locked t d).is_close ≡ d.is_close
unfolding add_locked
add_locked-closed t d = ground arith

Popped-IsKept :
    (now : ℕ) (t : Task) (w : World) (r : Dispatcher × Option Task)
    → Popped now w.disp r
    → r.1 ≡ some t
    → w.ended ≡ false
    → IsKept w
    → IsKept (record w { disp = r.0; handed = (now, t) ∷ w.handed })
Popped-IsKept now t w r (idle _) e open_ v = absurd (ground (arith, e))
Popped-IsKept now t w r (ready rest s ok due same len kept least) e open_ v =
    let that = some-injective s t e in
    record {
      valid = ok;
      all_there = λ p. omega (arith, v.all_there p, kept p, ap (one p) that);
      due = (omega (arith, due, ap Task.exec_time that), v.due);
      shut = rw open_ refl;
    }

Step-IsKept : {w v : World} → Step w v → IsKept w → IsKept v
unfolding close clear
Step-IsKept (adds t w h) v = elim (Bool-cases w.disp.is_close) [
  | inl shut ↦
      let same = add_locked_shut t w.disp shut in
      subst
        (λ d. IsKept (record w {
          disp = d;
          accepted = if w.disp.is_close then w.accepted else t ∷ w.accepted;
        }))
        (sym same)
        (record {
          valid = v.valid;
          all_there = λ p. rw shut (v.all_there p);
          due = v.due;
          shut = v.shut;
        })
  | inr open_ ↦ record {
    valid = add_locked-IsValid t w.disp h v.valid;
    all_there = λ p.
        let more = add_locked-count p t w.disp in
        rw open_ (omega (arith, v.all_there p, rw open_ at more));
    due = v.due;
    shut = ground (arith, v.shut, open_);
  }
]
Step-IsKept (closes w) v = record {
  valid = ground (arith, v.valid);
  all_there = λ p. ground (arith, v.all_there p);
  due = v.due;
  shut = ground (arith, v.shut);
}
Step-IsKept (pops now t w open_ e) v =
    Popped-IsKept now t w (pop_if_ready now w.disp) (pop_if_ready-Popped now w.disp v.valid) e open_
      v
Step-IsKept (ends w open_ shut) v = record {
  valid = start-IsKept.valid;
  all_there = λ p. omega (arith, v.all_there p, count-append p w.disp.delays w.dropped);
  due = v.due;
  shut = rw shut refl;
}

-- Whatever the clients and the sentinel of a new dispatcher do, in any order, each task that was
-- accepted is waiting, was handed on, or was dropped at the end, and just one of these; none was
-- handed on before its time; the waiting tasks are a valid heap; and once the sentinel has ended
-- the dispatcher is closed and no task waits in it again.
pub reachable-IsKept : (w : World) → Reach start w → IsKept w
reachable-IsKept w here = start-IsKept
reachable-IsKept w (go r h) = Step-IsKept h (reachable-IsKept _ r)
