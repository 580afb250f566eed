-- ===== src/Delayed/Steps.antt =====
-- The goroutines of one dispatcher: clients that add tasks and close it, and the sentinel.
use gkit.Prelude.{ℕ, ◌≡◌, ◌<◌, Bool, true, false, some, List, [], ◌∷◌, ◌++◌, if◌then◌else◌}
use gkit.Delayed.{Task, Dispatcher, add_locked, pop_if_ready, close, clear}

-- The dispatcher with the tasks that it accepted, those that the sentinel handed on with the time of
-- the tick, those that it dropped, and whether it has ended.
pub record World : Type 0 where
  pub disp : Dispatcher
  pub accepted : List Task
  pub handed : List (ℕ × Task)
  pub dropped : List Task
  pub ended : Bool

abbrev pub start : World
start = record {
  disp = record { delays = []; is_close = false };
  accepted = [];
  handed = [];
  dropped = [];
  ended = false;
}

pub data Step : World → World → Type 0 where
  -- AddDelayed, which has seen a time above 0 and may have seen the dispatcher open before.
  adds :
      (t : Task) (w : World)
      → 0 < t.exec_time
      → Step w (record w {
        disp = add_locked t w.disp;
        accepted = if w.disp.is_close then w.accepted else t ∷ w.accepted;
      })
  closes : (w : World) → Step w (record w { disp = (close w.disp).0 })
  pops :
      (now : ℕ) (t : Task) (w : World)
      → w.ended ≡ false
      → (pop_if_ready now w.disp).1 ≡ some t
      → Step w (record w { disp = (pop_if_ready now w.disp).0; handed = (now, t) ∷ w.handed })
  ends :
      (w : World)
      → w.ended ≡ false
      → w.disp.is_close ≡ true
      → Step w
          (record w { disp = clear w.disp; dropped = w.disp.delays ++ w.dropped; ended = true })

pub data Reach (w : World) : World → Type 0 where
  here : Reach w w
  go : {u v : World} → Reach w u → Step u v → Reach w v
