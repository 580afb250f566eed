-- ===== src/Group/Steps.antt =====
-- Goroutines on one lazy group: the sections of container/group that write.
use gkit.Prelude.{ℕ, ◌+◌, ◌≡◌, some}
use gkit.Prelude.Map.{String}
use gkit.Group.{Group, get_create, reset, clear}

-- A group with how often it has been emptied, and how many objects had been made when it last was.
pub record World : Type 0 where
  pub group : Group
  pub epoch : ℕ
  pub base : ℕ

pub data Step : World → World → Type 0 where
  gets : (k : String) (w : World) → Step w (record w { group = (get_create k w.group).0 })
  resets :
      (f : ℕ) (g : Group) (w : World)
      → reset (some f) w.group ≡ some g
      → Step w (record { group = g; epoch = w.epoch + 1; base = w.group.made })
  clears :
      (w : World)
      → Step w (record { group = clear w.group; epoch = w.epoch + 1; base = w.group.made })

pub data Reach (w : World) : World → Type 0 where
  here : Reach w w
  go : {u v : World} → Reach w u → Step u v → Reach w v
