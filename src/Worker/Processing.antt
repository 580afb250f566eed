-- ===== src/Worker/Processing.antt =====
-- What Process keeps of the calls that have been made, and tasks that are processed one after another.
use gkit.Prelude.{◌≡◌, refl, Bool, true, false, Option, none, some, List, [], ◌∷◌, if◌then◌else◌}
use gkit.Prelude.Map.{String}
use gkit.Worker.Signature.{Signature, fields}
use gkit.Worker.Calls.{
  received, started, Call, publish, runs, before_task, after_task, trigger_completed,
  group_task_status, ◌>>◌, return_nil, Log, Env,
}
use gkit.Worker.Callbacks.{trigger_chord}
use gkit.Worker.Process.{set_task_state, run_task, start_task, process}
use gkit.Worker.Permitted.{ordinary, id_of, Permitted}
use gkit.Worker.Keeping.{
  Keeps, chain-Keeps, if-Keeps, set_task_state-Keeps, handler_failed-Keeps, conclude-Keeps,
}

-- The calls that are neither publications nor of a group's end.
abbrev pub ungrouped : Call → Bool
ungrouped (publish u) = false
ungrouped (trigger_completed g b) = false
ungrouped (group_task_status g) = false
ungrouped _ = true

pub ordinary-ungrouped : (c : Call) → ordinary c ≡ true → ungrouped c ≡ true
ordinary-ungrouped (publish u) h = h
ordinary-ungrouped (trigger_completed g b) h = h
ordinary-ungrouped (group_task_status g) h = h
ordinary-ungrouped _ h = refl

module _ (env : Env) (I : Log → Type 0) (Ok : String → Type 0) (In : String → Signature → Type 0)
    (closed : (c : Call) (log : Log) → ungrouped c ≡ true → I log → I (c ∷ log))
    (publishes : (u : Signature) (log : Log) → Ok (id_of u) → I log → I (publish u ∷ log))
    (grouped : (g : String) (c : Signature) → In g c → Keeps I (trigger_chord env g c)) where
  closed' : (c : Call) (log : Log) → ordinary c ≡ true → I log → I (c ∷ log)
  closed' c log p h = closed c log (ordinary-ungrouped c p) h

  after-keeps :
      (b : Bool) (c : Call) (log : Log)
      → ungrouped c ≡ true
      → I log
      → I (if b then c ∷ log else log)
  after-keeps true c log u h = closed c log u h
  after-keeps false c log u h = h

  run_task-Keeps : (s : Signature) → Permitted Ok In s → Keeps I (run_task env s)
  unfolding run_task
  run_task-Keeps s v log h =
      let log' = if env.has_before then before_task s ∷ log else log in
      let began = after-keeps env.has_before (before_task s) log refl h in
      let ran = closed (runs s) log' refl began in
      after-keeps env.has_after (after_task s) _ refl (
        conclude-Keeps I env Ok closed' publishes In grouped s (env.on_call log' s) v
          (runs s ∷ log') ran)

  start_task-Keeps :
      (s : Signature) (t : Option String) → Permitted Ok In s → Keeps I (start_task env s t)
  unfolding start_task
  start_task-Keeps s none v log h =
      chain-Keeps I (set_task_state env started s) (run_task env s)
        (set_task_state-Keeps I env Ok closed' publishes started s) (run_task-Keeps s v) log h
  start_task-Keeps s (some e) v log h =
      handler_failed-Keeps I env Ok closed' publishes s e v.errors log h

  pub process-Keeps : (s : Signature) → Permitted Ok In s → Keeps I (process env s)
  unfolding process
  process-Keeps s v log h =
      let start = start_task env s (env.new_task s) in
      if-Keeps I (env.registered (fields s).name) (set_task_state env received s >> start)
        return_nil
        (chain-Keeps I (set_task_state env received s) start
          (set_task_state-Keeps I env Ok closed' publishes received s)
          (start_task-Keeps s (env.new_task s) v))
        (λ l i. i) log h

-- Tasks that are processed one after another, by any workers.
unfoldable pub process_all : Env → List Signature → Log → Log
unfolding process
process_all env [] log = log
process_all env (s ∷ ss) log = process_all env ss (process env s log).1
