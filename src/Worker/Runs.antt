-- ===== src/Worker/Runs.antt =====
-- When Process runs the task's function, and its handlers with it.
use gkit.Prelude.{
  ℕ, ◌+◌, ◌≡◌, refl, ap, ◌∙◌, Bool, true, false, ◌&&◌, Option, none, some, List, [], ◌∷◌,
  if◌then◌else◌, arith,
}
use gkit.Prelude.Map.{String}
use gkit.Worker.Signature.{Signature, fields, on_error}
use gkit.Worker.Calls.{
  Outcome, received, started, Call, publish, set_state, runs, before_task, after_task,
  trigger_completed, group_task_status, Failure, state_not_set, map_error, and_then, ◌>>◌,
  return_nil, Log, Answer, ok, err, is_true, Status, Env,
}
use gkit.Worker.Callbacks.{collect_results, with_status, with_trigger, trigger_chord}
use gkit.Worker.Process.{set_task_state, handler_failed, conclude, run_task, start_task, process}
use gkit.Worker.Permitted.{ordinary, id_of, Free, FreeGroup, All-Free, Free-Permitted}
use gkit.Worker.Keeping.{Keeps, send_chord-Keeps, handler_failed-Keeps, conclude-Keeps}

-- How many calls of a log pass a test.
abbrev pub calls : (Call → Bool) → Log → ℕ
calls p [] = 0
calls p (c ∷ log) = (if p c then 1 else 0) + calls p log

-- The calls of the task's function and of the two handlers around it.
abbrev pub own : Call → Bool
own (runs s) = true
own (before_task s) = true
own (after_task s) = true
own _ = false

abbrev pub is_run : Call → Bool
is_run (runs s) = true
is_run _ = false

abbrev pub is_before : Call → Bool
is_before (before_task s) = true
is_before _ = false

abbrev pub is_after : Call → Bool
is_after (after_task s) = true
is_after _ = false

none_of : Option String → Bool
none_of none = true
none_of (some e) = false

abbrev fine : Option Failure → Bool
fine none = true
fine (some e) = false

fine-map_error : (wrap : String → Failure) (r : Option String) → fine (map_error wrap r) ≡ none_of r
unfolding none_of
fine-map_error wrap none = refl
fine-map_error wrap (some e) = refl

-- Whether the task is registered, both its states are set, and its arguments fit its function.
unfoldable pub starts : Env → Signature → Log → Bool
unfolding none_of
starts env s log =
    env.registered (fields s).name
    && (none_of (env.on_set_state log received s)
        && (none_of (env.new_task s)
            && none_of (env.on_set_state (set_state received s ∷ log) started s)))

ordinary_not_own : (c : Call) → ordinary c ≡ true → own c ≡ false
ordinary_not_own (runs s) h = absurd (ground (arith, h))
ordinary_not_own (before_task s) h = absurd (ground (arith, h))
ordinary_not_own (after_task s) h = absurd (ground (arith, h))
ordinary_not_own _ h = refl

-- A test of the task's own calls alone.
abbrev IsOwn : (Call → Bool) → Type 0
IsOwn p = (c : Call) → own c ≡ false → p c ≡ false

abbrev Counts : (Call → Bool) → ℕ → Log → Type 0
Counts p n log = calls p log ≡ n

skip :
    (p : Call → Bool) (n : ℕ) (c : Call) (log : Log)
    → p c ≡ false
    → Counts p n log
    → Counts p n (c ∷ log)
skip p n c log e h = ground (arith, e, h)

module _ (env : Env) (p : Call → Bool) (o : IsOwn p) where
  ordinary_skip :
      (n : ℕ) (d : Call) (l : Log) → ordinary d ≡ true → Counts p n l → Counts p n (d ∷ l)
  ordinary_skip n d l q = skip p n d l (o d (ordinary_not_own d q))

  publish_skip :
      (n : ℕ) (u : Signature) (l : Log) → Free (id_of u) → Counts p n l → Counts p n (publish u ∷ l)
  publish_skip n u l q = skip p n (publish u) l (o (publish u) refl)

  with_status-Counts :
      (n : ℕ) (c : Signature) (a : Answer (List Status)) → Keeps (Counts p n) (with_status env c a)
  unfolding with_status
  with_status-Counts n c (err e) log h = h
  with_status-Counts n c (ok sts) log h =
      send_chord-Keeps (Counts p n) env Free (ordinary_skip n) (publish_skip n) c
        (collect_results env sts) tt log h

  with_trigger-Counts :
      (n : ℕ) (g : String) (c : Signature) (a : Answer Bool)
      → Keeps (Counts p n) (with_trigger env g c a)
  unfolding with_trigger
  with_trigger-Counts n g c (err e) log h = h
  with_trigger-Counts n g c (ok false) log h = h
  with_trigger-Counts n g c (ok true) log h =
      with_status-Counts n c (env.on_status log g) (group_task_status g ∷ log)
        (skip p n (group_task_status g) log (o (group_task_status g) refl) h)

  trigger_chord-Counts :
      (n : ℕ) (g : String) (c : Signature) → Keeps (Counts p n) (trigger_chord env g c)
  unfolding trigger_chord
  trigger_chord-Counts n g c log h =
      let call = trigger_completed g (is_true (env.on_trigger log g)) in
      with_trigger-Counts n g c (env.on_trigger log g) (call ∷ log)
        (skip p n call log (o call refl) h)

  conclude-Counts :
      (s : Signature) (r : Outcome) (log : Log) → calls p (conclude env s r log).1 ≡ calls p log
  conclude-Counts s r log =
      conclude-Keeps (Counts p (calls p log)) env Free (ordinary_skip (calls p log))
        (publish_skip (calls p log)) FreeGroup (λ g c _. trigger_chord-Counts (calls p log) g c) s r
        (Free-Permitted s) log refl

  handler_failed-Counts :
      (s : Signature) (e : String) (log : Log)
      → calls p (handler_failed env s e log).1 ≡ calls p log
  handler_failed-Counts s e log =
      handler_failed-Keeps (Counts p (calls p log)) env Free (ordinary_skip (calls p log))
        (publish_skip (calls p log)) s e (All-Free (on_error s)) log refl

  -- What one start of the task adds.
  abbrev ran : Signature → ℕ
  ran s =
      (if env.has_before && p (before_task s) then 1 else 0)
      + (if p (runs s) then 1 else 0)
      + (if env.has_after && p (after_task s) then 1 else 0)

  run_task-Counts :
      (s : Signature) (log : Log) → calls p (run_task env s log).1 ≡ calls p log + ran s
  unfolding run_task
  run_task-Counts s log =
      let log' = if env.has_before then before_task s ∷ log else log in
      let after = conclude-Counts s (env.on_call log' s) (runs s ∷ log') in ground (arith, after)

  after_started :
      (s : Signature) (r : Option Failure) (log : Log)
      → calls p (and_then (r, set_state started s ∷ log) (run_task env s)).1
        ≡ calls p log + (if fine r then ran s else 0)
  after_started s none log =
      let quiet =
        skip p (calls p log) (set_state started s) log (o (set_state started s) refl) refl in
      omega (arith, run_task-Counts s (set_state started s ∷ log), quiet)
  after_started s (some e) log =
      omega
        (arith, skip p (calls p log) (set_state started s) log (o (set_state started s) refl) refl)

  start_task-Counts :
      (s : Signature) (t : Option String) (log : Log)
      → calls p (start_task env s t log).1
        ≡ calls p log + (if none_of t && none_of (env.on_set_state log started s) then ran s else 0)
  unfolding start_task set_task_state none_of
  start_task-Counts s none log =
      after_started s (map_error (state_not_set started) (env.on_set_state log started s)) log
      ∙ ap (λ b. calls p log + (if b then ran s else 0))
          (fine-map_error (state_not_set started) (env.on_set_state log started s))
  start_task-Counts s (some e) log = omega (arith, handler_failed-Counts s e log)

  after_received :
      (s : Signature) (r : Option Failure) (log : Log)
      → calls p (and_then (r, set_state received s ∷ log) (start_task env s (env.new_task s))).1
        ≡ calls p log
          + (if fine r
                && (none_of (env.new_task s)
                    && none_of (env.on_set_state (set_state received s ∷ log) started s))
              then ran s
              else 0)
  after_received s none log =
      let quiet =
        skip p (calls p log) (set_state received s) log (o (set_state received s) refl) refl in
      omega (arith, start_task-Counts s (env.new_task s) (set_state received s ∷ log), quiet)
  after_received s (some e) log =
      omega (
        arith,
        skip p (calls p log) (set_state received s) log (o (set_state received s) refl) refl,
      )

  known_or_not :
      (b : Bool) (s : Signature) (log : Log)
      → calls p
          ((if b
              then set_task_state env received s >> start_task env s (env.new_task s)
              else return_nil)
            log).1
        ≡ calls p log
          + (if b
                && (none_of (env.on_set_state log received s)
                    && (none_of (env.new_task s)
                        && none_of (env.on_set_state (set_state received s ∷ log) started s)))
              then ran s
              else 0)
  unfolding set_task_state
  known_or_not true s log =
      let answer = env.on_set_state log received s in
      let after = after_received s (map_error (state_not_set received) answer) log in
      rw (fine-map_error (state_not_set received) answer) at after
  known_or_not false s log = omega arith

  process-Counts :
      (s : Signature) (log : Log)
      → calls p (process env s log).1 ≡ calls p log + (if starts env s log then ran s else 0)
  unfolding process starts
  process-Counts s log = known_or_not (env.registered (fields s).name) s log

is_run-IsOwn : IsOwn is_run
is_run-IsOwn (runs s) h = absurd (ground (arith, h))
is_run-IsOwn _ h = refl

is_before-IsOwn : IsOwn is_before
is_before-IsOwn (before_task s) h = absurd (ground (arith, h))
is_before-IsOwn _ h = refl

is_after-IsOwn : IsOwn is_after
is_after-IsOwn (after_task s) h = absurd (ground (arith, h))
is_after-IsOwn _ h = refl

-- Process calls the task's function once if the task is registered, its states received and started
-- are set and its arguments fit, and else never; and the handlers before and after it, where there
-- are such, just as often. Nothing that follows the call, on any branch, makes one more.
pub process_runs :
    (env : Env) (s : Signature) (log : Log)
    → let log' = (process env s log).1 in
      let more : ℕ = if starts env s log then 1 else 0 in
      (calls is_run log' ≡ calls is_run log + more)
      × (calls is_before log' ≡ calls is_before log + (if env.has_before then more else 0))
      × (calls is_after log' ≡ calls is_after log + (if env.has_after then more else 0))
process_runs env s log =
    let run = process-Counts env is_run is_run-IsOwn s log in
    let before = process-Counts env is_before is_before-IsOwn s log in
    let after = process-Counts env is_after is_after-IsOwn s log in
    (ground (arith, run), ground (arith, before), ground (arith, after))
