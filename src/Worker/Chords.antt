-- ===== src/Worker/Chords.antt =====
-- The callback of a group is published at most once, whichever of the group's tasks end last.
use gkit.Prelude.{
  ℕ, ◌+◌, ◌≡◌, ◌≢◌, ◌≤◌, refl, sym, ap, ◌∙◌, Bool, true, false, ◌&&◌, Bool-cases, inl, inr, Option,
  none, some, List, [], ◌∷◌, arith,
}
use gkit.Prelude.Map.{String, ◌=?◌, eq_iff}
use gkit.Worker.Signature.{Arg, Signature, append_args}
use gkit.Worker.Calls.{
  pending, Call, set_state, publish, fail_pending, trigger_completed, group_task_status, Failure,
  state_not_set, map_error, and_then, Action, ◌>>◌, Log, Answer, ok, err, is_true, Status, Env,
}
use gkit.Worker.Send.{
  bind_default_router, compensate, published, publish_or_fail, set_pending, attempted, send_task,
}
use gkit.Worker.Callbacks.{collect_results, send_chord, with_status, with_trigger, trigger_chord}
use gkit.Worker.Permitted.{ordinary, id_of, Permitted}
use gkit.Worker.Keeping.{Keeps, if-kept, send_chord-Keeps}
use gkit.Worker.Processing.{ungrouped, ordinary-ungrouped, process-Keeps, process_all}
use gkit.Worker.Runs.{calls}

abbrev pub is_trigger : String → Call → Bool
is_trigger g (trigger_completed h b) = b && (h =? g)
is_trigger g _ = false

abbrev pub is_status : String → Call → Bool
is_status g (group_task_status h) = h =? g
is_status g _ = false

-- A publication of a task with this identifier.
abbrev pub is_publish : String → Call → Bool
is_publish k (publish u) = id_of u =? k
is_publish k _ = false

-- TriggerCompleted of a group answers true at most once: only where it has not before.
abbrev pub TriggersOnce : Env → Type 0
TriggersOnce env =
    (log : Log) (g : String) → env.on_trigger log g ≡ ok true → calls (is_trigger g) log ≡ 0

-- Only the callback of the group `g` has the identifier `k`: the task and its other callbacks have
-- others, and so has the callback of another group.
abbrev pub Sole : String → String → Signature → Type 0
Sole k g s = Permitted (λ j. j ≢ k) (λ h c. id_of c ≡ k → h ≡ g) s

unfoldable pub AllSole : String → String → List Signature → Type 0
AllSole k g [] = Unit
AllSole k g (s ∷ ss) = Sole k g s × AllSole k g ss

-- The publications of `k` after `spare` more of them.
abbrev Within : ℕ → String → String → Log → Type 0
Within spare k g log =
    (calls (is_publish k) log + spare ≤ calls (is_status g) log)
    × (calls (is_status g) log ≤ calls (is_trigger g) log)
    × (calls (is_status g) log ≤ 1)

module _ (env : Env) (k g : String) where
  ungrouped-Within :
      (n : ℕ) (c : Call) (log : Log)
      → ungrouped c ≡ true
      → Within n k g log
      → Within n k g (c ∷ log)
  ungrouped-Within n (publish v) log u h = absurd (ground (arith, u))
  ungrouped-Within n (trigger_completed e b) log u h = absurd (ground (arith, u))
  ungrouped-Within n (group_task_status e) log u h = absurd (ground (arith, u))
  ungrouped-Within n _ log u h = (omega (arith, h.0), omega (arith, h.1), omega (arith, h.2))

  publish-Within :
      (n : ℕ) (u : Signature) (log : Log)
      → id_of u ≢ k
      → Within n k g log
      → Within n k g (publish u ∷ log)
  publish-Within n u log ne h = elim (Bool-cases (id_of u =? k)) [
    | inl same ↦ absurd (ne (ground (arith, eq_iff (id_of u) k, same)))
    | inr other ↦ (ground (arith, h.0, other), omega (arith, h.1), omega (arith, h.2))
  ]

  -- A publication uses up a spare one.
  publish_spends : (u : Signature) (log : Log) → Within 1 k g log → Within 0 k g (publish u ∷ log)
  publish_spends u log h = (ground (arith, h.0), omega (arith, h.1), omega (arith, h.2))

  fewer : (log : Log) → Within 1 k g log → Within 0 k g log
  fewer log h = (omega (arith, h.0), h.1, h.2)

  published_spent : (e : Option String) (u : Signature) → Keeps (Within 0 k g) (published env e u)
  unfolding published compensate
  published_spent none u log h = h
  published_spent (some e) u log h = elim (Bool-cases env.has_attempts) [
    | inl with_ ↦ rw with_ (ungrouped-Within 0 (fail_pending u) log refl h)
    | inr without ↦ rw without h
  ]

  publish_after :
      (r : Option Failure) (u : Signature) (log : Log)
      → Within 1 k g log
      → Within 0 k g (and_then (r, log) (publish_or_fail env u)).1
  unfolding publish_or_fail
  publish_after none u log h =
      published_spent (env.on_publish log u) u (publish u ∷ log) (publish_spends u log h)
  publish_after (some e) u log h = fewer log h

  attempted_spends :
      (a : Answer String) (send : Action) (log : Log)
      → Within 1 k g log
      → Within 0 k g (send log).1
      → Within 0 k g (attempted env a send log).1
  unfolding attempted
  attempted_spends (ok id) send log h after = after
  attempted_spends (err e) send log h after = fewer log h

  send_task_spends :
      (u : Signature) (log : Log) → Within 1 k g log → Within 0 k g (send_task env u log).1
  unfolding send_task set_pending
  send_task_spends u log h =
      let send = set_pending env u >> publish_or_fail env (bind_default_router env u) in
      let sent =
        publish_after (map_error (state_not_set pending) (env.on_set_state log pending u))
          (bind_default_router env u) (set_state pending u ∷ log)
          (ungrouped-Within 1 (set_state pending u) log refl h) in
      if-kept (Within 0 k g) env.has_attempts (attempted env (env.attempt_id log) send log)
        (send log) (attempted_spends (env.attempt_id log) send log h sent) sent

  send_chord_spends :
      (c : Signature) (args : Option (List Arg)) (log : Log)
      → Within 1 k g log
      → Within 0 k g (send_chord env c args log).1
  unfolding send_chord
  send_chord_spends c none log h = fewer log h
  send_chord_spends c (some args) log h = send_task_spends (append_args args c) log h

module _ (env : Env) (k g : String) (once : TriggersOnce env) where
  ordinary-Within :
      (c : Call) (log : Log) → ordinary c ≡ true → Within 0 k g log → Within 0 k g (c ∷ log)
  ordinary-Within c log q = ungrouped-Within env k g 0 c log (ordinary-ungrouped c q)

  -- The callback of another group, and that of the group.
  status_other :
      (c : Signature) (a : Answer (List Status))
      → id_of c ≢ k
      → Keeps (Within 0 k g) (with_status env c a)
  unfolding with_status
  status_other c (err e) ne log h = h
  status_other c (ok sts) ne log h =
      send_chord-Keeps (Within 0 k g) env (λ j. j ≢ k) ordinary-Within (publish-Within env k g 0) c
        (collect_results env sts) ne log h

  status_own :
      (c : Signature) (a : Answer (List Status)) (log : Log)
      → Within 1 k g log
      → Within 0 k g (with_status env c a log).1
  unfolding with_status
  status_own c (err e) log h = fewer env k g log h
  status_own c (ok sts) log h = send_chord_spends env k g c (collect_results env sts) log h

  with_trigger-Within :
      (e : String) (c : Signature) (a : Answer Bool) (log : Log)
      → (id_of c ≡ k → e ≡ g)
      → (a ≡ ok true → calls (is_trigger e) log ≡ 0)
      → Within 0 k g log
      → Within 0 k g (with_trigger env e c a (trigger_completed e (is_true a) ∷ log)).1
  unfolding with_trigger
  with_trigger-Within e c (err x) log i n h =
      (ground (arith, h.0), ground (arith, h.1), ground (arith, h.2))
  with_trigger-Within e c (ok false) log i n h =
      (ground (arith, h.0), ground (arith, h.1), ground (arith, h.2))
  with_trigger-Within e c (ok true) log i n h =
      let both = group_task_status e ∷ trigger_completed e true ∷ log in
      elim (Bool-cases (e =? g)) [
        | inl same ↦
            let is_g : e ≡ g = ground (arith, eq_iff e g, same) in
            let none_yet : calls (is_trigger g) log ≡ 0 =
              ap (λ j. calls (is_trigger j) log) (sym is_g) ∙ n refl in
            let spare : Within 1 k g both = (
              ground (arith, h.0, same),
              ground (arith, h.1, same),
              ground (arith, h.1, none_yet, same),
            ) in
            status_own c (env.on_status (trigger_completed e true ∷ log) e) both spare
        | inr other ↦
            let still : Within 0 k g both = (
              ground (arith, h.0, other),
              ground (arith, h.1, other),
              ground (arith, h.2, other),
            ) in
            let ne : id_of c ≢ k = λ q. ground (arith, eq_iff e g, i q, other) in
            status_other c (env.on_status (trigger_completed e true ∷ log) e) ne both still
      ]

  trigger_chord-Within :
      (e : String) (c : Signature)
      → (id_of c ≡ k → e ≡ g)
      → Keeps (Within 0 k g) (trigger_chord env e c)
  unfolding trigger_chord
  trigger_chord-Within e c i log h =
      with_trigger-Within e c (env.on_trigger log e) log i (once log e) h

  process_all-Within :
      (ss : List Signature) (log : Log)
      → AllSole k g ss
      → Within 0 k g log
      → Within 0 k g (process_all env ss log)
  unfolding process_all AllSole
  process_all-Within [] log v h = h
  process_all-Within (s ∷ ss) log v h = process_all-Within ss _ v.1 (
      process-Keeps env (Within 0 k g) (λ j. j ≢ k) (λ e c. id_of c ≡ k → e ≡ g)
        (ungrouped-Within env k g 0) (publish-Within env k g 0) trigger_chord-Within s v.0 log h)

-- If TriggerCompleted of a group answers true at most once, and no task that is processed and no
-- other callback has the identifier of the group's callback, then whichever tasks are processed, in
-- any order and with any answers and errors of the other calls, a task with that identifier is
-- published at most once.
pub chord_once :
    (env : Env) (k g : String) (ss : List Signature)
    → TriggersOnce env
    → AllSole k g ss
    → calls (is_publish k) (process_all env ss []) ≤ 1
chord_once env k g ss once v =
    let (few, _, one) =
      process_all-Within env k g once ss [] v (omega arith, omega arith, omega arith) in
    omega (arith, few, one)
