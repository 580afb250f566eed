-- ===== src/Worker/Tests.antt =====
-- Runs of the worker.
use gkit.Prelude.{
  ℕ, ◌≢◌, sym, subst, ◌∙◌, ◌+◌, ◌≡◌, ◌≤◌, refl, ap, true, false, none, some, [], ◌∷◌, ◌==◌,
  if◌then◌else◌, arith,
}
use gkit.Prelude.Int.{pos, ◌+ℤ◌, ◌-ℤ◌}
use gkit.Retry.{next_loop, fibonacci_next}
use gkit.Prelude.Map.{String, eq_iff}
use gkit.Worker.Signature.{
  on_success, on_error, fields, other, Arg, string, float, metadata_bool, metadata_int, Fields,
  Signature, signature, nil, no_chord, chord, append_args,
}
use gkit.Worker.Calls.{
  pending, received, started, retry, success, failure, set_state, runs, after_task, publish,
  group_completed, trigger_completed, group_task_status, reports, ok, is_true, done, failed_with,
  Env, state_not_set,
}
use gkit.Worker.Send.{bind_default_router, published, publish_or_fail, set_pending, send_task}
use gkit.Worker.Durable.{record_meta, record_durable_terminal}
use gkit.Worker.Callbacks.{
  send_all, collect_results, send_chord, with_status, with_trigger, trigger_chord, with_completed,
  finish_group, call_success, call_error,
}
use gkit.Worker.Process.{
  next_retry_delay, set_task_state, stop_or_end, handler_succeeded, handler_failed, send_retry,
  handler_retry, conclude, run_task, start_task, process,
}
use gkit.Worker.Processing.{process_all}
use gkit.Worker.Runs.{calls, is_run, is_before, is_after, starts, process_runs}
use gkit.Worker.Permitted.{All, id_of}
use gkit.Worker.Chords.{is_trigger, is_publish, Sole, AllSole, TriggersOnce, chord_once}
use gkit.Worker.Delay.{NextDelay, next_retry_delay_lem}

abbrev four : Arg
four = record { kind = "int"; value = other 4 }

-- Every call succeeds; the group is complete, and its trigger answers true the first time.
abbrev easy : Env
easy = record {
  registered = λ n. true;
  new_task = λ s. none;
  has_before = false;
  has_after = true;
  on_set_state = λ log st s. none;
  on_call = λ log s. done (four ∷ []);
  now = λ log. pos 1000;
  has_attempts = false;
  attempt_id = λ log. ok "a";
  on_publish = λ log s. none;
  consume_queue = "queue";
  durable = true;
  on_member = λ log k n i o rs. none;
  on_callback = λ log k o. none;
  on_completed = λ log g. ok true;
  on_trigger = λ log g. ok (calls (is_trigger g) log == 0);
  on_status = λ log g. ok (record { is_success = true; results = four ∷ [] } ∷ []);
}

abbrev usual_fields : Fields
usual_fields = record {
  id = "t";
  name = "add";
  group_id = "g";
  retry_count = pos 1;
  retry_interval = pos 60;
  stop_task_deletion_on_error = false;
  router = "r";
  args = [];
  meta = none;
  eta = none;
}

abbrev callback : Signature
callback = signature (record usual_fields { id = "c" }) nil nil no_chord

abbrev task : Signature
task = signature usual_fields nil nil (chord callback)

abbrev sent : Signature
sent = append_args (four ∷ []) callback

successful : process easy task [] ≡ (
  none,
  after_task task
      ∷ publish sent
      ∷ set_state pending sent
      ∷ group_task_status "g"
      ∷ trigger_completed "g" true
      ∷ group_completed "g"
      ∷ set_state success task
      ∷ runs task
      ∷ set_state started task
      ∷ set_state received task
      ∷ [],
)
unfolding process set_task_state start_task run_task conclude handler_succeeded
    record_durable_terminal record_meta call_success send_all finish_group with_completed
    trigger_chord with_trigger with_status collect_results send_chord send_task set_pending
    publish_or_fail published bind_default_router
successful = refl

-- The function fails.
abbrev failing : Env
failing = record easy { on_call = λ log s. failed_with "no" }

abbrev again : Signature
again =
    signature
      (record usual_fields {
        retry_count = pos 0;
        retry_interval = pos 89;
        eta = some (pos 89000001000);
      })
      nil nil (chord callback)

retried_once :
    (process failing task []).1
    ≡ after_task task
      ∷ publish again
      ∷ set_state pending again
      ∷ set_state retry task
      ∷ runs task
      ∷ set_state started task
      ∷ set_state received task
      ∷ []
unfolding process set_task_state start_task run_task conclude handler_retry send_retry
    next_retry_delay fibonacci_next next_loop send_task set_pending publish_or_fail published
    bind_default_router ◌+ℤ◌ ◌-ℤ◌
retried_once = refl

given_up :
    (process failing again []).1
    ≡ after_task again
      ∷ reports "t"
      ∷ set_state failure again
      ∷ runs again
      ∷ set_state started again
      ∷ set_state received again
      ∷ []
unfolding process set_task_state start_task run_task conclude handler_failed record_durable_terminal
    record_meta call_error send_all stop_or_end
given_up = refl

-- The backend does not take the first state.
not_received :
    process (record easy { on_set_state = λ log st s. some "down" }) task []
    ≡ (some (state_not_set received "down"), set_state received task ∷ [])
unfolding process set_task_state start_task
not_received = refl

unregistered : process (record easy { registered = λ n. false }) task [] ≡ (none, [])
unfolding process
unregistered = refl

not_a_whole_number : metadata_int (float (pos 3) false) ≡ none
unfolding metadata_int
not_a_whole_number = refl

text_true : metadata_bool (string "true") ≡ true
unfolding metadata_bool
text_true = refl

process_runs_example :
    let log' = (process easy task []).1 in
    let more : ℕ = if starts easy task [] then 1 else 0 in
    (calls is_run log' ≡ 0 + more)
    × (calls is_before log' ≡ 0 + 0)
    × (calls is_after log' ≡ 0 + more)
process_runs_example = process_runs easy task []

easy-TriggersOnce : TriggersOnce easy
easy-TriggersOnce log g e = ground (arith, ap is_true e)

names_differ : ◌≢◌ {A = String} "t" "c"
names_differ q = ground (arith, (eq_iff "t" "c").1 q)

-- The task, the callback of whose group is "c".
sole :
    (s : Signature)
    → id_of s ≡ "t"
    → on_success s ≡ nil
    → on_error s ≡ nil
    → (fields s).group_id ≡ "g"
    → Sole "c" "g" s
unfolding All
sole s e a b h = record {
  itself = λ q. names_differ (sym e ∙ q);
  successes = subst (All (λ j. j ≢ "c")) (sym a) tt;
  errors = subst (All (λ j. j ≢ "c")) (sym b) tt;
  of_group = λ c _ _. h;
}

twice_sole : AllSole "c" "g" (task ∷ task ∷ again ∷ [])
unfolding AllSole
twice_sole =
    let first = sole task refl refl refl refl in
    (first, (first, (sole again refl refl refl refl, tt)))

chord_once_example : calls (is_publish "c") (process_all easy (task ∷ task ∷ again ∷ []) []) ≤ 1
chord_once_example = chord_once easy "c" "g" (task ∷ task ∷ again ∷ []) easy-TriggersOnce twice_sole

next_retry_delay_lem_example : NextDelay 60 (next_retry_delay (pos 60))
next_retry_delay_lem_example = next_retry_delay_lem 60 (omega arith)
