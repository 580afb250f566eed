-- ===== src/Worker/Process.antt =====
-- distributed/worker.go: Process and its handlers.
use gkit.Prelude.{ℕ, ◌*◌, Option, none, some, List, [], ◌∷◌, ltb, if◌then◌else◌}
use gkit.Prelude.Int.{ℤ, pos, ltb_ℤ, ◌+ℤ◌, ◌-ℤ◌}
use gkit.Prelude.Map.{String}
use gkit.Retry.{fibonacci_next}
use gkit.Worker.Signature.{Arg, Signature, fields, with_fields, callback_chord}
use gkit.Worker.Calls.{
  State, received, started, retry, success, failure, succeeded, failed, set_state, runs,
  before_task, after_task, reports, Outcome, done, failed_with, retry_later, Env, state_not_set,
  bad_task, stop_task_deletion, out_of_fuel, Action, return_nil, fail, ◌>>◌, note, ask,
}
use gkit.Worker.Send.{send_task}
use gkit.Worker.Durable.{record_durable_terminal}
use gkit.Worker.Callbacks.{call_success, call_error, finish_group}

-- The seconds and the nanoseconds of nextRetryDelay; `none` is the end of FibonacciNext's fuel.
abbrev pub max_retry_delay_seconds : ℕ
max_retry_delay_seconds = 9223372036

abbrev pub clamp_seconds : ℕ → ℕ
clamp_seconds n = if ltb max_retry_delay_seconds n then max_retry_delay_seconds else n

unfoldable pub next_retry_delay : ℤ → Option (ℕ × ℕ)
next_retry_delay interval = elim (fibonacci_next interval) [
  | none ↦ none
  | some n ↦ some (clamp_seconds n, clamp_seconds n * 1000000000)
]

module _ (env : Env) where
  unfoldable pub set_task_state : State → Signature → Action
  set_task_state st s = ask (set_state st s) (λ log. env.on_set_state log st s) (state_not_set st)

  unfoldable pub stop_or_end : Signature → Action
  stop_or_end s =
      if (fields s).stop_task_deletion_on_error then fail stop_task_deletion else return_nil

  unfoldable pub handler_succeeded : Signature → List Arg → Action
  unfolding set_task_state record_durable_terminal call_success finish_group
  handler_succeeded s results =
      set_task_state success s
      >> record_durable_terminal env s succeeded results
      >> call_success env s results
      >> finish_group env (fields s).group_id (callback_chord s)

  unfoldable pub handler_failed : Signature → String → Action
  unfolding set_task_state record_durable_terminal call_error stop_or_end
  handler_failed s e =
      set_task_state failure s
      >> record_durable_terminal env s failed []
      >> note (reports (fields s).id)
      >> call_error env s e
      >> stop_or_end s

  unfoldable pub handler_retry_in : Signature → ℤ → Action
  unfolding set_task_state send_task
  handler_retry_in s retry_in = set_task_state retry s >> λ log.
      send_task env (with_fields (record (fields s) { eta = some (env.now log +ℤ retry_in) }) s) log

  -- The signature that handlerRetry sends.
  abbrev pub retried : Signature → ℕ → ℕ → ℤ → Signature
  retried s seconds delay now =
      with_fields
        (record (fields s) {
          retry_count = (fields s).retry_count -ℤ pos 1;
          retry_interval = pos seconds;
          eta = some (now +ℤ pos delay);
        })
        s

  unfoldable pub send_retry : Signature → Option (ℕ × ℕ) → Action
  unfolding send_task
  send_retry s none log = (some out_of_fuel, log)
  send_retry s (some (seconds, delay)) log =
      send_task env (retried s seconds delay (env.now log)) log

  unfoldable pub handler_retry : Signature → Action
  unfolding set_task_state next_retry_delay send_retry
  handler_retry s =
      set_task_state retry s >> send_retry s (next_retry_delay (fields s).retry_interval)

  -- What Process does with what the task's function gave.
  unfoldable pub conclude : Signature → Outcome → Action
  unfolding handler_succeeded handler_retry_in handler_retry handler_failed
  conclude s (done results) = handler_succeeded s results
  conclude s (retry_later d) = handler_retry_in s d
  conclude s (failed_with e) =
      if ltb_ℤ (pos 0) (fields s).retry_count then handler_retry s else handler_failed s e

  -- The deferred handler, after the rest.
  abbrev pub finally_after : Signature → Action → Action
  finally_after s m log =
      let (e, log') = m log in (e, if env.has_after then after_task s ∷ log' else log')

  unfoldable pub run_task : Signature → Action
  unfolding conclude
  run_task s =
      (λ log. (none, if env.has_before then before_task s ∷ log else log))
      >> finally_after s (λ log. conclude s (env.on_call log s) (runs s ∷ log))

  -- NewTaskWithSignature and what follows it.
  unfoldable pub start_task : Signature → Option String → Action
  unfolding set_task_state run_task handler_failed
  start_task s none = set_task_state started s >> run_task s
  start_task s (some e) = λ log. (some (bad_task e), (handler_failed s e log).1)

  unfoldable pub process : Signature → Action
  unfolding set_task_state start_task
  process s =
      if env.registered (fields s).name
      then (set_task_state received s >> start_task s (env.new_task s))
      else return_nil
