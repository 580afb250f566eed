-- ===== src/Worker/Callbacks.antt =====
-- What handlerSucceeded and handlerFailed of distributed/worker.go send: the callbacks of a task, and the
-- callback of a group that is complete.
use gkit.Prelude.{Bool, true, false, Option, none, some, List, [], ◌∷◌, ◌++◌, if◌then◌else◌}
use gkit.Prelude.Map.{String, ◌=?◌}
use gkit.Worker.Signature.{
  text, Arg, Signature, Signatures, nil, cons, Chord, no_chord, chord, fields, on_success, on_error,
  append_args, prepend_arg,
}
use gkit.Worker.Calls.{
  group_completed, trigger_completed, group_task_status, reports, Log, Answer, ok, err, is_true,
  Status, Env, Failure, group_failed, Action, return_nil, fail,
}
use gkit.Worker.Send.{send_task}

module _ (env : Env) where
  -- reportCallbackPublicationError.
  abbrev pub report_error : String → Option Failure × Log → Log
  report_error id (none, log) = log
  report_error id (some f, log) = reports id ∷ log

  -- A loop over callbacks: each is sent with its arguments changed, and an error is reported.
  unfoldable pub send_all : (Signature → Signature) → Signatures → Log → Log
  unfolding send_task
  send_all change nil log = log
  send_all change (cons c cs) log =
      send_all change cs (report_error (fields c).id (send_task env (change c) log))

  -- The loop over the states of the group: the results of all, or `none` if one has not succeeded.
  unfoldable pub collect_results : List Status → Option (List Arg)
  collect_results [] = some []
  collect_results (st ∷ sts) =
      let rest = collect_results sts in
      if st.is_success
      then elim rest [ none ↦ none | some args ↦ some (st.results ++ args) ]
      else none

  unfoldable pub send_chord : Signature → Option (List Arg) → Action
  unfolding send_task
  send_chord c none = return_nil
  send_chord c (some args) = send_task env (append_args args c)

  -- What is done with the answers of GroupTaskStatus, TriggerCompleted and GroupCompleted.
  unfoldable pub with_status : Signature → Answer (List Status) → Action
  unfolding collect_results send_chord
  with_status c (err e) = return_nil
  with_status c (ok sts) = send_chord c (collect_results sts)

  unfoldable pub with_trigger : String → Signature → Answer Bool → Action
  unfolding with_status
  with_trigger group c (err e) log = (some (group_failed e), log)
  with_trigger group c (ok false) log = (none, log)
  with_trigger group c (ok true) log =
      with_status c (env.on_status log group) (group_task_status group ∷ log)

  unfoldable pub trigger_chord : String → Signature → Action
  unfolding with_trigger
  trigger_chord group c log =
      let answer = env.on_trigger log group in
      with_trigger group c answer (trigger_completed group (is_true answer) ∷ log)

  unfoldable pub with_completed : String → Signature → Answer Bool → Action
  unfolding trigger_chord
  with_completed group c (err e) = fail (group_failed e)
  with_completed group c (ok false) = return_nil
  with_completed group c (ok true) = trigger_chord group c

  -- The end of handlerSucceeded, from its look at the chord on.
  unfoldable pub finish_group : String → Chord → Action
  unfolding with_completed
  finish_group group no_chord log = (none, log)
  finish_group group (chord c) log =
      if group =? ""
      then (none, log)
      else with_completed group c (env.on_completed log group) (group_completed group ∷ log)

  -- The loops over the callbacks on success and on error.
  unfoldable pub call_success : Signature → List Arg → Action
  unfolding send_all
  call_success s results log = (none, send_all (append_args results) (on_success s) log)

  unfoldable pub call_error : Signature → String → Action
  unfolding send_all
  call_error s e log =
      (none, send_all (prepend_arg (record { kind = "string"; value = text e })) (on_error s) log)
