-- ===== src/Worker/Send.antt =====
-- distributed/service.go: SendTask, which records a task as pending and publishes it.
use gkit.Prelude.{Option, none, some, ◌∷◌, if◌then◌else◌}
use gkit.Prelude.Map.{String, ◌=?◌}
use gkit.Worker.Signature.{Signature, fields, with_fields}
use gkit.Worker.Calls.{
  set_state, publish, fail_pending, Answer, ok, err, pending, Env, state_not_set, no_attempt_id,
  not_published, Action, return_nil, fail, ◌>>◌, ask,
}

module _ (env : Env) where
  unfoldable pub bind_default_router : Signature → Signature
  bind_default_router s =
      if (fields s).router =? ""
      then with_fields (record (fields s) { router = env.consume_queue }) s
      else s

  -- withTaskPublicationCompensation: the task that was not published does not stay pending. An error
  -- of the compensation is only joined to the error.
  unfoldable pub compensate : Signature → String → Action
  compensate s e log =
      if env.has_attempts
      then (some (not_published e), fail_pending s ∷ log)
      else (some (not_published e), log)

  -- What is done about the error of a publication.
  unfoldable pub published : Option String → Signature → Action
  unfolding compensate
  published none s = return_nil
  published (some e) s = compensate s e

  unfoldable pub publish_or_fail : Signature → Action
  unfolding published
  publish_or_fail s log = published (env.on_publish log s) s (publish s ∷ log)

  unfoldable pub set_pending : Signature → Action
  set_pending s =
      ask (set_state pending s) (λ log. env.on_set_state log pending s) (state_not_set pending)

  -- The send, once the identifier of the attempt is made.
  unfoldable pub attempted : Answer String → Action → Action
  attempted (ok id) send = send
  attempted (err e) send = fail (no_attempt_id e)

  unfoldable pub send_task : Signature → Action
  unfolding bind_default_router set_pending publish_or_fail attempted
  send_task s log =
      let send = set_pending s >> publish_or_fail (bind_default_router s) in
      if env.has_attempts then attempted (env.attempt_id log) send log else send log
